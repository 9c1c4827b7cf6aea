-- ===== src/Evidence/Fields.antt =====
-- Fields written as CSV are read back by `splitCsvLine` (apps/api/src/evidence/csv-normalizer.ts).
use mathlib.Core.List.{append_assoc}
use serveproof.Prelude.{
  ℕ, ◌≡◌, inl, inr, refl, ap, sym, ◌∙◌, Bool, true, false, not, ◌&&◌, List, [], ◌∷◌, ◌++◌, Text,
  ◌==◌, if◌then◌else◌, Bool-cases, arith,
}
use serveproof.Evidence.Csv.{split_from, split_csv_line}

-- A quote or a comma in a field.
unfoldable pub is_plain : Text → Bool
is_plain [] = true
is_plain (c ∷ cs) = not (c == b'"') && not (c == b',') && is_plain cs

-- The field with its quotes doubled.
unfoldable pub escape : Text → Text
escape [] = []
escape (c ∷ cs) = if c == b'"' then b'"' ∷ b'"' ∷ escape cs else c ∷ escape cs

unfoldable pub encode_field : Text → Text
unfolding is_plain escape
encode_field f = if is_plain f then f else (b'"' ∷ escape f) ++ (b'"' ∷ [])

unfoldable pub join_fields : Text → List Text → Text
unfolding encode_field
join_fields f [] = encode_field f
join_fields f (g ∷ gs) = encode_field f ++ (b',' ∷ join_fields g gs)

-- The end of a field: the end of the line, or a comma.
abbrev IsEnd : Text → Type 0
IsEnd [] = Unit
IsEnd (c ∷ cs) = c ≡ b','

append-nil : (xs : Text) → xs ++ [] ≡ xs
append-nil [] = refl
append-nil (x ∷ xs) = ap (λ ys. x ∷ ys) (append-nil xs)

plain_step :
    (c : ℕ) (cs current : Text)
    → (c == b'"') ≡ false
    → (c == b',') ≡ false
    → split_from false current (c ∷ cs) ≡ split_from false (current ++ (c ∷ [])) cs
unfolding split_from
plain_step c cs current h k = ground arith

quoted_step :
    (c : ℕ) (cs current : Text)
    → (c == b'"') ≡ false
    → split_from true current (c ∷ cs) ≡ split_from true (current ++ (c ∷ [])) cs
unfolding split_from
quoted_step c [] current h = ground arith
quoted_step c (d ∷ cs) current h = ground arith

closing_step :
    (rest current : Text)
    → IsEnd rest
    → split_from true current (b'"' ∷ rest) ≡ split_from false current rest
unfolding split_from
closing_step [] current h = refl
closing_step (c ∷ cs) current h = rw h refl

doubled_step :
    (cs current : Text)
    → split_from true current (b'"' ∷ b'"' ∷ cs) ≡ split_from true (current ++ (b'"' ∷ [])) cs
unfolding split_from
doubled_step cs current = refl

opening_step : (cs : Text) → split_from false [] (b'"' ∷ cs) ≡ split_from true [] cs
unfolding split_from
opening_step cs = refl

comma_step :
    (cs current : Text) → split_from false current (b',' ∷ cs) ≡ current ∷ split_csv_line cs
unfolding split_from
comma_step cs current = refl

ending_step : (current : Text) → split_from false current [] ≡ current ∷ []
unfolding split_from
ending_step current = refl

split_from-plain :
    (f rest current : Text)
    → is_plain f ≡ true
    → split_from false current (f ++ rest) ≡ split_from false (current ++ f) rest
unfolding is_plain
split_from-plain [] rest current h = rw (append-nil current) refl
split_from-plain (c ∷ f) rest current h =
    plain_step c (f ++ rest) current (ground arith) (ground arith)
    ∙ split_from-plain f rest (current ++ (c ∷ [])) (ground arith)
    ∙ ap (λ t. split_from false t rest) (append_assoc current (c ∷ []) f)

split_from-escape :
    (f rest current : Text)
    → IsEnd rest
    → split_from true current (escape f ++ (b'"' ∷ rest)) ≡ split_from false (current ++ f) rest
unfolding escape
split_from-escape [] rest current h = rw (append-nil current) (closing_step rest current h)
split_from-escape (c ∷ f) rest current h = elim (Bool-cases (c == b'"')) [
  | inl e ↦ rw e (
      doubled_step (escape f ++ (b'"' ∷ rest)) current
      ∙ split_from-escape f rest (current ++ (b'"' ∷ [])) h
      ∙ ap (λ t. split_from false t rest) (append_assoc current (b'"' ∷ []) f)
      ∙ ap (λ d. split_from false (current ++ (d ∷ f)) rest) (ground arith))
  | inr e ↦ rw e (
      quoted_step c (escape f ++ (b'"' ∷ rest)) current e
      ∙ split_from-escape f rest (current ++ (c ∷ [])) h
      ∙ ap (λ t. split_from false t rest) (append_assoc current (c ∷ []) f))
]

split_from-encode_field :
    (f rest : Text)
    → IsEnd rest
    → split_from false [] (encode_field f ++ rest) ≡ split_from false f rest
unfolding encode_field
split_from-encode_field f rest h = elim (Bool-cases (is_plain f)) [
  | inl e ↦ rw e (split_from-plain f rest [] e)
  | inr e ↦
      rw (e, append_assoc (b'"' ∷ escape f) (b'"' ∷ []) rest)
        (opening_step (escape f ++ (b'"' ∷ rest)) ∙ split_from-escape f rest [] h)
]

-- A line of at least one field, with the fields that hold a quote or a comma in quotes and their quotes
-- doubled, splits into these fields.
pub split_csv_line-join_fields :
    (f : Text) (fs : List Text) → split_csv_line (join_fields f fs) ≡ f ∷ fs
unfolding join_fields
split_csv_line-join_fields f [] =
    ap (λ t. split_csv_line t) (sym (append-nil (encode_field f)))
    ∙ split_from-encode_field f [] tt
    ∙ ending_step f
split_csv_line-join_fields f (g ∷ gs) =
    split_from-encode_field f (b',' ∷ join_fields g gs) refl
    ∙ comma_step (join_fields g gs) f
    ∙ ap (λ fs. f ∷ fs) (split_csv_line-join_fields g gs)
