-- ===== src/Disclosure/Totals.antt =====
-- The figures that a report discloses (apps/api/src/disclosure/disclosure.service.ts).
use serveproof.Prelude.{
  ◌==◌, ◌&&◌, ℕ, ◌+◌, ◌≡◌, refl, ap, sym, ◌∙◌, inl, inr, true, false, Bool, List, [], ◌∷◌, ◌++◌,
  map, Text, text_eq, or_else, length, sum_by, All, All-mono, Bool-cases, arith, length-map,
}
use serveproof.Prelude.Tables.{filter_rows}
use serveproof.Prelude.Filters.{filter_rows-Holds}
use serveproof.Allocation.Maps.{map_get, map_set, includes}
use serveproof.Allocation.Keys.{keys, sum-map_set}
use serveproof.Disclosure.Types.{Entry, Grant, Store, Runtime}
use serveproof.Disclosure.Snapshot.{
  date_of, in_range, entries_of, slice_to, month_of, distinct_onto, add_to, monthly, total,
  figures_of,
}

abbrev sum_months : List (Text × ℕ) → ℕ
sum_months = sum_by (λ e. e.1)

-- A month that is not empty.
abbrev HasMonth : Entry → Type 0
HasMonth e = (c : ℕ) × (cs : Text) × (month_of e ≡ c ∷ cs)

monthly-sum :
    (es : List Entry) (months : List (Text × ℕ))
    → All HasMonth es
    → sum_months (monthly es months) ≡ sum_months months + total es
unfolding monthly add_to
monthly-sum [] months h = omega arith
monthly-sum (e ∷ es) months ((c, cs, m), h) =
    let next = add_to (c ∷ cs) e.allocated months in
    rw m (omega (arith, monthly-sum es next h, sum-map_set (c ∷ cs) e.allocated months))

slice_to-HasMonth :
    (t : Text) (rt : Runtime) (g : Grant)
    → in_range rt g t ≡ true
    → (c : ℕ) × (cs : Text) × (slice_to 7 t ≡ c ∷ cs)
slice_to-HasMonth [] rt g h = cc
slice_to-HasMonth (c ∷ cs) rt g h = (c, slice_to 6 cs, refl)

entries_of-HasMonth : (rt : Runtime) (g : Grant) (st : Store) → All HasMonth (entries_of rt g st)
unfolding entries_of
entries_of-HasMonth rt g st =
    let test : Entry → Bool = λ e. in_range rt g (date_of e.shift) in
    let found = filter_rows (λ e. e.worker == g.worker && e.is_active) st.entries in
    All-mono (filter_rows test found) (λ e h. slice_to-HasMonth (date_of e.shift) rt g h)
      (filter_rows-Holds test found)

keys-map_set_new :
    (k : Text) (v : ℕ) (m : List (Text × ℕ))
    → includes (keys m) k ≡ false
    → keys (map_set k v m) ≡ keys m ++ (k ∷ [])
unfolding map_set includes
keys-map_set_new k v [] h = refl
keys-map_set_new k v ((j, w) ∷ m) h = elim (Bool-cases (text_eq j k)) [
  | inl e ↦ cc (rw e at h)
  | inr e ↦ rw e (ap (λ ks. j ∷ ks) (keys-map_set_new k v m (rw e at h)))
]

keys-map_set_old :
    (k : Text) (v : ℕ) (m : List (Text × ℕ))
    → includes (keys m) k ≡ true
    → keys (map_set k v m) ≡ keys m
unfolding map_set includes
keys-map_set_old k v [] h = cc
keys-map_set_old k v ((j, w) ∷ m) h = elim (Bool-cases (text_eq j k)) [
  | inl e ↦ rw e refl
  | inr e ↦ rw e (ap (λ ks. j ∷ ks) (keys-map_set_old k v m (rw e at h)))
]

distinct_onto-seen :
    (seen : List Text) (x : Text) (xs : List Text)
    → includes seen x ≡ true
    → distinct_onto seen (x ∷ xs) ≡ distinct_onto seen xs
unfolding distinct_onto
distinct_onto-seen seen x xs h = rw (distinct_onto, h) refl

distinct_onto-new :
    (seen : List Text) (x : Text) (xs : List Text)
    → includes seen x ≡ false
    → distinct_onto seen (x ∷ xs) ≡ distinct_onto (seen ++ (x ∷ [])) xs
unfolding distinct_onto
distinct_onto-new seen x xs h = rw (distinct_onto, h) refl

-- The breakdown has one line for each month of the entries.
monthly-keys :
    (es : List Entry) (months : List (Text × ℕ))
    → All HasMonth es
    → keys (monthly es months) ≡ distinct_onto (keys months) (map month_of es)
unfolding monthly add_to distinct_onto
monthly-keys [] months h = refl
monthly-keys (e ∷ es) months ((c, cs, m), h) =
    let key : Text = c ∷ cs in
    let next = add_to key e.allocated months in
    let value = or_else (map_get key months) 0 + e.allocated in
    elim (Bool-cases (includes (keys months) key)) [
      | inl k ↦
          rw (m, distinct_onto-seen (keys months) key (map month_of es) k)
            (monthly-keys es next h
              ∙ ap (λ ks. distinct_onto ks (map month_of es)) (keys-map_set_old key value months k))
      | inr k ↦
          rw (m, distinct_onto-new (keys months) key (map month_of es) k)
            (monthly-keys es next h
              ∙ ap (λ ks. distinct_onto ks (map month_of es)) (keys-map_set_new key value months k))
    ]

-- The monthly breakdown of a report covers the disclosed entries: it adds up to their total, and it has
-- as many lines as the months that the average divides by.
pub figures_of-breakdown :
    (rt : Runtime) (g : Grant) (st : Store)
    → let f = figures_of rt (entries_of rt g st) in
      (sum_by (λ e. e.1) f.monthly_breakdown ≡ f.total_allocated)
      × (f.total_allocated ≡ sum_by (λ e. e.allocated) (entries_of rt g st))
      × (length f.monthly_breakdown ≡ f.months_covered)
unfolding figures_of
figures_of-breakdown rt g st =
    let es = entries_of rt g st in
    let covered = entries_of-HasMonth rt g st in
    (
      omega (arith, monthly-sum es [] covered),
      refl,
      sym (length-map (monthly es []) (λ e. e.0)) ∙ ap length (monthly-keys es [] covered),
    )
