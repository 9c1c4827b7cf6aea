-- ===== src/Batches/Agreed.antt =====
-- The planned rails of `calculate` (apps/api/src/allocations/allocations.service.ts) and the rails that
-- a worker's shifts name.
use serveproof.Prelude.{
  ◌≡◌, inl, inr, refl, ap, sym, ◌∙◌, Bool, true, false, ◌&&◌, Option, none, some, List, [], ◌∷◌,
  Text, text_eq, text_eq_refl, text_eq→eq, if◌then◌else◌, Bool-cases,
}
use serveproof.Allocation.Maps.{map_get, map_set, includes}
use serveproof.Settlement.Types.{
  Rail, cash_retained, cash_drawer, payroll, payout_provider, bank_reference, usdc,
}
use serveproof.Batches.Types.{ShiftRow}
use serveproof.Batches.Plan.{
  same_rail, map_delete, Plan, note_rail, plan_shift, plan_loop, plan_rails,
}

-- The rails that the shifts of a worker name, in their order.
abbrev pub rail_of : Text → Option Text → Option Rail → List Rail → List Rail
rail_of w (some v) (some r) rest = if text_eq v w then r ∷ rest else rest
rail_of w _ _ rest = rest

unfoldable pub rails_of : Text → List ShiftRow → List Rail
unfolding text_eq
rails_of w [] = []
rails_of w (s ∷ shifts) = rail_of w s.input.worker_id s.source_rail (rails_of w shifts)

unfoldable pub all_same : Rail → List Rail → Bool
all_same r [] = true
all_same r (q ∷ rs) = same_rail r q && all_same r rs

-- The rail that a list agrees on.
unfoldable pub agreed : List Rail → Option Rail
unfolding all_same
agreed [] = none
agreed (r ∷ rs) = if all_same r rs then some r else none

-- The same, after a first rail, or a conflict.
abbrev agreed_from : Bool → Option Rail → List Rail → Option Rail
agreed_from true o rs = none
agreed_from false none rs = agreed rs
agreed_from false (some r) rs = if all_same r rs then some r else none

text_eq_join : (i j k : Text) → text_eq i k ≡ true → text_eq j k ≡ true → text_eq i j ≡ true
text_eq_join i j k f g =
    let a = text_eq→eq i k f in let b = text_eq→eq j k g in rw (a, b) (text_eq_refl k)

module _ {ℓ} {V : Type ℓ} where
  map_get-map_set :
      (k j : Text) (v : V) (m : List (Text × V))
      → map_get k (map_set j v m) ≡ (if text_eq j k then some v else map_get k m)
  unfolding map_get map_set
  map_get-map_set k j v [] = refl
  map_get-map_set k j v ((i, w) ∷ m) = elim (Bool-cases (text_eq i j)) [
    | inl e ↦
        let s = ap (λ x. text_eq x k) (text_eq→eq i j e) in
        rw e (elim (Bool-cases (text_eq i k)) [
          | inl f ↦ rw (f, sym s ∙ f) refl
          | inr f ↦ rw (f, sym s ∙ f) refl
        ])
    | inr e ↦ rw e (elim (Bool-cases (text_eq i k)) [
      | inr f ↦ rw f (map_get-map_set k j v m)
      | inl f ↦ elim (Bool-cases (text_eq j k)) [
        | inl g ↦ let c = text_eq_join i j k f g in cc
        | inr g ↦ rw (f, g) refl
      ]
    ])
  ]

  map_get-map_delete :
      (k j : Text) (m : List (Text × V))
      → map_get k (map_delete j m) ≡ (if text_eq j k then none else map_get k m)
  unfolding map_get map_delete
  map_get-map_delete k j [] = elim (Bool-cases (text_eq j k)) [
    | inl e ↦ rw e refl
    | inr e ↦ rw e refl
  ]
  map_get-map_delete k j ((i, w) ∷ m) = elim (Bool-cases (text_eq i j)) [
    | inl e ↦
        let s = ap (λ x. text_eq x k) (text_eq→eq i j e) in
        rw (e, map_get-map_delete k j m)
          (elim (Bool-cases (text_eq i k)) [
            | inl f ↦ rw (f, sym s ∙ f) refl
            | inr f ↦ rw (f, sym s ∙ f) refl
          ])
    | inr e ↦ rw e (elim (Bool-cases (text_eq i k)) [
      | inr f ↦ rw f (map_get-map_delete k j m)
      | inl f ↦ elim (Bool-cases (text_eq j k)) [
        | inl g ↦ let c = text_eq_join i j k f g in cc
        | inr g ↦ rw (f, g) refl
      ]
    ])
  ]

same_rail→eq : (a b : Rail) → same_rail a b ≡ true → a ≡ b
same_rail→eq cash_retained cash_retained h = refl
same_rail→eq cash_drawer cash_drawer h = refl
same_rail→eq payroll payroll h = refl
same_rail→eq payout_provider payout_provider h = refl
same_rail→eq bank_reference bank_reference h = refl
same_rail→eq usdc usdc h = refl
same_rail→eq _ _ h = cc

-- What the loop knows of a worker, and what it will plan for them.
abbrev planned : Text → List ShiftRow → Plan → Option Rail
planned w shifts plan =
    agreed_from (includes plan.conflicts w) (map_get w plan.rails) (rails_of w shifts)

-- A worker in conflict has no planned rail.
abbrev Clear : Text → Plan → Type 0
Clear w plan = includes plan.conflicts w ≡ true → map_get w plan.rails ≡ none

set_rail-Clear :
    (w v : Text) (r : Rail) (plan : Plan)
    → includes plan.conflicts v ≡ false
    → Clear w plan
    → Clear w (record plan { rails = map_set v r plan.rails })
set_rail-Clear w v r plan k c h =
    map_get-map_set w v r plan.rails ∙ elim (Bool-cases (text_eq v w)) [
      | inl g ↦ let s = ap (includes plan.conflicts) (text_eq→eq v w g) in cc
      | inr g ↦ rw g (c h)
    ]

note_rail-Clear :
    (w v : Text) (r : Rail) (o : Option Rail) (plan : Plan)
    → Clear w plan
    → Clear w (note_rail v r o plan)
unfolding includes
note_rail-Clear w v r none plan c = elim (Bool-cases (includes plan.conflicts v)) [
  | inl k ↦ rw k c
  | inr k ↦ rw k (set_rail-Clear w v r plan k c)
]
note_rail-Clear w v r (some q) plan c = elim (Bool-cases (same_rail q r)) [
  | inl l ↦ elim (Bool-cases (includes plan.conflicts v)) [
    | inl k ↦ rw (l, k) c
    | inr k ↦ rw (l, k) (set_rail-Clear w v r plan k c)
  ]
  | inr l ↦ rw l (λ h.
      map_get-map_delete w v plan.rails
      ∙ elim (Bool-cases (text_eq v w)) [ inl g ↦ rw g refl | inr g ↦ rw g (c (rw g at h)) ])
]

plan_shift-Clear :
    (w : Text) (v : Option Text) (r : Option Rail) (plan : Plan)
    → Clear w plan
    → Clear w (plan_shift v r plan)
plan_shift-Clear w (some v) (some r) plan c = note_rail-Clear w v r (map_get v plan.rails) plan c
plan_shift-Clear w (some v) none plan c = c
plan_shift-Clear w none r plan c = c

note_rail-other :
    (w v : Text) (r : Rail) (plan : Plan) (rs : List Rail) (o : Option Rail)
    → text_eq v w ≡ false
    → agreed_from
        (includes (note_rail v r o plan).conflicts w)
        (map_get w (note_rail v r o plan).rails)
        rs
      ≡ agreed_from (includes plan.conflicts w) (map_get w plan.rails) rs
unfolding includes
note_rail-other w v r plan rs none e = elim (Bool-cases (includes plan.conflicts v)) [
  | inl k ↦ rw k refl
  | inr k ↦ rw (k, map_get-map_set w v r plan.rails, e) refl
]
note_rail-other w v r plan rs (some q) e = elim (Bool-cases (same_rail q r)) [
  | inr k ↦ rw (k, e, map_get-map_delete w v plan.rails, e) refl
  | inl k ↦ elim (Bool-cases (includes plan.conflicts v)) [
    | inl l ↦ rw (k, l) refl
    | inr l ↦ rw (k, l, map_get-map_set w v r plan.rails, e) refl
  ]
]

note_rail-own :
    (w : Text) (r : Rail) (plan : Plan) (rs : List Rail) (o : Option Rail)
    → o ≡ map_get w plan.rails
    → Clear w plan
    → agreed_from
        (includes (note_rail w r o plan).conflicts w)
        (map_get w (note_rail w r o plan).rails)
        rs
      ≡ agreed_from (includes plan.conflicts w) o (r ∷ rs)
unfolding includes agreed all_same
note_rail-own w r plan rs none e c = elim (Bool-cases (includes plan.conflicts w)) [
  | inl k ↦ rw (k, k) refl
  | inr k ↦ rw (k, k, map_get-map_set w w r plan.rails, text_eq_refl w) refl
]
note_rail-own w r plan rs (some q) e c = elim (Bool-cases (includes plan.conflicts w)) [
  | inl k ↦ let d = c k in cc
  | inr k ↦ elim (Bool-cases (same_rail q r)) [
    | inr l ↦ rw (k, l, text_eq_refl w) refl
    | inl l ↦
        let s = same_rail→eq q r l in
        rw (k, l, k, map_get-map_set w w r plan.rails, text_eq_refl w)
          (ap (λ x. if all_same x rs then some x else none) (sym s))
  ]
]

plan_shift-planned :
    (w : Text) (v : Option Text) (r : Option Rail) (plan : Plan) (rs : List Rail)
    → Clear w plan
    → agreed_from
        (includes (plan_shift v r plan).conflicts w)
        (map_get w (plan_shift v r plan).rails)
        rs
      ≡ agreed_from (includes plan.conflicts w) (map_get w plan.rails) (rail_of w v r rs)
plan_shift-planned w none r plan rs c = refl
plan_shift-planned w (some v) none plan rs c = refl
plan_shift-planned w (some v) (some r) plan rs c = elim (Bool-cases (text_eq v w)) [
  | inr e ↦ rw e (note_rail-other w v r plan rs (map_get v plan.rails) e)
  | inl e ↦
      rw (text_eq→eq v w e, text_eq_refl w)
        (note_rail-own w r plan rs (map_get w plan.rails) refl c)
]

plan_loop-planned :
    (w : Text) (shifts : List ShiftRow) (plan : Plan)
    → Clear w plan
    → map_get w (plan_loop shifts plan).rails ≡ planned w shifts plan
unfolding plan_loop rails_of
plan_loop-planned w [] plan c = none_left (includes plan.conflicts w) (map_get w plan.rails) c
  where
    none_left : (b : Bool) (o : Option Rail) → (b ≡ true → o ≡ none) → o ≡ agreed_from b o []
    none_left true o h = h refl
    none_left false none h = unfold agreed in refl
    none_left false (some r) h = unfold all_same in refl
plan_loop-planned w (s ∷ shifts) plan c =
    plan_loop-planned w shifts (plan_shift s.input.worker_id s.source_rail plan)
      (plan_shift-Clear w s.input.worker_id s.source_rail plan c)
    ∙ plan_shift-planned w s.input.worker_id s.source_rail plan (rails_of w shifts) c

-- The planned rail of a worker is the one on which all their shifts that name a rail agree, and none if
-- two of them differ or no shift names one.
pub plan_rails-agreed :
    (w : Text) (shifts : List ShiftRow) → map_get w (plan_rails shifts) ≡ agreed (rails_of w shifts)
unfolding plan_rails
plan_rails-agreed w shifts =
    unfold includes map_get in
    plan_loop-planned w shifts (record { rails = []; conflicts = [] }) (λ h. refl)
