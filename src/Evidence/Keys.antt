-- ===== src/Evidence/Keys.antt =====
-- The unique keys of the evidence that an import writes (apps/api/src/evidence/evidence.service.ts).
use serveproof.Prelude.{
  ℕ, zero, suc, ◌≡◌, ◌↔◌, refl, ap, sym, ◌∙◌, true, Bool, ◌&&◌, List, Text, text_eq_iff, text_eq→eq,
  ==_iff, arith,
}
use serveproof.Prelude.Upserts.{IsKeyed, keyed_by}
use serveproof.Allocation.Types.{
  TipType, cash_tip, card_tip, qr_tip, automatic_gratuity, service_charge,
}
use serveproof.Evidence.Normalize.{TipDraft, ShiftDraft}
use serveproof.Evidence.Import.{
  TipEvidence, ShiftEvidence, same_tip, put_tip, new_tip, same_shift, put_shift, new_shift,
  type_number,
}

four_equal {ℓ} :
    {A : Type ℓ} {a a' : ℕ} {b b' c c' : A} {d d' : ℕ}
    → a ≡ a'
    → b ≡ b'
    → c ≡ c'
    → d ≡ d'
    → ◌≡◌ {A = ℕ × A × A × ℕ} (a, b, c, d) (a', b', c', d')
four_equal e f g h = cc

three_equal {ℓ} :
    {A : Type ℓ} {a a' : ℕ} {b b' c c' : A}
    → a ≡ a'
    → b ≡ b'
    → c ≡ c'
    → ◌≡◌ {A = ℕ × A × A} (a, b, c) (a', b', c')
three_equal e f g = cc

abbrev tip_key : TipEvidence → ℕ × Text × Text × ℕ
tip_key t = (t.row.venue, t.provider, t.external_payment_id, type_number t.row.input.tip_type)

four_and : {a b c d : Bool} → a ≡ true → b ≡ true → c ≡ true → d ≡ true → (a && b && c && d) ≡ true
four_and p q r s = ground arith

three_and : {a b c : Bool} → a ≡ true → b ≡ true → c ≡ true → (a && b && c) ≡ true
three_and p q r = ground arith

same_tip_iff :
    (venue : ℕ) (n : TipDraft) (x : TipEvidence)
    → (same_tip venue n x ≡ true) ↔ (tip_key (new_tip venue n) ≡ tip_key x)
same_tip_iff venue n x = (
  λ h.
      four_equal (ground arith) (sym (text_eq→eq x.provider n.provider (ground arith)))
        (sym (text_eq→eq x.external_payment_id n.external_payment_id (ground arith)))
        (ground arith),
  λ e.
      four_and ((==_iff x.row.venue venue).1 (sym (ap (λ k. k.0) e)))
        ((text_eq_iff x.provider n.provider).1 (sym (ap (λ k. k.1) e)))
        ((text_eq_iff x.external_payment_id n.external_payment_id).1 (sym (ap (λ k. k.2) e)))
        ((==_iff (type_number x.row.input.tip_type) (type_number n.tip_type)).1
          (sym (ap (λ k. k.3) e))),
)

type_of_number : ℕ → TipType
type_of_number zero = cash_tip
type_of_number (suc zero) = card_tip
type_of_number (suc (suc zero)) = qr_tip
type_of_number (suc (suc (suc zero))) = automatic_gratuity
type_of_number (suc (suc (suc (suc n)))) = service_charge

type_of_number-type_number : (t : TipType) → type_of_number (type_number t) ≡ t
unfolding type_of_number
type_of_number-type_number cash_tip = refl
type_of_number-type_number card_tip = refl
type_of_number-type_number qr_tip = refl
type_of_number-type_number automatic_gratuity = refl
type_of_number-type_number service_charge = refl

type_number-Injective : (t u : TipType) → type_number t ≡ type_number u → t ≡ u
type_number-Injective t u e =
    sym (type_of_number-type_number t) ∙ ap type_of_number e ∙ type_of_number-type_number u

put_tip-new_tip :
    (venue : ℕ) (n m : TipDraft)
    → same_tip venue n (new_tip venue m) ≡ true
    → put_tip n (new_tip venue m) ≡ new_tip venue n
put_tip-new_tip venue n m h =
    let provider = text_eq→eq m.provider n.provider (ground arith) in
    let payment = text_eq→eq m.external_payment_id n.external_payment_id (ground arith) in
    let kind = type_number-Injective m.tip_type n.tip_type (ground arith) in
    rw (provider, payment, kind) refl

pub same_tip-IsKeyed : (venue : ℕ) → IsKeyed (same_tip venue) put_tip (new_tip venue)
same_tip-IsKeyed venue =
    keyed_by (same_tip venue) put_tip (new_tip venue) tip_key (same_tip_iff venue) (λ n x. refl)
      (λ n m x. refl) (put_tip-new_tip venue)

abbrev shift_key : ShiftEvidence → ℕ × Text × Text
shift_key s = (s.row.venue, s.row.input.provider, s.external_shift_id)

same_shift_iff :
    (venue : ℕ) (workers : List (Text × Text)) (n : ShiftDraft) (x : ShiftEvidence)
    → (same_shift venue n x ≡ true) ↔ (shift_key (new_shift venue workers n) ≡ shift_key x)
same_shift_iff venue workers n x = (
  λ h.
      three_equal (ground arith) (sym (text_eq→eq x.row.input.provider n.provider (ground arith)))
        (sym (text_eq→eq x.external_shift_id n.external_shift_id (ground arith))),
  λ e.
      three_and ((==_iff x.row.venue venue).1 (sym (ap (λ k. k.0) e)))
        ((text_eq_iff x.row.input.provider n.provider).1 (sym (ap (λ k. k.1) e)))
        ((text_eq_iff x.external_shift_id n.external_shift_id).1 (sym (ap (λ k. k.2) e))),
)

put_shift-new_shift :
    (venue : ℕ) (workers : List (Text × Text)) (n m : ShiftDraft)
    → same_shift venue n (new_shift venue workers m) ≡ true
    → put_shift workers n (new_shift venue workers m) ≡ new_shift venue workers n
put_shift-new_shift venue workers n m h =
    let provider = text_eq→eq m.provider n.provider (ground arith) in
    let shift = text_eq→eq m.external_shift_id n.external_shift_id (ground arith) in
    rw (provider, shift) refl

pub same_shift-IsKeyed :
    (venue : ℕ) (workers : List (Text × Text))
    → IsKeyed (same_shift venue) (put_shift workers) (new_shift venue workers)
same_shift-IsKeyed venue workers =
    keyed_by (same_shift venue) (put_shift workers) (new_shift venue workers) shift_key
      (same_shift_iff venue workers) (λ n x. refl) (λ n m x. refl)
      (put_shift-new_shift venue workers)
