-- ===== src/Settlement/Acts.antt =====
-- The statuses of a payout between its creation and its broadcast, as a state machine, and what one step
-- of it does to a table (apps/api/src/payouts/payouts.service.ts).
use serveproof.Prelude.{
  ℕ, ◌≡◌, ◌∙◌, inl, inr, Bool, true, false, ◌&&◌, List, [], ◌∷◌, ◌==◌, ==_iff, is_some, Bool-cases,
}
use serveproof.Prelude.Tables.{find_row, update_rows}
use serveproof.Settlement.Types.{PayoutStatus, created, initiated, submitted, failed, Payout}

-- The machine: a transaction is built, submitted, or lapses before it is submitted. An act that a status
-- does not admit leaves it.
pub data Act : Type 0 where
  build submit lapse : Act

abbrev pub next : Act → PayoutStatus → PayoutStatus
next build created = initiated
next build initiated = initiated
next build failed = initiated
next submit initiated = submitted
next lapse initiated = failed
next _ s = s

-- One act on the payout with this id: its row moves as the machine does, once, and the others are the
-- same.
pub data Rows (act : Act) (i : ℕ) : List Payout → List Payout → Type 0 where
  end : Rows act i [] []
  taken :
      {p q : Payout} {ps qs : List Payout}
      → p.id ≡ i
      → q.id ≡ i
      → q.status ≡ next act p.status
      → Rows act i ps qs
      → Rows act i (p ∷ ps) (q ∷ qs)
  other :
      {p : Payout} {ps qs : List Payout}
      → (p.id == i) ≡ false
      → Rows act i ps qs
      → Rows act i (p ∷ ps) (p ∷ qs)

-- The statuses that a claim admits are those that the act moves.
abbrev pub Admits : Act → (PayoutStatus → Bool) → (Payout → Payout) → Type 0
Admits act allowed f =
    ((p : Payout)
      → ((f p).id ≡ p.id) × (allowed p.status ≡ true → (f p).status ≡ next act p.status))
    × ((s : PayoutStatus) → allowed s ≡ false → s ≡ next act s)

pub update_rows-Rows :
    (act : Act) (i : ℕ) (allowed : PayoutStatus → Bool) (f : Payout → Payout) (ps : List Payout)
    → Admits act allowed f
    → Rows act i ps (update_rows (λ p. p.id == i && allowed p.status) f ps)
unfolding update_rows
update_rows-Rows act i allowed f [] h = end
update_rows-Rows act i allowed f (p ∷ ps) h =
    let rest = update_rows-Rows act i allowed f ps h in
    elim (Bool-cases (p.id == i)) [
      | inr e ↦ rw e (other e rest)
      | inl e ↦
          let same : p.id ≡ i = (==_iff p.id i).0 e in
          elim (Bool-cases (allowed p.status)) [
            | inl k ↦ rw (e, k) (taken same ((h.0 p).0 ∙ same) ((h.0 p).1 k) rest)
            | inr k ↦ rw (e, k) (taken same same (h.1 p.status k) rest)
          ]
    ]

-- A claim that finds no row has none to move.
pub find_row-Rows :
    (act : Act) (i : ℕ) (allowed : PayoutStatus → Bool) (f : Payout → Payout) (ps : List Payout)
    → Admits act allowed f
    → is_some (find_row (λ p. p.id == i && allowed p.status) ps) ≡ false
    → Rows act i ps ps
unfolding find_row
find_row-Rows act i allowed f [] h none_found = end
find_row-Rows act i allowed f (p ∷ ps) h none_found = elim (Bool-cases (p.id == i)) [
  | inr e ↦ other e (find_row-Rows act i allowed f ps h (rw e at none_found))
  | inl e ↦
      let same : p.id ≡ i = (==_iff p.id i).0 e in
      elim (Bool-cases (allowed p.status)) [
        | inl k ↦ cc (rw (e, k) at none_found)
        | inr k ↦
            taken same same (h.1 p.status k)
              (find_row-Rows act i allowed f ps h (rw (e, k) at none_found))
      ]
]

-- A later write to the payout that keeps its status.
pub update_rows-kept :
    (act : Act) (i : ℕ) (allowed : PayoutStatus → Bool) (f : Payout → Payout) {ps qs : List Payout}
    → ((p : Payout) → ((f p).id ≡ p.id) × ((f p).status ≡ p.status))
    → Rows act i ps qs
    → Rows act i ps (update_rows (λ p. p.id == i && allowed p.status) f qs)
unfolding update_rows
update_rows-kept act i allowed f h end = end
update_rows-kept act i allowed f h (other e rows) =
    rw e (other e (update_rows-kept act i allowed f h rows))
update_rows-kept act i allowed f h (taken {p = p} {q = q} e k m rows) =
    let rest = update_rows-kept act i allowed f h rows in
    elim (Bool-cases (q.id == i && allowed q.status)) [
      | inl a ↦ rw a (taken e ((h q).0 ∙ k) ((h q).1 ∙ m) rest)
      | inr a ↦ rw a (taken e k m rest)
    ]
