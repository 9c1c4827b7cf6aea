-- ===== src/Examples/Memory.antt =====
-- A store of keys in memory that keeps the laws of Redis.
use serveproof.Prelude.{
  ℕ, ◌+◌, ◌-◌, ◌*◌, ◌≤◌, ◌≡◌, refl, ap, sym, inl, inr, Bool, true, false, Option, none, some, Text,
  text, ltb, if◌then◌else◌, or_else, is_some, Bool-cases, arith,
}
use serveproof.Redis.{Redis, IsRedis}
use serveproof.Shared.Usd.{number_after, show_number}

pub data Value : Type 0 where
  words : Text → Value
  number : ℕ → Value

-- No expiry is for ever.
pub record Entry : Type 0 where
  pub value : Value
  pub expiry : Option ℕ

abbrev pub is_alive : ℕ → Option ℕ → Bool
is_alive now none = true
is_alive now (some t) = ltb now t

abbrev pub text_of : Value → Text
text_of (words t) = t
text_of (number n) = show_number n

abbrev pub number_of : Value → ℕ
number_of (words t) = number_after 0 t
number_of (number n) = n

abbrev pub live : ℕ → Option Entry → Option Entry
live now none = none
live now (some e) = if is_alive now e.expiry then some e else none

abbrev pub value_text : Option Entry → Option Text
value_text none = none
value_text (some e) = some (text_of e.value)

abbrev pub value_number : Option Entry → Option ℕ
value_number none = none
value_number (some e) = some (number_of e.value)

-- The entry of a key that counts one more, with its old expiry.
abbrev pub next_entry : Option Entry → Entry
next_entry none = record { value = number 1; expiry = none }
next_entry (some e) = record { value = number (number_of e.value + 1); expiry = e.expiry }

module _ {K : Type 0} (same : K → K → Bool) where
  abbrev pub put : K → Option Entry → (K → Option Entry) → K → Option Entry
  put k e s = λ j. if same k j then e else s j

  abbrev pub memory : Redis K
  memory = record {
    State = K → Option Entry;
    get = λ now k s. value_text (live now (s k));
    count = λ now k s. value_number (live now (s k));
    set = λ now k v ttl s.
        put k (some record { value = words v; expiry = some (now + 1000 * ttl) }) s;
    set_absent = λ now k v ttl s.
        if is_some (live now (s k))
        then (s, false)
        else (put k (some record { value = words v; expiry = some (now + 1000 * ttl) }) s, true);
    incr = λ now k s. (
      put k (some (next_entry (live now (s k)))) s,
      number_of (next_entry (live now (s k))).value,
    );
    decr = λ now k s.
        put k
          (some record {
            value = number (or_else (value_number (live now (s k))) 0 - 1);
            expiry = (next_entry (live now (s k))).expiry;
          })
          s;
    expire = λ now k ttl s.
        put k
          (some record {
            value = number (or_else (value_number (live now (s k))) 0);
            expiry = some (now + 1000 * ttl);
          })
          s;
    del = λ now k s. put k none s;
  }

  module _ (same_refl : (k : K) → same k k ≡ true) where
    count_next :
        (now later : ℕ) (o : Option Entry)
        → now ≤ later
        → is_some (value_number (live now o)) ≡ true
        → value_number (live later (some (next_entry (live now o)))) ≡ (
            if is_some (value_number (live later o))
            then some (number_of (next_entry (live now o)).value)
            else none)
    count_next now later none h k = cc
    count_next now later (some e) h k = elim (Bool-cases (is_alive now e.expiry)) [
      | inl a ↦ elim (Bool-cases (is_alive later e.expiry)) [
        | inl b ↦ rw (a, b) refl
        | inr b ↦ rw (a, b) refl
      ]
      | inr a ↦ cc (rw a at k)
    ]

    next_number :
        (now : ℕ) (o : Option Entry)
        → number_of (next_entry (live now o)).value ≡ or_else (value_number (live now o)) 0 + 1
    next_number now none = refl
    next_number now (some e) = elim (Bool-cases (is_alive now e.expiry)) [
      | inl a ↦ rw a refl
      | inr a ↦ rw a refl
    ]

    alive_stays :
        (now later : ℕ) (o : Option ℕ)
        → now ≤ later
        → is_alive later o ≡ true
        → is_alive now o ≡ true
    alive_stays now later none h k = refl
    alive_stays now later (some t) h k = ground arith

    live_stays :
        (now later : ℕ) (o : Option Entry)
        → now ≤ later
        → is_some (live later o) ≡ true
        → live later o ≡ live now o
    live_stays now later none h k = refl
    live_stays now later (some e) h k = elim (Bool-cases (is_alive later e.expiry)) [
      | inl a ↦ rw (a, alive_stays now later e.expiry h a) refl
      | inr a ↦ cc (rw a at k)
    ]

    live_text : (o : Option Entry) → is_some (value_text o) ≡ true → is_some o ≡ true
    live_text none k = cc
    live_text (some e) k = refl

    live_number : (o : Option Entry) → is_some (value_number o) ≡ true → is_some o ≡ true
    live_number none k = cc
    live_number (some e) k = refl

    text_alive :
        (b : Bool) (v : Text) (n : ℕ)
        → value_text (if b then some record { value = words v; expiry = some n } else none)
          ≡ (if b then some v else none)
    text_alive true v n = refl
    text_alive false v n = refl

    zero_alive :
        (b : Bool) (n : ℕ)
        → value_number
            (if b then some record { value = words (text "0"); expiry = some n } else none)
          ≡ (if b then some 0 else none)
    unfolding number_after
    zero_alive true n = refl
    zero_alive false n = refl

    pub memory-IsRedis : IsRedis same memory
    memory-IsRedis = record {
      get_set =
          λ now later k v ttl s h. rw (same_refl k) (text_alive (ltb later (now + 1000 * ttl)) v _);
      count_set_zero =
          λ now later k ttl s h. rw (same_refl k) (zero_alive (ltb later (now + 1000 * ttl)) _);
      get_set_other = λ now later k j v ttl s o. rw o refl;
      count_set_other = λ now later k j v ttl s o. rw o refl;
      incr_value = λ now k s. next_number now (s k);
      count_incr = λ now later k s h o. rw (same_refl k) (count_next now later (s k) h o);
      get_incr_other = λ now later k j s o. rw o refl;
      count_incr_other = λ now later k j s o. rw o refl;
      get_del = λ now later k s h. rw (same_refl k) refl;
      get_del_other = λ now later k j s o. rw o refl;
      count_del_other = λ now later k j s o. rw o refl;
      get_stays = λ now later k s h o.
          rw (ap value_text (sym (live_stays now later (s k) h (live_text (live later (s k)) o))))
            o;
      count_stays = λ now later k s h o.
          ap value_number (live_stays now later (s k) h (live_number (live later (s k)) o));
    }
