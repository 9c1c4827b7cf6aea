-- ===== src/Redis.antt =====
-- The Redis client, ioredis, as the one-time codes of apps/api/src/disclosure/disclosure.service.ts and
-- apps/api/src/auth/auth.service.ts use it: the commands are a parameter, with their documented
-- behaviour as laws. Instants are milliseconds, times to live are seconds. That the server cannot be
-- reached is not modelled.
use serveproof.Prelude.{
  ℕ, ◌+◌, ◌*◌, ◌≤◌, ◌≡◌, Bool, true, false, Option, none, some, Text, text, ltb, if◌then◌else◌,
  or_else, is_some,
}
pub mod Counted

pub record Redis (K : Type 0) : Type 1 where
  pub State : Type 0
  -- `GET`, and the number that a key holds.
  pub get : ℕ → K → State → Option Text
  pub count : ℕ → K → State → Option ℕ
  -- `SET key value EX seconds`, and with `NX`, which answers whether it has set the key.
  pub set : ℕ → K → Text → ℕ → State → State
  pub set_absent : ℕ → K → Text → ℕ → State → State × Bool
  -- `INCR` answers the new number.
  pub incr : ℕ → K → State → State × ℕ
  pub decr : ℕ → K → State → State
  pub expire : ℕ → K → ℕ → State → State
  pub del : ℕ → K → State → State

-- The laws that bound the guesses of a code need. A key that expires stays away, and a command on
-- one key leaves the others alone.
pub record IsRedis {K : Type 0} (same : K → K → Bool) (r : Redis K) : Type 0 where
  pub get_set :
      (now later : ℕ) (k : K) (v : Text) (ttl : ℕ) (s : r.State)
      → now ≤ later
      → r.get later k (r.set now k v ttl s)
        ≡ (if ltb later (now + 1000 * ttl) then some v else none)
  pub count_set_zero :
      (now later : ℕ) (k : K) (ttl : ℕ) (s : r.State)
      → now ≤ later
      → r.count later k (r.set now k (text "0") ttl s)
        ≡ (if ltb later (now + 1000 * ttl) then some 0 else none)
  pub get_set_other :
      (now later : ℕ) (k j : K) (v : Text) (ttl : ℕ) (s : r.State)
      → same k j ≡ false
      → r.get later j (r.set now k v ttl s) ≡ r.get later j s
  pub count_set_other :
      (now later : ℕ) (k j : K) (v : Text) (ttl : ℕ) (s : r.State)
      → same k j ≡ false
      → r.count later j (r.set now k v ttl s) ≡ r.count later j s
  pub incr_value :
      (now : ℕ) (k : K) (s : r.State) → (r.incr now k s).1 ≡ or_else (r.count now k s) 0 + 1
  -- `INCR` keeps the time to live.
  pub count_incr :
      (now later : ℕ) (k : K) (s : r.State)
      → now ≤ later
      → is_some (r.count now k s) ≡ true
      → r.count later k (r.incr now k s).0
        ≡ (if is_some (r.count later k s) then some (r.incr now k s).1 else none)
  pub get_incr_other :
      (now later : ℕ) (k j : K) (s : r.State)
      → same k j ≡ false
      → r.get later j (r.incr now k s).0 ≡ r.get later j s
  pub count_incr_other :
      (now later : ℕ) (k j : K) (s : r.State)
      → same k j ≡ false
      → r.count later j (r.incr now k s).0 ≡ r.count later j s
  pub get_del :
      (now later : ℕ) (k : K) (s : r.State) → now ≤ later → r.get later k (r.del now k s) ≡ none
  pub get_del_other :
      (now later : ℕ) (k j : K) (s : r.State)
      → same k j ≡ false
      → r.get later j (r.del now k s) ≡ r.get later j s
  pub count_del_other :
      (now later : ℕ) (k j : K) (s : r.State)
      → same k j ≡ false
      → r.count later j (r.del now k s) ≡ r.count later j s
  -- A key that is there later is there now.
  pub get_stays :
      (now later : ℕ) (k : K) (s : r.State)
      → now ≤ later
      → is_some (r.get later k s) ≡ true
      → is_some (r.get now k s) ≡ true
  pub count_stays :
      (now later : ℕ) (k : K) (s : r.State)
      → now ≤ later
      → is_some (r.count later k s) ≡ true
      → r.count later k s ≡ r.count now k s
