-- ===== src/Leases.antt =====
-- core/redis_lock.py and engine/signal_dedup.py: keys of Redis that expire.
pub mod Lock
pub mod Dedup
pub mod Keys
mod Tests
use quant_dss.Base.{
  ℕ, ◌+◌, ◌≤◌, ◌≡◌, Bool, true, false, Option, none, some, String, ltb, if◌then◌else◌,
}

-- What the code calls of Redis, whose state is an `S`: `GET` at a time, `SET NX EX` with the time to
-- live in microseconds, and `DEL`.
pub record Redis (S : Type 0) : Type 0 where
  pub get : (now : ℕ) → (key : String) → S → Option String
  pub set_nx : (now : ℕ) → (key value : String) → (ttl : ℕ) → S → Bool × S
  pub del : (now : ℕ) → (key : String) → S → S

-- The documented behaviour of the commands on one key.
pub record IsRedis (S : Type 0) ⦃r : Redis S⦄ : Type 0 where
  -- `SET NX` on a missing key stores the value until it expires.
  pub set_free :
      (now ttl : ℕ) (key value : String) (s : S)
      → r.get now key s ≡ none
      → ((r.set_nx now key value ttl s).0 ≡ true)
        × ((t : ℕ)
            → now ≤ t
            → r.get t key (r.set_nx now key value ttl s).1
              ≡ (if ltb t (now + ttl) then some value else none))
  -- On a key that is there it does nothing.
  pub set_taken :
      (now ttl : ℕ) (key value held : String) (s : S)
      → r.get now key s ≡ some held
      → ((r.set_nx now key value ttl s).0 ≡ false)
        × ((t : ℕ) → now ≤ t → r.get t key (r.set_nx now key value ttl s).1 ≡ r.get t key s)
  -- `DEL` removes the key.
  pub del_gone :
      (now : ℕ) (key : String) (s : S) (t : ℕ) → now ≤ t → r.get t key (r.del now key s) ≡ none
