-- ===== src/Leases/Keys.antt =====
-- Redis as a list of keys with their expiry, on which tests run.
use quant_dss.Base.{
  ℕ, ◌+◌, ◌≤◌, ◌≡◌, refl, ap, Bool, true, false, Option, none, some, String, ltb, if◌then◌else◌,
  elim_option,
}
use quant_dss.Base.Dict.{
  Dict, string_key, lookup, insert, erase, lookup-insert_self, lookup-erase_self,
}
use quant_dss.Leases.{Redis, IsRedis}

abbrev pub Keys : Type 0
Keys = Dict String (String × ℕ)

abbrev pub live : (now : ℕ) → Option (String × ℕ) → Option String
live now none = none
live now (some (v, until)) = if ltb now until then some v else none

instance abbrev pub keys_redis : Redis Keys
keys_redis = record {
  get = λ now k s. live now (lookup k s);
  set_nx = λ now k v ttl s. elim (live now (lookup k s)) [
    | none ↦ (true, insert k (v, now + ttl) s)
    | some held ↦ (false, s)
  ];
  del = λ now k s. erase k s;
}

pub keys-IsRedis : IsRedis Keys
keys-IsRedis = record {
  set_free = λ now ttl k v s free.
      elim_option
        (λ (x : Bool × Keys).
          (x.0 ≡ true)
          × ((t : ℕ)
              → now ≤ t
              → live t (lookup k x.1) ≡ (if ltb t (now + ttl) then some v else none)))
        (live now (lookup k s)) _ _
        (λ e. (refl, λ t h. ap (live t) (lookup-insert_self k (v, now + ttl) s)))
        (λ held e. absurd (cc (e, free)));
  set_taken = λ now ttl k v held s taken.
      elim_option
        (λ (x : Bool × Keys).
          (x.0 ≡ false) × ((t : ℕ) → now ≤ t → live t (lookup k x.1) ≡ live t (lookup k s)))
        (live now (lookup k s)) (true, insert k (v, now + ttl) s) _ (λ e. absurd (cc (e, taken)))
        (λ other e. (refl, λ t h. refl));
  del_gone = λ now k s t h. ap (live t) (lookup-erase_self k s);
}
