-- ===== src/Leases/Lock.antt =====
-- core/redis_lock.py: the lock is a lease of one owner.
use quant_dss.Base.{
  ℕ, ◌+◌, ◌*◌, ◌≤◌, ◌<◌, ◌≡◌, refl, ap, ◌∙◌, inl, inr, Bool, true, false, Option, none, some, List,
  [], ◌∷◌, String, arith, ltb, if◌then◌else◌, elim_option, Bool-cases, All,
}
use quant_dss.Leases.{Redis, IsRedis}
use text.Mathlib.Text.{◌==◌ as str_eq}

abbrev pub micros : ℕ → ℕ
micros seconds = seconds * 1_000_000

module _ {S : Type 0} ⦃r : Redis S⦄ where
  -- One turn of the spinlock.
  unfoldable pub attempt_lock : (now : ℕ) → (lock_key nonce : String) → (timeout : ℕ) → S → Bool × S
  attempt_lock now key nonce timeout s = r.set_nx now key nonce (micros timeout) s

  -- The script that releases the lock, if it is still that of the nonce.
  unfoldable pub release_lock : (now : ℕ) → (lock_key nonce : String) → S → S
  release_lock now key nonce s = elim (r.get now key s) [
    | none ↦ s
    | some held ↦ if str_eq held nonce then r.del now key s else s
  ]

-- What a client does at a time.
pub data Act : Type 0 where
  attempt release : (now : ℕ) → (nonce : String) → Act

abbrev pub time_of : Act → ℕ
time_of (attempt now n) = now
time_of (release now n) = now

-- The lock as it is meant: the owner, and until when it is its.
abbrev pub Lease : Type 0
Lease = Option (String × ℕ)

abbrev pub owner_at : (now : ℕ) → Lease → Option String
owner_at now none = none
owner_at now (some (o, until)) = if ltb now until then some o else none

abbrev pub lease_act : (timeout : ℕ) → Act → Lease → Bool × Lease
lease_act timeout (attempt now n) l = elim (owner_at now l) [
  | none ↦ (true, some (n, now + micros timeout))
  | some o ↦ (false, l)
]
lease_act timeout (release now n) l = elim (owner_at now l) [
  | none ↦ (true, l)
  | some o ↦ (true, if str_eq o n then none else l)
]

abbrev pub lease_run : (timeout : ℕ) → List Act → Lease → List Bool
lease_run timeout [] l = []
lease_run timeout (a ∷ acts) l =
    let (b, l') = lease_act timeout a l in b ∷ lease_run timeout acts l'

-- Each act is at or after the one before it.
abbrev pub IsChronological : (now : ℕ) → List Act → Type 0
IsChronological now [] = Unit
IsChronological now (a ∷ acts) = (now ≤ time_of a) × IsChronological (time_of a) acts

module _ {S : Type 0} ⦃r : Redis S⦄ where
  abbrev pub lock_act : (key : String) → (timeout : ℕ) → Act → S → Bool × S
  lock_act key timeout (attempt now n) s = attempt_lock now key n timeout s
  lock_act key timeout (release now n) s = (true, release_lock now key n s)

  -- The answers to the acts, of which a release has none that matters.
  abbrev pub lock_run : (key : String) → (timeout : ℕ) → List Act → S → List Bool
  lock_run key timeout [] s = []
  lock_run key timeout (a ∷ acts) s =
      let (b, s') = lock_act key timeout a s in b ∷ lock_run key timeout acts s'

  -- From now on Redis has the key as the lease says.
  abbrev pub Refines : (key : String) → (now : ℕ) → S → Lease → Type 0
  Refines key now s l = (t : ℕ) → now ≤ t → r.get t key s ≡ owner_at t l

  release_none :
      (now : ℕ) (key n : String) (s : S) → r.get now key s ≡ none → release_lock now key n s ≡ s
  unfolding release_lock
  release_none now key n s free =
      elim_option (λ x. x ≡ s) (r.get now key s) _ _ (λ e. refl) (λ o e. absurd (cc (e, free)))

  release_some :
      (now : ℕ) (key n o : String) (s : S)
      → r.get now key s ≡ some o
      → release_lock now key n s ≡ (if str_eq o n then r.del now key s else s)
  unfolding release_lock
  release_some now key n o s there =
      elim_option (λ x. x ≡ (if str_eq o n then r.del now key s else s)) (r.get now key s) _ _
        (λ e. absurd (cc (e, there))) (λ p e. cc (e, there))

  -- An act on Redis and on the lease answers the same and keeps the relation.
  act-Refines :
      (laws : IsRedis S) (key : String) (timeout now : ℕ) (a : Act) (s : S) (l : Lease)
      → now ≤ time_of a
      → Refines key now s l
      → ((lock_act key timeout a s).0 ≡ (lease_act timeout a l).0)
        × Refines key (time_of a) (lock_act key timeout a s).1 (lease_act timeout a l).1
  unfolding attempt_lock release_lock
  act-Refines laws key timeout now (attempt at n) s l h k =
      let r' = r.set_nx at key n (micros timeout) s in
      elim_option (λ (x : Bool × Lease). (r'.0 ≡ x.0) × Refines key at r'.1 x.1) (owner_at at l) _ _
        (λ free. laws.set_free at (micros timeout) key n s (k at h ∙ free))
        (λ o taken.
          let x = laws.set_taken at (micros timeout) key n o s (k at h ∙ taken) in
          (x.0, λ t g. x.1 t g ∙ k t (omega arith)))
  act-Refines laws key timeout now (release at n) s l h k =
      elim_option
        (λ (x : Bool × Lease). (true ≡ x.0) × Refines key at (release_lock at key n s) x.1)
        (owner_at at l) _ _
        (λ free. (refl, rw (release_none at key n s (k at h ∙ free)) (λ t g. k t (omega arith))))
        (λ o taken. (
          refl,
          rw (release_some at key n o s (k at h ∙ taken)) (elim (Bool-cases (str_eq o n)) [
            | inl own ↦ rw own (laws.del_gone at key s)
            | inr other ↦ rw other (λ t g. k t (omega arith))
          ]),
        ))

  -- If Redis keeps its documented behaviour and has the key as a lease says, then acts in the order
  -- of their times answer as they do on the lease: a lock is given exactly when no one holds it,
  -- for the timeout, and a release frees it only if it is the owner's.
  pub lock_run-lease_run :
      (laws : IsRedis S) (key : String) (timeout now : ℕ) (acts : List Act) (s : S) (l : Lease)
      → IsChronological now acts
      → Refines key now s l
      → lock_run key timeout acts s ≡ lease_run timeout acts l
  lock_run-lease_run laws key timeout now [] s l c k = refl
  lock_run-lease_run laws key timeout now (a ∷ acts) s l c k =
      let (same, k') = act-Refines laws key timeout now a s l c.0 k in
      ap (λ b. b ∷ lock_run key timeout acts (lock_act key timeout a s).1) same
      ∙ ap (λ x. (lease_act timeout a l).0 ∷ x)
          (lock_run-lease_run laws key timeout (time_of a) acts (lock_act key timeout a s).1
            (lease_act timeout a l).1 c.1 k')

-- The answers while another one holds the lock.
abbrev pub refusals : List Act → List Bool
refusals [] = []
refusals (attempt now n ∷ acts) = false ∷ refusals acts
refusals (release now n ∷ acts) = true ∷ refusals acts

-- The act is before the time and no release of the owner.
abbrev pub IsForeign : (owner : String) → (until : ℕ) → Act → Type 0
IsForeign owner until (attempt now n) = now < until
IsForeign owner until (release now n) = (now < until) × (str_eq owner n ≡ false)

owner_early : (now until : ℕ) (o : String) → now < until → owner_at now (some (o, until)) ≡ some o
owner_early now until o h = ground (arith, h)

attempt_early :
    (timeout now until : ℕ) (o n : String)
    → now < until
    → lease_act timeout (attempt now n) (some (o, until)) ≡ (false, some (o, until))
attempt_early timeout now until o n h =
    elim_option (λ x. x ≡ (false, some (o, until))) (owner_at now (some (o, until))) _ _
      (λ e. absurd (cc (e, owner_early now until o h))) (λ p e. refl)

release_early :
    (timeout now until : ℕ) (o n : String)
    → now < until
    → str_eq o n ≡ false
    → lease_act timeout (release now n) (some (o, until)) ≡ (true, some (o, until))
release_early timeout now until o n h other =
    elim_option (λ x. x ≡ (true, some (o, until))) (owner_at now (some (o, until))) _ _
      (λ e. absurd (cc (e, owner_early now until o h)))
      (λ p e. ground (arith, e, owner_early now until o h, other))

lease_run-refusals :
    (timeout until : ℕ) (owner : String) (acts : List Act)
    → All (IsForeign owner until) acts
    → lease_run timeout acts (some (owner, until)) ≡ refusals acts
lease_run-refusals timeout until owner [] h = refl
lease_run-refusals timeout until owner (attempt now n ∷ acts) h =
    ap (λ x. x.0 ∷ lease_run timeout acts x.1) (attempt_early timeout now until owner n h.0)
    ∙ ap (λ l. false ∷ l) (lease_run-refusals timeout until owner acts h.1)
lease_run-refusals timeout until owner (release now n ∷ acts) h =
    ap (λ x. x.0 ∷ lease_run timeout acts x.1) (release_early timeout now until owner n h.0.0 h.0.1)
    ∙ ap (λ l. true ∷ l) (lease_run-refusals timeout until owner acts h.1)

module _ {S : Type 0} ⦃r : Redis S⦄ where
  -- If Redis keeps its documented behaviour, then a client that finds the lock free gets it, and
  -- until its timeout is over or it releases the lock, no attempt of anyone gets it, whatever is
  -- attempted and released.
  pub lock_run-exclusive :
      (laws : IsRedis S) (key nonce : String) (timeout now : ℕ) (acts : List Act) (s : S)
      → ((t : ℕ) → now ≤ t → r.get t key s ≡ none)
      → IsChronological now acts
      → All (IsForeign nonce (now + micros timeout)) acts
      → lock_run key timeout (attempt now nonce ∷ acts) s ≡ true ∷ refusals acts
  lock_run-exclusive laws key nonce timeout now acts s free c h =
      lock_run-lease_run laws key timeout now (attempt now nonce ∷ acts) s none (omega arith, c)
        free
      ∙ ap (λ l. true ∷ l) (lease_run-refusals timeout (now + micros timeout) nonce acts h)
