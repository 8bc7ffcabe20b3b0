-- ===== src/Risk/AlertGap.antt =====
-- engine/risk_engine.py: the distance in time between alerts of one key.
use quant_dss.Base.{
  ℕ, suc, ◌+◌, ◌≤◌, ◌≡◌, ◌⊎◌, refl, inl, inr, true, false, some, List, [], ◌∷◌, String, arith, ◌==◌,
  if◌then◌else◌, length, All, All-map, Bool-cases, ltb, or_default, ◌-◌,
}
use quant_dss.Base.Dict.{string_key, lookup, insert, lookup-insert}
use quant_dss.Risk.Types.{EngineState}
use quant_dss.Risk.Alerts.{alert_cooldown, send_deduped_alert}
use text.Mathlib.TextEquality.{eq_iff}

-- The calls whose alert goes out, where a loop runs: those that make the list of alerts longer.
unfoldable pub sent : {W : Type 0} → List (String × ℕ) → EngineState W → List (String × ℕ)
sent [] s = []
sent ((key, now) ∷ calls) s =
    let s' = send_deduped_alert key now true s in
    let rest = sent calls s' in
    if length s'.alerts == length s.alerts then rest else (key, now) ∷ rest

-- Of two alerts of one key, the later one comes at least the cooldown behind the earlier one.
abbrev pub IsSpaced : List (String × ℕ) → Type 0
IsSpaced [] = Unit
IsSpaced (e ∷ l) = All (λ (x : String × ℕ). x.0 ≡ e.0 → e.1 + alert_cooldown ≤ x.1) l × IsSpaced l

module _ {W : Type 0} where
  abbrev AreLate : EngineState W → List (String × ℕ) → Type 0
  AreLate s =
      All (λ (x : String × ℕ). (t : ℕ) → lookup x.0 s.cooldowns ≡ some t → t + alert_cooldown ≤ x.1)

  late_after :
      (key : String) (now t : ℕ) (s : EngineState W)
      → lookup key s.cooldowns ≡ some t
      → ltb (now - or_default 0 (lookup key s.cooldowns)) alert_cooldown ≡ false
      → t + alert_cooldown ≤ now
  late_after key now t s e late = ground arith

  -- A call either changes nothing, or comes late enough and is recorded.
  send_cases :
      (key : String) (now : ℕ) (s : EngineState W)
      → let s' = send_deduped_alert key now true s in
        (s' ≡ s)
        ⊎ (((t : ℕ) → lookup key s.cooldowns ≡ some t → t + alert_cooldown ≤ now)
            × (s'.cooldowns ≡ insert key now s.cooldowns)
            × (length s'.alerts ≡ suc (length s.alerts)))
  unfolding send_deduped_alert
  send_cases key now s =
      elim (Bool-cases (ltb (now - or_default 0 (lookup key s.cooldowns)) alert_cooldown)) [
        | inl early ↦ inl (rw early refl)
        | inr late ↦ inr (λ t e. late_after key now t s e late, rw late refl, rw late refl)
      ]

  sent-same :
      (key : String) (now : ℕ) (calls : List (String × ℕ)) (s : EngineState W)
      → send_deduped_alert key now true s ≡ s
      → sent ((key, now) ∷ calls) s ≡ sent calls s
  unfolding sent
  sent-same key now calls s e = rw e (ground arith)

  sent-new :
      (key : String) (now : ℕ) (calls : List (String × ℕ)) (s : EngineState W)
      → length (send_deduped_alert key now true s).alerts ≡ suc (length s.alerts)
      → sent ((key, now) ∷ calls) s ≡ (key, now) ∷ sent calls (send_deduped_alert key now true s)
  unfolding sent
  sent-new key now calls s e = ground arith

  -- What is late for the state behind a sent alert is late for the state before it.
  AreLate-back :
      (key : String) (now : ℕ) (s u : EngineState W) (l : List (String × ℕ))
      → ((t : ℕ) → lookup key s.cooldowns ≡ some t → t + alert_cooldown ≤ now)
      → u.cooldowns ≡ insert key now s.cooldowns
      → AreLate u l
      → AreLate s l
  AreLate-back key now s u l late e = All-map l (λ x h t p.
      ground (arith, late t, h now, h t, eq_iff key x.0, lookup-insert key x.0 now s.cooldowns))

  AreLate-same_key :
      (key : String) (now : ℕ) (s u : EngineState W) (l : List (String × ℕ))
      → u.cooldowns ≡ insert key now s.cooldowns
      → AreLate u l
      → All (λ (x : String × ℕ). x.0 ≡ key → now + alert_cooldown ≤ x.1) l
  AreLate-same_key key now s u l e =
      All-map l
        (λ x h p. ground (arith, h now, eq_iff key x.0, lookup-insert key x.0 now s.cooldowns))

  sent-AreLate : (calls : List (String × ℕ)) (s : EngineState W) → AreLate s (sent calls s)
  sent-AreLate [] s = unfold sent in tt
  sent-AreLate ((key, now) ∷ calls) s =
      let u = send_deduped_alert key now true s in
      let later = sent-AreLate calls u in
      elim (send_cases key now s) [
        | inl e ↦ rw (sent-same key now calls s e) (sent-AreLate calls s)
        | inr (late, e, n) ↦
            rw (sent-new key now calls s n)
              (late, AreLate-back key now s u (sent calls u) late e later)
      ]

  -- Whatever calls come, alerts of one key that go out are five minutes or more apart.
  pub sent-IsSpaced : (calls : List (String × ℕ)) (s : EngineState W) → IsSpaced (sent calls s)
  sent-IsSpaced [] s = unfold sent in tt
  sent-IsSpaced ((key, now) ∷ calls) s =
      let u = send_deduped_alert key now true s in
      let rest = sent-IsSpaced calls u in
      elim (send_cases key now s) [
        | inl e ↦ rw (sent-same key now calls s e) (sent-IsSpaced calls s)
        | inr (late, e, n) ↦
            rw (sent-new key now calls s n)
              (AreLate-same_key key now s u (sent calls u) e (sent-AreLate calls u), rest)
      ]
