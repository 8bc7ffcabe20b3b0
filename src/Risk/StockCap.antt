-- ===== src/Risk/StockCap.antt =====
-- engine/risk_engine.py: how many signals of a stock rule 11 lets through in a day.
use Prim.Native.Nat.{min, max}
use quant_dss.Base.{
  ℕ, suc, ◌+◌, ◌-◌, ◌≡◌, ◌≢◌, inl, inr, Bool, true, false, ◌&&◌, Option, some, none, List, [], ◌∷◌,
  arith, ltb, leb, ◌==◌, if◌then◌else◌, All, count_if, Option-cases,
}
use quant_dss.Base.Dict.{Dict, nat_key, insert, lookup-insert}
use quant_dss.Risk.Types.{
  Context, EngineState, Status, pass, skipped, max_signals_per_stock, plain, refused,
}
use quant_dss.Risk.Rules.Market.{ist_day}
use quant_dss.Risk.Rules.Stock.{count_today, max_per_stock, store_count, check_stock}

abbrev pub is_pass : Status → Bool
is_pass pass = true
is_pass _ = false

-- How many more signals the stock may have, where `m` is allowed per day.
abbrev pub room : ℕ → Option ℕ → ℕ
room m none = max 1 m
room m (some n) = m - n

pub count_today-insert :
    (j sid day n : ℕ) (d : Dict ℕ (ℕ × ℕ))
    → count_today sid day (insert j (day, n) d)
      ≡ (if j == sid then some n else count_today sid day d)
count_today-insert j sid day n d = ground (arith, lookup-insert j sid (day, n) d)

module _ {W : Type 0} where
  -- The signals of one day under one configuration.
  abbrev pub OnDay : ℕ → ℕ → List (Context W) → Type 0
  OnDay day m cs = All (λ c. (ist_day c.readings.now_stock ≡ day) × (max_per_stock c ≡ m)) cs

  -- How many signals of the stock rule 11 lets through, in turn.
  pub passes : ℕ → List (Context W) → EngineState W → ℕ
  passes sid [] s = 0
  passes sid (c ∷ cs) s =
      let rest = passes sid cs (check_stock c s).1 in
      if c.signal.symbol_id == sid && is_pass (check_stock c s).0.status then suc rest else rest

  abbrev pub signals_of : ℕ → List (Context W) → ℕ
  signals_of sid = count_if (λ c. c.signal.symbol_id == sid)

  -- The check by the count of the stock: the first signal of a day always passes.
  pub check_stock-none :
      (c : Context W) (s : EngineState W)
      → count_today c.signal.symbol_id (ist_day c.readings.now_stock) s.counts ≡ none
      → check_stock c s
        ≡ (plain pass, store_count c.signal.symbol_id (ist_day c.readings.now_stock) 1 s)
  unfolding check_stock
  check_stock-none c s e = rw (e, check_stock)

  pub check_stock-some :
      (c : Context W) (s : EngineState W) (n : ℕ)
      → count_today c.signal.symbol_id (ist_day c.readings.now_stock) s.counts ≡ some n
      → check_stock c s ≡ (
          if leb (max_per_stock c) n
          then (refused skipped (max_signals_per_stock n (max_per_stock c)), s)
          else (
            plain pass,
            store_count c.signal.symbol_id (ist_day c.readings.now_stock) (n + 1) s,
          ))
  unfolding check_stock
  check_stock-some c s n e = rw (e, check_stock)

  room-check :
      (c : Context W) (s : EngineState W) (day m : ℕ)
      → ist_day c.readings.now_stock ≡ day
      → max_per_stock c ≡ m
      → let left = room m (count_today c.signal.symbol_id day s.counts) in
        (is_pass (check_stock c s).0.status ≡ ltb 0 left)
        × (room m (count_today c.signal.symbol_id day (check_stock c s).1.counts) ≡ left - 1)
  room-check c s day m e h =
      let sid = c.signal.symbol_id in
      elim (Option-cases (count_today sid (ist_day c.readings.now_stock) s.counts)) [
        | inl p ↦ ground (arith, check_stock-none c s p, count_today-insert sid sid day 1 s.counts)
        | inr (n, p) ↦
            ground
              (arith, check_stock-some c s n p, count_today-insert sid sid day (n + 1) s.counts)
      ]

  room-other :
      (c : Context W) (s : EngineState W) (sid day : ℕ)
      → ist_day c.readings.now_stock ≡ day
      → c.signal.symbol_id ≢ sid
      → count_today sid day (check_stock c s).1.counts ≡ count_today sid day s.counts
  room-other c s sid day e h =
      let j = c.signal.symbol_id in
      elim (Option-cases (count_today j (ist_day c.readings.now_stock) s.counts)) [
        | inl p ↦ ground (arith, check_stock-none c s p, count_today-insert j sid day 1 s.counts)
        | inr (n, p) ↦
            ground (arith, check_stock-some c s n p, count_today-insert j sid day (n + 1) s.counts)
      ]

  -- On a day, of the signals of a stock exactly the first ones pass, up to the room that is left.
  pub passes_exact :
      (sid day m : ℕ) (cs : List (Context W)) (s : EngineState W)
      → OnDay day m cs
      → passes sid cs s ≡ min (signals_of sid cs) (room m (count_today sid day s.counts))
  unfolding passes
  passes_exact sid day m [] s h = omega arith
  passes_exact sid day m (c ∷ cs) s h = ground (
    arith,
    passes_exact sid day m cs (check_stock c s).1 h.1,
    room-check c s day m h.0.0 h.0.1,
    room-other c s sid day h.0.0,
  )
