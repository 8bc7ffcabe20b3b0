-- ===== src/Risk/Restart.antt =====
-- engine/risk_engine.py: the counts of rule 11 survive a restart, by `_write_back` and
-- `hydrate_signal_counts`.
use mathlib.Core.Path.{ap₂}
use quant_dss.Base.{
  ℕ, ◌+◌, ◌≡◌, refl, ◌∙◌, sym, inl, inr, some, none, List, [], ◌∷◌, arith, leb, Option-cases,
  Bool-cases, subst,
}
use quant_dss.Base.Dict.{Dict, nat_key, lookup, insert, lookup-insert}
use quant_dss.Risk.Types.{Context, EngineState, RiskDecision}
use quant_dss.Risk.Rules.Market.{ist_day}
use quant_dss.Risk.Rules.Stock.{
  max_per_stock, count_today, stored_counts, store_count, check_stock, hydrate_from,
  hydrate_signal_counts,
}
use quant_dss.Risk.StockCap.{OnDay, count_today-insert, check_stock-none, check_stock-some}

-- The count that hydration leaves: the one in memory if it is of the day, else the stored one.
count_today-hydrate :
    (sid day : ℕ) (d : Dict ℕ ℕ) (counts : Dict ℕ (ℕ × ℕ))
    → count_today sid day (hydrate_from day d counts)
      ≡ elim (count_today sid day counts) [ some n ↦ some n | none ↦ lookup sid d ]
unfolding hydrate_from
count_today-hydrate sid day [] counts = ground arith
count_today-hydrate sid day ((j, n) ∷ d) counts = ground (
  arith,
  count_today-hydrate sid day d counts,
  count_today-hydrate sid day d (insert j (day, n) counts),
  count_today-insert j sid day n counts,
)

module _ {W : Type 0} where
  -- The counts of the day in memory are those in the row of the day.
  abbrev pub IsMirrored : ℕ → EngineState W → Type 0
  IsMirrored day s = (sid : ℕ) → lookup sid (stored_counts s) ≡ count_today sid day s.counts

  store_count-IsMirrored :
      (sid day n : ℕ) (s : EngineState W)
      → IsMirrored day s
      → IsMirrored day (store_count sid day n s)
  store_count-IsMirrored sid day n s h j =
      ground (
        arith,
        h j,
        lookup-insert sid j n (stored_counts s),
        count_today-insert sid j day n s.counts,
      )

  check_stock-IsMirrored :
      (c : Context W) (day : ℕ) (s : EngineState W)
      → ist_day c.readings.now_stock ≡ day
      → IsMirrored day s
      → IsMirrored day (check_stock c s).1
  check_stock-IsMirrored c day s e h =
      let sid = c.signal.symbol_id in
      let today = ist_day c.readings.now_stock in
      elim (Option-cases (count_today sid today s.counts)) [
        | inl p ↦ rw (check_stock-none c s p, e) (store_count-IsMirrored sid day 1 s h)
        | inr (n, p) ↦ elim (Bool-cases (leb (max_per_stock c) n)) [
          | inl full ↦ rw (check_stock-some c s n p, full) h
          | inr free ↦
              rw (check_stock-some c s n p, free, e) (store_count-IsMirrored sid day (n + 1) s h)
        ]
      ]

  -- The rule applied to the signals in turn.
  pub after : List (Context W) → EngineState W → EngineState W
  after [] s = s
  after (c ∷ cs) s = after cs (check_stock c s).1

  after-IsMirrored :
      (day m : ℕ) (cs : List (Context W)) (s : EngineState W)
      → OnDay day m cs
      → IsMirrored day s
      → IsMirrored day (after cs s)
  unfolding after
  after-IsMirrored day m [] s h v = v
  after-IsMirrored day m (c ∷ cs) s h v =
      after-IsMirrored day m cs (check_stock c s).1 h.1 (check_stock-IsMirrored c day s h.0.0 v)

  -- A new engine over the same row, hydrated at the instant `now`.
  abbrev pub restart : ℕ → EngineState W → EngineState W
  restart now s = hydrate_signal_counts now (record s { counts = [] })

  restart-count :
      (now sid : ℕ) (s : EngineState W)
      → IsMirrored (ist_day now) s
      → count_today sid (ist_day now) (restart now s).counts
        ≡ count_today sid (ist_day now) s.counts
  unfolding hydrate_signal_counts
  restart-count now sid s h = count_today-hydrate sid (ist_day now) (stored_counts s) [] ∙ h sid

  -- What rule 11 answers to the signals in turn.
  pub decisions : List (Context W) → EngineState W → List (RiskDecision W)
  decisions [] s = []
  decisions (c ∷ cs) s = (check_stock c s).0 ∷ decisions cs (check_stock c s).1

  abbrev SameCounts : ℕ → EngineState W → EngineState W → Type 0
  SameCounts day s t = (sid : ℕ) → count_today sid day s.counts ≡ count_today sid day t.counts

  check_stock-SameCounts :
      (c : Context W) (s t : EngineState W)
      → SameCounts (ist_day c.readings.now_stock) s t
      → ((check_stock c s).0 ≡ (check_stock c t).0)
        × SameCounts (ist_day c.readings.now_stock) (check_stock c s).1 (check_stock c t).1
  check_stock-SameCounts c s t h =
      let sid = c.signal.symbol_id in
      let day = ist_day c.readings.now_stock in
      elim (Option-cases (count_today sid day t.counts)) [
        | inl p ↦
            let q = check_stock-none c s (h sid ∙ p) in
            let r = check_stock-none c t p in
            (
              rw (q, r),
              λ j.
                  rw (q, r)
                    (count_today-insert sid j day 1 s.counts
                      ∙ (ground (arith, h j) ∙ sym (count_today-insert sid j day 1 t.counts))),
            )
        | inr (n, p) ↦
            let q = check_stock-some c s n (h sid ∙ p) in
            let r = check_stock-some c t n p in
            (
              ground (arith, q, r),
              λ j. ground (
                arith,
                q,
                r,
                h j,
                count_today-insert sid j day (n + 1) s.counts,
                count_today-insert sid j day (n + 1) t.counts,
              ),
            )
      ]

  decisions-SameCounts :
      (day m : ℕ) (cs : List (Context W)) (s t : EngineState W)
      → OnDay day m cs
      → SameCounts day s t
      → decisions cs s ≡ decisions cs t
  unfolding decisions
  decisions-SameCounts day m [] s t h v = refl
  decisions-SameCounts day m (c ∷ cs) s t h v =
      let step = check_stock-SameCounts c s t (rw h.0.0 v) in
      ap₂ ◌∷◌ step.0 (
        decisions-SameCounts day m cs (check_stock c s).1 (check_stock c t).1 h.1
          (subst (λ d. SameCounts d (check_stock c s).1 (check_stock c t).1) h.0.0 step.1))

  -- After any signals of a day, an engine that is started anew that day answers all later signals
  -- of the day as the running one does.
  pub restart-decisions :
      (now m : ℕ) (before later : List (Context W)) (s : EngineState W)
      → OnDay (ist_day now) m before
      → OnDay (ist_day now) m later
      → IsMirrored (ist_day now) s
      → decisions later (restart now (after before s)) ≡ decisions later (after before s)
  restart-decisions now m before later s h g v =
      decisions-SameCounts (ist_day now) m later (restart now (after before s)) (after before s) g
        (λ sid.
          restart-count now sid (after before s) (after-IsMirrored (ist_day now) m before s h v))
