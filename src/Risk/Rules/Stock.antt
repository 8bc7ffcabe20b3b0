-- ===== src/Risk/Rules/Stock.antt =====
-- engine/risk_engine.py: rule 11, the daily number of signals of a stock, and rule 12, the number
-- of open positions of a sector.
use quant_dss.Base.{
  ℕ, ◌+◌, Bool, false, Option, some, none, List, [], ◌∷◌, String, count_if, leb, ◌==◌, or_default,
  if◌then◌else◌,
}
use quant_dss.Base.Dict.{Dict, nat_key, lookup, insert}
use quant_dss.Risk.Types.{
  Context, EngineState, RiskDecision, pass, skipped, max_signals_per_stock,
  sector_correlation_limit_met, plain, refused,
}
use quant_dss.Risk.Rules.Market.{ist_day}
use quant_dss.Risk.Sectors.{Sector, sector_eq, sector_of}

-- The loop of `hydrate_signal_counts` over the stored counts.
unfoldable pub hydrate_from : ℕ → Dict ℕ ℕ → Dict ℕ (ℕ × ℕ) → Dict ℕ (ℕ × ℕ)
hydrate_from today [] counts = counts
hydrate_from today ((sid, count) ∷ rest) counts =
    hydrate_from today rest (elim (lookup sid counts) [
      | none ↦ insert sid (today, count) counts
      | some entry ↦ if entry.0 == today then counts else insert sid (today, count) counts
    ])

abbrev in_sector : Sector → String → Bool
in_sector sector sym = elim (sector_of sym) [ none ↦ false | some other ↦ sector_eq other sector ]

-- `sector_count`
abbrev pub sector_count : Sector → List String → ℕ
sector_count sector = count_if (in_sector sector)

-- The count of a stock on a day: none if the entry is missing or of another day.
abbrev pub count_today : ℕ → ℕ → Dict ℕ (ℕ × ℕ) → Option ℕ
count_today sid today counts = elim (lookup sid counts) [
  | none ↦ none
  | some entry ↦ if entry.0 == today then some entry.1 else none
]

module _ {W : Type 0} where
  -- `state.signals_per_stock or {}`
  abbrev pub stored_counts : EngineState W → Dict ℕ ℕ
  stored_counts s = or_default [] s.daily.signals_per_stock

  -- `self._counts[sid] = (today, count)` and `_write_back`
  abbrev pub store_count : ℕ → ℕ → ℕ → EngineState W → EngineState W
  store_count sid today count s = record s {
    counts = insert sid (today, count) s.counts;
    daily = record s.daily { signals_per_stock = some (insert sid count (stored_counts s)) };
  }

  abbrev pub max_per_stock : Context W → ℕ
  max_per_stock c = or_default 3 c.config.max_signals_per_stock

  -- `MaxSignalsPerStockPerDay.check`
  unfoldable pub check_stock : Context W → EngineState W → RiskDecision W × EngineState W
  check_stock c s =
      let today = ist_day c.readings.now_stock in
      let sid = c.signal.symbol_id in
      elim (count_today sid today s.counts) [
        | none ↦ (plain pass, store_count sid today 1 s)
        | some count ↦
            if leb (max_per_stock c) count
            then (refused skipped (max_signals_per_stock count (max_per_stock c)), s)
            else (plain pass, store_count sid today (count + 1) s)
      ]

  -- `MaxSignalsPerStockPerDay.hydrate_signal_counts`, at the instant `now`
  unfoldable pub hydrate_signal_counts : ℕ → EngineState W → EngineState W
  unfolding hydrate_from
  hydrate_signal_counts now s = record s {
    counts = hydrate_from (ist_day now) (stored_counts s) s.counts;
  }

  -- `CorrelationFilter.check`
  unfoldable pub check_sector : Context W → RiskDecision W
  check_sector c = elim (sector_of c.signal.symbol_name) [
    | none ↦ plain pass
    | some sector ↦
        let count = sector_count sector c.portfolio.open_symbols in
        let most = or_default 3 c.config.max_correlated_positions in
        if leb most count
        then refused skipped (sector_correlation_limit_met sector count most)
        else plain pass
  ]
