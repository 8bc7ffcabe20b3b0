-- ===== src/Risk/Rules/Market.antt =====
-- engine/risk_engine.py: rules 3, 4, 8, 9 and 10, on timing, volatility, liquidity and spread.
use quant_dss.Base.{
  ℕ, ◌+◌, ◌*◌, ◌/◌, ◌%◌, ◌&&◌, not, Option, some, none, ltb, leb, or_default, if◌then◌else◌,
}
use quant_dss.Base.Int.{pos, negsuc, ltb_ℤ, eqb_ℤ}
use quant_dss.Base.Dict.{nat_key, lookup}
use quant_dss.Base.Float.{Float, nought}
use quant_dss.Base.Exec.{Result, ok, divide, then_ok}
use quant_dss.Signal.{is_scanner, as_utc}
use quant_dss.Risk.Types.{
  Context, EngineState, RiskDecision, pass, blocked, skipped, cooldown_active, invalid_entry_price,
  low_volatility, high_volatility, adv_data_missing, low_adv, spread_too_wide,
  outside_signal_window, plain, refused,
}
use text.Mathlib.Text.{◌==◌ as str_eq}

-- The wall clock in India, UTC+05:30, of an instant.
abbrev pub to_ist : ℕ → ℕ
to_ist t = t + 19_800 * 1_000_000

abbrev pub ist_hour : ℕ → ℕ
ist_hour t = to_ist t / 3_600_000_000 % 24

abbrev pub ist_minute : ℕ → ℕ
ist_minute t = to_ist t / 60_000_000 % 60

-- The day that `strftime("%Y-%m-%d")` names.
abbrev pub ist_day : ℕ → ℕ
ist_day t = to_ist t / 86_400_000_000

module _ {W : Type 0} where
  -- `CooldownFilter.check`. `elapsed_minutes < cooldown`, with the division multiplied out.
  unfoldable pub check_cooldown : Context W → EngineState W → RiskDecision W
  check_cooldown c s = if is_scanner c.signal then plain pass else elim s.daily.last_signal_time [
    | none ↦ plain pass
    | some t ↦
        if ltb c.readings.now_cooldown (as_utc t + c.config.cooldown_minutes * 60_000_000)
        then refused skipped cooldown_active
        else plain pass
  ]

  -- `LiquidityFilter.check`; -1 stands for a symbol that the cache does not have.
  unfoldable pub check_liquidity : Context W → EngineState W → RiskDecision W
  check_liquidity c s =
      if is_scanner c.signal
      then plain pass
      else let min_adv = or_default (pos 500_000) c.config.min_daily_volume in
        let adv = or_default (negsuc 0) (lookup c.signal.symbol_id s.adv_cache) in
        if eqb_ℤ adv (negsuc 0)
        then refused blocked adv_data_missing
        else if ltb_ℤ adv min_adv
        then refused skipped (low_adv adv min_adv)
        else plain pass

  abbrev pub window_start : Context W → ℕ
  window_start c =
      or_default 9 c.config.signal_start_hour * 60 + or_default 20 c.config.signal_start_minute

  abbrev pub window_end : Context W → ℕ
  window_end c =
      or_default 14 c.config.signal_end_hour * 60 + or_default 30 c.config.signal_end_minute

  -- `now_ist.hour * 60 + now_ist.minute`
  abbrev pub window_now : Context W → ℕ
  window_now c = ist_hour c.readings.now_window * 60 + ist_minute c.readings.now_window

  -- `SignalTimeGateFilter.check`
  unfoldable pub check_window : Context W → RiskDecision W
  check_window c =
      if leb (window_start c) (window_now c) && leb (window_now c) (window_end c)
      then plain pass
      else refused skipped (outside_signal_window (window_now c) (window_start c) (window_end c))

module _ {W : Type 0} ⦃f : Float W⦄ where
  -- `VolatilityFilter.check`
  unfoldable pub check_volatility : Context W → Result (RiskDecision W)
  check_volatility c =
      if f.le c.signal.entry_price nought
      then ok (refused skipped invalid_entry_price)
      else then_ok (divide c.signal.atr_value c.signal.entry_price) λ ratio.
        let atr_pct = f.mul ratio (f.of_int (pos 100)) in
        let min_atr = f.mul c.config.min_atr_pct (f.of_int (pos 100)) in
        let max_atr = f.mul c.config.max_atr_pct (f.of_int (pos 100)) in
        if f.lt atr_pct min_atr && not (is_scanner c.signal)
        then ok (refused skipped low_volatility)
        else if f.lt max_atr atr_pct
        then ok (refused skipped high_volatility)
        else ok (plain pass)

  -- `SpreadFilter.check` from the two prices on.
  abbrev spread_of_quote : Context W → Option W × Option W → Result (RiskDecision W)
  spread_of_quote c (none, ask) = ok (plain pass)
  spread_of_quote c (some bid, none) = ok (plain pass)
  spread_of_quote c (some bid, some ask) =
      if f.le bid nought
      then ok (plain pass)
      else then_ok (divide (f.sub ask bid) bid) λ spread.
        let max_spread = or_default (f.lit 5 3) c.config.max_spread_pct in
        if f.lt max_spread spread
        then ok (refused skipped (spread_too_wide spread max_spread))
        else ok (plain pass)

  -- `SpreadFilter.check`
  unfoldable pub check_spread : Context W → Result (RiskDecision W)
  check_spread c = elim c.signal.instrument_key [
    | none ↦ ok (plain pass)
    | some key ↦ if str_eq key "" then ok (plain pass) else spread_of_quote c (c.readings.quote key)
  ]
