-- ===== src/Risk/Rules/Loss.antt =====
-- engine/risk_engine.py: rules 0 to 2, on API errors, risk-reward, regime, losses and drawdown.
use quant_dss.Base.{ℕ, Bool, ◌&&◌, ◌||◌, String, leb, or_default, if◌then◌else◌}
use quant_dss.Base.Float.{Float, nought, min}
use quant_dss.Base.Exec.{Result, ok, divide, then_ok}
use quant_dss.Base.Text.{codes, upper, has_infix}
use quant_dss.Signal.{risk_reward}
use quant_dss.Risk.Alerts.{send_deduped_alert}
use quant_dss.Risk.Types.{
  Context, EngineState, RiskDecision, Fetch, unavailable, absent, value, pass, blocked, skipped,
  consecutive_errors_limit, no_risk_reward, low_risk_reward, regime_mismatch_trending,
  regime_mismatch_ranging, regime_mismatch_high_vol, daily_loss_limit_reached,
  weekly_loss_limit_reached, account_drawdown_halt, plain, refused,
}
use text.Mathlib.Text.{◌==◌ as str_eq}

-- `get_api_error_count`, and the `try` of the synchronous check: a failed read counts as 0.
unfoldable pub get_api_error_count : Fetch → ℕ
get_api_error_count unavailable = 0
get_api_error_count absent = 0
get_api_error_count (value n) = n

-- `needle in strategy.upper()`
abbrev mentions : String → String → Bool
mentions needle strategy = has_infix (codes needle) (upper (codes strategy))

module _ {W : Type 0} where
  -- `ConsecutiveErrorsCircuitBreaker.check` and `async_check`
  unfoldable pub check_errors : Context W → RiskDecision W
  unfolding get_api_error_count
  check_errors c =
      let count = get_api_error_count c.readings.api_errors in
      if leb (or_default 5 c.config.max_consecutive_errors) count
      then refused blocked (consecutive_errors_limit count)
      else plain pass

  -- `GlobalMarketRegimeFilter.check` on the regime and the name of the strategy.
  unfoldable pub decide_regime : String → String → RiskDecision W
  decide_regime regime strategy =
      if str_eq regime "TRENDING" && (mentions "REVERSION" strategy || mentions "RSI" strategy)
      then refused skipped regime_mismatch_trending
      else if str_eq regime "RANGING"
          && (mentions "TREND" strategy
              || (mentions "BREAKOUT" strategy || mentions "EMA" strategy))
      then refused skipped regime_mismatch_ranging
      else if str_eq regime "HIGH_VOLATILITY"
          && (mentions "ORB" strategy || (mentions "VOLUME" strategy || mentions "TREND" strategy))
      then refused skipped regime_mismatch_high_vol
      else plain pass

  -- `GlobalMarketRegimeFilter.check`
  unfoldable pub check_regime : Context W → RiskDecision W
  unfolding decide_regime
  check_regime c =
      decide_regime (or_default "NONE" c.config.market_regime) (or_default "" c.signal.strategy)

module _ {W : Type 0} ⦃f : Float W⦄ where
  -- `MinRiskRewardFilter.check`
  unfoldable pub check_reward : Context W → Result (RiskDecision W)
  check_reward c =
      let min_rr = or_default (f.lit 15 1) c.config.min_risk_reward in
      then_ok (risk_reward c.signal) λ rr.
        if f.lt rr min_rr
        then ok
            (refused skipped (if f.eq rr nought then no_risk_reward else low_risk_reward rr min_rr))
        else ok (plain pass)

  -- `effective_cap` of the two loss rules: the smaller of an amount and a share of the balance.
  abbrev pub loss_cap : W → W → W → W
  loss_cap cap_inr balance pct = min cap_inr (f.mul balance pct)

  -- The refusal of a loss rule, which also sends its alert.
  abbrev halt :
      String → Context W → RiskDecision W → EngineState W → Result (RiskDecision W) × EngineState W
  halt key c d s = (ok d, send_deduped_alert key c.readings.monotonic c.readings.loop_running s)

  -- `DailyLossCircuitBreaker.check`
  unfoldable pub check_daily_loss :
      Context W → EngineState W → Result (RiskDecision W) × EngineState W
  check_daily_loss c s =
      if f.le (or_default nought s.daily.realised_pnl) (
        f.neg (
          loss_cap c.config.max_daily_loss_inr c.portfolio.current_balance
            c.config.max_daily_loss_pct))
      then halt "daily_loss" c (refused blocked daily_loss_limit_reached) s
      else (ok (plain pass), s)

  -- `WeeklyLossCircuitBreaker.check`
  unfoldable pub check_weekly_loss :
      Context W → EngineState W → Result (RiskDecision W) × EngineState W
  check_weekly_loss c s =
      if f.le c.portfolio.weekly_realised_pnl (
        f.neg (
          loss_cap (or_default (f.lit 2000 0) c.config.max_weekly_loss_inr)
            c.portfolio.current_balance (or_default (f.lit 5 2) c.config.max_weekly_loss_pct)))
      then halt "weekly_loss" c (refused blocked weekly_loss_limit_reached) s
      else (ok (plain pass), s)

  -- `drawdown_pct`
  abbrev pub drawdown : Context W → Result W
  drawdown c =
      divide (f.sub c.portfolio.peak_balance c.portfolio.current_balance) c.portfolio.peak_balance

  -- `AccountDrawdownHalt.check`
  unfoldable pub check_drawdown :
      Context W → EngineState W → Result (RiskDecision W) × EngineState W
  check_drawdown c s =
      if f.le c.portfolio.peak_balance nought then (ok (plain pass), s) else elim (drawdown c) [
        | Result.raised e ↦ (Result.raised e, s)
        | ok dd ↦
            if f.le c.config.max_account_drawdown_pct dd
            then halt "drawdown" c (refused blocked account_drawdown_halt) s
            else (ok (plain pass), s)
      ]
