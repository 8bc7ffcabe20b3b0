-- ===== src/Risk/Limit.antt =====
-- engine/risk_engine.py: what each rule demands of a signal that it lets pass.
use quant_dss.Base.{
  ℕ, ◌+◌, ◌*◌, ◌≤◌, ◌<◌, ◌≡◌, refl, ◌⊎◌, inl, inr, true, false, some, or_default, arith, Bool-cases,
  Option-cases,
}
use quant_dss.Base.Int.{ℤ, pos, ltb_ℤ}
use quant_dss.Base.Dict.{nat_key, lookup}
use quant_dss.Base.Float.{Float, nought}
use quant_dss.Base.Exec.{ok, divide, Result-cases}
use quant_dss.Signal.{Stamp, risk_reward, is_scanner, as_utc}
use quant_dss.Risk.Types.{
  Context, EngineState, RiskDecision, Status, pass, blocked, skipped, approved,
}
use quant_dss.Risk.Sectors.{Sector, sector_of}
use quant_dss.Risk.Rules.Loss.{
  get_api_error_count, check_errors, check_reward, check_daily_loss, check_weekly_loss,
  check_drawdown, loss_cap, drawdown,
}
use quant_dss.Risk.Rules.Market.{
  ist_day, check_cooldown, check_volatility, check_liquidity, check_window, window_start,
  window_now, window_end,
}
use quant_dss.Risk.Rules.Sizing.{
  check_size, check_positions, check_exposure, stop_distance, trade_risk, risk_limit, notional,
  max_exposure,
}
use quant_dss.Risk.Rules.Stock.{count_today, max_per_stock, check_stock, sector_count, check_sector}
use quant_dss.Risk.StockCap.{check_stock-some}

-- A decision that lets the loop go on.
abbrev pub GoesOn : {W : Type 0} → RiskDecision W → Type 0
GoesOn d = (d.status ≡ pass) ⊎ (d.status ≡ approved)

pub status_goes_on : (s : Status) → ¬ ((s ≡ blocked) ⊎ (s ≡ skipped)) → (s ≡ pass) ⊎ (s ≡ approved)
status_goes_on pass n = inl refl
status_goes_on blocked n = absurd (n (inl refl))
status_goes_on skipped n = absurd (n (inr refl))
status_goes_on approved n = inr refl

module _ {W : Type 0} (c : Context W) where
  pub errors_limit :
      GoesOn (check_errors c)
      → get_api_error_count c.readings.api_errors < or_default 5 c.config.max_consecutive_errors
  unfolding check_errors
  errors_limit h = ground arith

  pub cooldown_limit :
      (s : EngineState W) (t : Stamp)
      → GoesOn (check_cooldown c s)
      → is_scanner c.signal ≡ false
      → s.daily.last_signal_time ≡ some t
      → as_utc t + c.config.cooldown_minutes * 60_000_000 ≤ c.readings.now_cooldown
  unfolding check_cooldown
  cooldown_limit s t h e l = ground arith

  pub liquidity_limit :
      (s : EngineState W)
      → GoesOn (check_liquidity c s)
      → is_scanner c.signal ≡ false
      → (adv : ℤ) × (lookup c.signal.symbol_id s.adv_cache ≡ some adv)
        × (ltb_ℤ adv (or_default (pos 500_000) c.config.min_daily_volume) ≡ false)
  unfolding check_liquidity
  liquidity_limit s h e = elim (Option-cases (lookup c.signal.symbol_id s.adv_cache)) [
    | inl missing ↦ absurd (ground arith)
    | inr (adv, p) ↦ (adv, p, ground arith)
  ]

  pub window_limit :
      GoesOn (check_window c) → (window_start c ≤ window_now c) × (window_now c ≤ window_end c)
  unfolding check_window
  window_limit h = ground arith

  pub positions_limit :
      GoesOn (check_positions c) → c.portfolio.open_positions < c.config.max_concurrent_positions
  unfolding check_positions
  positions_limit h = ground arith

  pub stock_limit :
      (s : EngineState W) (n : ℕ)
      → GoesOn (check_stock c s).0
      → count_today c.signal.symbol_id (ist_day c.readings.now_stock) s.counts ≡ some n
      → n < max_per_stock c
  stock_limit s n h e = ground (arith, check_stock-some c s n e)

  pub sector_limit :
      (k : Sector)
      → GoesOn (check_sector c)
      → sector_of c.signal.symbol_name ≡ some k
      → sector_count k c.portfolio.open_symbols < or_default 3 c.config.max_correlated_positions
  unfolding check_sector
  sector_limit k h e = ground arith

module _ {W : Type 0} ⦃f : Float W⦄ (c : Context W) where
  pub reward_limit :
      (d : RiskDecision W)
      → check_reward c ≡ ok d
      → GoesOn d
      → (rr : W) × (risk_reward c.signal ≡ ok rr)
        × (f.lt rr (or_default (f.lit 15 1) c.config.min_risk_reward) ≡ false)
  unfolding check_reward
  reward_limit d e h = elim (Result-cases (risk_reward c.signal)) [
    | inl (rr, p) ↦ (rr, p, ground arith)
    | inr (x, p) ↦ absurd (ground arith)
  ]

  pub daily_limit :
      (d : RiskDecision W) (s t : EngineState W)
      → check_daily_loss c s ≡ (ok d, t)
      → GoesOn d
      → (f.le (or_default nought s.daily.realised_pnl) (
            f.neg (
              loss_cap c.config.max_daily_loss_inr c.portfolio.current_balance
                c.config.max_daily_loss_pct))
          ≡ false)
        × (t ≡ s)
  unfolding check_daily_loss
  daily_limit d s t e h = ground arith

  pub weekly_limit :
      (d : RiskDecision W) (s t : EngineState W)
      → check_weekly_loss c s ≡ (ok d, t)
      → GoesOn d
      → (f.le c.portfolio.weekly_realised_pnl (
            f.neg (
              loss_cap
                (or_default (f.lit 2000 0) c.config.max_weekly_loss_inr)
                c.portfolio.current_balance
                (or_default (f.lit 5 2) c.config.max_weekly_loss_pct)))
          ≡ false)
        × (t ≡ s)
  unfolding check_weekly_loss
  weekly_limit d s t e h = ground arith

  pub drawdown_limit :
      (d : RiskDecision W) (s t : EngineState W)
      → check_drawdown c s ≡ (ok d, t)
      → GoesOn d
      → ((f.le c.portfolio.peak_balance nought ≡ true)
          ⊎ ((dd : W) × (drawdown c ≡ ok dd) × (f.le c.config.max_account_drawdown_pct dd ≡ false)))
        × (t ≡ s)
  unfolding check_drawdown
  drawdown_limit d s t e h = elim (Bool-cases (f.le c.portfolio.peak_balance nought)) [
    | inl none_yet ↦ (inl none_yet, ground arith)
    | inr some_peak ↦ elim (Result-cases (drawdown c)) [
      | inl (dd, p) ↦ (inr (dd, p, ground arith), ground arith)
      | inr (x, p) ↦ absurd (ground arith)
    ]
  ]

  pub volatility_limit :
      (d : RiskDecision W)
      → check_volatility c ≡ ok d
      → GoesOn d
      → (f.le c.signal.entry_price nought ≡ false)
        × ((ratio : W) × (divide c.signal.atr_value c.signal.entry_price ≡ ok ratio)
            × (f.lt
                  (f.mul c.config.max_atr_pct (f.of_int (pos 100)))
                  (f.mul ratio (f.of_int (pos 100)))
                ≡ false)
            × ((is_scanner c.signal ≡ true)
                ⊎ (f.lt
                      (f.mul ratio (f.of_int (pos 100)))
                      (f.mul c.config.min_atr_pct (f.of_int (pos 100)))
                    ≡ false)))
  unfolding check_volatility
  volatility_limit d e h = elim (Result-cases (divide c.signal.atr_value c.signal.entry_price)) [
    | inl (ratio, p) ↦ (ground arith, (ratio, p, ground arith, ground arith))
    | inr (x, p) ↦ absurd (ground arith)
  ]

  pub size_limit :
      (d : RiskDecision W)
      → check_size c ≡ ok d
      → GoesOn d
      → (f.eq (stop_distance c) nought ≡ false)
        × (f.lt (risk_limit c) (f.add c.portfolio.committed_risk (trade_risk c)) ≡ false)
  unfolding check_size
  size_limit d e h = ground arith

  pub exposure_limit : GoesOn (check_exposure c) → f.le (max_exposure c) (notional c) ≡ false
  unfolding check_exposure
  exposure_limit h = ground arith
