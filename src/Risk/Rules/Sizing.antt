-- ===== src/Risk/Rules/Sizing.antt =====
-- engine/risk_engine.py: rules 5, 6, 7 and 7b, on size, number and exposure of positions.
use quant_dss.Base.{some, foldl, leb, or_default, if◌then◌else◌}
use quant_dss.Base.Int.{ℤ, pos, ltb_ℤ, max_ℤ}
use quant_dss.Base.Float.{Float, nought}
use quant_dss.Base.Exec.{Result, ok, divide, floor, then_ok}
use quant_dss.Risk.Types.{
  Context, RiskDecision, pass, blocked, skipped, invalid_stop_loss, no_risk_budget_left,
  insufficient_capital, max_positions_open, gross_exposure_limit, plain, refused,
}

module _ {W : Type 0} ⦃f : Float W⦄ where
  abbrev pub stop_distance : Context W → W
  stop_distance c = f.abs (f.sub c.signal.entry_price c.signal.stop_loss)

  abbrev pub trade_risk : Context W → W
  trade_risk c = f.mul c.portfolio.current_balance c.config.risk_per_trade_pct

  abbrev pub risk_limit : Context W → W
  risk_limit c = f.mul c.portfolio.current_balance c.config.max_account_drawdown_pct

  -- The decision that carries the size.
  abbrev sized : Context W → ℤ → Result (RiskDecision W)
  sized c quantity = then_ok (divide (trade_risk c) c.portfolio.current_balance) λ share.
      ok (record (plain pass) {
        quantity = some quantity;
        risk_amount = some (f.round 2 (trade_risk c));
        risk_pct = some (f.round 4 (f.mul share (f.of_int (pos 100))));
      })

  -- `PositionSizer.check`
  unfoldable pub check_size : Context W → Result (RiskDecision W)
  check_size c =
      if f.eq (stop_distance c) nought
      then ok (refused blocked invalid_stop_loss)
      else if f.lt (risk_limit c) (f.add c.portfolio.committed_risk (trade_risk c))
      then ok (
          refused blocked
            (no_risk_budget_left c.portfolio.committed_risk (trade_risk c) (risk_limit c)))
      else then_ok (then_ok (divide (trade_risk c) (stop_distance c)) floor) λ quantity.
        if ltb_ℤ quantity (pos 1)
        then ok (refused blocked insufficient_capital)
        else sized c quantity

  abbrev pub max_value : Context W → W
  max_value c =
      f.mul c.portfolio.current_balance (or_default (f.lit 20 2) c.config.max_position_pct)

  -- `MaxPositionSizeCap.adjust_quantity`
  unfoldable pub adjust_quantity : Context W → ℤ → Result ℤ
  adjust_quantity c quantity =
      if f.lt (max_value c) (f.mul (f.of_int quantity) c.signal.entry_price)
      then then_ok (then_ok (divide (max_value c) c.signal.entry_price) floor)
          (λ capped. ok (max_ℤ capped (pos 1)))
      else ok quantity

  -- `sum(portfolio.open_position_values)`
  abbrev pub notional : Context W → W
  notional c = foldl f.add nought c.portfolio.open_position_values

  abbrev pub max_exposure : Context W → W
  max_exposure c =
      f.mul c.portfolio.current_balance
        (or_default (f.lit 40 2) c.config.max_portfolio_exposure_pct)

  -- `GrossExposureFilter.check`
  unfoldable pub check_exposure : Context W → RiskDecision W
  check_exposure c =
      if f.le (max_exposure c) (notional c)
      then refused skipped (
          gross_exposure_limit (notional c) (max_exposure c)
            (or_default (f.lit 40 2) c.config.max_portfolio_exposure_pct)
            c.portfolio.current_balance)
      else plain pass

module _ {W : Type 0} where
  -- `MaxConcurrentPositions.check`
  unfoldable pub check_positions : Context W → RiskDecision W
  check_positions c =
      if leb c.config.max_concurrent_positions c.portfolio.open_positions
      then refused skipped max_positions_open
      else plain pass
