-- ===== src/Risk/Rules.antt =====
-- engine/risk_engine.py: the rules of the chain, in the order of `self.rules`, and their checks.
pub mod Loss
pub mod Market
pub mod Sizing
pub mod Stock
use quant_dss.Base.{Bool, true, false, List, [], ◌∷◌}
use quant_dss.Base.Float.{Float}
use quant_dss.Base.Exec.{ok, pure, lift}
use quant_dss.Risk.Types.{Context, EngineState, RiskDecision, RiskExec, pass, plain}
use Loss.{
  check_errors, check_reward, check_regime, check_daily_loss, check_weekly_loss, check_drawdown,
}
use Market.{check_cooldown, check_volatility, check_liquidity, check_spread, check_window}
use Sizing.{check_size, check_positions, check_exposure}
use Stock.{check_stock, check_sector}

pub data Rule : Type 0 where
  consecutive_errors_circuit_breaker min_risk_reward_filter global_market_regime_filter : Rule
  daily_loss_circuit_breaker weekly_loss_circuit_breaker account_drawdown_halt : Rule
  cooldown_filter volatility_filter position_sizer max_position_size_cap : Rule
  max_concurrent_positions gross_exposure_filter liquidity_filter spread_filter : Rule
  signal_time_gate_filter max_signals_per_stock_per_day correlation_filter : Rule

-- `self.rules`
unfoldable pub rules : List Rule
rules =
    consecutive_errors_circuit_breaker ∷ min_risk_reward_filter ∷ global_market_regime_filter
    ∷ daily_loss_circuit_breaker ∷ weekly_loss_circuit_breaker ∷ account_drawdown_halt
    ∷ cooldown_filter ∷ volatility_filter ∷ position_sizer ∷ max_position_size_cap
    ∷ max_concurrent_positions ∷ gross_exposure_filter ∷ liquidity_filter ∷ spread_filter
    ∷ signal_time_gate_filter ∷ max_signals_per_stock_per_day ∷ correlation_filter ∷ []

-- `isinstance(rule, MaxPositionSizeCap)`
abbrev pub is_size_cap : Rule → Bool
is_size_cap max_position_size_cap = true
is_size_cap _ = false

module _ {W : Type 0} ⦃f : Float W⦄ where
  -- `rule.check(signal, state, portfolio)`
  unfoldable pub check : Context W → Rule → RiskExec W (RiskDecision W)
  check c consecutive_errors_circuit_breaker = pure (check_errors c)
  check c min_risk_reward_filter = lift (check_reward c)
  check c global_market_regime_filter = pure (check_regime c)
  check c daily_loss_circuit_breaker = check_daily_loss c
  check c weekly_loss_circuit_breaker = check_weekly_loss c
  check c account_drawdown_halt = check_drawdown c
  check c cooldown_filter = λ s. (ok (check_cooldown c s), s)
  check c volatility_filter = lift (check_volatility c)
  check c position_sizer = lift (check_size c)
  check c max_position_size_cap = pure (plain pass)
  check c max_concurrent_positions = pure (check_positions c)
  check c gross_exposure_filter = pure (check_exposure c)
  check c liquidity_filter = λ s. (ok (check_liquidity c s), s)
  check c spread_filter = lift (check_spread c)
  check c signal_time_gate_filter = pure (check_window c)
  check c max_signals_per_stock_per_day = λ s. (ok (check_stock c s).0, (check_stock c s).1)
  check c correlation_filter = pure (check_sector c)
