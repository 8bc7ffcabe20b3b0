-- ===== src/Risk/Types.antt =====
-- engine/risk_engine.py, models/risk_config.py, models/daily_risk_state.py: the data of the engine.
use quant_dss.Base.{ℕ, Bool, Option, none, some, List, String}
use quant_dss.Base.Int.{ℤ}
use quant_dss.Base.Dict.{Dict}
use quant_dss.Base.Exec.{Exec}
use quant_dss.Signal.{CandidateSignal, Stamp}
use quant_dss.Risk.Sectors.{Sector}

-- What the engine reads of a `RiskConfig`, after `float()` and `int()`. An optional field is read
-- by `getattr` with a default.
pub record RiskConfig (W : Type 0) : Type 0 where
  pub risk_per_trade_pct : W
  pub max_position_pct : Option W
  pub max_daily_loss_inr : W
  pub max_daily_loss_pct : W
  pub max_weekly_loss_inr : Option W
  pub max_weekly_loss_pct : Option W
  pub max_account_drawdown_pct : W
  pub cooldown_minutes : ℕ
  pub min_atr_pct : W
  pub max_atr_pct : W
  pub min_risk_reward : Option W
  pub max_signals_per_stock : Option ℕ
  pub signal_start_hour : Option ℕ
  pub signal_start_minute : Option ℕ
  pub signal_end_hour : Option ℕ
  pub signal_end_minute : Option ℕ
  pub max_concurrent_positions : ℕ
  pub max_correlated_positions : Option ℕ
  pub max_consecutive_errors : Option ℕ
  pub min_daily_volume : Option ℤ
  pub max_spread_pct : Option W
  pub market_regime : Option String
  pub max_portfolio_exposure_pct : Option W

pub record Portfolio (W : Type 0) : Type 0 where
  pub current_balance : W
  pub peak_balance : W
  pub open_positions : ℕ
  pub open_symbols : List String
  pub weekly_realised_pnl : W
  pub open_position_values : List W
  pub committed_risk : W

pub data Status : Type 0 where
  pass blocked skipped approved : Status

-- The reasons, with the numbers that their texts are formatted from.
pub data Reason (W : Type 0) : Type 0 where
  consecutive_errors_limit : ℕ → Reason W
  no_risk_reward : Reason W
  low_risk_reward : W → W → Reason W
  regime_mismatch_trending regime_mismatch_ranging regime_mismatch_high_vol : Reason W
  daily_loss_limit_reached weekly_loss_limit_reached account_drawdown_halt : Reason W
  cooldown_active : Reason W
  invalid_entry_price low_volatility high_volatility : Reason W
  invalid_stop_loss : Reason W
  no_risk_budget_left : W → W → W → Reason W
  insufficient_capital : Reason W
  max_positions_open : Reason W
  gross_exposure_limit : W → W → W → W → Reason W
  adv_data_missing : Reason W
  low_adv : ℤ → ℤ → Reason W
  spread_too_wide : W → W → Reason W
  outside_signal_window : ℕ → ℕ → ℕ → Reason W
  max_signals_per_stock : ℕ → ℕ → Reason W
  sector_correlation_limit_met : Sector → ℕ → ℕ → Reason W

pub record RiskDecision (W : Type 0) : Type 0 where
  pub status : Status
  pub reason : Option (Reason W)
  pub quantity : Option ℤ
  pub risk_amount : Option W
  pub risk_pct : Option W
  pub risk_reward : Option W

-- What the engine reads of a `DailyRiskState` row.
pub record DailyRiskState (W : Type 0) : Type 0 where
  pub realised_pnl : Option W
  pub last_signal_time : Option Stamp
  pub signals_per_stock : Option (Dict ℕ ℕ)

-- The answer of Redis for the error counter: the call fails, or what `int(value or 0)` reads.
pub data Fetch : Type 0 where
  unavailable absent : Fetch
  value : ℕ → Fetch

-- What one call of `validate` reads from outside: Redis, the clocks at each `datetime.now` (UTC
-- instants in microseconds), `time.monotonic` (microseconds) at the one alert that a call may
-- send, whether an event loop runs, and the quotes of `market_data_cache`.
pub record Readings (W : Type 0) : Type 0 where
  pub api_errors : Fetch
  pub now_cooldown : ℕ
  pub now_window : ℕ
  pub now_stock : ℕ
  pub monotonic : ℕ
  pub loop_running : Bool
  pub quote : String → Option W × Option W

pub record Context (W : Type 0) : Type 0 where
  pub config : RiskConfig W
  pub signal : CandidateSignal W
  pub portfolio : Portfolio W
  pub readings : Readings W

-- What a call changes or reads across calls: `MaxSignalsPerStockPerDay._counts`, by symbol id
-- (whose decimal text is the key), with the day of the entry; `adv_cache`; the row of the day;
-- `_alert_cooldown`; and the keys of the alerts sent, the last one first.
pub record EngineState (W : Type 0) : Type 0 where
  pub counts : Dict ℕ (ℕ × ℕ)
  pub adv_cache : Dict ℕ ℤ
  pub daily : DailyRiskState W
  pub cooldowns : Dict String ℕ
  pub alerts : List String

abbrev pub RiskExec : Type 0 → Type 0 → Type 0
RiskExec W A = Exec (EngineState W) A

module _ {W : Type 0} where
  -- `RiskDecision(status=status)`
  abbrev pub plain : Status → RiskDecision W
  plain s = record {
    status = s;
    reason = none;
    quantity = none;
    risk_amount = none;
    risk_pct = none;
    risk_reward = none;
  }

  abbrev pub refused : Status → Reason W → RiskDecision W
  refused s r = record (plain s) { reason = some r }
