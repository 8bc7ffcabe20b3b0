-- ===== src/Backtest/Types.antt =====
-- engine/backtest_engine.py: the data of a backtest.
use quant_dss.Base.{ℕ, Bool, Option, List, String}
use quant_dss.Base.Int.{ℤ}
use quant_dss.Signal.{CandidateSignal}
use quant_dss.Risk.Types.{Portfolio, Reason, RiskDecision}

-- A row of the data frame: its time, the date of it where it is a datetime, the prices, and the
-- columns of the indicators, which are computed beforehand.
pub record Bar (W X : Type 0) : Type 0 where
  pub time : ℕ
  pub date : Option ℕ
  pub open_price : W
  pub high : W
  pub low : W
  pub close : W
  pub columns : X

pub record SimulatedDailyRiskState (W : Type 0) : Type 0 where
  pub realised_pnl : W
  pub last_signal_time : Option ℕ
  pub is_halted : Bool
  pub halt_reason : Option (Reason W)
  pub halt_triggered_at : Option ℕ
  pub signals_approved : ℕ
  pub signals_blocked : ℕ
  pub signals_skipped : ℕ

-- `exit_reason`, whose empty text is `unset`.
pub data ExitReason : Type 0 where
  unset target_hit stop_hit trailing_stop forced_exit : ExitReason

pub record BacktestTrade (W : Type 0) : Type 0 where
  pub entry_time : ℕ
  pub exit_time : Option ℕ
  pub signal_type : String
  pub entry_price : W
  pub exit_price : W
  pub stop_loss : W
  pub target_price : W
  pub quantity : ℤ
  pub pnl : W
  pub exit_reason : ExitReason
  pub trailing_activated : Bool

-- `BacktestEngine`, with the two objects that it is given: the strategy, a function of the window
-- with the last bar first, and the risk engine, whose own state is an `E`.
pub record BacktestEngine (W X E : Type 0) : Type 0 where
  pub evaluate : List (Bar W X) → Option (CandidateSignal W)
  pub min_candles_required : ℕ
  pub validate :
      CandidateSignal W → SimulatedDailyRiskState W → Portfolio W → E → RiskDecision W × E
  pub initial_balance : W
  pub enable_trailing_stop : Bool
  pub trailing_atr_trigger : W
  pub trailing_atr_distance : W

-- The variables of `run` from bar to bar, with the last trade and the last point of the curve
-- first. `_pending_signal` and `_pending_qty` are always set together.
pub record Simulation (W E : Type 0) : Type 0 where
  pub balance : W
  pub peak_balance : W
  pub trades : List (BacktestTrade W)
  pub equity_curve : List W
  pub open_trade : Option (BacktestTrade W)
  pub current_atr : W
  pub sim_state : SimulatedDailyRiskState W
  pub current_trade_date : Option ℕ
  pub pending : Option (CandidateSignal W × ℤ)
  pub risk_engine : E
