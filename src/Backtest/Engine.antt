-- ===== src/Backtest/Engine.antt =====
-- engine/backtest_engine.py: `BacktestEngine.run`, bar by bar.
use quant_dss.Base.{
  ℕ, zero, suc, ◌+◌, Bool, true, false, ◌||◌, Option, none, some, List, [], ◌∷◌, ◌==◌, take,
  if◌then◌else◌,
}
use quant_dss.Base.Int.{ℤ, pos, eqb_ℤ}
use quant_dss.Base.Float.{Float, nought, max}
use quant_dss.Signal.{CandidateSignal}
use quant_dss.Risk.Types.{
  Portfolio, Reason, RiskDecision, Status, pass, approved, blocked, skipped,
  daily_loss_limit_reached, account_drawdown_halt,
}
use quant_dss.Backtest.Types.{
  Bar, SimulatedDailyRiskState, BacktestTrade, BacktestEngine, Simulation, forced_exit,
}
use quant_dss.Backtest.Trade.{exit_price_of, left, entered, exit_of, trailed}

abbrev pub is_date : ℕ → Option ℕ → Bool
is_date d none = false
is_date d (some c) = d == c

-- `decision.reason in ("DAILY_LOSS_LIMIT_REACHED", "ACCOUNT_DRAWDOWN_HALT")`
abbrev pub is_halting : {W : Type 0} → Option (Reason W) → Bool
is_halting (some daily_loss_limit_reached) = true
is_halting (some account_drawdown_halt) = true
is_halting r = false

-- The quantity of an approval, if it is one and not 0.
abbrev pub approved_quantity : Status → Option ℤ → Option ℤ
approved_quantity approved (some q) = if eqb_ℤ q (pos 0) then none else some q
approved_quantity s q = none

module _ {W X : Type 0} where
  -- The loop from `min_candles` on: the bars before it are only seen.
  abbrev pub skip : ℕ → (seen bars : List (Bar W X)) → List (Bar W X) × List (Bar W X)
  skip zero seen bars = (seen, bars)
  skip (suc n) seen [] = (seen, [])
  skip (suc n) seen (b ∷ bs) = skip n (b ∷ seen) bs

module _ {W : Type 0} ⦃f : Float W⦄ where
  -- The counters of the risk state, and the halt.
  abbrev pub counted :
      (now : ℕ) → RiskDecision W → SimulatedDailyRiskState W → SimulatedDailyRiskState W
  counted now d r = elim d.status [
    | approved ↦ record r { signals_approved = r.signals_approved + 1; last_signal_time = some now }
    | blocked ↦
        let r' = record r { signals_blocked = r.signals_blocked + 1 } in
        if is_halting d.reason then record r' { is_halted = true; halt_reason = d.reason } else r'
    | skipped ↦ record r { signals_skipped = r.signals_skipped + 1 }
    | pass ↦ r
  ]

  abbrev pub fresh_state : SimulatedDailyRiskState W
  fresh_state = record {
    realised_pnl = nought;
    last_signal_time = none;
    is_halted = false;
    halt_reason = none;
    halt_triggered_at = none;
    signals_approved = 0;
    signals_blocked = 0;
    signals_skipped = 0;
  }

module _ {W E : Type 0} ⦃f : Float W⦄ where
  -- A trade that is closed by a bar is booked.
  abbrev pub book : BacktestTrade W → Simulation W E → Simulation W E
  book t s = record s {
    balance = f.add s.balance t.pnl;
    peak_balance = max s.peak_balance (f.add s.balance t.pnl);
    sim_state = record s.sim_state { realised_pnl = f.add s.sim_state.realised_pnl t.pnl };
    trades = t ∷ s.trades;
    open_trade = none;
  }

  abbrev pub renewed : (date : ℕ) → Simulation W E → Simulation W E
  renewed d s = record s {
    sim_state = record s.sim_state { realised_pnl = nought; is_halted = false; halt_reason = none };
    current_trade_date = some d;
  }

  abbrev pub portfolio_of : Simulation W E → Portfolio W
  portfolio_of s = record {
    current_balance = s.balance;
    peak_balance = s.peak_balance;
    open_positions = elim s.open_trade [ none ↦ 0 | some t ↦ 1 ];
    open_symbols = [];
    weekly_realised_pnl = nought;
    open_position_values = [];
    committed_risk = nought;
  }

  abbrev pub is_open : Simulation W E → Bool
  is_open s = elim s.open_trade [ none ↦ false | some t ↦ true ]

  abbrev pub recorded : Simulation W E → Simulation W E
  recorded s = record s { equity_curve = s.balance ∷ s.equity_curve }

module _ {W X E : Type 0} ⦃f : Float W⦄ where
  -- The signal that was approved before is filled.
  abbrev pub fill : Bar W X → Simulation W E → Simulation W E
  fill b s = elim s.open_trade [
    | some t ↦ s
    | none ↦ elim s.pending [
      | none ↦ s
      | some (signal, q) ↦ record s { open_trade = some (entered b signal q); pending = none }
    ]
  ]

  -- The risk state of the day is reset on a new date.
  abbrev pub new_day : Bar W X → Simulation W E → Simulation W E
  new_day b s = elim b.date [
    | none ↦ s
    | some d ↦ if is_date d s.current_trade_date then s else renewed d s
  ]

  -- The open trade against the bar.
  abbrev pub watch_trade :
      BacktestEngine W X E → Bar W X → BacktestTrade W → Simulation W E → Simulation W E
  watch_trade e b t s =
      let t' = trailed e s.current_atr b t in
      elim (exit_of b t') [
        | none ↦ record s { open_trade = some t' }
        | some r ↦ book (left (exit_price_of b.close r t') b.time r t') s
      ]

  abbrev pub settle : BacktestEngine W X E → Bar W X → Simulation W E → Simulation W E
  settle e b s = elim s.open_trade [ none ↦ s | some t ↦ watch_trade e b t s ]

  -- A signal of the strategy is put to the risk engine.
  abbrev pub consider :
      BacktestEngine W X E → (now : ℕ) → CandidateSignal W → Simulation W E → Simulation W E
  consider e now signal s =
      let (decision, engine) = e.validate signal s.sim_state (portfolio_of s) s.risk_engine in
      record s {
        current_atr = signal.atr_value;
        sim_state = counted now decision s.sim_state;
        risk_engine = engine;
        pending = elim (approved_quantity decision.status decision.quantity) [
          | none ↦ s.pending
          | some q ↦ some (signal, q)
        ];
      }

  -- The strategy is asked while no trade is open and the day is not halted.
  abbrev pub look :
      BacktestEngine W X E → (window : List (Bar W X)) → Bar W X → Simulation W E → Simulation W E
  look e window b s =
      if is_open s || s.sim_state.is_halted
      then s
      else elim (e.evaluate window) [ none ↦ s | some signal ↦ consider e b.time signal s ]

  -- One turn of the loop, with the bars up to this one, the last one first.
  unfoldable pub step :
      BacktestEngine W X E → (seen : List (Bar W X)) → Bar W X → Simulation W E → Simulation W E
  step e seen b s = recorded (look e (take 201 seen) b (settle e b (new_day b (fill b s))))

  unfoldable pub simulate :
      BacktestEngine W X E
      → (seen bars : List (Bar W X)) → Simulation W E
      → List (Bar W X) × Simulation W E
  simulate e seen [] s = (seen, s)
  simulate e seen (b ∷ bs) s = simulate e (b ∷ seen) bs (step e (b ∷ seen) b s)

  -- An open trade is closed at the last close.
  abbrev pub force_close : List (Bar W X) → Simulation W E → Simulation W E
  force_close seen s = elim s.open_trade [
    | none ↦ s
    | some t ↦ elim seen [
      | [] ↦ s
      | b ∷ bs ↦
          let t' = left b.close b.time forced_exit t in
          record s { balance = f.add s.balance t'.pnl; trades = t' ∷ s.trades; open_trade = none }
    ]
  ]

  abbrev pub start : BacktestEngine W X E → E → Simulation W E
  start e engine = record {
    balance = e.initial_balance;
    peak_balance = e.initial_balance;
    trades = [];
    equity_curve = e.initial_balance ∷ [];
    open_trade = none;
    current_atr = nought;
    sim_state = fresh_state;
    current_trade_date = none;
    pending = none;
    risk_engine = engine;
  }

  -- `run` up to the metrics.
  unfoldable pub run : BacktestEngine W X E → (candles : List (Bar W X)) → E → Simulation W E
  run e candles engine =
      let (seen, bars) = skip e.min_candles_required [] candles in
      let (all, s) = simulate e seen bars (start e engine) in force_close all s
