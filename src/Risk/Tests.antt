-- ===== src/Risk/Tests.antt =====
-- Runs of the risk engine on fixed-point numbers, and its theorems at concrete inputs.
use Prim.Native.Nat.{min}
use quant_dss.Base.{ℕ, ◌-◌, ◌*◌, ◌≡◌, refl, ◌↔◌, inl, inr, true, some, none, List, [], ◌∷◌, String}
use quant_dss.Base.Int.{ℤ, pos, negsuc, ◌≤ℤ◌}
use quant_dss.Base.Fixed.{fixed_float}
use quant_dss.Base.Exec.{ok}
use quant_dss.Signal.{CandidateSignal, naive, aware, risk_reward, is_scanner}
use quant_dss.Risk.Sectors.{sector_of}
use quant_dss.Risk.Types.{
  RiskConfig, Portfolio, DailyRiskState, Readings, Context, EngineState, RiskDecision, value, pass,
  blocked, skipped, approved, low_risk_reward, adv_data_missing, plain, refused,
}
use quant_dss.Risk.Alerts.{send_deduped_alert}
use quant_dss.Risk.Rules.{
  rules, check, consecutive_errors_circuit_breaker, min_risk_reward_filter,
  global_market_regime_filter, daily_loss_circuit_breaker, weekly_loss_circuit_breaker,
  account_drawdown_halt, cooldown_filter, volatility_filter, position_sizer, max_position_size_cap,
  max_concurrent_positions, gross_exposure_filter, liquidity_filter, spread_filter,
  signal_time_gate_filter, max_signals_per_stock_per_day, correlation_filter,
}
use quant_dss.Risk.Rules.Loss.{
  get_api_error_count, check_errors, check_reward, check_regime, check_daily_loss,
  check_weekly_loss, check_drawdown,
}
use quant_dss.Risk.Rules.Market.{
  check_cooldown, check_volatility, check_liquidity, check_spread, check_window,
}
use quant_dss.Risk.Rules.Sizing.{check_size, check_positions, check_exposure, adjust_quantity}
use quant_dss.Risk.Rules.Stock.{check_stock, check_sector}
use quant_dss.Risk.Engine.{Sizing, unsized, run_rules, adjust, approve, validate}
use quant_dss.Risk.Chain.{Passes, done, next, validate-fail_fast, validate-approved_iff}
use quant_dss.Risk.StockCap.{passes, passes_exact}
use quant_dss.Risk.AlertGap.{sent, IsSpaced, sent-IsSpaced}
use quant_dss.Risk.Limits.{WithinLimits, validate-WithinLimits}
use quant_dss.Risk.Size.{FitsCap, validate-quantity}

-- Whole numbers, in the four digits of the fixed-point numbers.
abbrev units : ℕ → ℤ
units n = pos (n * 10_000)

abbrev config : RiskConfig ℤ
config = record {
  risk_per_trade_pct = pos 100;
  max_position_pct = some (pos 2000);
  max_daily_loss_inr = units 500;
  max_daily_loss_pct = pos 200;
  max_weekly_loss_inr = some (units 2000);
  max_weekly_loss_pct = some (pos 500);
  max_account_drawdown_pct = pos 1000;
  cooldown_minutes = 15;
  min_atr_pct = pos 30;
  max_atr_pct = pos 300;
  min_risk_reward = some (pos 15000);
  max_signals_per_stock = some 3;
  signal_start_hour = some 9;
  signal_start_minute = some 20;
  signal_end_hour = some 14;
  signal_end_minute = some 30;
  max_concurrent_positions = 2;
  max_correlated_positions = some 3;
  max_consecutive_errors = some 5;
  min_daily_volume = some (pos 500_000);
  max_spread_pct = some (pos 50);
  market_regime = some "TRENDING";
  max_portfolio_exposure_pct = none;
}

-- 2025-11-26 10:00 in India.
abbrev morning : ℕ
morning = 1_764_131_400 * 1_000_000

abbrev signal : CandidateSignal ℤ
signal = record {
  symbol_id = 7;
  strategy_id = 0;
  strategy_name = "rsi_mean_reversion";
  signal_type = "BUY";
  entry_price = units 1000;
  stop_loss = units 990;
  target_price = units 1020;
  atr_value = units 10;
  candle_time = aware morning;
  confidence_score = units 0;
  symbol_name = "HDFCBANK.NS";
  strategies = [];
  base_strategy = "rsi_mean_reversion";
  indicator_snapshot = [];
  volume_ratio = units 1;
  spread = units 0;
  relative_strength = units 0;
  market_regime = none;
  metadata = [];
  strategy = none;
  instrument_key = none;
}

abbrev portfolio : Portfolio ℤ
portfolio = record {
  current_balance = units 100_000;
  peak_balance = units 100_000;
  open_positions = 1;
  open_symbols = "SBIN" ∷ "TCS" ∷ [];
  weekly_realised_pnl = units 0;
  open_position_values = units 10_000 ∷ [];
  committed_risk = units 1_000;
}

abbrev readings : Readings ℤ
readings = record {
  api_errors = value 2;
  now_cooldown = morning;
  now_window = morning;
  now_stock = morning;
  monotonic = 900 * 1_000_000;
  loop_running = true;
  quote = λ key. (none, none);
}

abbrev context : Context ℤ
context = record { config = config; signal = signal; portfolio = portfolio; readings = readings }

abbrev daily : DailyRiskState ℤ
daily = record {
  realised_pnl = some (negsuc 1_999_999);
  last_signal_time = some (naive (morning - 900 * 1_000_000));
  signals_per_stock = some ((7, 2) ∷ []);
}

abbrev start : EngineState ℤ
start = record {
  counts = [];
  adv_cache = (7, pos 900_000) ∷ [];
  daily = daily;
  cooldowns = [];
  alerts = [];
}

abbrev after_start : EngineState ℤ
after_start = record {
  counts = (7, (20418, 1)) ∷ [];
  adv_cache = (7, pos 900_000) ∷ [];
  daily = record daily { signals_per_stock = some ((7, 1) ∷ []) };
  cooldowns = [];
  alerts = [];
}

abbrev decision : RiskDecision ℤ
decision = record {
  status = approved;
  reason = none;
  quantity = some (pos 20);
  risk_amount = some (units 1_000);
  risk_pct = some (units 1);
  risk_reward = some (units 2);
}

-- A quantity of 100 by risk, which the cap of 20% of the balance brings down to 20.
validate_approves : validate context start ≡ (ok decision, after_start)
unfolding validate run_rules adjust rules check check_errors check_reward check_regime
    check_daily_loss check_weekly_loss check_drawdown check_cooldown check_volatility check_size
    check_positions check_exposure check_liquidity check_spread check_window check_stock
    check_sector adjust_quantity risk_reward is_scanner get_api_error_count sector_of
    send_deduped_alert
validate_approves = refl

validate-approved_iff_example :
    ((validate context start ≡ (ok decision, after_start)) × (decision.status ≡ approved)) ↔ (
      (z : Sizing ℤ) × Passes (check context) rules unsized start z after_start
      × (approve context z ≡ ok decision))
validate-approved_iff_example = validate-approved_iff context start after_start decision

-- A target that is too near: a reward of half the risk.
abbrev poor : Context ℤ
poor = record context { signal = record signal { target_price = units 1005 } }

validate-fail_fast_example :
    validate poor start ≡ (ok (refused skipped (low_risk_reward (pos 5_000) (pos 15_000))), start)
unfolding rules check check_errors check_reward risk_reward get_api_error_count
validate-fail_fast_example =
    validate-fail_fast poor (consecutive_errors_circuit_breaker ∷ [])
      (global_market_regime_filter ∷ daily_loss_circuit_breaker ∷ weekly_loss_circuit_breaker
        ∷ account_drawdown_halt ∷ cooldown_filter ∷ volatility_filter ∷ position_sizer
        ∷ max_position_size_cap ∷ max_concurrent_positions ∷ gross_exposure_filter
        ∷ liquidity_filter ∷ spread_filter ∷ signal_time_gate_filter ∷ max_signals_per_stock_per_day
        ∷ correlation_filter ∷ [])
      min_risk_reward_filter start start start unsized
      (refused skipped (low_risk_reward (pos 5_000) (pos 15_000))) refl
      (next (plain pass) start refl (λ h. elim h [ inl e ↦ cc e | inr e ↦ cc e ]) (done refl refl))
      refl (inr refl)

validate-WithinLimits_example : WithinLimits context start
validate-WithinLimits_example =
    validate-WithinLimits context start after_start decision validate_approves refl

validate-quantity_example :
    (q : ℤ) × (some (pos 20) ≡ some q)
    × (pos 1 ≤ℤ q)
    × FitsCap context q
    × (some (units 1_000) ≡ some (units 1_000))
validate-quantity_example =
    validate-quantity context start after_start decision validate_approves refl

abbrev uncached : EngineState ℤ
uncached = record start { adv_cache = [] }

uncached-refused : validate context uncached ≡ (ok (refused blocked adv_data_missing), uncached)
unfolding validate run_rules adjust rules check check_errors check_reward check_regime
    check_daily_loss check_weekly_loss check_drawdown check_cooldown check_volatility check_size
    check_positions check_exposure check_liquidity risk_reward is_scanner get_api_error_count
uncached-refused = refl

abbrev four : List (Context ℤ)
four = context ∷ context ∷ context ∷ context ∷ []

-- Three of four signals pass.
passes_exact_example : passes 7 four start ≡ min 4 3
passes_exact_example =
    passes_exact 7 20418 3 four start
      ((refl, refl), ((refl, refl), ((refl, refl), ((refl, refl), tt))))

abbrev fresh : EngineState ℤ
fresh = record start { daily = record daily { signals_per_stock = none } }

abbrev alert_calls : List (String × ℕ)
alert_calls =
    ("daily_loss", 900_000_000)
    ∷ ("drawdown", 950_000_000)
    ∷ ("daily_loss", 1_000_000_000)
    ∷ ("daily_loss", 1_200_000_000)
    ∷ []

sent-alert_calls :
    sent alert_calls start
    ≡ ("daily_loss", 900_000_000) ∷ ("drawdown", 950_000_000) ∷ ("daily_loss", 1_200_000_000) ∷ []
unfolding sent send_deduped_alert
sent-alert_calls = refl

sent-IsSpaced_example : IsSpaced (sent alert_calls start)
sent-IsSpaced_example = sent-IsSpaced alert_calls start
