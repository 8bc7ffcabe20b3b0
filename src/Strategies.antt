-- ===== src/Strategies.antt =====
-- engine/strategies/: what the strategies share. A frame has its bars with the newest first, and all
-- indicator columns that its strategy asks for; a value that is missing is NaN.
pub mod Crossover
pub mod Reversion
pub mod Trend
pub mod Volume
pub mod Range
pub mod Reclaim
pub mod Pullback
pub mod Breakout
pub mod Relative
pub mod Registry
pub mod Score
pub mod Silent
mod Tests
use quant_dss.Base.{
  ℕ, ◌+◌, Bool, true, false, not, ◌&&◌, Option, some, none, List, [], ◌∷◌, String, ltb, leb,
  if◌then◌else◌, or_default, length,
}
use quant_dss.Base.Dict.{Dict, string_key, lookup}
use quant_dss.Base.Float.{Float, nought, min, max}
use quant_dss.Base.Exec.{Result, ok, raised, type_error}
use quant_dss.Signal.{CandidateSignal, Stamp}

-- A row of the frame.
pub record Bar (W : Type 0) : Type 0 where
  pub time : Stamp
  pub price_open : W
  pub high : W
  pub low : W
  pub close : W
  pub volume : W
  pub ema_fast : W
  pub ema_slow : W
  pub ema_trend : W
  pub ema_9 : W
  pub ema_21 : W
  pub ema_50 : W
  pub rsi : W
  pub atr : W
  pub volume_ma : W
  pub vwap : W
  pub or_high : W
  pub or_low : W

-- A strategy object, with its parameters that are counts apart, and the symbol that it looks at.
pub record Setup (W : Type 0) : Type 0 where
  pub strategy_id : ℕ
  pub symbol_id : ℕ
  pub params : Dict String W
  pub periods : Dict String ℕ

-- `max(a, b)` of two counts.
abbrev pub max_ℕ : ℕ → ℕ → ℕ
max_ℕ a b = if ltb a b then b else a

module _ {W : Type 0} where
  -- `self.params.get(key, default)`
  abbrev pub period : Setup W → String → ℕ → ℕ
  period s key d = or_default d (lookup key s.periods)

  abbrev pub param : Setup W → String → W → W
  param s key d = or_default d (lookup key s.params)

module _ {W : Type 0} ⦃f : Float W⦄ where
  -- `pd.isna(x)`
  abbrev pub is_na : W → Bool
  is_na x = not (f.eq x x)

  -- `x if not pd.isna(x) else d`
  abbrev pub or_na : W → W → W
  or_na d x = if is_na x then d else x

  -- `a / b if b > 0 else 0`
  abbrev pub ratio : W → W → W
  ratio a b = if f.lt nought b then f.quotient a b else nought

  -- `min(100.0, max(0.0, score))`
  abbrev pub clamped : W → W
  clamped score = min (f.lit 100 0) (max nought score)

  -- `CandidateSignal(...)` with the defaults of the class.
  unfoldable pub signal :
      Setup W → (name type : String) → Bar W → (entry stop target score : W) → CandidateSignal W
  signal s name type bar entry stop target score = record {
    symbol_id = s.symbol_id;
    strategy_id = s.strategy_id;
    strategy_name = name;
    signal_type = type;
    entry_price = entry;
    stop_loss = stop;
    target_price = target;
    atr_value = bar.atr;
    candle_time = bar.time;
    confidence_score = score;
    symbol_name = "";
    strategies = name ∷ [];
    base_strategy = name;
    indicator_snapshot = [];
    volume_ratio = f.lit 1 0;
    spread = nought;
    relative_strength = nought;
    market_regime = none;
    metadata = [];
    strategy = none;
    instrument_key = none;
  }

  -- `RawSignal(...)` as four of the strategies call it: RawSignal is CandidateSignal, and the
  -- argument strategy_name, which has no default, is missing.
  abbrev pub raw_signal :
      (type : String) → (entry stop target score : W) → Result (Option (CandidateSignal W))
  raw_signal type entry stop target score = raised type_error
