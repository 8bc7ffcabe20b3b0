-- ===== src/Signal.antt =====
-- engine/base_strategy.py: the candidate signals that strategies emit.
use quant_dss.Base.{ℕ, Bool, false, Option, none, some, List, String, if◌then◌else◌}
use quant_dss.Base.Dict.{Dict, string_key, lookup}
use quant_dss.Base.Float.{Float, nought}
use quant_dss.Base.Exec.{Result, ok, divide, then_ok}
use text.Mathlib.Text.{◌==◌ as str_eq}

-- A `datetime` in microseconds: the wall clock of a naive one, the UTC instant of an aware one.
pub data Stamp : Type 0 where
  naive : ℕ → Stamp
  aware : ℕ → Stamp

-- `ts.replace(tzinfo=UTC)` where `tzinfo` is None.
abbrev pub as_utc : Stamp → ℕ
as_utc (naive t) = t
as_utc (aware t) = t

-- `CandidateSignal`. `market_snapshot` is carried and never read. `strategy` and
-- `instrument_key` are no fields of the class: they are `none` unless code sets the attribute.
pub record CandidateSignal (W : Type 0) : Type 0 where
  pub symbol_id : ℕ
  pub strategy_id : ℕ
  pub strategy_name : String
  pub signal_type : String
  pub entry_price : W
  pub stop_loss : W
  pub target_price : W
  pub atr_value : W
  pub candle_time : Stamp
  pub confidence_score : W
  pub symbol_name : String
  pub strategies : List String
  pub base_strategy : String
  pub indicator_snapshot : Dict String W
  pub volume_ratio : W
  pub spread : W
  pub relative_strength : W
  pub market_regime : Option String
  pub metadata : Dict String String
  pub strategy : Option String
  pub instrument_key : Option String

module _ {W : Type 0} where
  -- `signal.metadata.get("source") == "scanner"`
  unfoldable pub is_scanner : CandidateSignal W → Bool
  is_scanner s = elim (lookup "source" s.metadata) [ none ↦ false | some v ↦ str_eq v "scanner" ]

module _ {W : Type 0} ⦃f : Float W⦄ where
  -- `risk` and `reward` of the property.
  abbrev risk_of : CandidateSignal W → W
  risk_of s =
      if str_eq s.signal_type "BUY"
      then f.sub s.entry_price s.stop_loss
      else f.sub s.stop_loss s.entry_price

  abbrev reward_of : CandidateSignal W → W
  reward_of s =
      if str_eq s.signal_type "BUY"
      then f.sub s.target_price s.entry_price
      else f.sub s.entry_price s.target_price

  -- `CandidateSignal.risk_reward`
  unfoldable pub risk_reward : CandidateSignal W → Result W
  risk_reward s =
      if f.le (risk_of s) nought
      then ok nought
      else then_ok (divide (reward_of s) (risk_of s)) (λ q. ok (f.round 2 q))
