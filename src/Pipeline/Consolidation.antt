-- ===== src/Pipeline/Consolidation.antt =====
-- engine/consolidation_layer.py: the signals of one symbol and direction become one.
use quant_dss.Base.{
  ℕ, Bool, true, false, not, ◌&&◌, Option, some, none, List, [], ◌∷◌, String, ltb, any, filter,
  if◌then◌else◌,
}
use quant_dss.Base.Dict.{Dict, string_key, insert}
use quant_dss.Base.Float.{Float, nought}
use quant_dss.Signal.{CandidateSignal, Stamp, naive, aware, as_utc}
use text.Mathlib.Text.{◌==◌ as str_eq}

-- `total_confirmation_weight` is no field of the class: it is `none` until the confirmation sets it.
pub record ConsolidatedSignal (W : Type 0) : Type 0 where
  pub symbol_id : ℕ
  pub symbol_name : String
  pub signal_type : String
  pub first_timestamp : Stamp
  pub last_timestamp : Stamp
  pub entry_price : W
  pub stop_loss : W
  pub target_price : W
  pub atr_value : W
  pub contributing_signals : Dict String (CandidateSignal W)
  pub market_regime : Option String
  pub relative_strength : W
  pub quality_score : Option W
  pub total_weight : W
  pub ml_probability : W
  pub nlp_sentiment : String
  pub risk_quantity : Option ℕ
  pub risk_amount : Option W
  pub total_confirmation_weight : Option W

-- `a < b` on times of one kind.
abbrev pub earlier : Stamp → Stamp → Bool
earlier a b = ltb (as_utc a) (as_utc b)

abbrev is_naive : Stamp → Bool
is_naive (naive t) = true
is_naive (aware t) = false

module _ {W : Type 0} where
  abbrev pub is_type : String → CandidateSignal W → Bool
  is_type d s = str_eq s.signal_type d

  -- `sort(key=lambda x: x.candle_time)`, which keeps the order of equal times.
  abbrev pub place : CandidateSignal W → List (CandidateSignal W) → List (CandidateSignal W)
  place x [] = x ∷ []
  place x (y ∷ l) =
      let rest = place x l in if earlier y.candle_time x.candle_time then y ∷ rest else x ∷ y ∷ l

  abbrev pub sort : List (CandidateSignal W) → List (CandidateSignal W)
  sort [] = []
  sort (x ∷ l) = place x (sort l)

  -- A sort of naive and aware times raises: it cannot do without a comparison of the two kinds.
  abbrev pub is_mixed : List (CandidateSignal W) → Bool
  is_mixed l =
      any (λ (s : CandidateSignal W). is_naive s.candle_time) l
      && any (λ (s : CandidateSignal W). not (is_naive s.candle_time)) l

module _ {W : Type 0} ⦃f : Float W⦄ where
  -- `bool(x)`
  abbrev pub truthy : W → Bool
  truthy x = not (f.eq x nought)

  abbrev distance : W → W → W
  distance a b = f.abs (f.sub a b)

  -- `ConsolidatedSignal(primary_signal)`
  abbrev pub consolidated : CandidateSignal W → ConsolidatedSignal W
  consolidated p = record {
    symbol_id = p.symbol_id;
    symbol_name = p.symbol_name;
    signal_type = p.signal_type;
    first_timestamp = p.candle_time;
    last_timestamp = p.candle_time;
    entry_price = p.entry_price;
    stop_loss = p.stop_loss;
    target_price = p.target_price;
    atr_value = p.atr_value;
    contributing_signals = insert p.strategy_name p [];
    market_regime = p.market_regime;
    relative_strength = p.relative_strength;
    quality_score = none;
    total_weight = nought;
    ml_probability = nought;
    nlp_sentiment = "NEUTRAL";
    risk_quantity = none;
    risk_amount = none;
    total_confirmation_weight = none;
  }

  -- `merge`. The times that come to it have passed the sort, so they are of one kind.
  unfoldable pub merge : CandidateSignal W → ConsolidatedSignal W → ConsolidatedSignal W
  merge s c =
      let newer = earlier c.last_timestamp s.candle_time in
      let closer =
        truthy s.stop_loss
        && f.lt (distance s.entry_price s.stop_loss) (distance c.entry_price c.stop_loss) in
      let wider =
        truthy s.target_price
        && f.lt (distance c.target_price c.entry_price) (distance s.target_price s.entry_price) in
      record c {
        contributing_signals = insert s.strategy_name s c.contributing_signals;
        last_timestamp = if newer then s.candle_time else c.last_timestamp;
        market_regime = if newer then s.market_regime else c.market_regime;
        relative_strength = if newer then s.relative_strength else c.relative_strength;
        first_timestamp =
            if earlier s.candle_time c.first_timestamp then s.candle_time else c.first_timestamp;
        stop_loss = if closer then s.stop_loss else c.stop_loss;
        target_price = if wider then s.target_price else c.target_price;
      }

  abbrev pub merge_all : List (CandidateSignal W) → ConsolidatedSignal W → ConsolidatedSignal W
  merge_all [] c = c
  merge_all (s ∷ l) c = merge_all l (merge s c)

  abbrev pub merge_sorted : List (CandidateSignal W) → Option (ConsolidatedSignal W)
  merge_sorted [] = none
  merge_sorted (p ∷ l) = some (merge_all l (consolidated p))

  -- `process_signal_group`: what goes to the next layer. `none` also stands for the TypeError of
  -- the sort, after which nothing goes on.
  unfoldable pub process_signal_group : List (CandidateSignal W) → Option (ConsolidatedSignal W)
  process_signal_group [] = none
  process_signal_group (s ∷ l) =
      let signals = s ∷ l in
      let group = filter (is_type s.signal_type) signals in
      if any (is_type "BUY") signals && any (is_type "SELL") signals
      then none
      else if is_mixed group
      then none
      else merge_sorted (sort group)
