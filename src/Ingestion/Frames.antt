-- ===== src/Ingestion/Frames.antt =====
-- ingestion/mtf_engine.py: candles of longer timeframes, built from those of shorter ones.
pub mod Volume
mod Tests
use quant_dss.Base.{
  ℕ, ◌+◌, ◌*◌, ◌/◌, Bool, true, false, Option, none, some, List, [], ◌∷◌, ◌++◌, ◌==◌, take, filter,
  if◌then◌else◌,
}
use quant_dss.Base.Float.{Float, nought, max, min}

pub data Timeframe : Type 0 where
  s1 s5 s15 s30 m1 m5 : Timeframe

-- `_tf_seconds`
abbrev pub tf_seconds : Timeframe → ℕ
tf_seconds s1 = 1
tf_seconds s5 = 5
tf_seconds s15 = 15
tf_seconds s30 = 30
tf_seconds m1 = 60
tf_seconds m5 = 300

-- Timeframes are compared as texts; their lengths tell them apart.
abbrev pub is_tf : Timeframe → Timeframe → Bool
is_tf a b = tf_seconds a == tf_seconds b

-- `_floor_time`, of a time in microseconds, for seconds that are not 0.
abbrev pub floor_time : (time seconds : ℕ) → ℕ
floor_time t s = t / (s * 1_000_000) * (s * 1_000_000)

-- `MTFCandle`
pub record MtfCandle (W : Type 0) : Type 0 where
  pub time : ℕ
  pub open_price : W
  pub high : W
  pub low : W
  pub close : W
  pub volume : ℕ
  pub timeframe : Timeframe
  pub complete : Bool

-- What the engine keeps for one symbol: the history of each timeframe, the last candle first, and
-- the candle that is being built.
pub record Frames (W : Type 0) : Type 0 where
  pub history : Timeframe → List (MtfCandle W)
  pub current : Timeframe → Option (MtfCandle W)

module _ {W : Type 0} where
  abbrev pub new_candle : (time : ℕ) → W → Timeframe → MtfCandle W
  new_candle t price tf = record {
    time = t;
    open_price = price;
    high = price;
    low = price;
    close = price;
    volume = 0;
    timeframe = tf;
    complete = false;
  }

  -- `_ensure_symbol`
  abbrev pub new_frames : Frames W
  new_frames = record { history = λ tf. []; current = λ tf. none }

  abbrev pub put : Timeframe → MtfCandle W → Frames W → Frames W
  put tf c fr = record fr { current = λ x. if is_tf tf x then some c else fr.current x }

  -- The deque keeps 200 candles.
  abbrev pub archive : Timeframe → MtfCandle W → Frames W → Frames W
  archive tf c fr = record fr {
    history = λ x. if is_tf tf x then take 200 (c ∷ fr.history x) else fr.history x;
  }

  abbrev pub completed : MtfCandle W → MtfCandle W
  completed c = record c { complete = true }

  -- The candle being built takes the change, or it is closed and a fresh one takes it.
  unfoldable pub roll_frame :
      (tf : Timeframe)
      → (start : ℕ) → (fresh : MtfCandle W) → (change : MtfCandle W → MtfCandle W) → Frames W
      → List (MtfCandle W) × Frames W
  roll_frame tf start fresh change fr = elim (fr.current tf) [
    | none ↦ ([], put tf (change fresh) fr)
    | some c ↦
        if c.time == start
        then ([], put tf (change c) fr)
        else (completed c ∷ [], put tf (change fresh) (archive tf (completed c) fr))
  ]

module _ {W : Type 0} ⦃f : Float W⦄ where
  -- `MTFCandle.update`
  abbrev pub update : (price : W) → (volume : ℕ) → MtfCandle W → MtfCandle W
  update price volume c = record c {
    high = max c.high price;
    low = min c.low price;
    close = price;
    volume = c.volume + volume;
  }

  -- `MTFCandle.merge`
  abbrev pub merge_candle : (other : MtfCandle W) → MtfCandle W → MtfCandle W
  merge_candle o c = record c {
    open_price = if f.eq c.open_price nought then o.open_price else c.open_price;
    high = max c.high o.high;
    low = if f.lt nought c.low then min c.low o.low else o.low;
    close = o.close;
    volume = c.volume + o.volume;
  }

  -- `_update_candle`
  unfoldable pub update_candle :
      Timeframe → (price : W) → (volume time : ℕ) → Frames W → List (MtfCandle W) × Frames W
  update_candle tf price volume t fr =
      let start = floor_time t (tf_seconds tf) in
      roll_frame tf start (new_candle start price tf) (update price volume) fr

  -- `_aggregate_up`
  unfoldable pub aggregate_up :
      (parent : Timeframe) → (child : MtfCandle W) → Frames W → List (MtfCandle W) × Frames W
  aggregate_up parent c fr =
      let start = floor_time c.time (tf_seconds parent) in
      roll_frame parent start (new_candle start c.open_price parent) (merge_candle c) fr

  -- The completed children of a timeframe, one after the other.
  abbrev pub aggregate_all :
      (parent : Timeframe)
      → (children : List (MtfCandle W)) → Frames W
      → List (MtfCandle W) × Frames W
  aggregate_all parent [] fr = ([], fr)
  aggregate_all parent (c ∷ l) fr =
      let (here, fr') = aggregate_up parent c fr in
      let (later, fr'') = aggregate_all parent l fr' in (here ++ later, fr'')

  -- One entry of the hierarchy.
  abbrev pub cascade :
      (parent child : Timeframe) → List (MtfCandle W) × Frames W → List (MtfCandle W) × Frames W
  cascade parent child (done, fr) =
      let (more, fr') =
        aggregate_all parent (filter (λ (c : MtfCandle W). is_tf c.timeframe child) done) fr in
      (done ++ more, fr')

  -- `process_tick`, with the completed candles.
  unfoldable pub process_frame_tick :
      (price : W) → (volume time : ℕ) → Frames W → List (MtfCandle W) × Frames W
  process_frame_tick price volume t fr = cascade m5 m1 (
      cascade m1 s30
        (cascade s30 s15 (cascade s15 s5 (cascade s5 s1 (update_candle s1 price volume t fr)))))

  -- `process_1m_candle`, of a candle whose times and numbers are read.
  unfoldable pub process_1m_candle : MtfCandle W → Frames W → List (MtfCandle W) × Frames W
  process_1m_candle c fr =
      let c' = record c { timeframe = m1; complete = true } in aggregate_up m5 c' (archive m1 c' fr)
