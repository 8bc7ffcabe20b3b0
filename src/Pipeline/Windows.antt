-- ===== src/Pipeline/Windows.antt =====
-- engine/time_filter_layer.py: the windows only get stricter during the day.
use quant_dss.Base.{ℕ, ◌≤◌, ◌≡◌, true, false, some, arith}
use quant_dss.Base.Float.{Float, IsOrdered}
use quant_dss.Signal.{as_utc}
use quant_dss.Pipeline.Consolidation.{ConsolidatedSignal}
use quant_dss.Pipeline.Gates.{clock, time_in_india, quality_of, evaluate_time}

module _ {W : Type 0} ⦃f : Float W⦄ where
  -- The time of the day in India of the signal's first time.
  abbrev pub day_time : ConsolidatedSignal W → ℕ
  day_time c = time_in_india (as_utc c.first_timestamp)

  module _ (o : IsOrdered W) where
    -- A score that reaches a threshold reaches a lower one, and so does a higher score.
    higher :
        (x y q q' : W) → f.le x y ≡ true → f.le q q' ≡ true → f.lt q y ≡ false → f.lt q' x ≡ false
    higher x y q q' h k n = ground (
      arith,
      o.le_refl_left x y h,
      o.le_refl_right x y h,
      o.le_refl_left q q' k,
      o.le_refl_right q q' k,
      o.lt-eq-not-le q y,
      o.lt-eq-not-le q' x,
      o.le_trans y q q',
      o.le_trans x y q',
    )

    -- If a signal passes the time filter, then so does every signal whose score is at least as high
    -- and whose time of the day is not later and not before 09:25, provided that 65 is at most 80.
    pub evaluate_time-earlier :
        (c c' : ConsolidatedSignal W)
        → f.le (f.lit 65 0) (f.lit 80 0) ≡ true
        → f.le (quality_of c) (quality_of c') ≡ true
        → day_time c' ≤ day_time c
        → clock 9 25 ≤ day_time c'
        → evaluate_time c ≡ some c
        → evaluate_time c' ≡ some c'
    unfolding evaluate_time
    evaluate_time-earlier c c' h k t b e =
        let low = f.lit 65 0 in
        let high = f.lit 80 0 in
        let q = quality_of c in
        let q' = quality_of c' in
        ground (
          arith,
          h,
          k,
          t,
          b,
          e,
          higher low high q q' h k,
          higher low low q q' (o.le_refl_left low high h) k,
          higher high high q q' (o.le_refl_right low high h) k,
        )
