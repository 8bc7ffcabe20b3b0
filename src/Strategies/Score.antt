-- ===== src/Strategies/Score.antt =====
-- engine/strategies/: the signals that come out, their prices, directions and scores.
use quant_dss.Base.{
  ◌≡◌, refl, subst, ◌⊎◌, inl, inr, Bool, true, false, Option, none, some, List, [], ◌∷◌, String,
  arith, if◌then◌else◌,
}
use quant_dss.Base.Float.{Float, IsOrdered, nought, max}
use quant_dss.Base.Exec.{ok}
use quant_dss.Signal.{CandidateSignal}
use quant_dss.Strategies.{Bar, Setup, clamped, signal}
use quant_dss.Strategies.Crossover.{evaluate_crossover, crossover, crossover_score}
use quant_dss.Strategies.Reversion.{evaluate_reversion, reversion, reversion_score}
use quant_dss.Strategies.Range.{evaluate_range, range_breakout, break_range}
use quant_dss.Strategies.Volume.{evaluate_expansion, expansion, breakout_of, volume_score}
use quant_dss.Strategies.Trend.{evaluate_trend, trend, trend_score}
use quant_dss.Strategies.Registry.{
  Strategy, ema_crossover, rsi_mean_reversion, orb_vwap, volume_expansion, trend_continuation,
  failed_breakout, vwap_reclaim, trend_pullback, relative_strength, evaluate,
}
use quant_dss.Strategies.Silent.{evaluate-never}

-- The bounds of a score are numbers in their order.
pub record IsScaled (W : Type 0) ⦃f : Float W⦄ : Type 0 where
  pub zero_zero : f.le nought nought ≡ true
  pub zero_hundred : f.le nought (f.lit 100 0) ≡ true
  pub hundred_hundred : f.le (f.lit 100 0) (f.lit 100 0) ≡ true

module _ {W : Type 0} ⦃f : Float W⦄ where
  -- From 0 to 100, which a value that is not a number is not.
  pub record IsScore (x : W) : Type 0 where
    pub least : f.le nought x ≡ true
    pub most : f.le x (f.lit 100 0) ≡ true

  -- A signal at the close of a bar, to buy or to sell, with a score.
  pub record IsFair (b : Bar W) (x : CandidateSignal W) : Type 0 where
    pub at_close : x.entry_price ≡ b.close
    pub side : (x.signal_type ≡ "BUY") ⊎ (x.signal_type ≡ "SELL")
    pub score : IsScore x.confidence_score

  -- The signal, if there is one, is fair.
  record AreFair (b : Bar W) (o : Option (CandidateSignal W)) : Type 0 where
    fair : (x : CandidateSignal W) → o ≡ some x → IsFair b x

  none-AreFair : (b : Bar W) → AreFair b none
  none-AreFair b = record { fair = λ x e. absurd (cc e) }

  if-AreFair :
      (b : Bar W) (c : Bool) (x y : Option (CandidateSignal W))
      → AreFair b x
      → AreFair b y
      → AreFair b (if c then x else y)
  if-AreFair b true x y h k = h
  if-AreFair b false x y h k = k

  same_signal : (b : Bar W) (x y : CandidateSignal W) → IsFair b x → some x ≡ some y → IsFair b y
  same_signal b x y h e = subst (IsFair b) (some_inj e) h
    where
      some_inj : {x y : CandidateSignal W} → some x ≡ some y → x ≡ y
      some_inj e = cc e

  buy-AreFair :
      (s : Setup W) (name : String) (b : Bar W) (stop target score : W)
      → IsScore score
      → AreFair b (some (signal s name "BUY" b b.close stop target score))
  unfolding signal
  buy-AreFair s name b stop target score h = record {
    fair = λ x.
        same_signal b (signal s name "BUY" b b.close stop target score) x
          (record { at_close = refl; side = inl refl; score = h });
  }

  sell-AreFair :
      (s : Setup W) (name : String) (b : Bar W) (stop target score : W)
      → IsScore score
      → AreFair b (some (signal s name "SELL" b b.close stop target score))
  unfolding signal
  sell-AreFair s name b stop target score h = record {
    fair = λ x.
        same_signal b (signal s name "SELL" b b.close stop target score) x
          (record { at_close = refl; side = inr refl; score = h });
  }

module _ {W : Type 0} ⦃f : Float W⦄ (o : IsOrdered W) (z : IsScaled W) where
  -- `max(0.0, x)` is a number, whatever `x` is.
  clamped-IsScore : (x : W) → IsScore (clamped x)
  clamped-IsScore x = ground (
    arith,
    o.lt-le nought x,
    o.lt-le (max nought x) (f.lit 100 0),
    z.zero_zero,
    z.zero_hundred,
    z.hundred_hundred,
  )

  crossover_score-IsScore :
      (gap : W) (is_sloped : Bool) (curr prev : Bar W)
      → IsScore (crossover_score gap is_sloped curr prev)
  unfolding crossover_score
  crossover_score-IsScore gap is_sloped curr prev = clamped-IsScore _

  reversion_score-IsScore :
      (depth distance : W) (has_bonus : Bool) (b : Bar W)
      → IsScore (reversion_score depth distance has_bonus b)
  unfolding reversion_score
  reversion_score-IsScore depth distance has_bonus b = clamped-IsScore _

  volume_score-IsScore : (s : Setup W) (curr prev : Bar W) → IsScore (volume_score s curr prev)
  unfolding volume_score
  volume_score-IsScore s curr prev = clamped-IsScore _

  trend_score-IsScore : (b : Bar W) → IsScore (trend_score b)
  unfolding trend_score
  trend_score-IsScore b = clamped-IsScore _

  nought-IsScore : IsScore (nought {W = W})
  nought-IsScore = record { least = z.zero_zero; most = z.zero_hundred }

  crossover-AreFair :
      (s : Setup W) (curr prev : Bar W) (rest : List (Bar W))
      → AreFair curr (crossover s curr prev rest)
  unfolding crossover
  crossover-AreFair s curr prev rest =
      search (if-AreFair, none-AreFair, buy-AreFair, sell-AreFair, crossover_score-IsScore) depth 12

  reversion-AreFair : (s : Setup W) (curr prev : Bar W) → AreFair curr (reversion s curr prev)
  unfolding reversion
  reversion-AreFair s curr prev =
      search (if-AreFair, none-AreFair, buy-AreFair, sell-AreFair, reversion_score-IsScore) depth 12

  trend-AreFair : (s : Setup W) (b : Bar W) → AreFair b (trend s b)
  unfolding trend
  trend-AreFair s b =
      search (if-AreFair, none-AreFair, buy-AreFair, sell-AreFair, trend_score-IsScore) depth 12

  breakout_of-AreFair :
      (s : Setup W) (curr prev : Bar W) (window : List (Bar W))
      → AreFair curr (breakout_of s curr prev window)
  unfolding breakout_of
  breakout_of-AreFair s curr prev window =
      search (if-AreFair, none-AreFair, buy-AreFair, sell-AreFair, volume_score-IsScore) depth 12

  expansion-AreFair :
      (s : Setup W) (curr prev : Bar W) (rest : List (Bar W))
      → AreFair curr (expansion s curr prev rest)
  unfolding expansion
  expansion-AreFair s curr prev rest =
      search (if-AreFair, none-AreFair, breakout_of-AreFair) depth 12

  break_range-AreFair :
      (s : Setup W) (curr prev : Bar W) (high low : W)
      → AreFair curr (break_range s curr prev high low)
  unfolding break_range
  break_range-AreFair s curr prev high low =
      search (if-AreFair, none-AreFair, buy-AreFair, sell-AreFair, nought-IsScore) depth 12

  range_breakout-AreFair :
      (s : Setup W) (curr prev : Bar W) (levels : Option (W × W))
      → AreFair curr (range_breakout s curr prev levels)
  unfolding range_breakout
  range_breakout-AreFair s curr prev none = none-AreFair curr
  range_breakout-AreFair s curr prev (some (high, low)) =
      if-AreFair curr _ _ _ (none-AreFair curr) (break_range-AreFair s curr prev high low)

  evaluate_crossover-AreFair :
      (s : Setup W) (curr : Bar W) (bars : List (Bar W))
      → AreFair curr (evaluate_crossover s (curr ∷ bars))
  unfolding evaluate_crossover
  evaluate_crossover-AreFair s curr [] = none-AreFair curr
  evaluate_crossover-AreFair s curr (prev ∷ rest) =
      if-AreFair curr _ _ _ (none-AreFair curr) (crossover-AreFair s curr prev rest)

  evaluate_reversion-AreFair :
      (s : Setup W) (curr : Bar W) (bars : List (Bar W))
      → AreFair curr (evaluate_reversion s (curr ∷ bars))
  unfolding evaluate_reversion
  evaluate_reversion-AreFair s curr [] = none-AreFair curr
  evaluate_reversion-AreFair s curr (prev ∷ rest) =
      if-AreFair curr _ _ _ (none-AreFair curr) (reversion-AreFair s curr prev)

  evaluate_range-AreFair :
      (s : Setup W) (curr : Bar W) (bars : List (Bar W))
      → AreFair curr (evaluate_range s (curr ∷ bars))
  unfolding evaluate_range
  evaluate_range-AreFair s curr [] = none-AreFair curr
  evaluate_range-AreFair s curr (prev ∷ rest) =
      if-AreFair curr _ _ _ (none-AreFair curr)
        (if-AreFair curr _ _ _ (range_breakout-AreFair s curr prev _) (none-AreFair curr))

  evaluate_expansion-AreFair :
      (s : Setup W) (curr : Bar W) (bars : List (Bar W))
      → AreFair curr (evaluate_expansion s (curr ∷ bars))
  unfolding evaluate_expansion
  evaluate_expansion-AreFair s curr [] = none-AreFair curr
  evaluate_expansion-AreFair s curr (prev ∷ rest) =
      if-AreFair curr _ _ _ (none-AreFair curr) (expansion-AreFair s curr prev rest)

  evaluate_trend-AreFair :
      (s : Setup W) (curr : Bar W) (bars : List (Bar W))
      → AreFair curr (evaluate_trend s (curr ∷ bars))
  unfolding evaluate_trend
  evaluate_trend-AreFair s curr bars =
      if-AreFair curr _ _ _ (none-AreFair curr) (trend-AreFair s curr)

  found : (x y : Option (CandidateSignal W)) → ok x ≡ ok y → x ≡ y
  found x y e = cc e

  -- If the order of numbers is that of IEEE 754, then every signal of every strategy, whatever its
  -- parameters, is at the close of the newest bar, to buy or to sell, with a score from 0 to 100,
  -- also where the indicators are no numbers.
  pub evaluate-IsFair :
      (k : Strategy) (s : Setup W) (curr : Bar W) (bars : List (Bar W)) (x : CandidateSignal W)
      → evaluate k s (curr ∷ bars) ≡ ok (some x)
      → IsFair curr x
  evaluate-IsFair ema_crossover s curr bars x e =
      (evaluate_crossover-AreFair s curr bars).fair x (found _ _ e)
  evaluate-IsFair rsi_mean_reversion s curr bars x e =
      (evaluate_reversion-AreFair s curr bars).fair x (found _ _ e)
  evaluate-IsFair orb_vwap s curr bars x e =
      (evaluate_range-AreFair s curr bars).fair x (found _ _ e)
  evaluate-IsFair volume_expansion s curr bars x e =
      (evaluate_expansion-AreFair s curr bars).fair x (found _ _ e)
  evaluate-IsFair trend_continuation s curr bars x e =
      (evaluate_trend-AreFair s curr bars).fair x (found _ _ e)
  evaluate-IsFair failed_breakout s curr bars x e =
      absurd (evaluate-never failed_breakout s (curr ∷ bars) x (inl refl) e)
  evaluate-IsFair vwap_reclaim s curr bars x e =
      absurd (evaluate-never vwap_reclaim s (curr ∷ bars) x (inr (inl refl)) e)
  evaluate-IsFair trend_pullback s curr bars x e =
      absurd (evaluate-never trend_pullback s (curr ∷ bars) x (inr (inr (inl refl))) e)
  evaluate-IsFair relative_strength s curr bars x e =
      absurd (evaluate-never relative_strength s (curr ∷ bars) x (inr (inr (inr refl))) e)
