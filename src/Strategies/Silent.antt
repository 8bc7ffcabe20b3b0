-- ===== src/Strategies/Silent.antt =====
-- engine/strategies/: the strategies that construct their signal without its name.
use quant_dss.Base.{
  ◌≡◌, ◌≢◌, ◌⊎◌, arith, Bool, true, false, Option, none, some, List, [], ◌∷◌, if◌then◌else◌,
  elim_option,
}
use quant_dss.Base.Dict.{string_key, lookup}
use quant_dss.Base.Float.{Float}
use quant_dss.Base.Exec.{Exn, Result, ok, raised, then_ok}
use quant_dss.Signal.{CandidateSignal}
use quant_dss.Strategies.{Bar, Setup}
use quant_dss.Strategies.Reclaim.{evaluate_reclaim, reclaim, reclaimed}
use quant_dss.Strategies.Pullback.{evaluate_pullback, pullback, resumed}
use quant_dss.Strategies.Breakout.{evaluate_breakout, fade_break, fade_up, fade_down}
use quant_dss.Strategies.Relative.{evaluate_relative, relative, stronger}
use quant_dss.Strategies.Registry.{
  Strategy, ema_crossover, rsi_mean_reversion, orb_vwap, volume_expansion, trend_continuation,
  failed_breakout, vwap_reclaim, trend_pullback, relative_strength, evaluate,
}

module _ {W : Type 0} where
  abbrev Quiet : Result (Option (CandidateSignal W)) → Type 0
  Quiet (ok none) = Unit
  Quiet (ok (some s)) = ⊥
  Quiet (raised e) = Unit

  -- No signal comes out: there is none, or an exception.
  record IsSilent (x : Result (Option (CandidateSignal W))) : Type 0 where
    quiet : Quiet x

  silent : IsSilent (ok none)
  silent = record { quiet = tt }

  then-IsSilent :
      {A : Type 0} (x : Result A) (g : A → Result (Option (CandidateSignal W)))
      → ((a : A) → IsSilent (g a))
      → IsSilent (then_ok x g)
  then-IsSilent (ok a) g h = h a
  then-IsSilent (raised e) g h = record { quiet = tt }

  raised-IsSilent : (e : Exn) → IsSilent (raised e)
  raised-IsSilent e = record { quiet = tt }

  if-IsSilent :
      (c : Bool) (x y : Result (Option (CandidateSignal W)))
      → IsSilent x
      → IsSilent y
      → IsSilent (if c then x else y)
  if-IsSilent true x y h k = h
  if-IsSilent false x y h k = k

  never :
      (x : Result (Option (CandidateSignal W))) (s : CandidateSignal W)
      → IsSilent x
      → x ≢ ok (some s)
  never (ok none) s h e = cc e
  never (ok (some t)) s h e = absurd h.quiet
  never (raised t) s h e = cc e

-- The strategies that construct their signal without its name.
abbrev pub IsUnnamed : Strategy → Type 0
IsUnnamed k =
    (k ≡ failed_breakout) ⊎ (k ≡ vwap_reclaim) ⊎ (k ≡ trend_pullback) ⊎ (k ≡ relative_strength)

ruleset quietly = (if-IsSilent, silent, raised-IsSilent, then-IsSilent)

module _ {W : Type 0} ⦃f : Float W⦄ where
  reclaim-IsSilent : (s : Setup W) (curr prev : Bar W) → IsSilent (reclaim s curr prev)
  unfolding reclaim reclaimed
  reclaim-IsSilent s curr prev = search quietly

  pullback-IsSilent : (s : Setup W) (curr prev : Bar W) → IsSilent (pullback s curr prev)
  unfolding pullback resumed
  pullback-IsSilent s curr prev = search quietly depth 12

  fade_break-IsSilent : (s : Setup W) (curr prev : Bar W) → IsSilent (fade_break s curr prev)
  unfolding fade_break fade_up fade_down
  fade_break-IsSilent s curr prev = search quietly

  relative-IsSilent : (s : Setup W) (edge : W) (b : Bar W) → IsSilent (relative s edge b)
  unfolding relative stronger
  relative-IsSilent s edge b = search quietly

  evaluate_reclaim-IsSilent :
      (s : Setup W) (bars : List (Bar W)) → IsSilent (evaluate_reclaim s bars)
  unfolding evaluate_reclaim
  evaluate_reclaim-IsSilent s [] = silent
  evaluate_reclaim-IsSilent s (curr ∷ []) = silent
  evaluate_reclaim-IsSilent s (curr ∷ prev ∷ rest) =
      if-IsSilent _ _ _ silent (if-IsSilent _ _ _ (reclaim-IsSilent s curr prev) silent)

  evaluate_pullback-IsSilent :
      (s : Setup W) (bars : List (Bar W)) → IsSilent (evaluate_pullback s bars)
  unfolding evaluate_pullback
  evaluate_pullback-IsSilent s [] = silent
  evaluate_pullback-IsSilent s (curr ∷ []) = silent
  evaluate_pullback-IsSilent s (curr ∷ prev ∷ rest) =
      if-IsSilent _ _ _ silent (if-IsSilent _ _ _ (pullback-IsSilent s curr prev) silent)

  evaluate_breakout-IsSilent :
      (s : Setup W) (bars : List (Bar W)) → IsSilent (evaluate_breakout s bars)
  unfolding evaluate_breakout
  evaluate_breakout-IsSilent s [] = silent
  evaluate_breakout-IsSilent s (curr ∷ []) = silent
  evaluate_breakout-IsSilent s (curr ∷ prev ∷ rest) =
      if-IsSilent _ _ _ silent (if-IsSilent _ _ _ (fade_break-IsSilent s curr prev) silent)

  evaluate_relative-IsSilent :
      (s : Setup W) (bars : List (Bar W)) → IsSilent (evaluate_relative s bars)
  unfolding evaluate_relative
  evaluate_relative-IsSilent s [] = silent
  evaluate_relative-IsSilent s (b ∷ rest) = if-IsSilent _ _ _ silent (
      elim_option IsSilent (lookup "nifty_return_1h" s.params) (ok none) _ (λ e. silent)
        (λ nifty e. search (if-IsSilent, silent, relative-IsSilent)))

  evaluate-IsSilent :
      (k : Strategy) (s : Setup W) (bars : List (Bar W))
      → IsUnnamed k
      → IsSilent (evaluate k s bars)
  evaluate-IsSilent failed_breakout s bars h = evaluate_breakout-IsSilent s bars
  evaluate-IsSilent vwap_reclaim s bars h = evaluate_reclaim-IsSilent s bars
  evaluate-IsSilent trend_pullback s bars h = evaluate_pullback-IsSilent s bars
  evaluate-IsSilent relative_strength s bars h = evaluate_relative-IsSilent s bars
  evaluate-IsSilent ema_crossover s bars h = absurd (ground (arith, h))
  evaluate-IsSilent rsi_mean_reversion s bars h = absurd (ground (arith, h))
  evaluate-IsSilent orb_vwap s bars h = absurd (ground (arith, h))
  evaluate-IsSilent volume_expansion s bars h = absurd (ground (arith, h))
  evaluate-IsSilent trend_continuation s bars h = absurd (ground (arith, h))

  -- Four of the strategies never give a signal, whatever their parameters and the bars are: the
  -- failed breakout, the VWAP reclaim, the trend pullback and the relative strength.
  pub evaluate-never :
      (k : Strategy) (s : Setup W) (bars : List (Bar W)) (x : CandidateSignal W)
      → IsUnnamed k
      → evaluate k s bars ≢ ok (some x)
  evaluate-never k s bars x h = never (evaluate k s bars) x (evaluate-IsSilent k s bars h)
