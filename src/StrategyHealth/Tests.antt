-- ===== src/StrategyHealth/Tests.antt =====
-- Runs of the health monitor on fixed-point numbers, and its theorems at concrete inputs.
use quant_dss.Base.{ℕ, ◌≡◌, refl, true, false, List, [], ◌∷◌, take}
use quant_dss.Base.Int.{ℤ, pos, negsuc}
use quant_dss.Base.Fixed.{fixed_float}
use quant_dss.StrategyHealth.{
  Store, pf_lookback, get_state, should_disable, win_rate_crash, profit_factor_collapse,
  record_trade, check_disabled, re_enable, replay,
}
use quant_dss.StrategyHealth.Streak.{streak, outcomes, replay-state}

-- Five losses after a win, the last one at 60.
abbrev losing : List (ℕ × ℤ)
losing =
    (60, negsuc 9999)
    ∷ (50, negsuc 9999)
    ∷ (40, negsuc 9999)
    ∷ (30, negsuc 9999)
    ∷ (20, negsuc 9999)
    ∷ (10, pos 20000)
    ∷ []

abbrev stored : Store ℤ
stored = replay 7 losing []

paused : (check_disabled 70 7 stored).0 ≡ true
unfolding check_disabled record_trade should_disable win_rate_crash profit_factor_collapse
paused = refl

resumed : (check_disabled 86_400_000_061 7 stored).0 ≡ false
unfolding check_disabled record_trade should_disable win_rate_crash profit_factor_collapse
resumed = refl

enabled_by_hand : (check_disabled 70 7 (re_enable 7 stored)).0 ≡ false
unfolding check_disabled re_enable record_trade should_disable win_rate_crash profit_factor_collapse
enabled_by_hand = refl

replay-state_example :
    ((get_state 7 (replay 7 losing [])).losses ≡ streak (outcomes losing))
    × ((get_state 7 (replay 7 losing [])).trades ≡ take pf_lookback (outcomes losing))
replay-state_example = replay-state 7 losing [] refl
