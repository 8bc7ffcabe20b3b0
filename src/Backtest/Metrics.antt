-- ===== src/Backtest/Metrics.antt =====
-- engine/backtest_engine.py: `_compute_metrics`, without the Sharpe ratio and the Monte Carlo runs,
-- which numpy computes.
use Prim.Native.Nat.{max as max_ℕ}
use quant_dss.Base.{
  ℕ, zero, suc, ◌+◌, ◌/◌, ◌≤◌, ◌≡◌, Bool, List, [], ◌∷◌, arith, length, take, filter, count_if,
  foldl, leb, map, if◌then◌else◌,
}
use quant_dss.Base.Int.{pos}
use quant_dss.Base.Float.{Float, nought, max, min}
use quant_dss.Backtest.Types.{BacktestTrade, Simulation}
use quant_dss.Backtest.Trade.{is_buy}

-- `BacktestResult`, without the names and dates that are only printed.
pub record BacktestResult (W : Type 0) : Type 0 where
  pub initial_balance : W
  pub final_balance : W
  pub total_return_pct : W
  pub total_trades : ℕ
  pub winning_trades : ℕ
  pub losing_trades : ℕ
  pub win_rate : W
  pub avg_win : W
  pub avg_loss : W
  pub max_drawdown_pct : W
  pub profit_factor : W
  pub max_losing_streak : ℕ
  pub strategy_degradation_pct : W
  pub total_costs : W
  pub trades : List (BacktestTrade W)
  pub equity_curve : List W

module _ {A : Type 0} where
  abbrev pub reversed : List A → List A
  reversed l = foldl (λ r x. x ∷ r) [] l

  -- `l[n:]`
  abbrev pub drop : ℕ → List A → List A
  drop zero l = l
  drop (suc n) [] = []
  drop (suc n) (x ∷ l) = drop n l

module _ {W : Type 0} ⦃f : Float W⦄ where
  abbrev pub is_winner : BacktestTrade W → Bool
  is_winner t = f.lt nought t.pnl

  abbrev pub is_loser : BacktestTrade W → Bool
  is_loser t = f.lt t.pnl nought

  abbrev pub count : ℕ → W
  count n = f.of_int (pos n)

  abbrev pub total : List W → W
  total l = foldl f.add nought l

  abbrev pub hundred : W
  hundred = f.lit 100 0

  -- The drawdown below the peak.
  abbrev pub drawdown : (peak eq : W) → W
  drawdown peak eq = if f.lt nought peak then f.quotient (f.sub peak eq) peak else nought

  abbrev pub max_drawdown : (peak worst : W) → List W → W
  max_drawdown peak worst [] = worst
  max_drawdown peak worst (eq ∷ l) =
      let peak' = max peak eq in max_drawdown peak' (max worst (drawdown peak' eq)) l

  -- The loop over the trades, with the longest streak so far and the current one.
  abbrev pub losing_streak : (longest current : ℕ) → List (BacktestTrade W) → ℕ
  losing_streak longest current [] = longest
  losing_streak longest current (t ∷ l) =
      let lost = losing_streak (max_ℕ longest (suc current)) (suc current) l in
      let won = losing_streak longest 0 l in if is_loser t then lost else won

  unfoldable pub max_losing_streak_of : List (BacktestTrade W) → ℕ
  max_losing_streak_of l = losing_streak 0 0 l

  -- The mean of the profits, or 0.
  abbrev pub mean_pnl : List (BacktestTrade W) → W
  mean_pnl [] = nought
  mean_pnl (t ∷ l) = f.quotient (total (map (λ x. x.pnl) (t ∷ l))) (count (length (t ∷ l)))

  abbrev pub win_rate_of : List (BacktestTrade W) → W
  win_rate_of [] = nought
  win_rate_of (t ∷ l) =
      f.mul (f.quotient (count (count_if is_winner (t ∷ l))) (count (length (t ∷ l)))) hundred

  abbrev pub profit_factor_of : (winners losers : List (BacktestTrade W)) → W
  profit_factor_of winners losers =
      let loss = f.abs (total (map (λ x. x.pnl) losers)) in
      if f.lt nought loss then f.quotient (total (map (λ x. x.pnl) winners)) loss else f.lit 99999 2

  -- By how much the second half wins less often than the first, from twenty trades on.
  abbrev pub degradation : List (BacktestTrade W) → W
  degradation l =
      let half = length l / 2 in
      if leb 20 (length l)
      then f.round 1 (f.sub (win_rate_of (take half l)) (win_rate_of (drop half l)))
      else nought

  -- The cost of a trade: brokerage, taxes, fees and slippage.
  unfoldable pub trade_cost : BacktestTrade W → W
  trade_cost t =
      let entry_v = f.mul t.entry_price (f.of_int t.quantity) in
      let exit_v = f.mul t.exit_price (f.of_int t.quantity) in
      let buy_v = if is_buy t then entry_v else exit_v in
      let sell_v = if is_buy t then exit_v else entry_v in
      let both_v = f.add entry_v exit_v in
      let brokerage = min (f.mul both_v (f.lit 3 4)) (f.lit 400 1) in
      let stt = f.mul sell_v (f.lit 25 5) in
      let nse_turnover = f.mul both_v (f.lit 297 7) in
      let sebi_fee = f.mul both_v (f.lit 1 6) in
      let gst = f.mul (f.add (f.add brokerage nse_turnover) sebi_fee) (f.lit 18 2) in
      let stamp_duty = f.mul buy_v (f.lit 3 5) in
      let slippage = f.mul both_v (f.lit 5 4) in
      f.add
        (f.add (f.add (f.add (f.add (f.add brokerage stt) nse_turnover) sebi_fee) gst) stamp_duty)
        slippage

  abbrev pub net_of_cost : BacktestTrade W → BacktestTrade W
  net_of_cost t = record t { pnl = f.sub t.pnl (trade_cost t) }

  -- `_compute_metrics`. All metrics but the costs are those of the profits before costs.
  unfoldable pub compute_metrics :
      (initial_balance final_balance : W)
      → (trades : List (BacktestTrade W)) → (equity_curve : List W) → BacktestResult W
  compute_metrics initial final trades curve =
      let winners = filter is_winner trades in
      let losers = filter is_loser trades in
      record {
        initial_balance = initial;
        final_balance = f.round 2 final;
        total_return_pct = f.round 2 (f.mul (f.quotient (f.sub final initial) initial) hundred);
        total_trades = length trades;
        winning_trades = length winners;
        losing_trades = length losers;
        win_rate = f.round 1 (win_rate_of trades);
        avg_win = f.round 2 (mean_pnl winners);
        avg_loss = f.round 2 (mean_pnl losers);
        max_drawdown_pct = f.round 2 (f.mul (max_drawdown initial nought curve) hundred);
        profit_factor = f.round 2 (profit_factor_of winners losers);
        max_losing_streak = max_losing_streak_of trades;
        strategy_degradation_pct = degradation trades;
        total_costs = f.round 2 (total (map trade_cost trades));
        trades = map net_of_cost trades;
        equity_curve = curve;
      }

  -- `run`, with the metrics of the simulation.
  abbrev pub result_of : (initial_balance : W) → {E : Type 0} → Simulation W E → BacktestResult W
  result_of initial s =
      compute_metrics initial s.balance (reversed s.trades) (reversed s.equity_curve)

  -- The losses that a list of trades begins with, and the longest run of losses anywhere in it.
  abbrev pub leading : List (BacktestTrade W) → ℕ
  leading [] = 0
  leading (t ∷ l) = let rest = leading l in if is_loser t then suc rest else 0

  abbrev pub longest_run : List (BacktestTrade W) → ℕ
  longest_run [] = 0
  longest_run (t ∷ l) = max_ℕ (leading (t ∷ l)) (longest_run l)

  leading-longest_run : (l : List (BacktestTrade W)) → leading l ≤ longest_run l
  leading-longest_run [] = omega arith
  leading-longest_run (t ∷ l) = omega arith

  losing_streak_lem :
      (m c : ℕ) (l : List (BacktestTrade W))
      → c ≤ m
      → losing_streak m c l ≡ max_ℕ m (max_ℕ (c + leading l) (longest_run l))
  losing_streak_lem m c [] h = omega arith
  losing_streak_lem m c (t ∷ l) h =
      let lost = losing_streak_lem (max_ℕ m (suc c)) (suc c) l (omega arith) in
      let won = losing_streak_lem m 0 l (omega arith) in
      ground (arith, lost, won, leading-longest_run l, h)

  -- The longest losing streak of the metrics is the longest run of losses that stand side by side.
  pub max_losing_streak-longest_run :
      (initial final : W) (trades : List (BacktestTrade W)) (curve : List W)
      → (compute_metrics initial final trades curve).max_losing_streak ≡ longest_run trades
  unfolding compute_metrics max_losing_streak_of
  max_losing_streak-longest_run initial final trades curve =
      let r = losing_streak_lem 0 0 trades (omega arith) in
      omega (arith, r, leading-longest_run trades)
