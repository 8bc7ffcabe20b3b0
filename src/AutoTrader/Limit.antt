-- ===== src/AutoTrader/Limit.antt =====
-- engine/auto_trader_engine.py: the limit on open positions.
use quant_dss.Base.{
  ℕ, suc, ◌+◌, ◌≤◌, ◌≡◌, sym, subst, Bool, false, Option, some, none, List, [], ◌∷◌, ◌++◌, map,
  String, arith, if◌then◌else◌, count_if, count_if-append,
}
use quant_dss.Base.Int.{ℤ, pos, negsuc, ◌-ℤ◌, ◌≤ℤ◌, leb_ℤ, max_ℤ}
use quant_dss.Base.Float.{Float}
use quant_dss.Execution.Mode.{TradingMode, Route, to_paper, to_broker, route_execution, get_mode}
use quant_dss.Paper.{Direction}
use quant_dss.AutoTrader.{
  Position, Settings, Scan, Book, Cache, Desk, is_held, is_reversed, opposite, count_open_trades,
}
use quant_dss.AutoTrader.Trades.{settle, close_position, close_trade}
use quant_dss.AutoTrader.Entry.{open_trade, new_position}
use quant_dss.AutoTrader.Batch.{Setting, Turn, process_batch}
use quant_dss.AutoTrader.Cases.{close_trade_cases, open_trade_cases}
use quant_dss.AutoTrader.Sound.{Sound, done-Sound, process_batch-Sound}

free : (m : ℤ) (n : ℕ) → leb_ℤ (m -ℤ pos n) (pos 0) ≡ false → pos (suc n) ≤ℤ m
unfolding ◌-ℤ◌
free (pos a) n h = ground (arith, h)
free (negsuc a) n h = ground (arith, h)

trans : (a b : ℕ) (m : ℤ) → a ≤ b → pos b ≤ℤ m → pos a ≤ℤ m
trans a b (pos m) h k = ground (arith, h, k)
trans a b (negsuc m) h k = ground (arith, h, k)

below_max : (n k : ℕ) (m : ℤ) → (pos n ≤ℤ m → pos n ≤ℤ max_ℤ m (pos k)) × (pos k ≤ℤ max_ℤ m (pos k))
below_max n k (pos a) = ground arith
below_max n k (negsuc a) = ground arith

module _ {W : Type 0} where
  -- The open positions of both tables are at most as many.
  abbrev pub AtMost : ℤ → List (Position W) → List (Position W) → Type 0
  AtMost m paper live = pos (count_if is_held paper + count_if is_held live) ≤ℤ m

  count-append :
      (l : List (Position W)) (t : Position W)
      → count_if is_held (l ++ t ∷ []) ≤ suc (count_if is_held l)
  count-append l t = ground (arith, count_if-append is_held l t)

  module _ ⦃f : Float W⦄ where
    count-close :
        (now : ℕ) (price : W) (p : Position W → Bool) (l : List (Position W))
        → count_if is_held (map (λ t. if p t then close_position now price t else t) l)
          ≤ count_if is_held l
    count-close now price p [] = omega arith
    count-close now price p (t ∷ l) = ground (arith, count-close now price p l)

  add-AtMost :
      (m : ℤ) (b : Book W) (t : Position W)
      → pos (suc (count_open_trades b)) ≤ℤ m
      → AtMost m (b.paper ++ t ∷ []) b.live
  unfolding count_open_trades
  add-AtMost m b t h = trans _ _ m (omega (arith, count-append b.paper t)) h

module _ {W : Type 0} ⦃f : Float W⦄ {K : Type 0} where
  settle-AtMost :
      (m : ℤ) (now : ℕ) (route : Option Route) (mode : TradingMode) (signal : Direction) (price : W)
      (t : Position W) (d : Desk W K)
      → AtMost m d.book.paper d.book.live
      → AtMost m
          (settle now route mode signal price t d).book.paper
          (settle now route mode signal price t d).book.live
  unfolding settle
  settle-AtMost m now none mode signal price t d h =
      trans _ _ m
        (omega (arith, count-close now price (is_reversed t.symbol (opposite signal)) d.book.paper))
        h
  settle-AtMost m now (some to_paper) mode signal price t d h =
      trans _ _ m
        (omega (arith, count-close now price (is_reversed t.symbol (opposite signal)) d.book.paper))
        h
  settle-AtMost m now (some to_broker) mode signal price t d h =
      trans _ _ m
        (omega (arith, count-close now price (is_reversed t.symbol (opposite signal)) d.book.live))
        h

  close_trade-AtMost :
      (m : ℤ) (now : ℕ) (lock : Bool) (cfg : Settings W) (symbol : String) (signal : Direction)
      (price : W) (d : Desk W K)
      → AtMost m d.book.paper d.book.live
      → AtMost m d.saved.paper d.saved.live
      → Sound (AtMost m) (λ e. Unit) (close_trade now lock cfg symbol signal price d)
  unfolding settle
  close_trade-AtMost m now lock cfg symbol signal price d h k =
      close_trade_cases (Sound (AtMost m) (λ e. Unit)) now lock cfg symbol signal price d
        (λ e r. record { book = h; saved = k; error = tt })
        (done-Sound (AtMost m) (λ e. Unit) none d h k)
        (λ t e. record {
          book =
              settle-AtMost m now (route_execution lock (some cfg.trading) none)
                (get_mode lock (some cfg.trading)) signal price t d h;
          saved = k;
          error = tt;
        })

  open_trade-AtMost :
      (m : ℤ) (lock : Bool) (cfg : Settings W) (scan : Scan W) (d : Desk W K)
      → pos (suc (count_open_trades d.book)) ≤ℤ m
      → AtMost m d.book.paper d.book.live
      → AtMost m d.saved.paper d.saved.live
      → Sound (AtMost m) (λ e. Unit) (open_trade lock cfg scan d)
  open_trade-AtMost m lock cfg scan d room h k =
      open_trade_cases (Sound (AtMost m) (λ e. Unit)) lock cfg scan d
        (done-Sound (AtMost m) (λ e. Unit) false d h k)
        (λ mode signal event. record { book = h; saved = k; error = tt })
        (λ e r. record { book = h; saved = k; error = tt })
        (λ route e r. record { book = h; saved = k; error = tt })
        (record { book = h; saved = k; error = tt })
        (λ mode qty signal e. record {
          book = add-AtMost m d.book (new_position d.book.next_id qty scan signal) room;
          saved = k;
          error = tt;
        })

  module _ ⦃c : Cache K⦄ where
    -- If what is committed is what the session starts from, then after a batch, whatever the mode,
    -- the results of the scan and the answers of Redis are, the open positions are no more than the
    -- configured limit, or no more than they were.
    pub process_batch-AtMost :
        (s : Setting W) (cfg : Settings W) (results : List (Turn W)) (d : Desk W K)
        → d.saved ≡ d.book
        → pos (count_open_trades (process_batch s (some cfg) results d).1.book)
          ≤ℤ max_ℤ cfg.max_open_positions (pos (count_open_trades d.book))
    unfolding count_open_trades
    process_batch-AtMost s cfg results d same =
        let m = max_ℤ cfg.max_open_positions (pos (count_open_trades d.book)) in
        let start = (below_max 0 (count_open_trades d.book) cfg.max_open_positions).1 in
        (process_batch-Sound (AtMost m) (λ e. Unit) s cfg (close_trade-AtMost m s.now s.lock cfg)
          (λ scan d' e.
            open_trade-AtMost m s.lock cfg scan d'
              ((below_max _ _ cfg.max_open_positions).0 (free _ _ e)))
          results d start (subst (λ b. AtMost m b.paper b.live) (sym same) start)).book
