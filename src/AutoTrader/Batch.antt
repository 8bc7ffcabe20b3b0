-- ===== src/AutoTrader/Batch.antt =====
-- engine/auto_trader_engine.py: `_process_batch`, which trades the results of a scan in turn.
use quant_dss.Base.{
  ℕ, Bool, false, Option, some, none, List, [], ◌∷◌, String, if◌then◌else◌, or_default,
}
use quant_dss.Base.Int.{ℤ, pos, ◌+ℤ◌, ◌-ℤ◌, leb_ℤ}
use quant_dss.Base.Float.{Float, nought}
use quant_dss.Base.Exec.{Result, ok, raised, Exec, pure, ◌>>=◌}
use quant_dss.Paper.{Direction}
use quant_dss.AutoTrader.{
  Settings, Scan, LogRow, Day, Cache, Desk, max_positions, add_log, set_book, count_open_trades,
}
use quant_dss.AutoTrader.Trades.{close_trade}
use quant_dss.AutoTrader.Entry.{open_trade}

-- The strategy and the timeframe of the payload, and `LIVE_TRADING_LOCK`, the time and the
-- function that makes the signal id of a signal, which takes the MD5 of a text.
pub record Setting (W : Type 0) : Type 0 where
  pub now : ℕ
  pub lock : Bool
  pub strategy : String
  pub timeframe : String
  pub signal_id : (symbol : String) → Direction → (strategy timeframe : String) → W → String

-- A result of the scan, and whether the portfolio lock is given for it in time.
abbrev pub Turn : Type 0 → Type 0
Turn W = Scan W × Bool

abbrev pub is_halted : {W : Type 0} → Option (Day W) → Bool
is_halted none = false
is_halted (some day) = day.is_halted

abbrev pub dedup_key : {W : Type 0} → Setting W → Scan W → Direction → String
dedup_key s scan signal = s.signal_id scan.symbol signal s.strategy s.timeframe scan.entry_price

abbrev pub full_row : {W : Type 0} → Settings W → ℕ → Scan W → Direction → LogRow W
full_row cfg open_count scan signal = record {
  symbol = scan.symbol;
  signal = signal;
  mode = none;
  event = max_positions open_count cfg.max_open_positions;
  trade_id = none;
}

module _ {W : Type 0} ⦃f : Float W⦄ where
  abbrev added : W → Day W → Day W
  added pnl day = record day {
    realised_pnl = some (f.round 2 (f.add (or_default nought day.realised_pnl) pnl));
  }

module _ {W : Type 0} ⦃f : Float W⦄ {K : Type 0} ⦃c : Cache K⦄ where
  -- `db.commit()`, and the rollback of a session that is left by an exception.
  abbrev pub commit : Desk W K → Desk W K
  commit d = record d { saved = d.book }

  abbrev pub rollback : Desk W K → Desk W K
  rollback d = record d { book = d.saved }

  -- What a close does to the row of the day.
  abbrev pub add_to_day : W → Desk W K → Desk W K
  add_to_day pnl d =
      set_book
        (record (d.book) {
          day = elim d.book.day [ none ↦ none | some day ↦ some (added pnl day) ];
        })
        d

  -- The end of the section under the lock.
  abbrev pub opened_or_not : Setting W → Scan W → Direction → ℤ → Bool → Exec (Desk W K) ℤ
  opened_or_not s scan signal slots_left ok_ d =
      if ok_
      then (
        ok (slots_left -ℤ pos 1),
        commit (record d { keys = c.setex (dedup_key s scan signal) 3600 d.keys }),
      )
      else (ok slots_left, commit d)

  -- The section under the portfolio lock.
  unfoldable pub try_open : Setting W → Settings W → Scan W → Direction → ℤ → Exec (Desk W K) ℤ
  try_open s cfg scan signal slots_left d =
      if leb_ℤ (cfg.max_open_positions -ℤ pos (count_open_trades d.book)) (pos 0)
      then (ok slots_left, d)
      else if c.exists (dedup_key s scan signal) d.keys
      then (ok slots_left, d)
      else (open_trade s.lock cfg scan >>= opened_or_not s scan signal slots_left) d

  -- From the check of the slots on; `slots_left` counts a slot that a close has freed.
  unfoldable pub take_slot :
      Setting W → Settings W → (open_count : ℕ) → Turn W → Direction → ℤ → Exec (Desk W K) ℤ
  take_slot s cfg open_count (scan, locked) signal slots_left d =
      if leb_ℤ slots_left (pos 0)
      then (ok slots_left, set_book (add_log (full_row cfg open_count scan signal) d.book) d)
      else if locked
      then try_open s cfg scan signal slots_left d
      else (ok slots_left, d)

  abbrev pub after_close :
      Setting W
      → Settings W
      → (open_count : ℕ) → Turn W
      → Direction
      → ℤ
      → Option W
      → Exec (Desk W K) ℤ
  after_close s cfg open_count turn signal slots_left none d =
      take_slot s cfg open_count turn signal slots_left d
  after_close s cfg open_count turn signal slots_left (some pnl) d =
      take_slot s cfg open_count turn signal (slots_left +ℤ pos 1) (add_to_day pnl d)

  -- The body of the loop, with `slots_left` before and after it.
  unfoldable pub consider :
      Setting W → Settings W → (open_count : ℕ) → Turn W → ℤ → Exec (Desk W K) ℤ
  consider s cfg open_count (scan, locked) slots_left d = elim scan.signal [
    | none ↦ (ok slots_left, d)
    | some signal ↦
        (close_trade s.now s.lock cfg scan.symbol signal scan.entry_price
            >>= after_close s cfg open_count (scan, locked) signal slots_left)
          d
  ]

  abbrev pub consider_all :
      Setting W → Settings W → (open_count : ℕ) → List (Turn W) → ℤ → Exec (Desk W K) ℤ
  consider_all s cfg open_count [] slots_left = pure slots_left
  consider_all s cfg open_count (t ∷ l) slots_left =
      consider s cfg open_count t slots_left >>= consider_all s cfg open_count l

  -- How a session ends.
  abbrev pub leave : Result ℤ × Desk W K → Result Unit × Desk W K
  leave (ok n, d) = (ok tt, commit d)
  leave (raised e, d) = (raised e, rollback d)

  -- `_process_batch`, in a session of its own. The loop of the worker logs what it raises.
  unfoldable pub process_batch :
      Setting W → Option (Settings W) → List (Turn W) → Exec (Desk W K) Unit
  process_batch s none results d = (ok tt, d)
  process_batch s (some cfg) results d =
      if cfg.trading.enabled
      then if is_halted d.book.day
        then (ok tt, d)
        else (let open_count = count_open_trades d.book in
            leave (
              consider_all s cfg open_count results (cfg.max_open_positions -ℤ pos open_count)
                (commit d)))
      else (ok tt, d)
