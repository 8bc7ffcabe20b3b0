-- ===== src/AutoTrader/Sound.antt =====
-- engine/auto_trader_engine.py: what a batch keeps, from what its closes and its entries keep.
use quant_dss.Base.{
  ℕ, ◌≡◌, Bool, true, false, Option, some, none, List, [], ◌∷◌, String, if◌then◌else◌, elim_if,
  elim_option,
}
use quant_dss.Base.Int.{ℤ, pos, ◌+ℤ◌, ◌-ℤ◌, leb_ℤ}
use quant_dss.Base.Float.{Float}
use quant_dss.Base.Exec.{Exn, Result, ok, raised, Exec, ◌>>=◌}
use quant_dss.Paper.{Direction}
use quant_dss.AutoTrader.{
  Position, Settings, Scan, Book, Cache, Desk, add_log, set_book, count_open_trades,
}
use quant_dss.AutoTrader.Trades.{close_trade}
use quant_dss.AutoTrader.Entry.{open_trade}
use quant_dss.AutoTrader.Batch.{
  Setting, Turn, commit, add_to_day, opened_or_not, try_open, take_slot, after_close, consider,
  consider_all, leave, dedup_key, full_row, is_halted, process_batch,
}

abbrev pub Raises {ℓ} : {A : Type 0} → (Exn → Type ℓ) → Result A → Type ℓ
Raises R (ok a) = Unit
Raises R (raised e) = R e

-- A predicate on the tables of paper and live trades.
abbrev pub Holds : {W : Type 0} → (List (Position W) → List (Position W) → Type 0) → Book W → Type 0
Holds Q b = Q b.paper b.live

module _ {W K : Type 0} (Q : List (Position W) → List (Position W) → Type 0)
    (R : Exn → Type 0) where
  -- The state that is reached and what is committed are as `Q` says, and an exception is as `R` says.
  pub record Sound {A : Type 0} (x : Result A × Desk W K) : Type 0 where
    pub book : Holds Q x.1.book
    pub saved : Holds Q x.1.saved
    pub error : Raises R x.0

  pub done-Sound :
      {A : Type 0} (a : A) (d : Desk W K)
      → Holds Q d.book
      → Holds Q d.saved
      → Sound {A = A} (ok a, d)
  done-Sound a d h k = record { book = h; saved = k; error = tt }

  next-Sound :
      {A B : Type 0} (x : Result A × Desk W K) (g : A → Exec (Desk W K) B)
      → Sound x
      → ((a : A) (d : Desk W K) → Holds Q d.book → Holds Q d.saved → Sound (g a d))
      → Sound {A = B} (elim x.0 [ ok a ↦ g a x.1 | raised e ↦ (raised e, x.1) ])
  next-Sound (ok a, d) g h k = k a d h.book h.saved
  next-Sound (raised e, d) g h k = record { book = h.book; saved = h.saved; error = h.error }

  bind-Sound :
      {A B : Type 0} (m : Exec (Desk W K) A) (g : A → Exec (Desk W K) B) (d : Desk W K)
      → Sound (m d)
      → ((a : A) (d : Desk W K) → Holds Q d.book → Holds Q d.saved → Sound (g a d))
      → Sound ((m >>= g) d)
  bind-Sound m g d h k = next-Sound (m d) g h k

-- If a close keeps the predicate, and so does an entry while a slot is free, then each batch does.
module _ {W : Type 0} ⦃f : Float W⦄ {K : Type 0} ⦃c : Cache K⦄
    (Q : List (Position W) → List (Position W) → Type 0) (R : Exn → Type 0) (s : Setting W)
    (cfg : Settings W)
    (close_keeps : (symbol : String) (signal : Direction) (price : W) (d : Desk W K)
      → Holds Q d.book
      → Holds Q d.saved
      → Sound Q R (close_trade s.now s.lock cfg symbol signal price d))
    (open_keeps : (scan : Scan W) (d : Desk W K)
      → leb_ℤ (cfg.max_open_positions -ℤ pos (count_open_trades d.book)) (pos 0) ≡ false
      → Holds Q d.book
      → Holds Q d.saved
      → Sound Q R (open_trade s.lock cfg scan d)) where
  opened_or_not-Sound :
      (scan : Scan W) (signal : Direction) (slots : ℤ) (opened : Bool) (d : Desk W K)
      → Holds Q d.book
      → Sound Q R (opened_or_not s scan signal slots opened d)
  opened_or_not-Sound scan signal slots true d h = record { book = h; saved = h; error = tt }
  opened_or_not-Sound scan signal slots false d h = record { book = h; saved = h; error = tt }

  try_open-Sound :
      (scan : Scan W) (signal : Direction) (slots : ℤ) (d : Desk W K)
      → Holds Q d.book
      → Holds Q d.saved
      → Sound Q R (try_open s cfg scan signal slots d)
  unfolding try_open
  try_open-Sound scan signal slots d h k =
      let entry = (open_trade s.lock cfg scan >>= opened_or_not s scan signal slots) d in
      elim_if (Sound Q R) (leb_ℤ (cfg.max_open_positions -ℤ pos (count_open_trades d.book)) (pos 0))
        (ok slots, d) (if c.exists (dedup_key s scan signal) d.keys then (ok slots, d) else entry)
        (λ full. done-Sound Q R slots d h k)
        (λ free.
          elim_if (Sound Q R) (c.exists (dedup_key s scan signal) d.keys) (ok slots, d) entry
            (λ known. done-Sound Q R slots d h k)
            (λ new.
              bind-Sound Q R (open_trade s.lock cfg scan) (opened_or_not s scan signal slots) d
                (open_keeps scan d free h k)
                (λ o d' h' k'. opened_or_not-Sound scan signal slots o d' h')))

  take_slot-Sound :
      (count : ℕ) (turn : Turn W) (signal : Direction) (slots : ℤ) (d : Desk W K)
      → Holds Q d.book
      → Holds Q d.saved
      → Sound Q R (take_slot s cfg count turn signal slots d)
  unfolding take_slot
  take_slot-Sound count (scan, locked) signal slots d h k =
      let tried = try_open s cfg scan signal slots d in
      elim_if (Sound Q R) (leb_ℤ slots (pos 0))
        (ok slots, set_book (add_log (full_row cfg count scan signal) d.book) d)
        (if locked then tried else (ok slots, d))
        (λ none_left. record { book = h; saved = k; error = tt })
        (λ left.
          elim_if (Sound Q R) locked tried (ok slots, d)
            (λ on. try_open-Sound scan signal slots d h k) (λ off. done-Sound Q R slots d h k))

  after_close-Sound :
      (count : ℕ) (turn : Turn W) (signal : Direction) (slots : ℤ) (o : Option W) (d : Desk W K)
      → Holds Q d.book
      → Holds Q d.saved
      → Sound Q R (after_close s cfg count turn signal slots o d)
  after_close-Sound count turn signal slots none d h k =
      take_slot-Sound count turn signal slots d h k
  after_close-Sound count turn signal slots (some pnl) d h k =
      take_slot-Sound count turn signal (slots +ℤ pos 1) (add_to_day pnl d) h k

  consider-Sound :
      (count : ℕ) (turn : Turn W) (slots : ℤ) (d : Desk W K)
      → Holds Q d.book
      → Holds Q d.saved
      → Sound Q R (consider s cfg count turn slots d)
  unfolding consider
  consider-Sound count (scan, locked) slots d h k =
      elim_option (Sound Q R) scan.signal (ok slots, d) _ (λ e. done-Sound Q R slots d h k)
        (λ signal e.
          bind-Sound Q R (close_trade s.now s.lock cfg scan.symbol signal scan.entry_price)
            (after_close s cfg count (scan, locked) signal slots) d
            (close_keeps scan.symbol signal scan.entry_price d h k)
            (after_close-Sound count (scan, locked) signal slots))

  pub consider_all-Sound :
      (count : ℕ) (turns : List (Turn W)) (slots : ℤ) (d : Desk W K)
      → Holds Q d.book
      → Holds Q d.saved
      → Sound Q R (consider_all s cfg count turns slots d)
  consider_all-Sound count [] slots d h k = record { book = h; saved = k; error = tt }
  consider_all-Sound count (t ∷ l) slots d h k =
      bind-Sound Q R (consider s cfg count t slots) (consider_all s cfg count l) d
        (consider-Sound count t slots d h k) (consider_all-Sound count l)

  leave-Sound : (x : Result ℤ × Desk W K) → Sound Q R x → Sound Q R (leave x)
  leave-Sound (ok n, d) h = done-Sound Q R tt _ h.book h.book
  leave-Sound (raised e, d) h = record { book = h.saved; saved = h.saved; error = h.error }

  pub process_batch-Sound :
      (results : List (Turn W)) (d : Desk W K)
      → Holds Q d.book
      → Holds Q d.saved
      → Sound Q R (process_batch s (some cfg) results d)
  unfolding process_batch
  process_batch-Sound results d h k =
      let count = count_open_trades d.book in
      let traded =
        leave (consider_all s cfg count results (cfg.max_open_positions -ℤ pos count) (commit d)) in
      elim_if (Sound Q R) cfg.trading.enabled (if is_halted d.book.day then (ok tt, d) else traded)
        (ok tt, d)
        (λ on.
          elim_if (Sound Q R) (is_halted d.book.day) (ok tt, d) traded
            (λ halted. done-Sound Q R tt d h k)
            (λ free. leave-Sound _ (consider_all-Sound count results _ (commit d) h h)))
        (λ off. done-Sound Q R tt d h k)
