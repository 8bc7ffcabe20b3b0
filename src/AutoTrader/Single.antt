-- ===== src/AutoTrader/Single.antt =====
-- engine/auto_trader_engine.py: a symbol has one open trade at most, which the queries rely on.
use quant_dss.Base.{
  ℕ, ◌≤◌, ◌≡◌, ◌≢◌, refl, sym, subst, ap, ◌∙◌, inl, inr, Bool, false, Option, some, none, List, [],
  ◌∷◌, ◌++◌, map, String, arith, if◌then◌else◌, count_if, count_if-append, filter, length,
  Bool-cases,
}
use quant_dss.Base.Dict.{string_key}
use quant_dss.Base.Float.{Float}
use quant_dss.Base.Exec.{Exn, raised, multiple_rows}
use quant_dss.Execution.Mode.{TradingMode, Route, to_paper, to_broker, route_execution, get_mode}
use quant_dss.Paper.{Direction}
use quant_dss.AutoTrader.{
  Position, Settings, Scan, Book, Cache, Desk, is_open_of, is_reversed, opposite, one_or_none,
  calc_qty,
}
use quant_dss.AutoTrader.Trades.{table, settle, close_position, close_trade}
use quant_dss.AutoTrader.Entry.{open_trade, new_position}
use quant_dss.AutoTrader.Batch.{Setting, Turn, process_batch}
use quant_dss.AutoTrader.Cases.{close_trade_cases, open_trade_cases}
use quant_dss.AutoTrader.Sound.{Sound, done-Sound, process_batch-Sound}
use text.Mathlib.Text.{◌==◌ as str_eq}
use text.Mathlib.TextEquality.{eq_iff}

-- An exception that is not MultipleResultsFound.
abbrev pub IsOther : Exn → Type 0
IsOther e = e ≢ multiple_rows

several : {A : Type 0} (l : List A) (e : Exn) → one_or_none l ≡ raised e → 2 ≤ length l
several [] e h = absurd (cc h)
several (x ∷ []) e h = absurd (cc h)
several (x ∷ y ∷ l) e h = omega arith

length-filter : {A : Type 0} (p : A → Bool) (l : List A) → length (filter p l) ≡ count_if p l
length-filter p [] = refl
length-filter p (x ∷ l) = ground (arith, length-filter p l)

none_counted : {A : Type 0} (p : A → Bool) (l : List A) → filter p l ≡ [] → count_if p l ≡ 0
none_counted p l h = sym (length-filter p l) ∙ ap length h

module _ {W : Type 0} where
  abbrev pub IsSingle : List (Position W) → Type 0
  IsSingle l = (symbol : String) → count_if (is_open_of symbol) l ≤ 1

  -- Of each symbol, at most one paper trade and one live trade is open.
  abbrev pub AreSingle : List (Position W) → List (Position W) → Type 0
  AreSingle paper live = IsSingle paper × IsSingle live

  unambiguous :
      (symbol : String) (l : List (Position W)) (e : Exn)
      → IsSingle l
      → one_or_none (filter (is_open_of symbol) l) ≡ raised e
      → IsOther e
  unambiguous symbol l e h r = absurd (
      omega (
        arith,
        h symbol,
        length-filter (is_open_of symbol) l,
        several (filter (is_open_of symbol) l) e r,
      ))

  reversed-count :
      (symbol : String) (d : Direction) (l : List (Position W))
      → count_if (is_reversed symbol d) l ≤ count_if (is_open_of symbol) l
  reversed-count symbol d [] = omega arith
  reversed-count symbol d (t ∷ l) = ground (arith, reversed-count symbol d l)

  unambiguous_reverse :
      (symbol : String) (d : Direction) (l : List (Position W)) (e : Exn)
      → IsSingle l
      → one_or_none (filter (is_reversed symbol d) l) ≡ raised e
      → IsOther e
  unambiguous_reverse symbol d l e h r = absurd (
      omega (
        arith,
        h symbol,
        length-filter (is_reversed symbol d) l,
        reversed-count symbol d l,
        several (filter (is_reversed symbol d) l) e r,
      ))

  append-IsSingle :
      (l : List (Position W)) (t : Position W)
      → IsSingle l
      → count_if (is_open_of t.symbol) l ≡ 0
      → IsSingle (l ++ t ∷ [])
  append-IsSingle l t h z symbol = elim (Bool-cases (str_eq t.symbol symbol)) [
    | inl e ↦
        (let same = (eq_iff t.symbol symbol).0 e in
          let zero_here = subst (λ s. count_if (is_open_of s) l ≡ 0) same z in
          ground (arith, count_if-append (is_open_of symbol) l t, zero_here))
    | inr e ↦ ground (arith, e, count_if-append (is_open_of symbol) l t, h symbol)
  ]

  table-IsSingle :
      (route : Option Route) (b : Book W) → AreSingle b.paper b.live → IsSingle (table route b)
  table-IsSingle none b h = h.0
  table-IsSingle (some to_paper) b h = h.0
  table-IsSingle (some to_broker) b h = h.1

  module _ ⦃f : Float W⦄ where
    count-close :
        (symbol : String) (now : ℕ) (price : W) (p : Position W → Bool) (l : List (Position W))
        → count_if (is_open_of symbol) (map (λ t. if p t then close_position now price t else t) l)
          ≤ count_if (is_open_of symbol) l
    count-close symbol now price p [] = omega arith
    count-close symbol now price p (t ∷ l) = ground (arith, count-close symbol now price p l)

    close-IsSingle :
        (now : ℕ) (price : W) (p : Position W → Bool) (l : List (Position W))
        → IsSingle l
        → IsSingle (map (λ t. if p t then close_position now price t else t) l)
    close-IsSingle now price p l h symbol =
        omega (arith, count-close symbol now price p l, h symbol)

    calc_qty-IsOther :
        (cfg : Settings W) (price : W) (e : Exn) → calc_qty cfg price none ≡ raised e → IsOther e
    unfolding calc_qty
    calc_qty-IsOther cfg price e h k = ground (arith, h, k)

module _ {W : Type 0} ⦃f : Float W⦄ {K : Type 0} where
  settle-AreSingle :
      (now : ℕ) (route : Option Route) (mode : TradingMode) (signal : Direction) (price : W)
      (t : Position W) (d : Desk W K)
      → AreSingle d.book.paper d.book.live
      → AreSingle
          (settle now route mode signal price t d).book.paper
          (settle now route mode signal price t d).book.live
  unfolding settle
  settle-AreSingle now none mode signal price t d h =
      (close-IsSingle now price (is_reversed t.symbol (opposite signal)) d.book.paper h.0, h.1)
  settle-AreSingle now (some to_paper) mode signal price t d h =
      (close-IsSingle now price (is_reversed t.symbol (opposite signal)) d.book.paper h.0, h.1)
  settle-AreSingle now (some to_broker) mode signal price t d h =
      (h.0, close-IsSingle now price (is_reversed t.symbol (opposite signal)) d.book.live h.1)

  close_trade-AreSingle :
      (now : ℕ) (lock : Bool) (cfg : Settings W) (symbol : String) (signal : Direction) (price : W)
      (d : Desk W K)
      → AreSingle d.book.paper d.book.live
      → AreSingle d.saved.paper d.saved.live
      → Sound AreSingle IsOther (close_trade now lock cfg symbol signal price d)
  unfolding settle
  close_trade-AreSingle now lock cfg symbol signal price d h k =
      let route = route_execution lock (some cfg.trading) none in
      close_trade_cases (Sound AreSingle IsOther) now lock cfg symbol signal price d
        (λ e r. record {
          book = h;
          saved = k;
          error =
              unambiguous_reverse symbol (opposite signal) (table route d.book) e
                (table-IsSingle route d.book h) r;
        })
        (done-Sound AreSingle IsOther none d h k)
        (λ t e. record {
          book = settle-AreSingle now route (get_mode lock (some cfg.trading)) signal price t d h;
          saved = k;
          error = tt;
        })

  open_trade-AreSingle :
      (lock : Bool) (cfg : Settings W) (scan : Scan W) (d : Desk W K)
      → AreSingle d.book.paper d.book.live
      → AreSingle d.saved.paper d.saved.live
      → Sound AreSingle IsOther (open_trade lock cfg scan d)
  open_trade-AreSingle lock cfg scan d h k =
      open_trade_cases (Sound AreSingle IsOther) lock cfg scan d
        (done-Sound AreSingle IsOther false d h k)
        (λ mode signal event. record { book = h; saved = k; error = tt })
        (λ e r. record { book = h; saved = k; error = calc_qty-IsOther cfg scan.entry_price e r })
        (λ route e r. record {
          book = h;
          saved = k;
          error =
              unambiguous scan.symbol (table (some route) d.book) e
                (table-IsSingle (some route) d.book h) r;
        })
        (record { book = h; saved = k; error = λ e. cc e })
        (λ mode qty signal e. record {
          book = (
            append-IsSingle d.book.paper (new_position d.book.next_id qty scan signal) h.0
                (none_counted (is_open_of scan.symbol) d.book.paper e),
            h.1,
          );
          saved = k;
          error = tt;
        })

  module _ ⦃c : Cache K⦄ where
    -- If of each symbol at most one paper trade and at most one live trade is open, in the session
    -- and in what is committed, then this is so after a batch, whatever it is, and the batch does
    -- not raise MultipleResultsFound.
    pub process_batch-AreSingle :
        (s : Setting W) (cfg : Settings W) (results : List (Turn W)) (d : Desk W K)
        → AreSingle d.book.paper d.book.live
        → AreSingle d.saved.paper d.saved.live
        → Sound AreSingle IsOther (process_batch s (some cfg) results d)
    process_batch-AreSingle s cfg =
        process_batch-Sound AreSingle IsOther s cfg (close_trade-AreSingle s.now s.lock cfg)
          (λ scan d e. open_trade-AreSingle s.lock cfg scan d)
