-- ===== src/AutoTrader/Schedule.antt =====
-- engine/auto_trader_engine.py: `run_auto_trader`, which feeds scanned symbols to the signal pool.
use quant_dss.Base.{
  ℕ, ◌≡◌, refl, inl, inr, ◌⊎◌, Bool, false, ◌&&◌, ◌||◌, not, Option, some, none, List, [], ◌∷◌,
  String, ltb, leb, ◌==◌, if◌then◌else◌, elim_if, elim_option,
}
use quant_dss.Base.Dict.{nat_key, string_key, beq_refl, insert}
use quant_dss.Base.Float.{Float, nought}
use quant_dss.Signal.{CandidateSignal, aware}
use quant_dss.SignalPool.{SignalPool, add_signal, signals_of}
use quant_dss.Leases.{Redis}
use quant_dss.Leases.Dedup.{is_duplicate}
use quant_dss.Execution.Mode.{AutoTradeConfig}
use quant_dss.Paper.{Direction, buy, sell}
use quant_dss.AutoTrader.{Scan}

-- `_is_market_hours`, at a weekday from 0 for Monday, an hour and a minute in India.
unfoldable pub is_market_hours : (weekday hour minute : ℕ) → Bool
is_market_hours weekday h m =
    if leb 5 weekday
    then false
    else (ltb 9 h || (h == 9 && leb 15 m)) && (ltb h 14 || (h == 14 && leb m 45))

abbrev signal_text : Direction → String
signal_text buy = "BUY"
signal_text sell = "SELL"

-- What a run is made of: the strategy of the configuration, the trace id, `_scan_one`, with `none`
-- for an exception, and the text of the key of a candidate, of its two ids and its time.
pub record Run (W : Type 0) : Type 0 where
  pub strategy : String
  pub trace_id : String
  pub scan_one : (symbol : String) → Option (Scan W)
  pub make_key : (symbol_id strategy_id : ℕ) → (candle_time : ℕ) → String
  pub ttl : ℕ

module _ {W : Type 0} ⦃f : Float W⦄ where
  -- The CandidateSignal of a scanned symbol.
  unfoldable pub candidate : Run W → (now : ℕ) → String → Scan W → Direction → CandidateSignal W
  candidate r now symbol scan signal = record {
    symbol_id = 0;
    strategy_id = 0;
    strategy_name = r.strategy;
    signal_type = signal_text signal;
    entry_price = scan.entry_price;
    stop_loss = scan.stop_loss;
    target_price = scan.target_price;
    atr_value = f.abs (f.sub scan.entry_price scan.stop_loss);
    candle_time = aware now;
    confidence_score = f.mul scan.risk_reward (f.lit 20 0);
    symbol_name = "";
    strategies = r.strategy ∷ [];
    base_strategy = r.strategy;
    indicator_snapshot = [];
    volume_ratio = f.lit 1 0;
    spread = nought;
    relative_strength = nought;
    market_regime = none;
    metadata =
        ("symbol_name", symbol)
        ∷ ("source", "scheduled_auto_trader")
        ∷ ("trace_id", r.trace_id)
        ∷ [];
    strategy = none;
    instrument_key = none;
  }

  module _ {S : Type 0} ⦃store : Redis S⦄ where
    -- The body of the loop for a candidate, with one time for all its steps.
    abbrev offer : Run W → (now : ℕ) → CandidateSignal W → S × SignalPool W → S × SignalPool W
    offer r now s (store_, pool) =
        let (known, store') =
          is_duplicate r.ttl now (r.make_key s.symbol_id s.strategy_id now) store_ in
        (store', if known then pool else add_signal now s pool)

    -- The body of the loop; a scan that raises is logged.
    unfoldable pub feed :
        Run W → (now : ℕ) → (symbol : String) → S × SignalPool W → S × SignalPool W
    unfolding candidate
    feed r now symbol x = elim (r.scan_one symbol) [
      | none ↦ x
      | some scan ↦ elim scan.signal [
        | none ↦ x
        | some signal ↦ offer r now (candidate r now symbol scan signal) x
      ]
    ]

    -- The loop over the watchlist, with the time at which each symbol is reached.
    abbrev pub feed_all :
        Run W → (watchlist : List (ℕ × String)) → S × SignalPool W → S × SignalPool W
    feed_all r [] x = x
    feed_all r ((now, symbol) ∷ l) x = feed_all r l (feed r now symbol x)

    -- `run_auto_trader`: outside the hours, without an enabled configuration and on a halted day it
    -- does nothing.
    unfoldable pub run_auto_trader :
        (weekday hour minute : ℕ)
        → Option AutoTradeConfig
        → (is_halted : Bool) → Run W
        → List (ℕ × String)
        → S × SignalPool W
        → S × SignalPool W
    run_auto_trader weekday h m none is_halted r watchlist x = x
    run_auto_trader weekday h m (some cfg) is_halted r watchlist x =
        if (is_market_hours weekday h m && cfg.enabled) && not is_halted
        then feed_all r watchlist x
        else x

  -- The pool has no signal, or only one, of the symbol id 0.
  abbrev pub HasAtMostOne : String → SignalPool W → Type 0
  HasAtMostOne strategy p =
      (p.pool ≡ []) ⊎ ((s : CandidateSignal W) × (p.pool ≡ (0, (strategy, s) ∷ []) ∷ []))

  one_of_none :
      (strategy : String) (s : CandidateSignal W) (p : SignalPool W)
      → p.pool ≡ []
      → insert 0 (insert strategy s (signals_of 0 p)) p.pool ≡ (0, (strategy, s) ∷ []) ∷ []
  one_of_none strategy s p h = rw h refl

  one_of_one :
      (strategy : String) (s t : CandidateSignal W) (p : SignalPool W)
      → p.pool ≡ (0, (strategy, t) ∷ []) ∷ []
      → insert 0 (insert strategy s (signals_of 0 p)) p.pool ≡ (0, (strategy, s) ∷ []) ∷ []
  one_of_one strategy s t p h = rw h (rw (beq_refl strategy) refl)

  add_candidate :
      (now : ℕ) (r : Run W) (symbol : String) (scan : Scan W) (signal : Direction)
      (p : SignalPool W)
      → HasAtMostOne r.strategy p
      → HasAtMostOne r.strategy (add_signal now (candidate r now symbol scan signal) p)
  unfolding add_signal candidate
  add_candidate now r symbol scan signal p h =
      let s = candidate r now symbol scan signal in
      elim h [
        | inl e ↦ inr (s, one_of_none r.strategy s p e)
        | inr (t, e) ↦ inr (s, one_of_one r.strategy s t p e)
      ]

  module _ {S : Type 0} ⦃store : Redis S⦄ where
    feed-HasAtMostOne :
        (r : Run W) (now : ℕ) (symbol : String) (x : S × SignalPool W)
        → HasAtMostOne r.strategy x.1
        → HasAtMostOne r.strategy (feed r now symbol x).1
    unfolding feed candidate
    feed-HasAtMostOne r now symbol x h =
        let P = (λ (x : S × SignalPool W). HasAtMostOne r.strategy x.1) in
        elim_option P (r.scan_one symbol) x _ (λ e. h)
          (λ scan e.
            elim_option P scan.signal x _ (λ e. h)
              (λ signal e.
                elim_if (HasAtMostOne r.strategy) _ x.1 _ (λ known. h)
                  (λ new. add_candidate now r symbol scan signal x.1 h)))

    feed_all-HasAtMostOne :
        (r : Run W) (watchlist : List (ℕ × String)) (x : S × SignalPool W)
        → HasAtMostOne r.strategy x.1
        → HasAtMostOne r.strategy (feed_all r watchlist x).1
    feed_all-HasAtMostOne r [] x h = h
    feed_all-HasAtMostOne r ((now, symbol) ∷ l) x h =
        feed_all-HasAtMostOne r l (feed r now symbol x) (feed-HasAtMostOne r now symbol x h)

    -- If the pool has no signal, or only one of the symbol id 0 and the configured strategy, then
    -- this is so after a scheduled run, of whatever watchlist, scans and Redis: of all the symbols
    -- that it finds a signal of, one is left in the pool.
    pub run_auto_trader-HasAtMostOne :
        (weekday hour minute : ℕ) (cfg : Option AutoTradeConfig) (is_halted : Bool) (r : Run W)
        (watchlist : List (ℕ × String)) (x : S × SignalPool W)
        → HasAtMostOne r.strategy x.1
        → HasAtMostOne r.strategy
            (run_auto_trader weekday hour minute cfg is_halted r watchlist x).1
    unfolding run_auto_trader
    run_auto_trader-HasAtMostOne weekday hour minute none is_halted r watchlist x h = h
    run_auto_trader-HasAtMostOne weekday hour minute (some cfg) is_halted r watchlist x h =
        elim_if (λ (x : S × SignalPool W). HasAtMostOne r.strategy x.1) _ (feed_all r watchlist x) x
          (λ on. feed_all-HasAtMostOne r watchlist x h) (λ off. h)
