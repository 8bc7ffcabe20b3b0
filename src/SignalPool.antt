-- ===== src/SignalPool.antt =====
-- engine/signal_pool.py: candidate signals wait for others of their symbol.
pub mod Waiting
pub mod Window
mod Tests
use quant_dss.Base.{
  ℕ, ◌+◌, ◌*◌, Bool, true, false, Option, none, some, List, [], ◌∷◌, ◌++◌, String, leb, or_default,
  if◌then◌else◌,
}
use quant_dss.Base.Dict.{Dict, nat_key, string_key, lookup, contains, insert, erase}
use quant_dss.Signal.{CandidateSignal}

-- `CandidateSignalPool`: the signals of a symbol by strategy, and when the first of them came, in
-- microseconds. The copy in Redis, which is read at a start, is left out.
pub record SignalPool (W : Type 0) : Type 0 where
  pub window_seconds : ℕ
  pub pool : Dict ℕ (Dict String (CandidateSignal W))
  pub first_signal_time : Dict ℕ ℕ

-- `list(d.values())`
abbrev pub values : {K V : Type 0} → Dict K V → List V
values [] = []
values ((k, v) ∷ d) = v ∷ values d

abbrev pub Group : Type 0 → Type 0
Group W = List (CandidateSignal W)

module _ {W : Type 0} where
  abbrev pub new_pool : ℕ → SignalPool W
  new_pool seconds = record { window_seconds = seconds; pool = []; first_signal_time = [] }

  -- `_pool[symbol_id]` of a defaultdict.
  abbrev pub signals_of : ℕ → SignalPool W → Dict String (CandidateSignal W)
  signals_of sid p = or_default [] (lookup sid p.pool)

  unfoldable pub add_signal : (now : ℕ) → CandidateSignal W → SignalPool W → SignalPool W
  add_signal now s p = record p {
    pool = insert s.symbol_id (insert s.strategy_name s (signals_of s.symbol_id p)) p.pool;
    first_signal_time =
        if contains s.symbol_id p.first_signal_time
        then p.first_signal_time
        else insert s.symbol_id now p.first_signal_time;
  }

  -- `age >= self.window_seconds`
  abbrev pub is_mature : (now first : ℕ) → SignalPool W → Bool
  is_mature now first p = leb (first + p.window_seconds * 1_000_000) now

  -- A group is forwarded unless it is empty.
  abbrev pub forwarded : Group W → List (Group W) → List (Group W)
  forwarded [] l = l
  forwarded (s ∷ g) l = l ++ ((s ∷ g) ∷ [])

  -- The symbol leaves the pool.
  abbrev pub cleared : ℕ → SignalPool W → SignalPool W
  cleared sid p = record p {
    pool = erase sid p.pool;
    first_signal_time = erase sid p.first_signal_time;
  }

  -- The loop over a copy of the times, with the groups to flush.
  unfoldable pub flush_items :
      (now : ℕ)
      → (items : List (ℕ × ℕ)) → SignalPool W
      → List (Group W)
      → SignalPool W × List (Group W)
  flush_items now [] p out = (p, out)
  flush_items now ((sid, first) ∷ l) p out =
      let kept = flush_items now l p out in
      let flushed = flush_items now l (cleared sid p) (forwarded (values (signals_of sid p)) out) in
      if is_mature now first p then flushed else kept

  -- `_check_and_flush`, with the groups that the callback gets, if there is one.
  unfoldable pub check_and_flush :
      (has_callback : Bool) → (now : ℕ) → SignalPool W → SignalPool W × List (Group W)
  check_and_flush has_callback now p =
      let r = flush_items now p.first_signal_time p [] in (r.0, if has_callback then r.1 else [])
