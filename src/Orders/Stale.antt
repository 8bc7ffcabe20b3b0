-- ===== src/Orders/Stale.antt =====
-- engine/execution_manager.py: `cancel_stale_pending_orders`.
use quant_dss.Base.{
  ℕ, suc, ◌+◌, ◌*◌, ◌≡◌, refl, Bool, true, false, not, ◌&&◌, ◌||◌, Option, some, none, List, [],
  ◌∷◌, arith, count_if, ltb, if◌then◌else◌, elim_if,
}
use quant_dss.Orders.Types.{LiveTrade, TradeStatus, pending, cancelled}

abbrev pub is_pending : TradeStatus → Bool
is_pending pending = true
is_pending s = false

-- `created_at < cutoff`, or no time of creation.
abbrev pub is_old : (now timeout_minutes : ℕ) → Option ℕ → Bool
is_old now minutes none = true
is_old now minutes (some created) = ltb (created + minutes * 60_000_000) now

-- The answer to the next request to cancel; one without an answer is an exception, which is caught.
abbrev pub next_answer : List Bool → Bool
next_answer [] = false
next_answer (b ∷ l) = b

abbrev pub rest_answers : List Bool → List Bool
rest_answers [] = []
rest_answers (b ∷ l) = l

module _ {A : Type 0} where
  count_yes :
      (p : A → Bool) (x : A) (l : List A) → p x ≡ true → count_if p (x ∷ l) ≡ suc (count_if p l)
  count_yes p x l h = ground (arith, h)

  count_no : (p : A → Bool) (x : A) (l : List A) → p x ≡ false → count_if p (x ∷ l) ≡ count_if p l
  count_no p x l h = ground (arith, h)

module _ {W : Type 0} where
  -- A row of the query, with the time of its creation.
  abbrev pub is_stale : (now timeout_minutes : ℕ) → Option ℕ × LiveTrade W → Bool
  is_stale now minutes (created, t) = is_pending t.status && is_old now minutes created

  abbrev pub timed_out : (now : ℕ) → LiveTrade W → LiveTrade W
  timed_out now t = record t {
    status = cancelled;
    close_reason = "ORDER_TIMEOUT";
    closed_at = some now;
  }

  -- The trades after the run, the number of those cancelled, and of the failures that are counted.
  -- `cancel_order` succeeds without a token, and otherwise as the broker answers.
  unfoldable pub cancel_stale :
      (token : Bool)
      → (now timeout_minutes : ℕ) → (answers : List Bool) → List (Option ℕ × LiveTrade W)
      → List (Option ℕ × LiveTrade W) × ℕ × ℕ
  cancel_stale token now minutes answers [] = ([], 0, 0)
  cancel_stale token now minutes answers ((created, t) ∷ l) =
      let ok = not token || next_answer answers in
      let skipped = cancel_stale token now minutes answers l in
      let asked =
        cancel_stale token now minutes (if token then rest_answers answers else answers) l in
      if is_stale now minutes (created, t)
      then if ok
        then ((created, timed_out now t) ∷ asked.0, suc asked.1, asked.2)
        else ((created, t) ∷ asked.0, asked.1, suc asked.2)
      else ((created, t) ∷ skipped.0, skipped.1, skipped.2)

  -- Of the pending trades that are older than the timeout, each is either cancelled and counted, or
  -- is left as it is and counted as a failure: the numbers add up, and those left are the failures.
  pub cancel_stale-counts :
      (token : Bool) (now minutes : ℕ) (answers : List Bool) (l : List (Option ℕ × LiveTrade W))
      → let r = cancel_stale token now minutes answers l in
        (r.1 + r.2 ≡ count_if (is_stale now minutes) l)
        × (count_if (is_stale now minutes) r.0 ≡ r.2)
  unfolding cancel_stale
  cancel_stale-counts token now minutes answers [] = (refl, refl)
  cancel_stale-counts token now minutes answers ((created, t) ∷ l) =
      let a =
        cancel_stale-counts token now minutes (if token then rest_answers answers else answers) l in
      let s = cancel_stale-counts token now minutes answers l in
      let p : Option ℕ × LiveTrade W → Bool = is_stale now minutes in
      let P : List (Option ℕ × LiveTrade W) × ℕ × ℕ → Type 0 =
        λ r. (r.1 + r.2 ≡ count_if p ((created, t) ∷ l)) × (count_if p r.0 ≡ r.2) in
      elim_if P (p (created, t)) _ _
        (λ old.
          elim_if P (not token || next_answer answers) _ _
            (λ ok. (omega (arith, a.0, count_yes p (created, t) l old), a.1))
            (λ failed. (
              omega (arith, a.0, count_yes p (created, t) l old),
              omega (arith, a.1, count_yes p (created, t) _ old),
            )))
        (λ young. (
          omega (arith, s.0, count_no p (created, t) l young),
          omega (arith, s.1, count_no p (created, t) _ young),
        ))
