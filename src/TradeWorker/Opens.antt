-- ===== src/TradeWorker/Opens.antt =====
-- workers/autotrader_worker.py: when the worker opens a paper trade.
use quant_dss.Base.{
  ℕ, ◌≡◌, refl, subst, ap, ◌∙◌, Bool, true, false, not, ◌&&◌, ◌||◌, some, [], ◌∷◌, ◌++◌, any, inl,
  inr, ◌⊎◌, arith, elim_if, elim_option,
}
use quant_dss.Base.Int.{ℤ, pos, leb_ℤ, max_ℤ}
use quant_dss.Base.Float.{Float, nought}
use quant_dss.Base.Exec.{Result, ok, raised, elim_result}
use quant_dss.Leases.{Redis}
use quant_dss.Leases.Lock.{micros}
use quant_dss.TradeWorker.{
  Numbers, Message, Config, World, Outcome, executed, is_market_hours, is_stale, is_invalid,
  active_positions, is_same,
}
use quant_dss.TradeWorker.Paper.{
  quantity_for, margin_req, is_short, debited, new_row, capital_of, is_known, book_sized,
  execute_paper_trade,
}
use quant_dss.TradeWorker.Handle.{
  is_trading_enabled, publish, execute, check_config, check_halts, release, claim, handle_signal,
}
use text.Mathlib.Text.{◌==◌ as str_eq}

abbrev IsPositive : ℤ → Type 0
IsPositive q = leb_ℤ q (pos 0) ≡ false

max_one : (k : ℤ) → IsPositive (max_ℤ (pos 1) k)
max_one k = ground arith

not-false : (b : Bool) → not b ≡ false → b ≡ true
not-false b h = ground arith

hours_of : (a b : Bool) → (not a && not b) ≡ false → (a || b) ≡ true
hours_of a b h = ground arith

ok_inj : {A : Type 0} (a b : A) → ok a ≡ ok b → a ≡ b
ok_inj a b h = cc h

module _ {W : Type 0} ⦃f : Float W⦄ where
  -- A quantity is positive, given or computed.
  quantity_for-IsPositive :
      (cfg : Config W) (n : Numbers W) (q : ℤ) → quantity_for cfg n ≡ ok q → IsPositive q
  unfolding quantity_for
  quantity_for-IsPositive cfg n q =
      elim_if (λ r. r ≡ ok q → IsPositive q) (leb_ℤ n.quantity (pos 0)) _ _
        (λ e.
          elim_option (λ r. r ≡ ok q → IsPositive q)
            (f.floor (f.quotient (capital_of cfg) n.entry_price)) _ _ (λ z h. absurd (cc h))
            (λ k z h. subst IsPositive (ok_inj _ _ h) (max_one k)))
        (λ e h. subst IsPositive (ok_inj _ _ h) e)

  module _ {S : Type 0} where
    -- The new row and the balance after it.
    abbrev IsBooked : Message W → Numbers W → ℤ → World W S → World W S → Type 0
    IsBooked m n q w w' =
        IsPositive q
        × (is_short (margin_req q n.entry_price) w.balance ≡ false)
        × (w'.paper ≡ w.paper ++ new_row m n q ∷ [])
        × (w'.balance ≡ debited (margin_req q n.entry_price) w.balance)

    -- Such a row, where there was no open trade of the symbol and the direction.
    abbrev IsEntered : Message W → Numbers W → World W S → World W S → Type 0
    IsEntered m n w w' = (any (is_same m) w.paper ≡ false) × ((q : ℤ) × IsBooked m n q w w')

    -- And what the configuration asks for.
    abbrev IsConfigured : Config W → Message W → Numbers W → World W S → World W S → Type 0
    IsConfigured cfg m n w w' =
        (cfg.enabled ≡ true)
        × (str_eq cfg.mode "paper" ≡ true)
        × (f.le n.entry_price nought ≡ false)
        × (leb_ℤ cfg.max_open_positions (pos (active_positions w)) ≡ false)
        × IsEntered m n w w'

    abbrev Either : (World W S → Type 0) → World W S → World W S → Type 0
    Either P w w' = (w'.paper ≡ w.paper) ⊎ P w'

    book_sized-IsBooked :
        (m : Message W) (n : Numbers W) (q : ℤ) (w : World W S)
        → IsPositive q
        → Either (IsBooked m n q w) w (book_sized m n q w)
    unfolding book_sized
    book_sized-IsBooked m n q w h =
        elim_if (Either (IsBooked m n q w) w) _ _ _ (λ e. inl refl) (λ e. inr (h, e, refl, refl))

    execute_paper_trade-IsEntered :
        (cfg : Config W) (m : Message W) (n : Numbers W) (w : World W S)
        → Either (IsEntered m n w) w (execute_paper_trade cfg m n w).1
    unfolding execute_paper_trade
    execute_paper_trade-IsEntered cfg m n w =
        let P = (λ (y : Result Unit × World W S). Either (IsEntered m n w) w y.1) in
        elim_if P (is_known m.signal_type) _ _
          (λ k.
            elim_if P (any (is_same m) w.paper) _ _ (λ e. inl refl)
              (λ e.
                elim_result P (quantity_for cfg n) _ _ (λ x z. inl refl)
                  (λ q z. elim (book_sized-IsBooked m n q w (quantity_for-IsPositive cfg n q z)) [
                    | inl same ↦ inl same
                    | inr b ↦ inr (e, (q, b))
                  ])))
          (λ k. inl refl)

    abbrev Ends : (World W S → Type 0) → World W S → Result Outcome × World W S → Type 0
    Ends P w y = Either P w y.1

    -- On paper the message that is published changes neither the rows nor the balance.
    execute-IsEntered :
        (cfg : Config W) (m : Message W) (n : Numbers W) (w : World W S)
        → Ends (λ w'. (str_eq cfg.mode "paper" ≡ true) × IsEntered m n w w') w (execute cfg m n w)
    unfolding execute
    execute-IsEntered cfg m n w =
        let P = Ends (λ w'. (str_eq cfg.mode "paper" ≡ true) × IsEntered m n w w') w in
        let (x, w') = execute_paper_trade cfg m n w in
        elim_if P (str_eq cfg.mode "paper") _ _
          (λ paper. elim (execute_paper_trade-IsEntered cfg m n w) [
            | inl same ↦
                elim_result P x (λ e. (raised e, w')) (λ u. (ok executed, publish m n cfg.mode w'))
                  (λ e z. inl same) (λ u z. inl same)
            | inr b ↦
                elim_result P x (λ e. (raised e, w')) (λ u. (ok executed, publish m n cfg.mode w'))
                  (λ e z. inr (paper, b)) (λ u z. inr (paper, b))
          ])
          (λ live. inl refl)

    check_config-IsConfigured :
        (cfg : Config W) (m : Message W) (n : Numbers W) (w : World W S)
        → Ends (IsConfigured cfg m n w) w (check_config cfg m n w)
    unfolding check_config
    check_config-IsConfigured cfg m n w =
        let P = Ends (IsConfigured cfg m n w) w in
        elim_if P (not cfg.enabled) _ _ (λ off. inl refl)
          (λ on.
            elim_if P (f.le n.entry_price nought) _ _ (λ bad. inl refl)
              (λ priced.
                elim_if P (leb_ℤ cfg.max_open_positions (pos (active_positions w))) _ _
                  (λ none_left. inl refl)
                  (λ room. elim (execute-IsEntered cfg m n w) [
                    | inl same ↦ inl same
                    | inr (paper, b) ↦ inr (not-false _ on, paper, priced, room, b)
                  ])))

    module _ ⦃r : Redis S⦄ where
      -- And the kill switch and the hours of the market allow it.
      abbrev IsAllowed : (now : ℕ) → Message W → Numbers W → World W S → World W S → Type 0
      IsAllowed now m n w w' =
          (is_trading_enabled now w.store ≡ true)
          × ((m.is_replay || is_market_hours now) ≡ true)
          × ((cfg : Config W) × (w.cfg ≡ some cfg) × IsConfigured cfg m n w w')

      check_halts-IsAllowed :
          (now : ℕ) (m : Message W) (n : Numbers W) (w : World W S)
          → Ends (IsAllowed now m n w) w (check_halts now m n w)
      unfolding check_halts
      check_halts-IsAllowed now m n w =
          let P = Ends (IsAllowed now m n w) w in
          elim_if P (not (is_trading_enabled now w.store)) _ _ (λ off. inl refl)
            (λ on.
              elim_if P (not m.is_replay && not (is_market_hours now)) _ _ (λ shut. inl refl)
                (λ hours.
                  elim_option P w.cfg _ _ (λ e. inl refl)
                    (λ cfg e. elim (check_config-IsConfigured cfg m n w) [
                      | inl same ↦ inl same
                      | inr c ↦ inr (not-false _ on, hours_of _ _ hours, (cfg, e, c))
                    ])))

      abbrev claimed : (now : ℕ) → Message W → World W S → World W S
      claimed now m w = record w { store = (r.set_nx now m.key "1" (micros 900) w.store).1 }

      -- And its key was not taken, and the test of its age did not stop it.
      abbrev pub Opens : (now : ℕ) → Message W → World W S → World W S → Type 0
      Opens now m w w' =
          (is_stale now m ≡ ok false)
          × ((r.set_nx now m.key "1" (micros 900) w.store).0 ≡ true)
          × ((n : Numbers W) × (m.numbers ≡ ok n) × IsAllowed now m n (claimed now m w) w')

      release-IsAllowed :
          (now : ℕ) (m : Message W) (n : Numbers W) (w w' : World W S)
          → Either (IsAllowed now m n w) w w'
          → Either (IsAllowed now m n w) w (release now m w')
      release-IsAllowed now m n w w' h =
          elim_option (Either (IsAllowed now m n w) w) m.reservation w' _ (λ e. h) (λ k e. h)

      claim-Opens :
          (now : ℕ) (m : Message W) (n : Numbers W) (w : World W S)
          → m.numbers ≡ ok n
          → is_stale now m ≡ ok false
          → Ends (Opens now m w) w (claim now m n w)
      unfolding claim
      claim-Opens now m n w converted fresh =
          elim_if (Ends (Opens now m w) w) (r.set_nx now m.key "1" (micros 900) w.store).0 _ _
            (λ new.
              elim (release-IsAllowed now m n (claimed now m w)
                (check_halts now m n (claimed now m w)).1
                (check_halts-IsAllowed now m n (claimed now m w))) [
                  | inl same ↦ inl same
                  | inr a ↦ inr (fresh, new, (n, converted, a))
                ])
            (λ old. inl refl)

      -- Whatever message comes, the handler either leaves the paper trades as they are or adds one
      -- open trade of the symbol, the direction and the prices of the message, of a positive
      -- quantity, and takes its margin from the balance, which covers it. Then the test of its age
      -- does not stop the message, which it does where the message is neither a replay nor from the
      -- scanner and its candle time has no zone or is more than sixty seconds ago; the key of the
      -- message was not taken, trading is enabled, the market is open or the signal a replay, the
      -- configuration is enabled, on paper and has room for a position, the price is not at or
      -- below zero, and no trade of the symbol and the direction was open.
      pub handle_signal-Opens :
          (now : ℕ) (m : Message W) (w : World W S)
          → ((handle_signal now m w).1.paper ≡ w.paper) ⊎ Opens now m w (handle_signal now m w).1
      unfolding handle_signal
      handle_signal-Opens now m w =
          let P = Ends (Opens now m w) w in
          elim_result P m.numbers _ _ (λ e z. inl refl)
            (λ n converted.
              elim_if P (is_invalid m) _ _ (λ bad. inl refl)
                (λ valid.
                  elim_result P (is_stale now m) _ _ (λ e z. inl refl)
                    (λ old age.
                      elim_if P old _ _ (λ o. inl refl)
                        (λ o. claim-Opens now m n w converted (age ∙ ap ok o)))))
