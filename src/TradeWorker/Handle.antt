-- ===== src/TradeWorker/Handle.antt =====
-- workers/autotrader_worker.py: the handler of a signal, from its checks to the release of its risk
-- reservation.
use quant_dss.Base.{ℕ, Bool, not, ◌&&◌, none, some, ◌∷◌, String, if◌then◌else◌}
use quant_dss.Base.Int.{pos, leb_ℤ}
use quant_dss.Base.Float.{Float, nought}
use quant_dss.Base.Exec.{ok, raised, Exec}
use quant_dss.Leases.{Redis}
use quant_dss.Leases.Lock.{micros}
use quant_dss.Monitor.{get_trading_state}
use quant_dss.TradeWorker.{
  Numbers, Message, Config, World, Outcome, invalid, stale, repeated, halted, out_of_hours,
  disabled, bad_price, full, executed, is_market_hours, is_stale, is_invalid, active_positions,
}
use quant_dss.TradeWorker.Paper.{execute_paper_trade}
use text.Mathlib.Text.{◌==◌ as str_eq}

-- `is_trading_enabled`
unfoldable pub is_trading_enabled : {S : Type 0} ⦃r : Redis S⦄ → (now : ℕ) → S → Bool
is_trading_enabled ⦃r⦄ now s =
    str_eq (get_trading_state (r.get now "quantdss:global_trading_state" s)) "ENABLED"

module _ {W S : Type 0} where
  -- `_execute_live_trade`, as far as the call of `place_order`, all of whose exceptions it catches.
  abbrev pub execute_live_trade : Message W → Numbers W → World W S → World W S
  execute_live_trade m n w = record w {
    orders =
        record {
          symbol = m.symbol;
          direction = m.signal_type;
          quantity = n.quantity;
          signal_price = n.entry_price;
          stop_loss = n.stop_loss;
          target_price = n.target_price;
        }
        ∷ w.orders;
  }

  -- The message for the stream of executed signals, which has the quantity of the signal.
  abbrev pub publish : Message W → Numbers W → (mode : String) → World W S → World W S
  publish m n mode w = record w {
    published =
        record {
          symbol = m.symbol;
          signal_type = m.signal_type;
          entry_price = n.entry_price;
          quantity = n.quantity;
          mode = mode;
        }
        ∷ w.published;
  }

module _ {W : Type 0} ⦃f : Float W⦄ {S : Type 0} where
  -- The choice by the mode, and the message.
  unfoldable pub execute : Config W → Message W → Numbers W → Exec (World W S) Outcome
  execute cfg m n w =
      let (r, w') = execute_paper_trade cfg m n w in
      if str_eq cfg.mode "paper"
      then elim r [ ok u ↦ (ok executed, publish m n cfg.mode w') | raised e ↦ (raised e, w') ]
      else (ok executed, publish m n cfg.mode (execute_live_trade m n w))

  -- With a configuration.
  unfoldable pub check_config : Config W → Message W → Numbers W → Exec (World W S) Outcome
  check_config cfg m n w =
      if not cfg.enabled
      then (ok disabled, w)
      else if f.le n.entry_price nought
      then (ok bad_price, w)
      else if leb_ℤ cfg.max_open_positions (pos (active_positions w))
      then (ok full, w)
      else execute cfg m n w

  module _ ⦃r : Redis S⦄ where
    -- The body of the `try`.
    unfoldable pub check_halts : (now : ℕ) → Message W → Numbers W → Exec (World W S) Outcome
    check_halts now m n w =
        if not (is_trading_enabled now w.store)
        then (ok halted, w)
        else if not m.is_replay && not (is_market_hours now)
        then (ok out_of_hours, w)
        else elim w.cfg [ none ↦ (ok disabled, w) | some cfg ↦ check_config cfg m n w ]

    -- The `finally`.
    abbrev pub release : (now : ℕ) → Message W → World W S → World W S
    release now m w = elim m.reservation [
      | none ↦ w
      | some key ↦ record w { store = r.del now key w.store }
    ]

    -- From the idempotency check on.
    unfoldable pub claim : (now : ℕ) → Message W → Numbers W → Exec (World W S) Outcome
    claim now m n w =
        let (is_new, store) = r.set_nx now m.key "1" (micros 900) w.store in
        let (x, w') = check_halts now m n (record w { store = store }) in
        if is_new then (x, release now m w') else (ok repeated, record w { store = store })

    -- `_handle_signal`
    unfoldable pub handle_signal : (now : ℕ) → Message W → Exec (World W S) Outcome
    handle_signal now m w = elim m.numbers [
      | raised e ↦ (raised e, w)
      | ok n ↦ if is_invalid m then (ok invalid, w) else elim (is_stale now m) [
        | raised e ↦ (raised e, w)
        | ok old ↦ if old then (ok stale, w) else claim now m n w
      ]
    ]
