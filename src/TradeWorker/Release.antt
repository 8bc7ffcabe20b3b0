-- ===== src/TradeWorker/Release.antt =====
-- workers/autotrader_worker.py: the `finally` that gives back the risk reservation.
use quant_dss.Base.{ℕ, ◌≤◌, ◌≡◌, true, false, none, some, String, elim_if}
use quant_dss.Base.Float.{Float}
use quant_dss.Base.Exec.{Result, ok, elim_result}
use quant_dss.Leases.{Redis, IsRedis}
use quant_dss.Leases.Lock.{micros}
use quant_dss.TradeWorker.{Numbers, Message, World, Outcome, is_invalid, is_stale}
use quant_dss.TradeWorker.Handle.{check_halts, release, claim, handle_signal}

module _ {W : Type 0} ⦃f : Float W⦄ {S : Type 0} ⦃r : Redis S⦄ where
  -- The key is gone from a time on.
  abbrev IsGone : (now : ℕ) → (key : String) → World W S → Type 0
  IsGone now key w = (t : ℕ) → now ≤ t → r.get t key w.store ≡ none

  release-IsGone :
      (laws : IsRedis S) (now : ℕ) (m : Message W) (key : String) (w : World W S)
      → m.reservation ≡ some key
      → IsGone now key (release now m w)
  release-IsGone laws now m key w h = rw h (λ t later. laws.del_gone now key w.store t later)

  -- A message that passes the checks in front goes to the claim of its key.
  handle_signal-claim :
      (now : ℕ) (m : Message W) (n : Numbers W) (w : World W S)
      → m.numbers ≡ ok n
      → is_invalid m ≡ false
      → is_stale now m ≡ ok false
      → handle_signal now m w ≡ claim now m n w
  unfolding handle_signal
  handle_signal-claim now m n w converted valid fresh =
      let P = (λ (y : Result Outcome × World W S). y ≡ claim now m n w) in
      elim_result P m.numbers _ _ (λ e z. absurd (cc (z, converted)))
        (λ k z.
          elim_if P (is_invalid m) _ _ (λ bad. absurd (cc (bad, valid)))
            (λ good.
              elim_result P (is_stale now m) _ _ (λ e y. absurd (cc (y, fresh)))
                (λ old y.
                  elim_if P old _ _ (λ o. absurd (cc (y, fresh, o))) (λ o. cc (z, converted)))))

  claim-released :
      (laws : IsRedis S) (now : ℕ) (m : Message W) (n : Numbers W) (key : String) (w : World W S)
      → (r.set_nx now m.key "1" (micros 900) w.store).0 ≡ true
      → m.reservation ≡ some key
      → IsGone now key (claim now m n w).1
  unfolding claim
  claim-released laws now m n key w new reserved =
      let w' : World W S = record w { store = (r.set_nx now m.key "1" (micros 900) w.store).1 } in
      rw new (release-IsGone laws now m key (check_halts now m n w').1 reserved)

  -- If Redis keeps its documented behaviour and a message with a reservation has numbers and texts
  -- and is not stopped by the test of its age, and its key was not taken, then after the handler
  -- the key of the reservation is gone, whether the signal was traded, refused by a later check, or
  -- an exception ended the handler.
  pub handle_signal-released :
      (laws : IsRedis S) (now : ℕ) (m : Message W) (n : Numbers W) (key : String) (w : World W S)
      → m.numbers ≡ ok n
      → is_invalid m ≡ false
      → is_stale now m ≡ ok false
      → (r.set_nx now m.key "1" (micros 900) w.store).0 ≡ true
      → m.reservation ≡ some key
      → (t : ℕ) → now ≤ t
      → r.get t key (handle_signal now m w).1.store ≡ none
  handle_signal-released laws now m n key w converted valid fresh new reserved t later =
      rw (handle_signal-claim now m n w converted valid fresh)
        (claim-released laws now m n key w new reserved t later)
