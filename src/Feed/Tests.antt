-- ===== src/Feed/Tests.antt =====
-- Messages of the market, and turns of the supervisor, with the theorems at concrete inputs.
use quant_dss.Base.{ℕ, ◌+◌, ◌*◌, ◌≡◌, refl, true, false, some, none, List, [], ◌∷◌, String, arith}
use quant_dss.Feed.Volume.{get_delta, delta_of}
use quant_dss.Feed.Cache.{
  history_of, get_volume, get_ltp_if_fresh, update_ltp, update_quote, accumulate_volume,
  get_ltp_1h_ago, stale_default_age,
}
use quant_dss.Feed.Message.{
  Entry, market, price, take_volume, take_entry, take_message, take_messages,
}
use quant_dss.Feed.Supervisor.{
  Event, healthy, slow_wait, attempt, turn, step, supervise, connect, started,
}
use quant_dss.Feed.Totals.{last, take_messages-total}
use quant_dss.Feed.Fresh
use quant_dss.Feed.Fresh.{newest, recent, get_ltp_if_fresh-recent}
use quant_dss.Feed.Nearest.{IsHourOld, get_ltp_1h_ago-IsHourOld}
use quant_dss.Feed.Attempts.{ArePatient, supervise-ArePatient}

abbrev seconds : ℕ → ℕ
seconds n = n * 1_000_000

-- A feed of a market with a price and a volume.
abbrev full : (ltp vtt : ℕ) → Entry ℕ
full ltp vtt = market (some ltp) (some (record { vtt = vtt }))

abbrev messages : List (ℕ × List (String × Entry ℕ))
messages =
    (seconds 1, ("TCS", full 100 60_000) ∷ ("INFY", full 50 7) ∷ [])
    ∷ (seconds 2, ("TCS", full 101 60_400) ∷ [])
    ∷ (seconds 3, ("INFY", price 51) ∷ ("TCS", full 102 60_900) ∷ [])
    ∷ []

take_messages-total_example :
    get_volume "TCS" (take_messages messages Fresh.started).cache + 60_000
    ≡ get_volume "TCS" (Fresh.started {W = ℕ}).cache
      + delta_of none 60_000
      + last 60_000 (60_400 ∷ 60_900 ∷ [])
take_messages-total_example =
    take_messages-total "TCS" messages Fresh.started 60_000 (60_400 ∷ 60_900 ∷ []) refl refl
      (omega arith, (omega arith, tt))

get_ltp_if_fresh-recent_example :
    let s = (take_messages messages Fresh.started).cache in
    get_ltp_if_fresh (seconds 20) stale_default_age "TCS" s
    ≡ recent (seconds 20) stale_default_age (newest (history_of "TCS" s))
get_ltp_if_fresh-recent_example =
    get_ltp_if_fresh-recent "TCS" messages (seconds 20) stale_default_age

-- A reading that falls a little and comes back counts its rise twice.
glitch_counts_twice :
    get_volume "TCS"
      (take_messages
        ((1, ("TCS", full 100 1_000) ∷ [])
          ∷ (2, ("TCS", full 100 900) ∷ [])
          ∷ (3, ("TCS", full 100 1_000) ∷ [])
          ∷ [])
        Fresh.started).cache
    ≡ 1_100
unfolding take_message take_entry take_volume get_delta delta_of update_ltp update_quote
    accumulate_volume
glitch_counts_twice = refl

get_ltp_1h_ago-IsHourOld_example :
    let s = (take_messages messages Fresh.started).cache in
    IsHourOld
      (seconds 3601)
      (seconds 3600)
      (history_of "TCS" s)
      (get_ltp_1h_ago (seconds 3601) (seconds 3600) "TCS" s)
get_ltp_1h_ago-IsHourOld_example =
    get_ltp_1h_ago-IsHourOld (seconds 3601) (seconds 3600) "TCS"
      (take_messages messages Fresh.started).cache

abbrev failing : Event
failing = record { lost = false; connects = false }

abbrev failures : List Event
failures =
    failing
    ∷ failing
    ∷ failing
    ∷ failing
    ∷ failing
    ∷ failing
    ∷ failing
    ∷ failing
    ∷ failing
    ∷ failing
    ∷ failing
    ∷ failing
    ∷ record { lost = false; connects = true }
    ∷ failing
    ∷ []

-- The delay is not reset by the slow wait.
slow_after_ten :
    supervise failures (started false)
    ≡ attempt 1
      ∷ attempt 2
      ∷ attempt 4
      ∷ attempt 8
      ∷ attempt 16
      ∷ attempt 32
      ∷ attempt 60
      ∷ attempt 60
      ∷ attempt 60
      ∷ attempt 60
      ∷ slow_wait
      ∷ attempt 60
      ∷ attempt 60
      ∷ healthy
      ∷ []
unfolding supervise step turn connect
slow_after_ten = refl

supervise-ArePatient_example : ArePatient 0 failures (supervise failures (started false))
supervise-ArePatient_example =
    supervise-ArePatient failures (started false) (omega arith, omega arith)
