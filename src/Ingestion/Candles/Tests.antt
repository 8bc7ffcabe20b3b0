-- ===== src/Ingestion/Candles/Tests.antt =====
-- Runs of the aggregator on fixed-point prices, and its theorems at concrete inputs.
use quant_dss.Base.{ℕ, ◌≡◌, refl, true, false, some, List, [], ◌∷◌}
use quant_dss.Base.Int.{ℤ, pos}
use quant_dss.Base.Fixed.{fixed_float, fixed-IsOrdered}
use quant_dss.Signal.{aware}
use quant_dss.Ingestion.Candles.Builder.{new_builder, add_tick, to_dict}
use quant_dss.Ingestion.Candles.{
  Tick, Transport, Aggregator, empty, roll, accept, process_tick, get_pending_candle,
}
use quant_dss.Ingestion.Candles.Summary.{Summarises, add_all, onto, built-Summarises}

abbrev tick_at : ℕ → ℕ → ℕ → Tick ℤ
tick_at ts price volume = record {
  symbol = "TCS";
  ltp = pos price;
  volume = pos volume;
  timestamp = some (aware ts);
  instrument_key = "NSE|1";
  is_replay = false;
  replay_session_id = "";
}

abbrev up : Transport
up = record { stream_up = true; channel_up = true }

abbrev down : Transport
down = record { stream_up = false; channel_up = true }

abbrev feed : Transport → List (Tick ℤ) → Aggregator ℤ → Aggregator ℤ
feed net [] s = s
feed net (t ∷ l) s = feed net l (process_tick net t s).1

abbrev opened : Aggregator ℤ
opened =
    feed up
      (tick_at 60_000_001 50 2
        ∷ tick_at 60_000_005 70 3
        ∷ tick_at 60_000_005 70 3
        ∷ tick_at 60_000_002 10 9
        ∷ [])
      empty

-- The repeated tick and the late one leave no trace in the candle.
pending_skips :
    get_pending_candle "TCS" opened
    ≡ some (record {
      symbol = "TCS";
      time = 60_000_000;
      open_price = pos 50;
      high = pos 70;
      low = pos 50;
      close = pos 70;
      volume = 5;
    })
unfolding process_tick accept roll add_tick get_pending_candle to_dict
pending_skips = refl

-- Without the stream the candle goes out on the channel, and the tick's instrument is reset.
falls_back : (feed down (tick_at 120_000_001 40 1 ∷ []) opened).resets ≡ "NSE|1" ∷ []
unfolding process_tick accept roll add_tick
falls_back = refl

built-Summarises_example :
    Summarises (pos 50) (onto ((pos 70, pos 3) ∷ (pos 30, pos 4) ∷ []) ((pos 50, pos 2) ∷ [])) (
      add_all
        ((pos 70, pos 3) ∷ (pos 30, pos 4) ∷ [])
        (add_tick (pos 50) (pos 2) (new_builder "TCS" 60_000_000)))
built-Summarises_example =
    built-Summarises fixed-IsOrdered "TCS" 60_000_000 (pos 50) (pos 2)
      ((pos 70, pos 3) ∷ (pos 30, pos 4) ∷ []) refl (refl, (refl, tt))
