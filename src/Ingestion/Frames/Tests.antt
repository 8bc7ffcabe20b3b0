-- ===== src/Ingestion/Frames/Tests.antt =====
-- Runs of the timeframes on fixed-point numbers, and the theorem at a concrete input.
use quant_dss.Base.{ℕ, ◌+◌, ◌*◌, ◌≡◌, refl, true, List, [], ◌∷◌}
use quant_dss.Base.Int.{ℤ, pos}
use quant_dss.Base.Fixed.{fixed_float}
use quant_dss.Ingestion.Frames.{
  MtfCandle, new_frames, m1, m5, s5, roll_frame, update_candle, aggregate_up, aggregate_all,
  process_frame_tick, process_1m_candle,
}
use quant_dss.Ingestion.Frames.Volume.{held}

abbrev minute : (time price volume : ℕ) → MtfCandle ℤ
minute t p v = record {
  time = t * 60_000_000;
  open_price = pos p;
  high = pos (p + 10);
  low = pos p;
  close = pos (p + 5);
  volume = v;
  timeframe = m1;
  complete = true;
}

-- Three minutes of one span of five, and the first of the next.
abbrev minutes : List (MtfCandle ℤ)
minutes = minute 0 100 7 ∷ minute 1 90 8 ∷ minute 4 95 9 ∷ minute 5 97 1 ∷ []

span_is_closed :
    (aggregate_all m5 minutes new_frames).0
    ≡ (record {
      time = 0;
      open_price = pos 100;
      high = pos 110;
      low = pos 90;
      close = pos 100;
      volume = 24;
      timeframe = m5;
      complete = true;
    })
      ∷ []
unfolding aggregate_up roll_frame
span_is_closed = refl

-- The tick of the next second closes the candle of the first one, which goes into that of five.
second_goes_up :
    held s5
      (process_frame_tick (pos 100) 4 1_000_000 (process_frame_tick (pos 99) 3 0 new_frames).1).1
    ≡ 3
unfolding process_frame_tick update_candle aggregate_up roll_frame
second_goes_up = refl

one_minute_starts_a_span : held m5 (process_1m_candle (minute 0 100 7) new_frames).1 ≡ 7
unfolding process_1m_candle aggregate_up roll_frame
one_minute_starts_a_span = refl
