-- ===== src/Ingestion/Candles/Pending.antt =====
-- ingestion/candle_aggregator.py: the candle that a tick closes is the pending one.
use quant_dss.Base.{
  ℕ, ◌≡◌, inl, inr, Option, some, none, arith, any, take, ◌∷◌, Bool-cases, Option-cases,
}
use quant_dss.Base.Float.{Float}
use quant_dss.Base.Dict.{string_key, lookup, insert}
use quant_dss.Signal.{as_utc}
use quant_dss.Ingestion.Candles.Builder.{Candle}
use quant_dss.Ingestion.Candles.{
  Tick, Transport, Aggregator, floor_to_minute, same_tick, recent_of, roll, accept, remember,
  process_tick, get_pending_candle, later_of,
}

module _ {W : Type 0} ⦃f : Float W⦄ where
  roll-Pending :
      (net : Transport) (t : Tick W) (m : ℕ) (s : Aggregator W) (c : Candle W)
      → (roll net t m s).0 ≡ some c
      → get_pending_candle t.symbol s ≡ some c
  unfolding roll get_pending_candle
  roll-Pending net t m s c h = ground arith

  accept-Pending :
      (net : Transport) (t : Tick W) (ts : ℕ) (s : Aggregator W) (c : Candle W)
      → (accept net t ts s).0 ≡ some c
      → get_pending_candle t.symbol s ≡ some c
  unfolding accept get_pending_candle
  accept-Pending net t ts s c h = elim (Option-cases (lookup t.symbol s.last_tick_ts)) [
    | inl e ↦ roll-Pending net t (floor_to_minute ts) (dated none) c (cc (h, e))
    | inr (l, e) ↦ ground (arith, roll-Pending net t (floor_to_minute ts) (dated (some l)) c)
  ]
    where
      dated : Option ℕ → Aggregator W
      dated o = record s { last_tick_ts = insert t.symbol (later_of o ts) s.last_tick_ts }

  -- A candle that `process_tick` gives is the one that `get_pending_candle` gave before the tick.
  pub process_tick-Pending :
      (net : Transport) (t : Tick W) (s : Aggregator W) (c : Candle W)
      → (process_tick net t s).0 ≡ some c
      → get_pending_candle t.symbol s ≡ some c
  unfolding process_tick get_pending_candle
  process_tick-Pending net t s c h = elim (Option-cases t.timestamp) [
    | inl e ↦ ground (arith, e)
    | inr (stamp, e) ↦
        let ts = as_utc stamp in
        elim (Bool-cases (any (same_tick (ts, t.ltp, t.volume)) (recent_of t s))) [
          | inl old ↦ ground (arith, e, old)
          | inr new ↦ ground (
            arith,
            e,
            new,
            accept-Pending net t ts (remember t (take 20 ((ts, t.ltp, t.volume) ∷ recent_of t s)) s)
                c,
          )
        ]
  ]
