-- ===== src/Feed/Message.antt =====
-- ingestion/websocket_manager.py: `_parse_protobuf`, on a message that has been decoded.
use quant_dss.Base.{ℕ, Option, none, some, List, [], ◌∷◌, String}
use quant_dss.Feed.Volume.{Tracker, get_delta}
use quant_dss.Feed.Cache.{Cache, update_ltp, update_quote, accumulate_volume}

-- `eFeedDetails`, of which the volume of the day so far is read.
pub record Details : Type 0 where
  pub vtt : ℕ

-- The feed of an instrument: of a market, of an index, only a price, or nothing of these.
pub data Entry (W : Type 0) : Type 0 where
  market : (ltp : Option W) → (details : Option Details) → Entry W
  index : (ltp : Option W) → Entry W
  price : (ltp : W) → Entry W
  other : Entry W

-- `_volume_tracker` and `market_data_cache`
pub record Market (W : Type 0) : Type 0 where
  pub tracker : Tracker
  pub cache : Cache W

module _ {W : Type 0} where
  abbrev pub ltp_of : Entry W → Option W
  ltp_of (market ltp details) = ltp
  ltp_of (index ltp) = ltp
  ltp_of (price ltp) = some ltp
  ltp_of other = none

  abbrev pub details_of : Entry W → Option Details
  details_of (market ltp details) = details
  details_of (index ltp) = none
  details_of (price ltp) = none
  details_of other = none

  unfoldable pub take_volume : (key : String) → Option Details → Market W → Market W
  take_volume key none s = s
  take_volume key (some d) s =
      let (delta, tracker) = get_delta key d.vtt s.tracker in
      record { tracker = tracker; cache = accumulate_volume key delta s.cache }

  abbrev pub take_price : (now : ℕ) → (key : String) → Option W → Cache W → Cache W
  take_price now key none s = s
  take_price now key (some ltp) s = update_ltp now key ltp s

  abbrev pub quoted : (now : ℕ) → (key : String) → (bid ask : Option W) → Cache W → Cache W
  quoted now key none ask s = s
  quoted now key (some bid) none s = s
  quoted now key (some bid) (some ask) s = update_quote now key bid ask s

  -- `best_bid` and `best_ask`. The message type of `eFeedDetails` has no field sBids or sAsks: the read
  -- raises AttributeError, which is passed over, and both stay None.
  abbrev pub best_prices : Option Details → Option W × Option W
  best_prices details = (none, none)

  abbrev pub take_quote : (now : ℕ) → (key : String) → Option Details → Cache W → Cache W
  take_quote now key details s = let (bid, ask) = best_prices details in quoted now key bid ask s

  -- The body of the loop over the feeds.
  unfoldable pub take_entry : (now : ℕ) → (key : String) → Entry W → Market W → Market W
  take_entry now key entry s =
      let s' = take_volume key (details_of entry) s in
      record s' {
        cache = take_quote now key (details_of entry) (take_price now key (ltp_of entry) s'.cache);
      }

  -- `_parse_protobuf`: the feeds of a message by their instrument.
  unfoldable pub take_message : (now : ℕ) → List (String × Entry W) → Market W → Market W
  take_message now [] s = s
  take_message now ((key, entry) ∷ l) s = take_message now l (take_entry now key entry s)

  -- The listener takes message after message, each at its time.
  abbrev pub take_messages : List (ℕ × List (String × Entry W)) → Market W → Market W
  take_messages [] s = s
  take_messages ((now, l) ∷ ms) s = take_messages ms (take_message now l s)
