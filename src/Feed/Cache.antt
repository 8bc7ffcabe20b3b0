-- ===== src/Feed/Cache.antt =====
-- ingestion/websocket_manager.py: `MarketDataCache`. Times are those of a monotonic clock, in
-- microseconds.
use quant_dss.Base.{
  ℕ, ◌+◌, ◌-◌, Option, none, some, List, [], ◌∷◌, String, ltb, leb, take, or_default, if◌then◌else◌,
}
use quant_dss.Base.Dict.{Dict, string_key, lookup, insert}

-- The prices, the quotes, the volumes, the time of the last update of an instrument, and its prices
-- with their times, last one first.
pub record Cache (W : Type 0) : Type 0 where
  pub ltps : Dict String W
  pub bids : Dict String W
  pub asks : Dict String W
  pub volumes : Dict String ℕ
  pub timestamps : Dict String ℕ
  pub ltp_history : Dict String (List (ℕ × W))

-- `maxlen` of a history, and the age of 30 seconds from which on a price is stale.
abbrev pub maxlen : ℕ
maxlen = 5400

abbrev pub stale_default_age : ℕ
stale_default_age = 30_000_000

-- The distance of two times.
abbrev pub distance : ℕ → ℕ → ℕ
distance a b = if leb a b then b - a else a - b

module _ {W : Type 0} where
  abbrev pub empty : Cache W
  empty = record {
    ltps = [];
    bids = [];
    asks = [];
    volumes = [];
    timestamps = [];
    ltp_history = [];
  }

  abbrev pub history_of : String → Cache W → List (ℕ × W)
  history_of key s = or_default [] (lookup key s.ltp_history)

  unfoldable pub update_ltp : (now : ℕ) → (key : String) → W → Cache W → Cache W
  update_ltp now key ltp s = record s {
    ltps = insert key ltp s.ltps;
    timestamps = insert key now s.timestamps;
    ltp_history = insert key (take maxlen ((now, ltp) ∷ history_of key s)) s.ltp_history;
  }

  abbrev pub get_ltp : (key : String) → Cache W → Option W
  get_ltp key s = lookup key s.ltps

  unfoldable pub get_ltp_if_fresh : (now max_age : ℕ) → (key : String) → Cache W → Option W
  get_ltp_if_fresh now max_age key s = elim (lookup key s.timestamps) [
    | none ↦ none
    | some ts ↦ if ltb max_age (now - ts) then none else get_ltp key s
  ]

  unfoldable pub update_quote : (now : ℕ) → (key : String) → (bid ask : W) → Cache W → Cache W
  update_quote now key bid ask s = record s {
    bids = insert key bid s.bids;
    asks = insert key ask s.asks;
    timestamps = insert key now s.timestamps;
  }

  abbrev pub get_quote : (key : String) → Cache W → Option W × Option W
  get_quote key s = (lookup key s.bids, lookup key s.asks)

  abbrev pub get_volume : (key : String) → Cache W → ℕ
  get_volume key s = or_default 0 (lookup key s.volumes)

  abbrev pub update_volume : (key : String) → ℕ → Cache W → Cache W
  update_volume key volume s = record s { volumes = insert key volume s.volumes }

  unfoldable pub accumulate_volume : (key : String) → (delta : ℕ) → Cache W → Cache W
  accumulate_volume key delta s = update_volume key (get_volume key s + delta) s

  abbrev pub reset_volume : (key : String) → Cache W → Cache W
  reset_volume key s = update_volume key 0 s

  abbrev pub age : (now : ℕ) → (key : String) → Cache W → Option ℕ
  age now key s = elim (lookup key s.timestamps) [ none ↦ none | some ts ↦ some (now - ts) ]

  -- The distance of an entry to the time that lies `lookback` before now, with that time added on
  -- both sides.
  abbrev pub gap : (now lookback : ℕ) → ℕ × W → ℕ
  gap now lookback e = distance (e.0 + lookback) now

  -- `best_ltp` and `best_diff` after one more entry, `none` before the first one, where the code has
  -- an infinite distance.
  abbrev pub closer : (now lookback : ℕ) → ℕ × W → Option (ℕ × W) → Option (ℕ × W)
  closer now lookback e none = some e
  closer now lookback e (some b) =
      if ltb (gap now lookback e) (gap now lookback b) then some e else some b

  -- The loop of `get_ltp_1h_ago`, which begins at the oldest entry.
  unfoldable pub nearest : (now lookback : ℕ) → List (ℕ × W) → Option (ℕ × W)
  nearest now lookback [] = none
  nearest now lookback (e ∷ l) = closer now lookback e (nearest now lookback l)

  -- `get_ltp_1h_ago`
  unfoldable pub get_ltp_1h_ago : (now lookback : ℕ) → (key : String) → Cache W → Option W
  get_ltp_1h_ago now lookback key s = elim (nearest now lookback (history_of key s)) [
    | none ↦ none
    | some e ↦ if leb (gap now lookback e) 300_000_000 then some e.1 else none
  ]
