-- ===== src/Feed/Fresh.antt =====
-- ingestion/websocket_manager.py: whose age `get_ltp_if_fresh` tests.
use quant_dss.Base.{
  ℕ, ◌-◌, ◌≡◌, refl, Option, none, some, List, [], ◌∷◌, String, Bool-cases, inl, inr, ltb,
  if◌then◌else◌, take,
}
use quant_dss.Base.Dict.{string_key, lookup, lookup-insert}
use quant_dss.Feed.Cache.{
  Cache, history_of, get_ltp_if_fresh, update_ltp, accumulate_volume, maxlen, empty,
}
use quant_dss.Feed.Message.{
  Details, Entry, Market, ltp_of, details_of, take_volume, take_price, take_entry, take_message,
  take_messages,
}
use text.Mathlib.Text.{◌==◌ as str_eq}

module _ {W : Type 0} where
  -- The newest entry of the history of an instrument.
  abbrev pub newest : List (ℕ × W) → Option (ℕ × W)
  newest [] = none
  newest (e ∷ l) = some e

  abbrev pub recent : (now max_age : ℕ) → Option (ℕ × W) → Option W
  recent now max_age none = none
  recent now max_age (some e) = if ltb max_age (now - e.0) then none else some e.1

  abbrev time_of : Option (ℕ × W) → Option ℕ
  time_of none = none
  time_of (some e) = some e.0

  abbrev price_of : Option (ℕ × W) → Option W
  price_of none = none
  price_of (some e) = some e.1

  -- The price and the time of an instrument are those of the newest entry of its history.
  abbrev IsTimed : String → Cache W → Type 0
  IsTimed key s =
      (lookup key s.ltps ≡ price_of (newest (history_of key s)))
      × (lookup key s.timestamps ≡ time_of (newest (history_of key s)))

  update_ltp-IsTimed :
      (now : ℕ) (k key : String) (p : W) (s : Cache W)
      → IsTimed key s
      → IsTimed key (update_ltp now k p s)
  unfolding update_ltp
  update_ltp-IsTimed now k key p s h =
      let l = take maxlen ((now, p) ∷ history_of k s) in
      elim (Bool-cases (str_eq k key)) [
        | inl e ↦ (
          rw (lookup-insert k key p s.ltps, lookup-insert k key l s.ltp_history, e) refl,
          rw (lookup-insert k key now s.timestamps, lookup-insert k key l s.ltp_history, e) refl,
        )
        | inr e ↦ (
          rw (lookup-insert k key p s.ltps, lookup-insert k key l s.ltp_history, e) h.0,
          rw (lookup-insert k key now s.timestamps, lookup-insert k key l s.ltp_history, e) h.1,
        )
      ]

  take_volume-IsTimed :
      (k key : String) (d : Option Details) (s : Market W)
      → IsTimed key s.cache
      → IsTimed key (take_volume k d s).cache
  unfolding take_volume accumulate_volume
  take_volume-IsTimed k key none s h = h
  take_volume-IsTimed k key (some d) s h = h

  take_price-IsTimed :
      (now : ℕ) (k key : String) (p : Option W) (s : Cache W)
      → IsTimed key s
      → IsTimed key (take_price now k p s)
  take_price-IsTimed now k key none s h = h
  take_price-IsTimed now k key (some p) s h = update_ltp-IsTimed now k key p s h

  take_message-IsTimed :
      (now : ℕ) (key : String) (l : List (String × Entry W)) (s : Market W)
      → IsTimed key s.cache
      → IsTimed key (take_message now l s).cache
  unfolding take_message take_entry
  take_message-IsTimed now key [] s h = h
  take_message-IsTimed now key ((k, x) ∷ l) s h =
      take_message-IsTimed now key l (take_entry now k x s) (
        take_price-IsTimed now k key (ltp_of x) (take_volume k (details_of x) s).cache
          (take_volume-IsTimed k key (details_of x) s h))

  take_messages-IsTimed :
      (key : String) (ms : List (ℕ × List (String × Entry W))) (s : Market W)
      → IsTimed key s.cache
      → IsTimed key (take_messages ms s).cache
  take_messages-IsTimed key [] s h = h
  take_messages-IsTimed key ((now, l) ∷ ms) s h =
      take_messages-IsTimed key ms (take_message now l s) (take_message-IsTimed now key l s h)

  abbrev pub started : Market W
  started = record { tracker = []; cache = empty }

  timed-recent :
      (now max_age : ℕ) (key : String) (s : Cache W) (o : Option (ℕ × W))
      → lookup key s.ltps ≡ price_of o
      → lookup key s.timestamps ≡ time_of o
      → get_ltp_if_fresh now max_age key s ≡ recent now max_age o
  unfolding get_ltp_if_fresh
  timed-recent now max_age key s none p t = rw (get_ltp_if_fresh, t) refl
  timed-recent now max_age key s (some e) p t = rw (get_ltp_if_fresh, t, p) refl

  -- After any messages, from an empty cache on, the price that `get_ltp_if_fresh` gives is that of
  -- the newest entry of the history of the instrument, where it is not older than is asked for, and
  -- there is none otherwise.
  pub get_ltp_if_fresh-recent :
      (key : String) (ms : List (ℕ × List (String × Entry W))) (now max_age : ℕ)
      → let s = (take_messages ms started).cache in
        get_ltp_if_fresh now max_age key s ≡ recent now max_age (newest (history_of key s))
  get_ltp_if_fresh-recent key ms now max_age =
      let h = take_messages-IsTimed key ms started (refl, refl) in
      let s = (take_messages ms started).cache in
      timed-recent now max_age key s (newest (history_of key s)) h.0 h.1
