-- ===== src/Feed/Totals.antt =====
-- ingestion/websocket_manager.py: the volume that the entries of messages add up to.
use quant_dss.Base.{
  ℕ, ◌+◌, ◌≤◌, ◌≡◌, refl, sym, ap, ◌∙◌, Option, none, some, List, [], ◌∷◌, ◌++◌, String, arith,
  or_default, elim_if, Bool-cases, inl, inr, if◌then◌else◌,
}
use quant_dss.Base.Dict.{string_key, lookup, lookup-insert}
use quant_dss.Feed.Volume.{delta_of, get_delta}
use quant_dss.Feed.Cache.{Cache, get_volume, update_ltp, accumulate_volume}
use quant_dss.Feed.Message.{
  Details, Entry, Market, ltp_of, details_of, take_volume, take_price, take_entry, take_message,
  take_messages,
}
use text.Mathlib.Text.{◌==◌ as str_eq}
use text.Mathlib.TextEquality.{eq_iff}

-- Of an instrument: the last reading, and the volume.
abbrev Count : Type 0
Count = Option ℕ × ℕ

abbrev add_reading : Count → ℕ → Count
add_reading c r = (some r, c.1 + delta_of c.0 r)

abbrev counted : Count → List ℕ → Count
counted c [] = c
counted c (r ∷ l) = counted (add_reading c r) l

counted-append : (c : Count) (l m : List ℕ) → counted c (l ++ m) ≡ counted (counted c l) m
counted-append c [] m = refl
counted-append c (r ∷ l) m = counted-append (add_reading c r) l m

abbrev prepend : Option Details → List ℕ → List ℕ
prepend none rest = rest
prepend (some d) rest = d.vtt ∷ rest

module _ {W : Type 0} (key : String) where
  -- The readings of the volume of an instrument in a message, first one first.
  abbrev pub readings : List (String × Entry W) → List ℕ
  readings [] = []
  readings ((k, e) ∷ l) =
      let rest = readings l in if str_eq k key then prepend (details_of e) rest else rest

  abbrev count_of : Market W → Count
  count_of s = (lookup key s.tracker, get_volume key s.cache)

  take_price-volumes :
      (now : ℕ) (k : String) (p : Option W) (s : Cache W)
      → (take_price now k p s).volumes ≡ s.volumes
  unfolding update_ltp
  take_price-volumes now k none s = refl
  take_price-volumes now k (some p) s = refl

  take_entry-count :
      (now : ℕ) (k : String) (e : Entry W) (s : Market W)
      → count_of (take_entry now k e s) ≡ count_of (take_volume k (details_of e) s)
  unfolding take_entry
  take_entry-count now k e s =
      let s' = take_volume k (details_of e) s in
      ap (λ v. (lookup key s'.tracker, or_default 0 (lookup key v)))
        (take_price-volumes now k (ltp_of e) s'.cache)

  take_volume-count :
      (k : String) (d : Option Details) (l : List ℕ) (s : Market W)
      → counted (count_of (take_volume k d s)) l
        ≡ counted (count_of s) (if str_eq k key then prepend d l else l)
  unfolding take_volume get_delta accumulate_volume
  take_volume-count k none l s =
      elim_if (λ x. counted (count_of s) l ≡ counted (count_of s) x) (str_eq k key) l l (λ e. refl)
        (λ e. refl)
  take_volume-count k (some d) l s =
      let v = get_volume k s.cache + delta_of (lookup k s.tracker) d.vtt in
      elim (Bool-cases (str_eq k key)) [
        | inl e ↦
            rw (lookup-insert k key d.vtt s.tracker, lookup-insert k key v s.cache.volumes, e)
              (ap
                (λ j.
                  counted (some d.vtt, get_volume j s.cache + delta_of (lookup j s.tracker) d.vtt)
                    l)
                ((eq_iff k key).0 e))
        | inr e ↦
            rw (lookup-insert k key d.vtt s.tracker, lookup-insert k key v s.cache.volumes, e) refl
      ]

  -- The last reading and the volume of an instrument are those of its own readings alone.
  take_message-count :
      (now : ℕ) (l : List (String × Entry W)) (s : Market W)
      → count_of (take_message now l s) ≡ counted (count_of s) (readings l)
  unfolding take_message
  take_message-count now [] s = refl
  take_message-count now ((k, e) ∷ l) s =
      take_message-count now l (take_entry now k e s)
      ∙ ap (λ c. counted c (readings l)) (take_entry-count now k e s)
      ∙ take_volume-count k (details_of e) (readings l) s

  -- The readings of all messages.
  abbrev pub all_readings : List (ℕ × List (String × Entry W)) → List ℕ
  all_readings [] = []
  all_readings ((now, l) ∷ ms) = readings l ++ all_readings ms

  take_messages-count :
      (ms : List (ℕ × List (String × Entry W))) (s : Market W)
      → count_of (take_messages ms s) ≡ counted (count_of s) (all_readings ms)
  take_messages-count [] s = refl
  take_messages-count ((now, l) ∷ ms) s =
      take_messages-count ms (take_message now l s)
      ∙ ap (λ c. counted c (all_readings ms)) (take_message-count now l s)
      ∙ sym (counted-append (count_of s) (readings l) (all_readings ms))

-- No reading is below the one before it.
abbrev pub Rises : ℕ → List ℕ → Type 0
Rises p [] = Unit
Rises p (r ∷ l) = (p ≤ r) × Rises r l

abbrev pub last : ℕ → List ℕ → ℕ
last p [] = p
last p (r ∷ l) = last r l

counted-last : (p v : ℕ) (l : List ℕ) → Rises p l → (counted (some p, v) l).1 + p ≡ v + last p l
unfolding delta_of
counted-last p v [] h = refl
counted-last p v (r ∷ l) h =
    let ih = counted-last r (v + delta_of (some p) r) l h.1 in ground (arith, ih, h.0)

module _ {W : Type 0} where
  -- If no reading of an instrument is below the one before it, and the tracker has none of it yet, then
  -- messages raise its volume by the rise from its first reading to its last one and by the first
  -- reading, which counts as fifty thousand at most, whatever they say of other instruments.
  pub take_messages-total :
      (key : String) (ms : List (ℕ × List (String × Entry W))) (s : Market W) (r : ℕ) (rs : List ℕ)
      → lookup key s.tracker ≡ none
      → all_readings key ms ≡ r ∷ rs
      → Rises r rs
      → get_volume key (take_messages ms s).cache + r
        ≡ get_volume key s.cache + delta_of none r + last r rs
  take_messages-total key ms s r rs new given rises =
      let v = get_volume key s.cache in
      ap (λ c. c.1 + r) (take_messages-count key ms s)
      ∙ ap (λ x. (counted (lookup key s.tracker, v) x).1 + r) given
      ∙ ap (λ o. (counted (some r, v + delta_of o r) rs).1 + r) new
      ∙ counted-last r (v + delta_of none r) rs rises
