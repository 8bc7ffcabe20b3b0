-- ===== src/Ingestion/Candles/Summary.antt =====
-- ingestion/candle_aggregator.py: a built candle summarises its ticks.
use quant_dss.Base.{
  ℕ, suc, ◌+◌, ◌≡◌, refl, sym, subst, ◌∙◌, ◌⊎◌, inl, inr, true, List, [], ◌∷◌, arith, length, All,
  All-map, String,
}
use quant_dss.Base.Int.{ℤ, pos_part}
use quant_dss.Base.Float.{Float, IsOrdered, min, max}
use quant_dss.Ingestion.Candles.Builder.{CandleBuilder, new_builder, add_tick}

-- The price is one of the ticks' prices.
abbrev pub IsPriceOf : {W : Type 0} → W → List (W × ℤ) → Type 0
IsPriceOf p [] = ⊥
IsPriceOf p ((q, v) ∷ l) = (p ≡ q) ⊎ IsPriceOf p l

-- `volume` over the ticks, where negative volumes count as 0.
abbrev pub total_volume : {W : Type 0} → List (W × ℤ) → ℕ
total_volume [] = 0
total_volume ((p, v) ∷ l) = total_volume l + pos_part v

-- The price is that of the last tick.
abbrev pub IsLastPrice : {W : Type 0} → W → List (W × ℤ) → Type 0
IsLastPrice p [] = ⊥
IsLastPrice p ((q, v) ∷ l) = p ≡ q

module _ {W : Type 0} ⦃f : Float W⦄ where
  -- `add_tick` for tick after tick.
  abbrev pub add_all : List (W × ℤ) → CandleBuilder W → CandleBuilder W
  add_all [] b = b
  add_all ((p, v) ∷ l) b = add_all l (add_tick p v b)

  abbrev pub onto : List (W × ℤ) → List (W × ℤ) → List (W × ℤ)
  onto [] seen = seen
  onto (x ∷ l) seen = onto l (x ∷ seen)

  -- What a builder says of its ticks, the last one first, and of the price of the first one.
  pub record Summarises (first : W) (ticks : List (W × ℤ)) (b : CandleBuilder W) : Type 0 where
    pub opens : b.open_price ≡ first
    pub closes : IsLastPrice b.close ticks
    pub counts : b.tick_count ≡ length ticks
    pub adds : b.volume ≡ total_volume ticks
    pub covers : All (λ (x : W × ℤ). (f.le b.low x.0 ≡ true) × (f.le x.0 b.high ≡ true)) ticks
    pub high_attained : IsPriceOf b.high ticks
    pub low_attained : IsPriceOf b.low ticks

  module _ (o : IsOrdered W) where
    max_bounds :
        (x y z : W)
        → f.le x y ≡ true
        → f.le z z ≡ true
        → (f.le x (max y z) ≡ true) × (f.le z (max y z) ≡ true)
    max_bounds x y z h n =
        ground (arith, o.le_refl_right x y h, o.lt-eq-not-le y z, o.le_total y z, o.le_trans x y z)

    min_bounds :
        (x y z : W)
        → f.le y x ≡ true
        → f.le z z ≡ true
        → (f.le (min y z) x ≡ true) × (f.le (min y z) z ≡ true)
    min_bounds x y z h n =
        ground (arith, o.le_refl_left y x h, o.lt-eq-not-le z y, o.le_total z y, o.le_trans z y x)

    max_attained : (y z : W) → (max y z ≡ z) ⊎ (max y z ≡ y)
    max_attained y z = ground arith

    min_attained : (y z : W) → (min y z ≡ z) ⊎ (min y z ≡ y)
    min_attained y z = ground arith

    -- A tick into an empty builder.
    first-Summarises :
        (symbol : String) (minute : ℕ) (p : W) (v : ℤ)
        → f.le p p ≡ true
        → Summarises p ((p, v) ∷ []) (add_tick p v (new_builder symbol minute))
    unfolding add_tick
    first-Summarises symbol minute p v n = record {
      opens = refl;
      closes = refl;
      counts = refl;
      adds = refl;
      covers = ((n, n), tt);
      high_attained = inl refl;
      low_attained = inl refl;
    }

    -- A tick into a builder that has ticks moves the high and the low.
    add_tick-high :
        (p : W) (v : ℤ) (n : ℕ) (b : CandleBuilder W)
        → b.tick_count ≡ suc n
        → (add_tick p v b).high ≡ max b.high p
    unfolding add_tick
    add_tick-high p v n b e = ground arith

    add_tick-low :
        (p : W) (v : ℤ) (n : ℕ) (b : CandleBuilder W)
        → b.tick_count ≡ suc n
        → (add_tick p v b).low ≡ min b.low p
    unfolding add_tick
    add_tick-low p v n b e = ground arith

    widen :
        (p : W) (v : ℤ) (n : ℕ) (b : CandleBuilder W) (y : W)
        → b.tick_count ≡ suc n
        → f.le p p ≡ true
        → (f.le b.low y ≡ true) × (f.le y b.high ≡ true)
        → let c = add_tick p v b in
          ((f.le c.low y ≡ true) × (f.le y c.high ≡ true))
          × ((f.le c.low p ≡ true) × (f.le p c.high ≡ true))
    widen p v n b y e k h =
        let (a, a') = min_bounds y b.low p h.0 k in
        let (d, d') = max_bounds y b.high p h.1 k in
        rw (add_tick-high p v n b e, add_tick-low p v n b e) ((a, d), (a', d'))

    -- A tick into a builder that has ticks.
    add_tick-Summarises :
        (first p : W) (v : ℤ) (x : W × ℤ) (seen : List (W × ℤ)) (b : CandleBuilder W)
        → f.le p p ≡ true
        → Summarises first (x ∷ seen) b
        → Summarises first ((p, v) ∷ x ∷ seen) (add_tick p v b)
    unfolding add_tick
    add_tick-Summarises first p v x seen b n h = record {
      opens = ground (arith, h.counts, h.opens);
      closes = refl;
      counts = omega (arith, h.counts);
      adds = omega (arith, h.adds);
      covers = (
        (widen p v (length seen) b x.0 h.counts n h.covers.0).1,
        All-map (x ∷ seen) (λ y c. (widen p v (length seen) b y.0 h.counts n c).0) h.covers,
      );
      high_attained = elim (max_attained b.high p) [
        | inl e ↦ inl (add_tick-high p v (length seen) b h.counts ∙ e)
        | inr e ↦ inr (
            subst (λ q. IsPriceOf q (x ∷ seen))
              (sym (add_tick-high p v (length seen) b h.counts ∙ e)) h.high_attained)
      ];
      low_attained = elim (min_attained b.low p) [
        | inl e ↦ inl (add_tick-low p v (length seen) b h.counts ∙ e)
        | inr e ↦ inr (
            subst (λ q. IsPriceOf q (x ∷ seen))
              (sym (add_tick-low p v (length seen) b h.counts ∙ e)) h.low_attained)
      ];
    }

    add_all-Summarises :
        (first : W) (x : W × ℤ) (seen l : List (W × ℤ)) (b : CandleBuilder W)
        → All (λ (y : W × ℤ). f.le y.0 y.0 ≡ true) l
        → Summarises first (x ∷ seen) b
        → Summarises first (onto l (x ∷ seen)) (add_all l b)
    add_all-Summarises first x seen [] b n h = h
    add_all-Summarises first x seen ((p, v) ∷ l) b n h =
        add_all-Summarises first (p, v) (x ∷ seen) l (add_tick p v b) n.1
          (add_tick-Summarises first p v x seen b n.0 h)

    -- A builder that takes a first tick and more, none of them NaN, has the first price for its
    -- open, the last one for its close, their number and volume, and a high and a low that are
    -- prices of ticks and bound all of them.
    pub built-Summarises :
        (symbol : String) (minute : ℕ) (p : W) (v : ℤ) (l : List (W × ℤ))
        → f.le p p ≡ true
        → All (λ (y : W × ℤ). f.le y.0 y.0 ≡ true) l
        → Summarises p (onto l ((p, v) ∷ [])) (add_all l (add_tick p v (new_builder symbol minute)))
    built-Summarises symbol minute p v l n h =
        add_all-Summarises p (p, v) [] l (add_tick p v (new_builder symbol minute)) h
          (first-Summarises symbol minute p v n)
