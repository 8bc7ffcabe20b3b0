-- ===== src/Ingestion/Frames/Volume.antt =====
-- ingestion/mtf_engine.py: no volume is lost or counted twice on the way up.
use quant_dss.Base.{
  ℕ, ◌+◌, ◌≡◌, refl, ap, Option, none, some, List, [], ◌∷◌, ◌++◌, arith, ◌==◌, elim_if, elim_option,
}
use quant_dss.Base.Float.{Float}
use quant_dss.Ingestion.Frames.{
  Timeframe, s1, s5, s15, s30, m1, m5, MtfCandle, Frames, put, archive, completed, roll_frame,
  merge_candle, aggregate_up, aggregate_all,
}

module _ {W : Type 0} where
  abbrev pub volume_of : List (MtfCandle W) → ℕ
  volume_of [] = 0
  volume_of (c ∷ l) = c.volume + volume_of l

  -- The volume of the candle that is being built.
  abbrev pub held : Timeframe → Frames W → ℕ
  held tf fr = elim (fr.current tf) [ none ↦ 0 | some c ↦ c.volume ]

  volume_of-append : (l r : List (MtfCandle W)) → volume_of (l ++ r) ≡ volume_of l + volume_of r
  volume_of-append [] r = omega arith
  volume_of-append (c ∷ l) r = omega (arith, volume_of-append l r)

  held-put : (tf : Timeframe) (c : MtfCandle W) (fr : Frames W) → held tf (put tf c fr) ≡ c.volume
  held-put s1 c fr = refl
  held-put s5 c fr = refl
  held-put s15 c fr = refl
  held-put s30 c fr = refl
  held-put m1 c fr = refl
  held-put m5 c fr = refl

  held-current :
      (tf : Timeframe) (c : MtfCandle W) (fr : Frames W)
      → fr.current tf ≡ some c
      → held tf fr ≡ c.volume
  held-current tf c fr e =
      ap (λ (o : Option (MtfCandle W)). elim o [ none ↦ 0 | some x ↦ x.volume ]) e

  held-none : (tf : Timeframe) (fr : Frames W) → fr.current tf ≡ none → held tf fr ≡ 0
  held-none tf fr e = ap (λ (o : Option (MtfCandle W)). elim o [ none ↦ 0 | some x ↦ x.volume ]) e

  roll_frame-volume :
      (tf : Timeframe) (start v : ℕ) (fresh : MtfCandle W) (change : MtfCandle W → MtfCandle W)
      (fr : Frames W)
      → fresh.volume ≡ 0
      → ((c : MtfCandle W) → (change c).volume ≡ c.volume + v)
      → let r = roll_frame tf start fresh change fr in volume_of r.0 + held tf r.1 ≡ held tf fr + v
  unfolding roll_frame
  roll_frame-volume tf start v fresh change fr z h =
      let P : List (MtfCandle W) × Frames W → Type 0 =
        λ r. volume_of r.0 + held tf r.1 ≡ held tf fr + v in
      elim_option P (fr.current tf) _ _
        (λ e. omega (arith, held-put tf (change fresh) fr, held-none tf fr e, h fresh, z))
        (λ c e.
          elim_if P (c.time == start) _ _
            (λ d. omega (arith, held-put tf (change c) fr, held-current tf c fr e, h c))
            (λ d. omega (
              arith,
              held-put tf (change fresh) (archive tf (completed c) fr),
              held-current tf c fr e,
              h fresh,
              z,
            )))

module _ {W : Type 0} ⦃f : Float W⦄ where
  aggregate_up-volume :
      (parent : Timeframe) (c : MtfCandle W) (fr : Frames W)
      → let r = aggregate_up parent c fr in
        volume_of r.0 + held parent r.1 ≡ held parent fr + c.volume
  unfolding aggregate_up
  aggregate_up-volume parent c fr =
      roll_frame-volume parent _ c.volume _ (merge_candle c) fr refl (λ x. refl)

  -- Whatever children come and whatever timeframe they are gathered to: the volume of the candles
  -- that they complete and of the one that is left being built is what was being built, and theirs.
  pub aggregate_all-volume :
      (parent : Timeframe) (children : List (MtfCandle W)) (fr : Frames W)
      → let r = aggregate_all parent children fr in
        volume_of r.0 + held parent r.1 ≡ held parent fr + volume_of children
  aggregate_all-volume parent [] fr = omega arith
  aggregate_all-volume parent (c ∷ l) fr =
      let r = aggregate_up parent c fr in
      omega (
        arith,
        aggregate_up-volume parent c fr,
        aggregate_all-volume parent l r.1,
        volume_of-append r.0 (aggregate_all parent l r.1).0,
      )
