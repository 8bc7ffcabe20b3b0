-- ===== src/Pipeline/Merged.antt =====
-- engine/consolidation_layer.py: what a consolidated signal says of its group.
use quant_dss.Base.{
  ◌≡◌, refl, sym, ◌∙◌, Bool, true, false, ◌&&◌, ◌||◌, some, List, [], ◌∷◌, String, arith, any,
  filter, any-filter, List-cases, Bool-cases, inl, inr, not, ap, subst, or_default,
}
use quant_dss.Base.Dict.{string_key, contains, insert, lookup-insert}
use quant_dss.Base.Float.{Float}
use quant_dss.Signal.{CandidateSignal}
use quant_dss.Pipeline.Consolidation.{
  ConsolidatedSignal, is_type, earlier, place, sort, is_mixed, consolidated, merge, merge_all,
  process_signal_group,
}
use text.Mathlib.Text.{◌==◌ as str_eq}
use text.Mathlib.TextEquality.{eq_iff}

module _ {W : Type 0} where
  abbrev pub is_named : String → CandidateSignal W → Bool
  is_named n s = str_eq s.strategy_name n

  any-place :
      (p : CandidateSignal W → Bool) (x : CandidateSignal W) (l : List (CandidateSignal W))
      → any p (place x l) ≡ (p x || any p l)
  any-place p x [] = refl
  any-place p x (y ∷ l) = ground (arith, any-place p x l)

  any-sort :
      (p : CandidateSignal W → Bool) (l : List (CandidateSignal W)) → any p (sort l) ≡ any p l
  any-sort p [] = refl
  any-sort p (x ∷ l) = ground (arith, any-place p x (sort l), any-sort p l)

  -- The signal's time is before the first or after the last one.
  abbrev pub is_outside : ConsolidatedSignal W → CandidateSignal W → Bool
  is_outside c s = earlier s.candle_time c.first_timestamp || earlier c.last_timestamp s.candle_time

contains-insert :
    {V : Type 0} (k j : String) (v : V) (d : List (String × V))
    → contains j (insert k v d) ≡ (str_eq k j || contains j d)
contains-insert k j v d = ground (arith, lookup-insert k j v d)

module _ {W : Type 0} ⦃f : Float W⦄ where
  contains-merge_all :
      (n : String) (l : List (CandidateSignal W)) (c : ConsolidatedSignal W)
      → contains n (merge_all l c).contributing_signals
        ≡ (contains n c.contributing_signals || any (is_named n) l)
  unfolding merge
  contains-merge_all n [] c = ground arith
  contains-merge_all n (s ∷ l) c = ground (
    arith,
    contains-merge_all n l (merge s c),
    contains-insert s.strategy_name n s c.contributing_signals,
  )

  type-merge_all :
      (l : List (CandidateSignal W)) (c : ConsolidatedSignal W)
      → (merge_all l c).signal_type ≡ c.signal_type
  unfolding merge
  type-merge_all [] c = refl
  type-merge_all (s ∷ l) c = type-merge_all l (merge s c)

  merge-inside :
      (s x : CandidateSignal W) (c : ConsolidatedSignal W)
      → is_outside c x ≡ false
      → (is_outside (merge s c) x ≡ false) × (is_outside (merge s c) s ≡ false)
  unfolding merge
  merge-inside s x c h = ground arith

  merge_all-inside :
      (l : List (CandidateSignal W)) (x : CandidateSignal W) (c : ConsolidatedSignal W)
      → is_outside c x ≡ false
      → is_outside (merge_all l c) x ≡ false
  merge_all-inside [] x c h = h
  merge_all-inside (s ∷ l) x c h = merge_all-inside l x (merge s c) (merge-inside s x c h).0

  merge_all-all_inside :
      (l : List (CandidateSignal W)) (x : CandidateSignal W) (c : ConsolidatedSignal W)
      → is_outside c x ≡ false
      → any (is_outside (merge_all l c)) (x ∷ l) ≡ false
  merge_all-all_inside [] x c h = ground (arith, h)
  merge_all-all_inside (s ∷ l) x c h = ground (
    arith,
    merge_all-all_inside l s (merge s c) (merge-inside s x c h).1,
    merge_all-inside (s ∷ l) x c h,
  )

  -- What a consolidated signal says of the group that it came from.
  pub record Consolidates (group : List (CandidateSignal W)) (c : ConsolidatedSignal W)
      : Type 0 where
    pub unopposed : (any (is_type "BUY") group && any (is_type "SELL") group) ≡ false
    pub present : any (is_type c.signal_type) group ≡ true
    pub named :
        (n : String)
        → contains n c.contributing_signals
          ≡ any (λ s. is_type c.signal_type s && is_named n s) group
    pub spans : any (λ s. is_type c.signal_type s && is_outside c s) group ≡ false

  -- What holds of some signal of a sorted group holds of one of its direction.
  any-group :
      (q : CandidateSignal W → Bool) (d : String) (g l : List (CandidateSignal W))
      → sort (filter (is_type d) g) ≡ l
      → any q l ≡ any (λ s. is_type d s && q s) g
  any-group q d g l e =
      sym (ap (any q) e) ∙ any-sort q (filter (is_type d) g) ∙ any-filter q (is_type d) g

  never :
      (d : String) (g : List (CandidateSignal W))
      → any (λ s. is_type d s && not (is_type d s)) g ≡ false
  never d [] = refl
  never d (s ∷ g) = ground (arith, never d g)

  any-true :
      (d : String) (g : List (CandidateSignal W))
      → any (λ s. is_type d s && true) g ≡ any (is_type d) g
  any-true d [] = refl
  any-true d (s ∷ g) = ground (arith, any-true d g)

  group-type :
      (d : String) (g l : List (CandidateSignal W)) (p : CandidateSignal W)
      → sort (filter (is_type d) g) ≡ p ∷ l
      → p.signal_type ≡ d
  group-type d g l p e =
      (eq_iff p.signal_type d).0
        (ground (arith, any-group (λ s. not (is_type d s)) d g (p ∷ l) e, never d g))

  -- A group with a first signal, as it is sorted, is merged.
  merge_sorted-Consolidates :
      (d : String) (g l : List (CandidateSignal W)) (p : CandidateSignal W)
      → sort (filter (is_type d) g) ≡ p ∷ l
      → (any (is_type "BUY") g && any (is_type "SELL") g) ≡ false
      → Consolidates g (merge_all l (consolidated p))
  merge_sorted-Consolidates d g l p e u =
      let c = merge_all l (consolidated p) in
      let typed : c.signal_type ≡ d = type-merge_all l (consolidated p) ∙ group-type d g l p e in
      record {
        unopposed = u;
        present = rw typed (sym (any-true d g) ∙ sym (any-group (λ s. true) d g (p ∷ l) e));
        named = λ n. rw typed (
            contains-merge_all n l (consolidated p)
            ∙ ground (arith, any-group (is_named n) d g (p ∷ l) e));
        spans = rw typed (
            sym (any-group (is_outside c) d g (p ∷ l) e)
            ∙ merge_all-all_inside l p (consolidated p) (ground arith));
      }

  -- Whatever group of signals comes, what the layer forwards carries the strategies of exactly the
  -- signals of its direction, with no signal outside its first and last time, and the group has a
  -- signal of that direction and not both of BUY and SELL.
  pub process_signal_group-Consolidates :
      (group : List (CandidateSignal W)) (c : ConsolidatedSignal W)
      → process_signal_group group ≡ some c
      → Consolidates group c
  unfolding process_signal_group
  process_signal_group-Consolidates [] c h = ground (arith, h)
  process_signal_group-Consolidates (s ∷ l) c h =
      let d = s.signal_type in
      elim (Bool-cases (any (is_type "BUY") (s ∷ l) && any (is_type "SELL") (s ∷ l))) [
        | inl both ↦ ground (arith, h, both)
        | inr u ↦ elim (List-cases (sort (filter (is_type d) (s ∷ l)))) [
          | inl e ↦ ground (arith, h, e, u)
          | inr (p, rest, e) ↦ elim (Bool-cases (is_mixed (filter (is_type d) (s ∷ l)))) [
            | inl x ↦ ground (arith, h, u, x)
            | inr x ↦
                let same : some (merge_all rest (consolidated p)) ≡ some c =
                  ground (arith, h, e, u, x) in
                subst (Consolidates (s ∷ l)) (ap (or_default c) same)
                  (merge_sorted-Consolidates d (s ∷ l) rest p e u)
          ]
        ]
      ]
