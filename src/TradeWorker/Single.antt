-- ===== src/TradeWorker/Single.antt =====
-- workers/autotrader_worker.py: a symbol has one open paper trade of a direction at most.
use quant_dss.Base.{
  ℕ, ◌≤◌, ◌≡◌, subst, sym, ap, inl, inr, Bool, true, false, ◌&&◌, List, [], ◌∷◌, ◌++◌,
  count_if-append, String, arith, if◌then◌else◌, count_if, any, Bool-cases,
}
use quant_dss.Base.Float.{Float}
use quant_dss.Leases.{Redis}
use quant_dss.TradeWorker.{Message, Row, World}
use quant_dss.TradeWorker.Handle.{handle_signal}
use quant_dss.TradeWorker.Paper.{new_row}
use quant_dss.TradeWorker.Opens.{handle_signal-Opens}
use text.Mathlib.Text.{◌==◌ as str_eq}
use text.Mathlib.TextEquality.{eq_iff}

abbrev weight : Bool → ℕ
weight b = if b then 1 else 0

both : (a b c : Bool) → ((a && b) && c) ≡ true → (a ≡ true) × (c ≡ true)
both a b c h = ground arith

module _ {W : Type 0} where
  -- An open trade of a symbol and a direction.
  abbrev pub is_open_of : (symbol direction : String) → Row W → Bool
  is_open_of symbol direction t =
      (str_eq t.symbol symbol && t.is_open) && str_eq t.direction direction

  abbrev pub IsSingle : List (Row W) → Type 0
  IsSingle l = (symbol direction : String) → count_if (is_open_of symbol direction) l ≤ 1

  none_counted : (p : Row W → Bool) (l : List (Row W)) → any p l ≡ false → count_if p l ≡ 0
  none_counted p [] h = omega arith
  none_counted p (t ∷ l) h = ground (arith, none_counted p l, h)

  append-IsSingle :
      (l : List (Row W)) (t : Row W)
      → IsSingle l
      → any (is_open_of t.symbol t.direction) l ≡ false
      → IsSingle (l ++ t ∷ [])
  append-IsSingle l t h z symbol direction = elim (Bool-cases (is_open_of symbol direction t)) [
    | inl e ↦
        (let (x, y) = both (str_eq t.symbol symbol) t.is_open (str_eq t.direction direction) e in
          let zero_here =
            subst (λ s. any (is_open_of s direction) l ≡ false) ((eq_iff t.symbol symbol).0 x)
              (subst (λ d. any (is_open_of t.symbol d) l ≡ false)
                ((eq_iff t.direction direction).0 y) z) in
          omega (
            arith,
            count_if-append (is_open_of symbol direction) l t,
            ap weight e,
            none_counted (is_open_of symbol direction) l zero_here,
          ))
    | inr e ↦
        omega (
          arith,
          count_if-append (is_open_of symbol direction) l t,
          ap weight e,
          h symbol direction,
        )
  ]

module _ {W : Type 0} ⦃f : Float W⦄ {S : Type 0} ⦃r : Redis S⦄ where
  -- The worker takes the messages one after the other, each at its time.
  abbrev pub handle_all : List (ℕ × Message W) → World W S → World W S
  handle_all [] w = w
  handle_all ((now, m) ∷ l) w = handle_all l (handle_signal now m w).1

  handle_signal-IsSingle :
      (now : ℕ) (m : Message W) (w : World W S)
      → IsSingle w.paper
      → IsSingle (handle_signal now m w).1.paper
  handle_signal-IsSingle now m w h = elim (handle_signal-Opens now m w) [
    | inl same ↦ subst IsSingle (sym same) h
    | inr
          (
            fresh,
            new,
            (n, converted, (on, hours, (cfg, c, (e, paper, priced, room, (single, (q, b)))))),
          ) ↦
        subst IsSingle (sym b.2) (append-IsSingle w.paper (new_row m n q) h single)
  ]

  -- If of each symbol and direction at most one paper trade is open, then this is so after any
  -- messages, at whatever times, those that end in an exception included.
  pub handle_all-IsSingle :
      (l : List (ℕ × Message W)) (w : World W S)
      → IsSingle w.paper
      → IsSingle (handle_all l w).paper
  handle_all-IsSingle [] w h = h
  handle_all-IsSingle ((now, m) ∷ l) w h =
      handle_all-IsSingle l (handle_signal now m w).1 (handle_signal-IsSingle now m w h)
