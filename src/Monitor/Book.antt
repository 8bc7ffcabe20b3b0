-- ===== src/Monitor/Book.antt =====
-- workers/trade_monitor_worker.py: a run adds the profit of what it closes to the day.
use quant_dss.Base.{
  ◌≡◌, refl, ap, ◌∙◌, Option, List, [], ◌∷◌, arith, or_default, elim_if, if◌then◌else◌,
}
use quant_dss.Base.Float.{Float, nought}
use quant_dss.Leases.{Redis}
use quant_dss.Paper.{PaperTrade, opened, closed}
use quant_dss.Monitor.{
  Round, Till, is_buy, is_square_off, is_stopped, is_reached, lock_trade, trailed_stop, square_off,
  watch_paper, visit_paper, check_paper_trades, close_at, calc_pnl, add_to_daily_pnl,
}
use quant_dss.Monitor.Stops.{visit_cases}

module _ {W : Type 0} ⦃f : Float W⦄ where
  -- The profit of a trade at the price at which it has been closed.
  abbrev pub closed_pnl : PaperTrade W → W
  closed_pnl t =
      calc_pnl (is_buy t.direction) t.entry_price t.quantity (or_default nought t.exit_price)

  -- The profit of the day once the trades that are closed, of those that were open, are added.
  abbrev pub booked_one : PaperTrade W → PaperTrade W → Option W → Option W
  booked_one before after day = elim before.status [
    | closed ↦ day
    | opened ↦ elim after.status [ opened ↦ day | closed ↦ add_to_daily_pnl (closed_pnl after) day ]
  ]

  abbrev pub booked : List (PaperTrade W) → List (PaperTrade W) → Option W → Option W
  booked [] after day = day
  booked (t ∷ ts) [] day = day
  booked (t ∷ ts) (t' ∷ ts') day = booked ts ts' (booked_one t t' day)

  module _ {S : Type 0} ⦃r : Redis S⦄ where
    abbrev IsBooked : PaperTrade W → Till W S → PaperTrade W × Till W S → Type 0
    IsBooked t w x = x.1.day_pnl ≡ booked_one t x.0 w.day_pnl

    stays :
        (t u : PaperTrade W) (w : Till W S) (store : S)
        → u.status ≡ t.status
        → IsBooked t w (u, record w { store = store })
    stays t u w store e = ground (arith, e)

    closes :
        (t : PaperTrade W) (w : Till W S) (store : S) (exit : W)
        → t.status ≡ opened
        → IsBooked t w (close_at exit t (record w { store = store }))
    closes t w store exit e = rw e refl

    square_off-IsBooked :
        (round : Round) (ltp : W) (t : PaperTrade W) (w : Till W S)
        → t.status ≡ opened
        → IsBooked t w (square_off round ltp t w)
    unfolding square_off
    square_off-IsBooked round ltp t w e =
        let locked = lock_trade round t.id w.store in
        let w' : Till W S = record w { store = locked.1 } in
        elim_if (IsBooked t w) locked.0 (close_at ltp t w') (t, w')
          (λ taken. closes t w locked.1 ltp e) (λ held. stays t t w locked.1 refl)

    watch_paper-IsBooked :
        (round : Round) (ltp : W) (t : PaperTrade W) (w : Till W S)
        → t.status ≡ opened
        → IsBooked t w (watch_paper round ltp t w)
    unfolding watch_paper
    watch_paper-IsBooked round ltp t w e =
        let b = is_buy t.direction in
        let moved : PaperTrade W × Till W S =
          (record t { stop_loss = trailed_stop b t.entry_price t.stop_loss ltp }, w) in
        let at_target =
          if is_reached b t.target_price ltp then close_at t.target_price t w else moved in
        elim_if (IsBooked t w) (is_square_off round) (square_off round ltp t w)
          (if is_stopped b t.stop_loss ltp then close_at t.stop_loss t w else at_target)
          (λ off. square_off-IsBooked round ltp t w e)
          (λ on.
            elim_if (IsBooked t w) (is_stopped b t.stop_loss ltp) (close_at t.stop_loss t w)
              at_target (λ hit. closes t w w.store t.stop_loss e)
              (λ alive.
                elim_if (IsBooked t w) (is_reached b t.target_price ltp)
                  (close_at t.target_price t w) moved (λ hit. closes t w w.store t.target_price e)
                  (λ open_. stays t moved.0 w w.store refl)))

    visit_paper-IsBooked :
        (round : Round) (price : PaperTrade W → Option W) (t : PaperTrade W) (w : Till W S)
        → IsBooked t w (visit_paper round price t w)
    visit_paper-IsBooked round price t w =
        visit_cases (IsBooked t w) round price t w (stays t t w w.store refl)
          (λ ltp e _. watch_paper-IsBooked round ltp t w e)

    -- After a run over whatever trades, the profit of the day is what it was, with the net profit of
    -- each trade that the run has closed, at the price that it has stored for it, added in turn.
    pub check_paper_trades-booked :
        (round : Round) (price : PaperTrade W → Option W) (ts : List (PaperTrade W)) (w : Till W S)
        → (check_paper_trades round price ts w).1.day_pnl
          ≡ booked ts (check_paper_trades round price ts w).0 w.day_pnl
    check_paper_trades-booked round price [] w = refl
    check_paper_trades-booked round price (t ∷ ts) w =
        let x = visit_paper round price t w in
        check_paper_trades-booked round price ts x.1
        ∙ ap (booked ts (check_paper_trades round price ts x.1).0)
            (visit_paper-IsBooked round price t w)
