-- ===== src/Reservation/Concurrent/Moves.antt =====
-- What a stage of a request to mi-servicio/main.go does to the stocks, the reservations and the units
-- that the request holds.
use mathlib.Core.Path.{subst, ◌∙◌, ap}
use proyecto_sd_reserva_de_h.Base.{
  ℕ, zero, ◌+◌, ◌≤◌, ◌≡◌, refl, sym, ◌⊎◌, inl, inr, arith, String, Bool, true, false, not, ◌&&◌,
  List, ◌∷◌, some, str_eq, concat, if◌then◌else◌, Result, ok, err, Status,
}
use proyecto_sd_reserva_de_h.Base.Int.{ℤ, pos, ◌+ℤ◌, ◌-ℤ◌, +ℤ_parts, eq_of_parts}
use proyecto_sd_reserva_de_h.Breaker.{CallError}
use proyecto_sd_reserva_de_h.Inventory.Tables.{UpdateStockRequest, UpdateStockResponse}
use proyecto_sd_reserva_de_h.Reservation.Tables.{
  success, failure, stock_locked, compensation_failed, insert_reservation, ReservationRow,
}
use proyecto_sd_reserva_de_h.Reservation.Remote.{
  InventoryService, World, block_one, release_one, take_one, give_one,
}
use proyecto_sd_reserva_de_h.Reservation.Server.{
  Metric, ReservationServer, Act, ◌>>=◌, inc, exec, record_saga_transition,
}
use proyecto_sd_reserva_de_h.Reservation.Ledger.{
  Ledger, ledger, record_saga_transition-IsQuiet, confirm-IsQuiet,
}
use proyecto_sd_reserva_de_h.Reservation.Calls.{
  IsAcknowledged, is_success, remote-cases, answer_result_lem, Handled, Handled-blocks,
  Handled-releases,
}
use proyecto_sd_reserva_de_h.Reservation.Compensation.{give_up}
use proyecto_sd_reserva_de_h.Reservation.Create.{Job, reservation_row}
use proyecto_sd_reserva_de_h.Reservation.Accounts.Saving.{insert_reservation-cases}
use proyecto_sd_reserva_de_h.Reservation.Accounts.Conserved.{reserved, one_if, one_less}
use proyecto_sd_reserva_de_h.Reservation.Concurrent.{
  Stage, lock_calling, saving, releasing, release_calling, inventory, report_call,
  update_stock_call, insert_tried, end_not_saved, step,
}
use proyecto_sd_reserva_de_h.Reservation.Concurrent.Holding.{
  holding, Stays, insert_tried-IsQuiet, end_not_saved-Stays, report_call-IsQuiet,
  is_success-report_call,
}

one_more :
    (b : Bool) (v : ℤ) (n m : ℕ)
    → n ≡ one_if b + m
    → (if b then v +ℤ pos 1 else v) +ℤ pos m ≡ v +ℤ pos n
one_more false v n m e = ap (λ x. v +ℤ pos x) (omega arith)
one_more true v n m e =
    let p = +ℤ_parts (v +ℤ pos 1) (pos m) in
    let q = +ℤ_parts v (pos n) in let r = +ℤ_parts v (pos 1) in eq_of_parts _ _ (omega arith)

one_if-split : (b c : Bool) → one_if c ≡ one_if (b && c) + one_if (not b && c)
one_if-split true c = omega arith
one_if-split false c = omega arith

module _ (inv : InventoryService) (key : String) where
  open inv use {State, handle, stock, IsSound}

  -- From a stock of `v`, with `n` units held before and `n'` after: the stock, the reservations and
  -- the held units have the same sum, but for `d` units, each of a compensation that was given up.
  abbrev pub Shares : ℤ → Ledger State → ℕ → Ledger State → ℕ → Type 0
  Shares v l n l' n' =
      (v' : ℤ) × (d : ℕ) × (stock key l'.inventory ≡ some v')
      × (v' +ℤ pos (reserved key l'.reservations + n' + d)
          ≡ v +ℤ pos (reserved key l.reservations + n))
      × (l.given_up + d ≤ l'.given_up)

  abbrev pub Moves : Ledger State → ℕ → Ledger State → ℕ → Type 0
  Moves l n l' n' =
      IsSound l.inventory
      → IsSound l'.inventory × ((v : ℤ) → stock key l.inventory ≡ some v → Shares v l n l' n')

  pub unmoved : (l l' : Ledger State) (n n' : ℕ) → l' ≡ l → n' ≡ n → Moves l n l' n'
  unmoved l l' n n' q e h = (
    subst (λ (x : Ledger State). IsSound x.inventory) (sym q) h,
    λ v st. (
      v,
      0,
      ap (λ (x : Ledger State). stock key x.inventory) q ∙ st,
      let r = ap (λ (x : Ledger State). reserved key x.reservations) q in
          one_less false v _ _ (omega arith),
      let g = ap (λ (x : Ledger State). x.given_up) q in omega arith,
    ),
  )

  after_unmoved :
      (l l' l'' : Ledger State) (n n' : ℕ) → l' ≡ l → Moves l' n l'' n' → Moves l n l'' n'
  after_unmoved l l' l'' n n' q = subst (λ x. Moves x n l'' n') q

  pub Stays-Moves :
      (w : World) (n : ℕ) (m : Act State Stage) (s : ReservationServer State)
      → Stays inv w key n m
      → Moves (ledger s) n (ledger (m s).1) (holding key (m s).0)
  Stays-Moves w n m s k = let (q, e) = k s in unmoved (ledger s) _ n _ q e

  module _ (w : World) (k : IsAcknowledged w) where
    update_stock_call-Handled :
        (req : UpdateStockRequest) (s : ReservationServer State)
        → let (r, t) = update_stock_call inv w req s in
          Handled inv req s.inventory (is_success r) t.inventory
    unfolding update_stock_call
    update_stock_call-Handled req s =
        elim (remote-cases (w.outcome s.tick) (k s.tick) (handle req) s.inventory) [
          | inl (e, r, i) ↦ inl (ap is_success r, i)
          | inr (r, i) ↦ inr (ap is_success r ∙ answer_result_lem (handle req s.inventory).0, i)
        ]

    pub lock_calling-Moves :
        (job : Job) (email : String) (s : ReservationServer State)
        → let (st, t) = step inv w (lock_calling job email) s in
          Moves (ledger s) 0 (ledger t) (holding key st)
    unfolding step update_stock_call
    lock_calling-Moves job email s h =
        let (r, t) = update_stock_call inv w (block_one job.req.room_type_id) s in
        let (sound, st) =
          Handled-blocks inv job.req.room_type_id s.inventory (is_success r) t.inventory h
            (update_stock_call-Handled (block_one job.req.room_type_id) s) in
        let taken = is_success r && str_eq job.req.room_type_id key in
        (
          sound,
          λ v e. (
            if taken then v -ℤ pos 1 else v,
            0,
            st key ∙ ap (take_one taken) e,
            one_less taken v _ _ (omega arith),
            omega arith,
          ),
        )

    pub release_calling-Moves :
        (job : Job) (left attempt : ℕ) (s : ReservationServer State)
        → let (st, t) = step inv w (release_calling job left attempt) s in
          Moves (ledger s) (one_if (str_eq job.req.room_type_id key)) (ledger t) (holding key st)
    unfolding step update_stock_call
    release_calling-Moves job left attempt s h =
        let (r, t) = update_stock_call inv w (release_one job.req.room_type_id) s in
        let (sound, st) =
          Handled-releases inv job.req.room_type_id s.inventory (is_success r) t.inventory h
            (update_stock_call-Handled (release_one job.req.room_type_id) s) in
        let mine = str_eq job.req.room_type_id key in
        let given = is_success r && mine in
        let split = one_if-split (is_success r) mine in
        (
          sound,
          λ v e. (
            if given then v +ℤ pos 1 else v,
            0,
            st key ∙ ap (give_one given) e,
            one_more given v _ _ (omega arith),
            omega arith,
          ),
        )

    gives_up :
        (x : Bool) (l : Ledger State)
        → Moves l (one_if x) (record l { given_up = l.given_up + 1 }) 0
    gives_up x l h = (h, λ v e. (v, one_if x, e, one_less false v _ _ (omega arith), ground arith))

    pub out_of_attempts-Moves :
        (job : Job) (attempt : ℕ) (s : ReservationServer State)
        → let (st, t) = step inv w (releasing job zero attempt) s in
          Moves (ledger s) (one_if (str_eq job.req.room_type_id key)) (ledger t) (holding key st)
    unfolding step give_up end_not_saved
    out_of_attempts-Moves job attempt s =
        let counted = (inc (Metric.compensations "failed") s).1 in
        let detail : String = "No se pudo liberar stock despues de 3 intentos" in
        let t =
          (record_saga_transition w job.saga_id compensation_failed failure detail counted).1 in
        let q =
          record_saga_transition-IsQuiet w job.saga_id compensation_failed failure detail counted in
        let (q', e) = end_not_saved-Stays inv w key job t in
        subst (λ x. Moves (ledger s) (one_if (str_eq job.req.room_type_id key)) x 0) (sym (q' ∙ q))
          (gives_up (str_eq job.req.room_type_id key) (ledger s))

    row_added :
        (job : Job) (l : Ledger State)
        → Moves l
            (one_if (str_eq job.req.room_type_id key))
            (record l { reservations = reservation_row w job ∷ l.reservations })
            0
    unfolding reservation_row
    row_added job l h = (h, λ v e. (v, 0, e, one_less false v _ _ (omega arith), omega arith))

    insert_tried-Moves :
        (job : Job) (email : String) (l : Ledger State) (r : Result String (Unit {0}))
        (s : ReservationServer State)
        → ((e : String) × (r ≡ err e) × (ledger s ≡ l))
          ⊎ ((r ≡ ok tt)
              × (ledger s ≡ record l { reservations = reservation_row w job ∷ l.reservations }))
        → let (st, t) = insert_tried inv w job email r s in
          Moves l (one_if (str_eq job.req.room_type_id key)) (ledger t) (holding key st)
    unfolding insert_tried
    insert_tried-Moves job email l (ok _) s (inl (e, q, p)) = absurd (cc q)
    insert_tried-Moves job email l (err e') s (inl (e, q, p)) =
        unmoved l _ _ _ (insert_tried-IsQuiet inv w key job email (err e') s ∙ p) refl
    insert_tried-Moves job email l (ok _) s (inr (q, p)) =
        subst (λ x. Moves l (one_if (str_eq job.req.room_type_id key)) x 0)
          (sym (confirm-IsQuiet w job email s ∙ p)) (row_added job l)
    insert_tried-Moves job email l (err e) s (inr (q, p)) = absurd (cc q)

    pub saving-Moves :
        (job : Job) (email : String) (s : ReservationServer State)
        → let (st, t) = step inv w (saving job email) s in
          Moves (ledger s) (one_if (str_eq job.req.room_type_id key)) (ledger t) (holding key st)
    unfolding step exec
    saving-Moves job email s =
        let detail = concat "Stock bloqueado para room_type_id=" job.req.room_type_id in
        let noted = (record_saga_transition w job.saga_id stock_locked success detail s).1 in
        let q = record_saga_transition-IsQuiet w job.saga_id stock_locked success detail s in
        let (r, after) = exec w (insert_reservation (reservation_row w job)) noted in
        let with_rows =
          λ (rows : List ReservationRow). record (ledger noted) { reservations = rows } in
        after_unmoved (ledger s) (ledger noted) _ _ _ q (
          insert_tried-Moves job email (ledger noted) r after
            (elim (insert_reservation-cases (w.outcome noted.tick) (reservation_row w job) noted.db
              (k noted.tick)) [
                | inl (e, p, rows) ↦ inl (e, p, ap with_rows rows)
                | inr (p, rows) ↦ inr (p, ap with_rows rows)
              ]))

    pub reported :
        (n : ℕ) (r : Result Status UpdateStockResponse)
        (f : Result (CallError Status) UpdateStockResponse → Act State Stage) (held_by : Bool → ℕ)
        (s : ReservationServer State)
        → held_by (is_success r) ≡ n
        → ((x : Result (CallError Status) UpdateStockResponse)
            → Stays inv w key (held_by (is_success x)) (f x))
        → let (st, t) = (report_call w inventory r >>= f) s in
          Moves (ledger s) n (ledger t) (holding key st)
    reported n r f held_by s e stays =
        let (x, t) = report_call w inventory r s in
        let (q, h) = stays x t in
        unmoved (ledger s) _ n _ (q ∙ report_call-IsQuiet inv w key inventory r s)
          (h ∙ ap held_by (is_success-report_call inv w key inventory r s) ∙ e)
