-- ===== src/Reservation/Accounts/Saving.antt =====
-- The end of a run of `CreateReservation` (mi-servicio/main.go), from the call of the inventory
-- service on.
use mathlib.Core.Path.{subst, ◌∙◌, ap}
use proyecto_sd_reserva_de_h.Base.{
  ◌≡◌, ◌≢◌, refl, sym, ◌⊎◌, inl, inr, String, arith, Bool, true, false, List, ◌∷◌, str_eq, concat,
  Result, ok, err, Option, none, some, Outcome, done, refused, unacknowledged, perform, fail, Code,
  status_error,
}
use proyecto_sd_reserva_de_h.Base.Int.{ℤ, pos, -ℤ_+ℤ}
use proyecto_sd_reserva_de_h.Reservation.Tables.{
  success, failure, stock_locked, reservation_insert_failed, saga_failed, ReservationRow, Database,
  insert_reservation,
}
use proyecto_sd_reserva_de_h.Reservation.Remote.{InventoryService, World, take_one, give_one}
use proyecto_sd_reserva_de_h.Reservation.Server.{
  Metric, ReservationServer, exec, inc, record_saga_transition,
}
use proyecto_sd_reserva_de_h.Reservation.Ledger.{
  Ledger, ledger, record_saga_transition-IsQuiet, publish_failed-IsQuiet, confirm-IsQuiet,
}
use proyecto_sd_reserva_de_h.Reservation.Calls.{IsAcknowledged, take_one-false, give_one-false}
use proyecto_sd_reserva_de_h.Reservation.Compensation.{compensate_inventory}
use proyecto_sd_reserva_de_h.Reservation.Compensation.Effect.{
  Gives, unless, compensate_inventory_accounts,
}
use proyecto_sd_reserva_de_h.Reservation.Create.{
  Job, reservation_row, publish_failed, confirm, not_saved, saved, save_reservation,
}
use proyecto_sd_reserva_de_h.Reservation.Accounts.{Takes, Settles, not_booked, booked, leaked}

pub insert_reservation-cases :
    (outcome : Outcome) (row : ReservationRow) (db : Database)
    → ((e : String) → outcome ≢ unacknowledged e)
    → let (r, db') = perform outcome (insert_reservation row) db in
      ((e : String) × (r ≡ err e) × (db'.reservations ≡ db.reservations))
      ⊎ ((r ≡ ok tt) × (db'.reservations ≡ row ∷ db.reservations))
unfolding perform insert_reservation
insert_reservation-cases done row db h = ground arith
insert_reservation-cases (refused e) row db h = inl (e, refl, refl)
insert_reservation-cases (unacknowledged e) row db h = absurd (h e refl)

give_one-take_one : (here : Bool) (v : Option ℤ) → give_one here (take_one here v) ≡ v
give_one-take_one here none = refl
give_one-take_one false (some v) = refl
give_one-take_one true (some v) = ap some (-ℤ_+ℤ v (pos 1))

module _ (inv : InventoryService) where
  open inv use {State, stock, IsSound}

  -- A unit of the request's room type is taken, and `rows` are the reservations.
  abbrev pub Holds : Job → Ledger State → List ReservationRow → Ledger State → Type 0
  Holds job l rows l' =
      Takes inv job.req.room_type_id true l l'
      × (l'.reservations ≡ rows)
      × (l'.given_up ≡ l.given_up)

  compensated-Settles :
      (job : Job) (b : Bool) (l t t' : Ledger State)
      → Holds job l l.reservations t
      → Gives inv job.req.room_type_id b (unless b) t t'
      → Settles inv job.req l
          (fail (status_error Code.internal "error interno al guardar la reserva"))
          t'
  compensated-Settles job true l t t' ((h, st), rs, g) (h', st', rs', g') =
      not_booked refl
        (
          h',
          λ j.
              st' j
              ∙ ap (give_one (str_eq job.req.room_type_id j)) (st j)
              ∙ give_one-take_one _ _
              ∙ sym (take_one-false _),
        )
        (rs' ∙ rs) (omega arith)
  compensated-Settles job false l t t' ((h, st), rs, g) (h', st', rs', g') =
      leaked refl (h', λ j. st' j ∙ give_one-false _ ∙ st j) (rs' ∙ rs) (omega arith)

  module _ (w : World) (k : IsAcknowledged w) where
    not_saved-Settles :
        (job : Job) (error : String) (l : Ledger State) (s : ReservationServer State)
        → Holds job l l.reservations (ledger s)
        → let (a, s') = not_saved inv w job error s in Settles inv job.req l a (ledger s')
    unfolding not_saved
    not_saved-Settles job error l s h =
        let counted = (inc (Metric.failures "database_insert") s).1 in
        let noted =
          (record_saga_transition w job.saga_id reservation_insert_failed failure error
            counted).1 in
        let told = (publish_failed w job "database_insert_failed" noted).1 in
        let quiet =
          publish_failed-IsQuiet w job "database_insert_failed" noted
          ∙ record_saga_transition-IsQuiet w job.saga_id reservation_insert_failed failure error
              counted in
        let held = subst (Holds job l l.reservations) (sym quiet) h in
        let (b, after) = compensate_inventory inv w job.saga_id job.req.room_type_id told in
        subst
          (Settles inv job.req l
            (fail (status_error Code.internal "error interno al guardar la reserva")))
          (sym (
            record_saga_transition-IsQuiet w job.saga_id saga_failed failure
              "Reserva no persistida; se ejecuto compensacion de inventario" after))
          (compensated-Settles job b l (ledger told) (ledger after) held
            (compensate_inventory_accounts inv w k job.saga_id job.req.room_type_id told held.0.0))

    confirm-Settles :
        (job : Job) (email : String) (l : Ledger State) (s : ReservationServer State)
        → Holds job l (reservation_row w job ∷ l.reservations) (ledger s)
        → let (a, s') = confirm w job email s in Settles inv job.req l a (ledger s')
    unfolding confirm reservation_row
    confirm-Settles job email l s (taken, rows, g) =
        subst (Settles inv job.req l (confirm w job email s).0)
          (sym (confirm-IsQuiet w job email s))
          (booked (reservation_row w job) (refl, refl, refl, refl, refl, refl, refl, refl) refl
            taken rows g)

    saved-Settles :
        (job : Job) (email : String) (l : Ledger State) (s : ReservationServer State)
        (r : Result String (Unit {0}))
        → ((e : String) × (r ≡ err e) × Holds job l l.reservations (ledger s))
          ⊎ ((r ≡ ok tt) × Holds job l (reservation_row w job ∷ l.reservations) (ledger s))
        → let (a, s') = saved inv w job email r s in Settles inv job.req l a (ledger s')
    unfolding saved
    saved-Settles job email l s r (inl (e, q, h)) =
        subst
          (λ r'. let (a, s') = saved inv w job email r' s in Settles inv job.req l a (ledger s'))
          (sym q) (not_saved-Settles job e l s h)
    saved-Settles job email l s r (inr (q, h)) =
        subst
          (λ r'. let (a, s') = saved inv w job email r' s in Settles inv job.req l a (ledger s'))
          (sym q) (confirm-Settles job email l s h)

    pub save_reservation-Settles :
        (job : Job) (email : String) (l : Ledger State) (s : ReservationServer State)
        → Holds job l l.reservations (ledger s)
        → let (a, s') = save_reservation inv w job email s in Settles inv job.req l a (ledger s')
    unfolding save_reservation exec
    save_reservation-Settles job email l s h =
        let detail = concat "Stock bloqueado para room_type_id=" job.req.room_type_id in
        let noted = (record_saga_transition w job.saga_id stock_locked success detail s).1 in
        let (taken, rows, g) =
          subst (Holds job l l.reservations)
            (sym (record_saga_transition-IsQuiet w job.saga_id stock_locked success detail s)) h in
        let (r, after) = exec w (insert_reservation (reservation_row w job)) noted in
        saved-Settles job email l after r
          (elim (insert_reservation-cases (w.outcome noted.tick) (reservation_row w job) noted.db
            (k noted.tick)) [
              | inl (e, q, rows') ↦ inl (e, q, (taken, rows' ∙ rows, g))
              | inr (q, rows') ↦
                  inr (q, (taken, rows' ∙ ap (λ rs. reservation_row w job ∷ rs) rows, g))
            ])
