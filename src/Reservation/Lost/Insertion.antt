-- ===== src/Reservation/Lost/Insertion.antt =====
-- The insertion of a reservation in mi-servicio/main.go whose reply is lost.
use mathlib.Core.Path.{◌∙◌, ap}
use proyecto_sd_reserva_de_h.Base.{
  ℕ, zero, suc, print_ℕ, ◌+◌, ◌≡◌, refl, String, arith, Bool, true, false, List, ◌∷◌, Result, ok,
  err, Outcome, unacknowledged, perform, fail, Code, Status, status_error, concat, if◌then◌else◌,
}
use proyecto_sd_reserva_de_h.Breaker.{CallError}
use proyecto_sd_reserva_de_h.Inventory.Tables.{UpdateStockResponse}
use proyecto_sd_reserva_de_h.Reservation.Tables.{
  success, stock_locked, Database, insert_reservation, failure, compensating, compensated,
  compensation_failed, saga_failed, reservation_insert_failed, ReservationRow,
}
use proyecto_sd_reserva_de_h.Reservation.Remote.{InventoryService, World, release_one}
use proyecto_sd_reserva_de_h.Reservation.Server.{
  Metric, Act, exec, ReservationServer, inc, record_saga_transition, call_inventory,
}
use proyecto_sd_reserva_de_h.Reservation.Ledger.{
  Ledger, ledger, record_saga_transition-IsQuiet, publish_failed-IsQuiet,
}
use proyecto_sd_reserva_de_h.Reservation.Compensation.{
  give_up, released_at, after_attempt, release_attempts, compensate_inventory, max_attempts,
}
use proyecto_sd_reserva_de_h.Reservation.Create.{
  Job, reservation_row, not_saved, saved, save_reservation, publish_failed,
}

module _ (inv : InventoryService) (w : World) where
  open inv use {State}

  abbrev pub SameRows : ReservationServer State → ReservationServer State → Type 0
  SameRows s t = t.db.reservations ≡ s.db.reservations

  abbrev pub rows : Ledger State → List ReservationRow
  rows l = l.reservations

  by_status-SameRows :
      (saga_id key : String) (attempt : ℕ) (retry : Act State Bool) (b : Bool)
      (t : ReservationServer State)
      → SameRows t (retry t).1
      → SameRows t ((if b then released_at inv w saga_id key attempt else retry) t).1
  unfolding released_at
  by_status-SameRows saga_id key attempt retry true t q =
      let counted = (inc (Metric.compensations "success") t).1 in
      let detail = concat "Stock liberado en intento " (print_ℕ attempt) in
      ap rows (record_saga_transition-IsQuiet w saga_id compensated success detail counted)
  by_status-SameRows saga_id key attempt retry false t q = q

  after_attempt-SameRows :
      (saga_id key : String) (attempt : ℕ) (retry : Act State Bool)
      (res : Result (CallError Status) UpdateStockResponse) (t : ReservationServer State)
      → SameRows t (retry t).1
      → SameRows t (after_attempt inv w saga_id key attempt retry res t).1
  unfolding after_attempt
  after_attempt-SameRows saga_id key attempt retry (err e) t q = q
  after_attempt-SameRows saga_id key attempt retry (ok res) t q =
      by_status-SameRows saga_id key attempt retry res.status t q

  release_attempts-SameRows :
      (saga_id key : String) (left attempt : ℕ) (s : ReservationServer State)
      → SameRows s (release_attempts inv w saga_id key left attempt s).1
  unfolding release_attempts give_up call_inventory
  release_attempts-SameRows saga_id key zero attempt s =
      let counted = (inc (Metric.compensations "failed") s).1 in
      ap rows (
        record_saga_transition-IsQuiet w saga_id compensation_failed failure
          "No se pudo liberar stock despues de 3 intentos" counted)
  release_attempts-SameRows saga_id key (suc left) attempt s =
      let (res, t) = call_inventory inv w (release_one key) s in
      after_attempt-SameRows saga_id key attempt
        (release_attempts inv w saga_id key left (attempt + 1)) res t
        (release_attempts-SameRows saga_id key left (attempt + 1) t)

  not_saved-SameRows :
      (job : Job) (error : String) (s : ReservationServer State)
      → SameRows s (not_saved inv w job error s).1
  unfolding not_saved compensate_inventory
  not_saved-SameRows job error s =
      let counted = (inc (Metric.failures "database_insert") s).1 in
      let noted =
        (record_saga_transition w job.saga_id reservation_insert_failed failure error counted).1 in
      let told = (publish_failed w job "database_insert_failed" noted).1 in
      let undoing : String = "Liberando stock por fallo posterior al bloqueo" in
      let moved = (record_saga_transition w job.saga_id compensating success undoing told).1 in
      let after =
        (release_attempts inv w job.saga_id job.req.room_type_id max_attempts 1 moved).1 in
      ap rows (
        record_saga_transition-IsQuiet w job.saga_id saga_failed failure
          "Reserva no persistida; se ejecuto compensacion de inventario" after)
      ∙ release_attempts-SameRows job.saga_id job.req.room_type_id max_attempts 1 moved
      ∙ ap rows (
          record_saga_transition-IsQuiet w job.saga_id compensating success undoing told
          ∙ publish_failed-IsQuiet w job "database_insert_failed" noted
          ∙ record_saga_transition-IsQuiet w job.saga_id reservation_insert_failed failure error
              counted)

  pub saved-lost :
      (job : Job) (email e : String) (r : Result String (Unit {0})) (s : ReservationServer State)
      → r ≡ err e
      → let (a, t) = saved inv w job email r s in
        (a ≡ fail (status_error Code.internal "error interno al guardar la reserva")) × SameRows s t
  unfolding saved not_saved
  saved-lost job email e r s q = rw q (refl, not_saved-SameRows job e s)

  -- The compensation runs from a server with the same accounts, and nothing after it changes them.
  abbrev pub Compensated : Job → Ledger State → ReservationServer State → Type 0
  Compensated job l u =
      (m : ReservationServer State) × (ledger m ≡ l)
      × (ledger u ≡ ledger (compensate_inventory inv w job.saga_id job.req.room_type_id m).1)

  saved-Compensated :
      (job : Job) (email e : String) (r : Result String (Unit {0})) (s : ReservationServer State)
      → r ≡ err e
      → Compensated job (ledger s) (saved inv w job email r s).1
  unfolding saved not_saved
  saved-Compensated job email e r s q =
      let counted = (inc (Metric.failures "database_insert") s).1 in
      let noted =
        (record_saga_transition w job.saga_id reservation_insert_failed failure e counted).1 in
      let told = (publish_failed w job "database_insert_failed" noted).1 in
      let after = (compensate_inventory inv w job.saga_id job.req.room_type_id told).1 in
      rw q (
        told,
        publish_failed-IsQuiet w job "database_insert_failed" noted
            ∙ record_saga_transition-IsQuiet w job.saga_id reservation_insert_failed failure e
                counted,
        record_saga_transition-IsQuiet w job.saga_id saga_failed failure
            "Reserva no persistida; se ejecuto compensacion de inventario" after,
      )

  inserted_first :
      (row : ReservationRow) (db db' : Database)
      → insert_reservation row db ≡ ok (tt, db')
      → db'.reservations ≡ row ∷ db.reservations
  unfolding insert_reservation
  inserted_first row db db' q = ground arith

  insert_lost :
      (outcome : Outcome) (row : ReservationRow) (db db' : Database) (e : String)
      → outcome ≡ unacknowledged e
      → insert_reservation row db ≡ ok (tt, db')
      → perform outcome (insert_reservation row) db ≡ (err e, db')
  unfolding perform
  insert_lost outcome row db db' e p q = rw (p, q) refl

  -- When the insertion of the reservation takes effect and its reply is lost, the client is told of
  -- an internal error, and the reservation stays in its table, confirmed. The compensation of the
  -- room type runs, from the accounts of before with that reservation added, and what it leaves of
  -- the inventory service and of the count of given up compensations is what there is at the end.
  pub insert_reply_lost :
      (job : Job) (email : String) (s : ReservationServer State) (e : String) (db' : Database)
      → let t =
          (record_saga_transition w job.saga_id stock_locked success
            (concat "Stock bloqueado para room_type_id=" job.req.room_type_id)
            s).1 in
        w.outcome t.tick ≡ unacknowledged e
        → insert_reservation (reservation_row w job) t.db ≡ ok (tt, db')
        → let (a, u) = save_reservation inv w job email s in
          let added = record (ledger s) {
            reservations = reservation_row w job ∷ s.db.reservations;
          } in
          (a ≡ fail (status_error Code.internal "error interno al guardar la reserva"))
          × (u.db.reservations ≡ reservation_row w job ∷ s.db.reservations)
          × Compensated job added u
  unfolding save_reservation exec
  insert_reply_lost job email s e db' p q =
      let detail = concat "Stock bloqueado para room_type_id=" job.req.room_type_id in
      let t = (record_saga_transition w job.saga_id stock_locked success detail s).1 in
      let quiet = record_saga_transition-IsQuiet w job.saga_id stock_locked success detail s in
      let row = reservation_row w job in
      let lost = insert_lost (w.outcome t.tick) row t.db db' e p q in
      let told = ap (λ (x : Result String (Unit {0}) × Database). x.0) lost in
      let (r, after) = exec w (insert_reservation row) t in
      let (a, kept) = saved-lost job email e r after told in
      let (m, from, to) = saved-Compensated job email e r after told in
      let stored =
        ap (λ (x : Result String (Unit {0}) × Database). x.1.reservations) lost
        ∙ inserted_first row t.db db' q in
      (
        a,
        kept ∙ stored ∙ ap (λ (l : Ledger State). row ∷ l.reservations) quiet,
        (
          m,
          from
              ∙ ap (λ rs. record (ledger t) { reservations = rs }) stored
              ∙ ap (λ (l : Ledger State). record l { reservations = row ∷ l.reservations }) quiet,
          to,
        ),
      )
