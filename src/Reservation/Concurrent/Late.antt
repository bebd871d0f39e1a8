-- ===== src/Reservation/Concurrent/Late.antt =====
-- A request of mi-servicio/main.go whose idempotency key another request stored after its lookup.
use mathlib.Core.Path.{◌∙◌, ap}
use proyecto_sd_reserva_de_h.Base.{
  ◌+◌, zero, suc, List, [], ◌∷◌, length, Option, none, some, ok, inl, inr, Bool-cases, Status, ℕ,
  ◌≤◌, ◌≡◌, refl, arith, String, true, Outcome, done, refused, unacknowledged, perform, Result, err,
  fail, Code, status_error, concat,
}
use proyecto_sd_reserva_de_h.Reservation.Tables.{
  success, stock_locked, ReservationRow, Database, insert_reservation, key_taken,
}
use proyecto_sd_reserva_de_h.Reservation.Remote.{InventoryService, World}
use proyecto_sd_reserva_de_h.Reservation.Server.{
  CreateReservationRequest, ReservationServer, exec, record_saga_transition,
}
use proyecto_sd_reserva_de_h.Reservation.Ledger.{Ledger, record_saga_transition-IsQuiet}
use proyecto_sd_reserva_de_h.Reservation.Compensation.{max_attempts}
use proyecto_sd_reserva_de_h.Reservation.Create.{Job, reservation_row}
use proyecto_sd_reserva_de_h.Reservation.Concurrent.{
  Stage, saving, releasing, release_calling, release_told, finished, step, release_checked,
  insert_tried, inventory, end_not_saved, once_allowed, ask_breaker, report_call,
}
use proyecto_sd_reserva_de_h.Reservation.Concurrent.Leading.{to_go, step-Leads}
use proyecto_sd_reserva_de_h.Breaker.{CallError}
use proyecto_sd_reserva_de_h.Inventory.Tables.{UpdateStockResponse}

taken_is_refused :
    (row : ReservationRow) (db : Database)
    → key_taken row.idempotency_key db.reservations ≡ true
    → insert_reservation row db ≡ err "duplicate key value violates unique constraint"
unfolding insert_reservation
taken_is_refused row db h = ground arith

perform_refused :
    (outcome : Outcome) (row : ReservationRow) (db : Database) (e : String)
    → insert_reservation row db ≡ err e
    → (e' : String) × (perform outcome (insert_reservation row) db ≡ (err e', db))
unfolding perform
perform_refused done row db e q = (e, rw q refl)
perform_refused (refused e') row db e q = (e', refl)
perform_refused (unacknowledged e') row db e q = (e, rw q refl)

-- The request is on its way to the internal error, or has it.
data Fails (req : CreateReservationRequest) : Stage → Type 0 where
  releases : (job : Job) (left attempt : ℕ) → job.req ≡ req → Fails req (releasing job left attempt)
  calls :
      (job : Job) (left attempt : ℕ) → job.req ≡ req → Fails req (release_calling job left attempt)
  told :
      (job : Job) (left attempt : ℕ) (r : Result Status UpdateStockResponse)
      → job.req ≡ req
      → Fails req (release_told job left attempt r)
  failed :
      (r : CreateReservationRequest)
      → r ≡ req
      → Fails req
          (finished r (fail (status_error Code.internal "error interno al guardar la reserva")))

module _ (inv : InventoryService) (w : World) where
  open inv use {State}

  -- What the other requests and goroutines, and other programs, make of the server.
  abbrev pub Change : Type 0
  Change = ReservationServer State → ReservationServer State

  -- A request that is taken a stage further before each of the changes.
  unfoldable pub run_among : List Change → Stage → ReservationServer State → Stage
  run_among [] st s = st
  run_among (change ∷ changes) st s =
      let (st', t) = step inv w st s in run_among changes st' (change t)

  release_checked-Fails :
      (req : CreateReservationRequest) (job : Job) (left attempt : ℕ)
      (r : Result (CallError Status) UpdateStockResponse) (s : ReservationServer State)
      → job.req ≡ req
      → Fails req (release_checked inv w job left attempt r s).0
  unfolding release_checked end_not_saved
  release_checked-Fails req job left attempt (err e) s h = releases job left (attempt + 1) h
  release_checked-Fails req job left attempt (ok res) s h = elim (Bool-cases res.status) [
    | inl e ↦ rw e (failed job.req h)
    | inr e ↦ rw e (releases job left (attempt + 1) h)
  ]

  once_allowed-Fails :
      (req : CreateReservationRequest) (job : Job) (left attempt : ℕ)
      (refusal : Option (CallError Status)) (s : ReservationServer State)
      → job.req ≡ req
      → Fails req
          (once_allowed inv w
            (release_calling job left attempt)
            (λ e. release_checked inv w job left attempt (err e))
            refusal
            s).0
  unfolding once_allowed
  once_allowed-Fails req job left attempt none s h = calls job left attempt h
  once_allowed-Fails req job left attempt (some e) s h =
      release_checked-Fails req job left attempt (err e) s h

  step-Fails :
      (req : CreateReservationRequest) (st : Stage) (s : ReservationServer State)
      → Fails req st
      → Fails req (step inv w st s).0
  unfolding step end_not_saved
  step-Fails req st s (releases job zero attempt h) = failed job.req h
  step-Fails req st s (releases job (suc left) attempt h) =
      once_allowed-Fails req job left attempt (ask_breaker w inventory s).0 _ h
  step-Fails req st s (calls job left attempt h) = told job left attempt _ h
  step-Fails req st s (told job left attempt r h) =
      release_checked-Fails req job left attempt (report_call w inventory r s).0 _ h
  step-Fails req st s (failed r h) = failed r h

  ended :
      (req : CreateReservationRequest) (st : Stage)
      → Fails req st
      → to_go inv w st ≤ 0
      → st ≡ finished req (fail (status_error Code.internal "error interno al guardar la reserva"))
  ended req st (failed r e) b = rw e refl
  ended req st (releases job left attempt h) b = absurd (omega arith)
  ended req st (calls job left attempt h) b = absurd (omega arith)
  ended req st (told job left attempt r h) b = absurd (omega arith)

  run_among-ends :
      (req : CreateReservationRequest) (changes : List Change) (st : Stage)
      (s : ReservationServer State)
      → Fails req st
      → to_go inv w st ≤ length changes
      → run_among changes st s
        ≡ finished req (fail (status_error Code.internal "error interno al guardar la reserva"))
  unfolding run_among
  run_among-ends req [] st s h b = ended req st h b
  run_among-ends req (change ∷ changes) st s h b =
      let (_, c, _) = step-Leads inv w st (length changes) (omega arith) s in
      run_among-ends req changes (step inv w st s).0 _ (step-Fails req st s h) c

  insert_tried-Fails :
      (job : Job) (email e : String) (r : Result String (Unit {0})) (s : ReservationServer State)
      → r ≡ err e
      → Fails job.req (insert_tried inv w job email r s).0
        × (to_go inv w (insert_tried inv w job email r s).0 ≤ 10)
  unfolding insert_tried
  insert_tried-Fails job email e r s q = rw q (releases job max_attempts 1 refl, omega arith)

  saving-Fails :
      (job : Job) (email : String) (s : ReservationServer State)
      → key_taken (reservation_row w job).idempotency_key s.db.reservations ≡ true
      → Fails job.req (step inv w (saving job email) s).0
        × (to_go inv w (step inv w (saving job email) s).0 ≤ 10)
  unfolding step exec
  saving-Fails job email s h =
      let detail = concat "Stock bloqueado para room_type_id=" job.req.room_type_id in
      let noted = (record_saga_transition w job.saga_id stock_locked success detail s).1 in
      let row = reservation_row w job in
      let q =
        ap (λ (l : Ledger State). l.reservations)
          (record_saga_transition-IsQuiet w job.saga_id stock_locked success detail s) in
      let taken = ap (key_taken row.idempotency_key) q ∙ h in
      let (e, p) =
        perform_refused (w.outcome noted.tick) row noted.db _
          (taken_is_refused row noted.db taken) in
      let (r, after) = exec w (insert_reservation row) noted in
      insert_tried-Fails job email e r after
        (ap (λ (x : Result String (Unit {0}) × Database). x.0) p)

  -- A request comes to its INSERT when its idempotency key is stored. Whatever happens to the server
  -- between its stages from then on, it is never told of that reservation: it ends in an internal
  -- error, and eleven stages are enough.
  pub late_request_fails :
      (changes : List Change) (job : Job) (email : String) (s : ReservationServer State)
      → key_taken (reservation_row w job).idempotency_key s.db.reservations ≡ true
      → 11 ≤ length changes
      → run_among changes (saving job email) s
        ≡ finished job.req (fail (status_error Code.internal "error interno al guardar la reserva"))
  unfolding run_among
  late_request_fails [] job email s h b = absurd (omega arith)
  late_request_fails (change ∷ changes) job email s h b =
      let (f, c) = saving-Fails job email s h in
      run_among-ends job.req changes (step inv w (saving job email) s).0 _ f (omega arith)
