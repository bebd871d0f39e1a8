-- ===== src/Reservation/Ledger.antt =====
-- What a run of mi-servicio/main.go is accounted by, and the steps that leave it as it is.
use mathlib.Core.Path.{◌∙◌, ap}
use proyecto_sd_reserva_de_h.Base.{
  ℕ, ◌+◌, ◌≡◌, refl, String, arith, List, [], ◌∷◌, str_eq, Result, ok, err, Outcome, done, refused,
  unacknowledged, perform, concat, if◌then◌else◌,
}
use proyecto_sd_reserva_de_h.Reservation.Events.{Event, new_reservation_confirmed}
use proyecto_sd_reserva_de_h.Reservation.Tables.{
  SagaState, reservation_created, success, failure, StepResult, SagaEventRow, SagaRow,
  ReservationRow, Database, insert_saga, insert_saga_event, update_saga,
}
use proyecto_sd_reserva_de_h.Reservation.Remote.{World}
use proyecto_sd_reserva_de_h.Reservation.Server.{
  Metric, CreateReservationRequest, ReservationServer, Act, ◌>>=◌, inc, next_tick, exec,
  record_saga_transition, saga_inserted, start_saga, fail_saga, publish_reservation_event,
}
use proyecto_sd_reserva_de_h.Reservation.Create.{
  Job, event_data, publish_failed, confirm, replay, find_existing,
}

-- The compensations that were given up, as the counter shows them.
abbrev pub gave_up_total : List Metric → ℕ
gave_up_total [] = 0
gave_up_total (Metric.compensations label ∷ metrics) =
    let rest = gave_up_total metrics in if str_eq label "failed" then rest + 1 else rest
gave_up_total (_ ∷ metrics) = gave_up_total metrics

pub record Ledger (I : Type 0) : Type 0 where
  pub inventory : I
  pub reservations : List ReservationRow
  pub given_up : ℕ

update_saga-keeps :
    (saga_id : String) (state : SagaState) (result : StepResult) (detail : String)
    (outcome : Outcome) (db : Database)
    → (perform outcome (update_saga saga_id state result detail) db).1.reservations
      ≡ db.reservations
unfolding perform update_saga
update_saga-keeps saga_id state result detail done db = refl
update_saga-keeps saga_id state result detail (refused e) db = refl
update_saga-keeps saga_id state result detail (unacknowledged e) db = refl

insert_saga_event-keeps :
    (row : SagaEventRow) (outcome : Outcome) (db : Database)
    → (perform outcome (insert_saga_event row) db).1.reservations ≡ db.reservations
unfolding perform insert_saga_event
insert_saga_event-keeps row outcome db = ground arith

insert_saga-keeps :
    (row : SagaRow) (outcome : Outcome) (db : Database)
    → (perform outcome (insert_saga row) db).1.reservations ≡ db.reservations
unfolding perform insert_saga
insert_saga-keeps row outcome db = ground arith

module _ {I : Type 0} where
  abbrev pub ledger : ReservationServer I → Ledger I
  ledger s = record {
    inventory = s.inventory;
    reservations = s.db.reservations;
    given_up = gave_up_total s.metrics;
  }

  abbrev pub IsQuiet : {A : Type 0} → Act I A → Type 0
  IsQuiet m = (s : ReservationServer I) → ledger (m s).1 ≡ ledger s

  pub IsQuiet-bind :
      {A B : Type 0} (m : Act I A) (f : A → Act I B)
      → IsQuiet m
      → ((a : A) → IsQuiet (f a))
      → IsQuiet (m >>= f)
  IsQuiet-bind m f q r s = r (m s).0 (m s).1 ∙ q s

  exec-IsQuiet :
      (w : World) (statement : Database → Result String (Unit {0} × Database))
      → ((outcome : Outcome) (db : Database)
          → (perform outcome statement db).1.reservations ≡ db.reservations)
      → IsQuiet (exec w statement)
  unfolding exec
  exec-IsQuiet w statement k s =
      ap (λ rows. record (ledger s) { reservations = rows }) (k (w.outcome s.tick) s.db)

  pub record_saga_transition-IsQuiet :
      (w : World) (saga_id : String) (state : SagaState) (result : StepResult) (detail : String)
      → IsQuiet (record_saga_transition w saga_id state result detail)
  unfolding record_saga_transition
  record_saga_transition-IsQuiet w saga_id state result detail s =
      let moved = (inc (Metric.saga_transitions state result) s).1 in
      let event : SagaEventRow = record {
        saga_id = saga_id;
        step = state;
        result = result;
        detail = detail;
      } in
      exec-IsQuiet w (insert_saga_event event) (insert_saga_event-keeps event)
        (exec w (update_saga saga_id state result detail) moved).1
      ∙ exec-IsQuiet w (update_saga saga_id state result detail)
          (update_saga-keeps saga_id state result detail) moved

  saga_inserted-IsQuiet :
      (w : World) (saga_id : String) (r : Result String (Unit {0}))
      → IsQuiet (saga_inserted w saga_id r)
  unfolding saga_inserted
  saga_inserted-IsQuiet w saga_id (err e) s = refl
  saga_inserted-IsQuiet w saga_id (ok _) s = record_saga_transition-IsQuiet w saga_id _ _ _ s

  pub start_saga-IsQuiet :
      (w : World) (saga_id reservation_id : String) (req : CreateReservationRequest)
      → IsQuiet (start_saga w saga_id reservation_id req)
  unfolding start_saga
  start_saga-IsQuiet w saga_id reservation_id req =
      IsQuiet-bind _ (saga_inserted w saga_id) (exec-IsQuiet w _ (insert_saga-keeps _))
        (saga_inserted-IsQuiet w saga_id)

  pub publish_reservation_event-IsQuiet :
      (key : String) (event : Event) → IsQuiet (publish_reservation_event key event)
  unfolding publish_reservation_event
  publish_reservation_event-IsQuiet key event s = ground arith

  pub find_existing-IsQuiet : (w : World) (key : String) → IsQuiet (find_existing w key)
  unfolding find_existing
  find_existing-IsQuiet w key s = ground arith

  pub replay-IsQuiet : (w : World) (row : ReservationRow) → IsQuiet (replay w row)
  unfolding replay
  replay-IsQuiet w row s = ground arith

  pub fail_saga-IsQuiet :
      (w : World) (saga_id : String) (state : SagaState) (detail : String)
      → IsQuiet (fail_saga {I = I} w saga_id state detail)
  unfolding fail_saga
  fail_saga-IsQuiet w saga_id state detail s =
      record_saga_transition-IsQuiet w saga_id _ _ _
        (record_saga_transition w saga_id state failure detail s).1
      ∙ record_saga_transition-IsQuiet w saga_id _ _ _ s

  pub publish_failed-IsQuiet :
      (w : World) (job : Job) (reason : String) → IsQuiet (publish_failed w job reason)
  unfolding publish_failed
  publish_failed-IsQuiet w job reason s = publish_reservation_event-IsQuiet _ _ (next_tick s).1

  pub confirm-IsQuiet : (w : World) (job : Job) (email : String) → IsQuiet (confirm w job email)
  unfolding confirm
  confirm-IsQuiet w job email s =
      let created =
        record_saga_transition w job.saga_id reservation_created success
          (concat "Reserva " (concat job.reservation_id " creada en PostgreSQL")) s in
      let n = created.1.tick in
      let event = new_reservation_confirmed w.env n (event_data job) in
      let drawn = (next_tick created.1).1 in
      let told = (publish_reservation_event job.reservation_id event drawn).1 in
      record_saga_transition-IsQuiet w job.saga_id _ _ _ told
      ∙ publish_reservation_event-IsQuiet job.reservation_id event drawn
      ∙ record_saga_transition-IsQuiet w job.saga_id _ _ _ s
