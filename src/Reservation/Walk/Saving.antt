-- ===== src/Reservation/Walk/Saving.antt =====
-- The states that the end of a run of `CreateReservation` (mi-servicio/main.go) counts, and those of
-- its failures.
use mathlib.Core.Path.{subst}
use proyecto_sd_reserva_de_h.Base.{
  ℕ, zero, suc, ◌+◌, ◌≡◌, sym, String, arith, List, Bool, true, false, Answer, Result, ok, err,
  if◌then◌else◌, concat, Status,
}
use proyecto_sd_reserva_de_h.Breaker.{CallError, circuit_open, from_call}
use proyecto_sd_reserva_de_h.Inventory.Tables.{UpdateStockResponse}
use proyecto_sd_reserva_de_h.Reservation.Events.{Event, new_reservation_confirmed}
use proyecto_sd_reserva_de_h.Reservation.Tables.{
  SagaState, stock_locked, reservation_created, notification_dispatching, compensating, compensated,
  compensation_failed, saga_failed, reservation_insert_failed, success, failure,
}
use proyecto_sd_reserva_de_h.Reservation.Remote.{InventoryService, World, release_one}
use proyecto_sd_reserva_de_h.Reservation.Server.{
  Metric, CreateReservationResponse, ReservationServer, Act, inc, next_tick, record_saga_transition,
  exec, fail_saga, publish_reservation_event, call_inventory,
}
use proyecto_sd_reserva_de_h.Reservation.Compensation.{
  give_up, released_at, after_attempt, release_attempts, compensate_inventory, max_attempts,
}
use proyecto_sd_reserva_de_h.Reservation.Create.{
  Job, event_data, refuse_call, publish_failed, confirm, not_saved, saved,
}
use proyecto_sd_reserva_de_h.Reservation.Walk.{trace, Follows, Walk, goes, Stops, succeeds, fails}

pub publish-metrics :
    {I : Type 0} (key : String) (event : Event) (s : ReservationServer I)
    → (publish_reservation_event key event s).1.metrics ≡ s.metrics
unfolding publish_reservation_event
publish-metrics key event s = ground arith

publish_failed-metrics :
    {I : Type 0} (w : World) (job : Job) (reason : String) (s : ReservationServer I)
    → (publish_failed w job reason s).1.metrics ≡ s.metrics
unfolding publish_failed
publish_failed-metrics w job reason s = publish-metrics _ _ (next_tick s).1

abbrev pub Walks : List SagaState → SagaState → List Metric → Type 0
Walks before state metrics = Walk before state (trace metrics)

-- The states before, and the answer of a run with the metrics after it.
abbrev pub Ends : List SagaState → Answer CreateReservationResponse → List Metric → Type 0
Ends before a metrics = (state : SagaState) × Stops a state × Walks before state metrics

pub refuse_call-Stops :
    (e : CallError Status) (message : String) (st : Status)
    → Stops (refuse_call e message st) saga_failed
refuse_call-Stops (circuit_open e) message st = fails _
refuse_call-Stops (from_call e) message st = fails st

module _ (before : List SagaState) where
  pub fails_walking :
      {I : Type 0} (w : World) (job : Job) (stage : String) (a b : SagaState)
      (detail reason : String) (s : ReservationServer I)
      → Walks before a s.metrics
      → Follows a b
      → Follows b saga_failed
      → Walks before saga_failed
          (publish_failed w job reason
            (fail_saga w job.saga_id b detail (inc (Metric.failures stage) s).1).1).1.metrics
  unfolding fail_saga record_saga_transition exec
  fails_walking w job stage a b detail reason s walk f g =
      subst (Walks before saga_failed)
        (sym (
          publish_failed-metrics w job reason
            (fail_saga w job.saga_id b detail (inc (Metric.failures stage) s).1).1))
        (goes (goes walk f) g)

  confirm-Ends :
      {I : Type 0} (w : World) (job : Job) (email : String) (s : ReservationServer I)
      → Walks before stock_locked s.metrics
      → let (a, t) = confirm w job email s in Ends before a t.metrics
  unfolding confirm record_saga_transition exec
  confirm-Ends w job email s walk =
      let detail = concat "Reserva " (concat job.reservation_id " creada en PostgreSQL") in
      let created = record_saga_transition w job.saga_id reservation_created success detail s in
      let (n, drawn) = next_tick created.1 in
      let event = new_reservation_confirmed w.env n (event_data job) in
      (
        notification_dispatching,
        succeeds _,
        goes
            (subst (Walks before reservation_created)
              (sym (publish-metrics job.reservation_id event drawn)) (goes walk Follows.row_saved))
            Follows.dispatched,
      )

  module _ (inv : InventoryService) (w : World) where
    open inv use {State}

    -- A walk that a compensation ends, from which the saga fails.
    abbrev Compensated : List Metric → Type 0
    Compensated metrics =
        (state : SagaState) × Follows state saga_failed × Walks before state metrics

    by_status-Compensated :
        (saga_id key : String) (attempt : ℕ) (retry : Act State Bool) (b : Bool)
        (t : ReservationServer State)
        → Walks before compensating t.metrics
        → Compensated (retry t).1.metrics
        → Compensated ((if b then released_at inv w saga_id key attempt else retry) t).1.metrics
    unfolding released_at record_saga_transition exec
    by_status-Compensated saga_id key attempt retry true t walk q =
        (compensated, Follows.undone_ended, goes walk Follows.undone)
    by_status-Compensated saga_id key attempt retry false t walk q = q

    after_attempt-Compensated :
        (saga_id key : String) (attempt : ℕ) (retry : Act State Bool)
        (res : Result (CallError Status) UpdateStockResponse) (t : ReservationServer State)
        → Walks before compensating t.metrics
        → Compensated (retry t).1.metrics
        → Compensated (after_attempt inv w saga_id key attempt retry res t).1.metrics
    unfolding after_attempt
    after_attempt-Compensated saga_id key attempt retry (err e) t walk q = q
    after_attempt-Compensated saga_id key attempt retry (ok res) t walk q =
        by_status-Compensated saga_id key attempt retry res.status t walk q

    release_attempts-Compensated :
        (saga_id key : String) (left attempt : ℕ) (s : ReservationServer State)
        → Walks before compensating s.metrics
        → Compensated (release_attempts inv w saga_id key left attempt s).1.metrics
    unfolding release_attempts give_up record_saga_transition exec call_inventory
    release_attempts-Compensated saga_id key zero attempt s walk =
        (compensation_failed, Follows.not_undone_ended, goes walk Follows.not_undone)
    release_attempts-Compensated saga_id key (suc left) attempt s walk =
        let (res, t) = call_inventory inv w (release_one key) s in
        after_attempt-Compensated saga_id key attempt
          (release_attempts inv w saga_id key left (attempt + 1)) res t walk
          (release_attempts-Compensated saga_id key left (attempt + 1) t walk)

    not_saved-Ends :
        (job : Job) (error : String) (s : ReservationServer State)
        → Walks before stock_locked s.metrics
        → let (a, t) = not_saved inv w job error s in Ends before a t.metrics
    unfolding not_saved compensate_inventory record_saga_transition exec
    not_saved-Ends job error s walk =
        let counted = (inc (Metric.failures "database_insert") s).1 in
        let noted =
          (record_saga_transition w job.saga_id reservation_insert_failed failure error
            counted).1 in
        let told = (publish_failed w job "database_insert_failed" noted).1 in
        let moved =
          (record_saga_transition w job.saga_id compensating success
            "Liberando stock por fallo posterior al bloqueo" told).1 in
        let (state, f, walk') =
          release_attempts-Compensated job.saga_id job.req.room_type_id max_attempts 1 moved (
            goes
              (subst (Walks before reservation_insert_failed)
                (sym (publish_failed-metrics w job "database_insert_failed" noted))
                (goes walk Follows.row_refused))
              Follows.undoes) in
        (saga_failed, fails _, goes walk' f)

    pub saved-Ends :
        (job : Job) (email : String) (r : Result String (Unit {0})) (s : ReservationServer State)
        → Walks before stock_locked s.metrics
        → let (a, t) = saved inv w job email r s in Ends before a t.metrics
    unfolding saved
    saved-Ends job email (err e) s walk = not_saved-Ends job e s walk
    saved-Ends job email (ok _) s walk = confirm-Ends w job email s walk
