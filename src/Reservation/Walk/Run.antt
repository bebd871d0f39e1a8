-- ===== src/Reservation/Walk/Run.antt =====
-- A run of `CreateReservation` (mi-servicio/main.go) walks through the states of its saga.
use mathlib.Core.Path.{subst}
use proyecto_sd_reserva_de_h.Base.{
  ◌≡◌, refl, sym, ◌⊎◌, inl, inr, String, List, Bool, true, false, Answer, Result, ok, err,
  if◌then◌else◌, Option, none, some, Status,
}
use proyecto_sd_reserva_de_h.Breaker.{CallError}
use proyecto_sd_reserva_de_h.Inventory.Tables.{UpdateStockResponse}
use proyecto_sd_reserva_de_h.Reservation.Events.{new_reservation_created}
use proyecto_sd_reserva_de_h.Reservation.Tables.{
  SagaState, started, user_validated, saga_failed, user_validation_failed, stock_lock_failed,
  stock_unavailable, success, insert_saga,
}
use proyecto_sd_reserva_de_h.Reservation.Remote.{InventoryService, World, User}
use proyecto_sd_reserva_de_h.Reservation.Server.{
  CreateReservationRequest, CreateReservationResponse, ReservationServer, next_tick,
  record_saga_transition, exec, start_saga, new_saga, saga_inserted, publish_reservation_event,
  call_inventory, call_user,
}
use proyecto_sd_reserva_de_h.Reservation.Create.{
  Job, event_data, save_reservation, lock_failed, no_stock, locked, lock_stock, user_refused,
  validated, started_saga, new_job, run_saga,
}
use proyecto_sd_reserva_de_h.Reservation.Accounts.{is_reply}
use proyecto_sd_reserva_de_h.Reservation.Walk.{trace, Follows, begins, goes, fails, crashes}
use proyecto_sd_reserva_de_h.Reservation.Walk.Saving.{
  publish-metrics, fails_walking, saved-Ends, refuse_call-Stops, Walks, Ends,
}

module _ (before : List SagaState) where
  module _ (inv : InventoryService) (w : World) where
    open inv use {State}

    by_status-Ends :
        (job : Job) (email : String) (b : Bool) (s : ReservationServer State)
        → Walks before user_validated s.metrics
        → let (a, t) = (if b then save_reservation inv w job email else no_stock inv w job) s in
          Ends before a t.metrics
    unfolding no_stock save_reservation record_saga_transition exec
    by_status-Ends job email true s walk =
        saved-Ends before inv w job email _ _ (goes walk Follows.lock_taken)
    by_status-Ends job email false s walk = (
      saga_failed,
      fails _,
      fails_walking before w job "inventory_no_stock" _ stock_unavailable
          "Inventario respondio status=false" "inventory_no_stock" s walk Follows.nothing_left
          Follows.nothing_ended,
    )

    locked-Ends :
        (job : Job) (email : String) (r : Result (CallError Status) UpdateStockResponse)
        (s : ReservationServer State)
        → Walks before user_validated s.metrics
        → let (a, t) = locked inv w job email r s in Ends before a t.metrics
    unfolding locked lock_failed
    locked-Ends job email (err e) s walk = (
      saga_failed,
      refuse_call-Stops e _ _,
      fails_walking before w job "inventory_lock" _ stock_lock_failed _ _ s walk
          Follows.lock_refused Follows.lock_ended,
    )
    locked-Ends job email (ok res) s walk = by_status-Ends job email res.status s walk

    validated-Ends :
        (job : Job) (r : Result (CallError Status) (Option User)) (s : ReservationServer State)
        → Walks before started s.metrics
        → let (a, t) = validated inv w job r s in Ends before a t.metrics
    unfolding validated user_refused lock_stock call_inventory record_saga_transition exec
    validated-Ends job (err e) s walk = (
      saga_failed,
      refuse_call-Stops e _ _,
      fails_walking before w job "user_validation" _ user_validation_failed _ _ s walk
          Follows.user_unknown Follows.user_ended,
    )
    validated-Ends job (ok none) s walk = (started, crashes, walk)
    validated-Ends job (ok (some user)) s walk =
        locked-Ends job user.email _ _ (goes walk Follows.user_known)

    started_saga-Ends :
        (job : Job) (s : ReservationServer State)
        → Walks before started s.metrics
        → let (a, t) = started_saga inv w job (ok tt) s in Ends before a t.metrics
    unfolding started_saga call_user
    started_saga-Ends job s walk =
        let (n, drawn) = next_tick s in
        let event = new_reservation_created w.env n (event_data job) in
        let told = (publish_reservation_event job.req.user_id event drawn).1 in
        let (res, t) = call_user inv w job.req.user_id told in
        validated-Ends job res t
          (subst (Walks before started) (sym (publish-metrics job.req.user_id event drawn)) walk)

module _ (inv : InventoryService) (w : World) where
  open inv use {State}

  -- The states that a run counts: none if the saga could not be inserted, or a whole walk.
  abbrev pub Traces :
      Answer CreateReservationResponse → ReservationServer State → ReservationServer State → Type 0
  Traces a s t =
      ((is_reply a ≡ false) × (trace t.metrics ≡ trace s.metrics))
      ⊎ Ends (trace s.metrics) a t.metrics

  inserted-Traces :
      (job : Job) (r : Result String (Unit {0})) (s : ReservationServer State)
      → let (r', v) = saga_inserted w job.saga_id r s in
        let (a, t) = started_saga inv w job r' v in Traces a s t
  unfolding saga_inserted started_saga record_saga_transition exec
  inserted-Traces job (err e) s = inl (refl, refl)
  inserted-Traces job (ok _) s =
      let v =
        (record_saga_transition w job.saga_id started success "Saga de reserva iniciada" s).1 in
      inr (started_saga-Ends (trace s.metrics) inv w job v begins)

  -- The saga's states follow its graph: a run that is not a replay either counts no state and does
  -- not reply, or counts the states of a walk from `STARTED` along the edges of `Follows`, each
  -- after the last. A run that replies ends in `NOTIFICATION_DISPATCHING`, one that returns an error
  -- ends in `FAILED`, and one that panics leaves its saga in `STARTED`.
  pub run_saga-Traces :
      (req : CreateReservationRequest) (s : ReservationServer State)
      → let (a, t) = run_saga inv w req s in Traces a s t
  unfolding run_saga new_job start_saga exec
  run_saga-Traces req s =
      let (n, t) = next_tick s in
      let (m, u) = next_tick t in
      let job = new_job w n m req in
      let (r, v) = exec w (insert_saga (new_saga job.saga_id job.reservation_id req)) u in
      inserted-Traces job r v
