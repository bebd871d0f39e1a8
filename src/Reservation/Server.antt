-- ===== src/Reservation/Server.antt =====
-- The server of mi-servicio/main.go: its state, its database calls and the saga's bookkeeping
-- (`startSaga`, `recordSagaTransition`, `failSaga`). What a request starts in the background is a task
-- for later; requests that overlap are in Concurrent. Log lines are left out.
use proyecto_sd_reserva_de_h.Base.{
  ℕ, ◌+◌, String, Bool, List, ◌∷◌, Option, none, some, str_eq, concat, print_ℕ, trim_space,
  if◌then◌else◌, Result, ok, err, perform, Status,
}
use proyecto_sd_reserva_de_h.Breaker.{
  CircuitBreaker, CallError, circuit_open, from_call, circuit_open_message, execute,
}
use proyecto_sd_reserva_de_h.Inventory.Tables.{UpdateStockRequest, UpdateStockResponse}
use proyecto_sd_reserva_de_h.Reservation.Events.{Event}
use proyecto_sd_reserva_de_h.Reservation.Tables.{
  SagaState, started, saga_failed, StepResult, success, failure, never, SagaRow, Database,
  insert_saga, insert_saga_event, update_saga,
}
use proyecto_sd_reserva_de_h.Reservation.Remote.{InventoryService, User, World, remote}

-- The counters of the service, by their labels.
pub data Metric : Type 0 where
  created_total list_total get_total idempotent_replays : Metric
  failures : String → Metric
  notifications : String → Metric
  saga_transitions : SagaState → StepResult → Metric
  compensations : String → Metric

-- What a goroutine is left to do.
pub data Task : Type 0 where
  publish_event : String → Event → Task
  send_confirmation : String → String → String → String → Task

pub record CreateReservationRequest : Type 0 where
  pub user_id : String
  pub hotel_id : String
  pub room_type_id : String
  pub fecha_inicio : String
  pub fecha_fin : String
  pub idempotency_key : String

pub record CreateReservationResponse : Type 0 where
  pub reservation_id : String
  pub status : String
  pub monto_total : ℕ

pub record ReservationServer (I : Type 0) : Type 0 where
  pub db : Database
  pub inventory : I  -- the state of the service behind `inventoryClient`
  pub user_breaker : CircuitBreaker
  pub inventory_breaker : CircuitBreaker
  pub notification_breaker : CircuitBreaker
  pub has_publisher : Bool
  pub tasks : List Task  -- newest first
  pub metrics : List Metric  -- each `Inc`, newest first
  pub tick : ℕ

abbrev pub Act : Type 0 → Type 0 → Type 0
Act I A = ReservationServer I → A × ReservationServer I

abbrev pub pure : {I A : Type 0} → A → Act I A
pure a s = (a, s)

infixl 5 ◌>>=◌ ◌>>◌
abbrev pub ◌>>=◌ : {I A B : Type 0} → Act I A → (A → Act I B) → Act I B
◌>>=◌ m f s = let (a, s') = m s in f a s'

abbrev pub ◌>>◌ : {I A B : Type 0} → Act I A → Act I B → Act I B
m >> k = m >>= λ _. k

-- `status.Convert(err).Message()`.
unfoldable pub error_message : CallError Status → String
error_message (circuit_open e) = circuit_open_message e
error_message (from_call st) = st.message

-- `generateWorkflowID`; without random bytes it takes the time in nanoseconds.
unfoldable pub generate_workflow_id : World → ℕ → String → String
generate_workflow_id w tick prefix = elim (w.random_hex tick) [
  | none ↦ concat prefix (concat "-" (print_ℕ (w.clock tick)))
  | some hex ↦ concat prefix (concat "-" (concat (w.date_text tick) (concat "-" hex)))
]

abbrev pub new_saga : String → String → CreateReservationRequest → SagaRow
new_saga saga_id reservation_id req = record {
  saga_id = saga_id;
  reservation_id = reservation_id;
  user_id = req.user_id;
  hotel_id = req.hotel_id;
  room_type_id = req.room_type_id;
  status = started;
  current_step = started;
  compensation_status = never;
  error_message = "";
}

module _ {I : Type 0} where
  abbrev pub next_tick : Act I ℕ
  next_tick s = (s.tick, record s { tick = s.tick + 1 })

  abbrev pub inc : Metric → Act I (Unit {0})
  inc metric s = (tt, record s { metrics = metric ∷ s.metrics })

  abbrev pub spawn : Task → Act I (Unit {0})
  spawn task s = (tt, record s { tasks = task ∷ s.tasks })

  -- `ExecContext`.
  unfoldable pub exec :
      World → (Database → Result String (Unit {0} × Database)) → Act I (Result String (Unit {0}))
  exec w statement s =
      let (r, db) = perform (w.outcome s.tick) statement s.db in
      (r, record s { db = db; tick = s.tick + 1 })

  -- Both statements are tried, and their errors only logged.
  unfoldable pub record_saga_transition :
      World → String → SagaState → StepResult → String → Act I (Unit {0})
  unfolding exec
  record_saga_transition w saga_id state result detail = do
    inc (Metric.saga_transitions state result)
    exec w (update_saga saga_id state result detail)
    exec w (
        insert_saga_event
          (record { saga_id = saga_id; step = state; result = result; detail = detail }))
    pure tt

  unfoldable pub saga_inserted :
      World → String → Result String (Unit {0}) → Act I (Result String (Unit {0}))
  unfolding record_saga_transition
  saga_inserted w saga_id (err e) = pure (err e)
  saga_inserted w saga_id (ok _) = do
    record_saga_transition w saga_id started success "Saga de reserva iniciada"
    pure (ok tt)

  unfoldable pub start_saga :
      World → String → String → CreateReservationRequest → Act I (Result String (Unit {0}))
  unfolding saga_inserted exec
  start_saga w saga_id reservation_id req = do
    r ← exec w (insert_saga (new_saga saga_id reservation_id req))
    saga_inserted w saga_id r

  unfoldable pub fail_saga : World → String → SagaState → String → Act I (Unit {0})
  unfolding record_saga_transition
  fail_saga w saga_id state detail = do
    record_saga_transition w saga_id state failure detail
    record_saga_transition w saga_id saga_failed failure detail

  -- A blank key is replaced by the event's id; the write itself runs in the background.
  unfoldable pub publish_reservation_event : String → Event → Act I (Unit {0})
  publish_reservation_event key event s =
      let key' = if str_eq (trim_space key) "" then event.event_id else key in
      (tt, if s.has_publisher then record s { tasks = publish_event key' event ∷ s.tasks } else s)

module _ (inv : InventoryService) where
  open inv use {State, handle}

  -- `Execute(s.inventoryBreaker, …)` of one `UpdateStock`: three readings of the environment, for the
  -- time before, the call, and the time after.
  unfoldable pub call_inventory :
      World → UpdateStockRequest → Act State (Result (CallError Status) UpdateStockResponse)
  unfolding execute remote
  call_inventory w req s =
      let (r, cb, i) =
        execute (w.clock s.tick) (w.clock (s.tick + 2)) s.inventory_breaker
          (remote (w.outcome (s.tick + 1)) (handle req)) s.inventory in
      (r, record s { inventory_breaker = cb; inventory = i; tick = s.tick + 3 })

  -- The same of `GetUser`, which changes nothing here.
  unfoldable pub call_user : World → String → Act State (Result (CallError Status) (Option User))
  unfolding execute
  call_user w id s =
      let (r, cb, t) =
        execute (w.clock s.tick) (w.clock (s.tick + 2)) s.user_breaker
          (λ (u : Unit {0}). (w.user_reply (s.tick + 1) id, u)) tt in
      (r, record s { user_breaker = cb; tick = s.tick + 3 })
