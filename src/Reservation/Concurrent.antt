-- ===== src/Reservation/Concurrent.antt =====
-- Requests to mi-servicio/main.go that overlap. A request is a goroutine; its stages are the places of
-- `CreateReservation` and `compensateInventory` between two uses of what the requests share: the table
-- of reservations, the breakers (which lock for `allow` and for the report, not during the call) and
-- the inventory service. The rows of a saga are its own request's. A panic, which ends the process,
-- ends only its own run here.
pub mod Calling
pub mod Leading
pub mod Sequential
pub mod Holding
pub mod Moves
pub mod Balance
pub mod Overbooking
pub mod Keys
pub mod Silent
pub mod Telling
pub mod Replies
pub mod Late
pub mod Ending
mod Examples
use proyecto_sd_reserva_de_h.Base.{
  ℕ, zero, suc, ◌+◌, ◌≡◌, String, List, ◌∷◌, ◌++◌, Option, none, some, concat, if◌then◌else◌,
  Result, ok, err, Answer, fail, panics, Code, Status, status_error,
}
use proyecto_sd_reserva_de_h.Breaker.{
  CircuitBreaker, CallError, circuit_open, from_call, allow, record_success, record_failure,
  short_circuit,
}
use proyecto_sd_reserva_de_h.Inventory.Tables.{UpdateStockRequest, UpdateStockResponse}
use proyecto_sd_reserva_de_h.Reservation.Events.{new_reservation_created}
use proyecto_sd_reserva_de_h.Reservation.Tables.{
  success, failure, user_validated, stock_locked, reservation_insert_failed, compensating,
  saga_failed, ReservationRow, insert_reservation,
}
use proyecto_sd_reserva_de_h.Reservation.Remote.{
  InventoryService, User, World, remote, block_one, release_one,
}
use proyecto_sd_reserva_de_h.Reservation.Server.{
  Metric, Task, publish_event, send_confirmation, CreateReservationRequest,
  CreateReservationResponse, ReservationServer, Act, pure, ◌>>=◌, ◌>>◌, next_tick, inc, exec,
  record_saga_transition, start_saga, publish_reservation_event,
}
use proyecto_sd_reserva_de_h.Reservation.Compensation.{max_attempts, give_up, released_at}
use proyecto_sd_reserva_de_h.Reservation.Create.{
  Job, event_data, reservation_row, new_job, find_existing, replay, publish_failed, user_refused,
  lock_failed, no_stock, confirm,
}
use proyecto_sd_reserva_de_h.Reservation.Background.{run_confirmation}

-- Where a request stands. Each outgoing call has three stages: the breaker is asked, the call is made,
-- and its result is reported. `releasing` and what follows it count the attempts that are left, then
-- the number of this one.
pub data Stage : Type 0 where
  arrived starting : CreateReservationRequest → Stage
  user_asking user_calling : Job → Stage
  user_told : Job → Result Status (Option User) → Stage
  lock_asking lock_calling : Job → String → Stage
  lock_told : Job → String → Result Status UpdateStockResponse → Stage
  saving : Job → String → Stage
  releasing release_calling : Job → ℕ → ℕ → Stage
  release_told : Job → ℕ → ℕ → Result Status UpdateStockResponse → Stage
  finished : CreateReservationRequest → Answer CreateReservationResponse → Stage

abbrev pub request_of : Stage → CreateReservationRequest
request_of (arrived req) = req
request_of (starting req) = req
request_of (user_asking job) = job.req
request_of (user_calling job) = job.req
request_of (user_told job r) = job.req
request_of (lock_asking job email) = job.req
request_of (lock_calling job email) = job.req
request_of (lock_told job email r) = job.req
request_of (saving job email) = job.req
request_of (releasing job left attempt) = job.req
request_of (release_calling job left attempt) = job.req
request_of (release_told job left attempt r) = job.req
request_of (finished req a) = req

-- The breakers on the way of a request.
pub data Dependency : Type 0 where
  users inventory : Dependency

module _ {I : Type 0} where
  abbrev pub breaker_of : Dependency → ReservationServer I → CircuitBreaker
  breaker_of users s = s.user_breaker
  breaker_of inventory s = s.inventory_breaker

  abbrev pub set_breaker : Dependency → CircuitBreaker → ReservationServer I → ReservationServer I
  set_breaker users cb s = record s { user_breaker = cb }
  set_breaker inventory cb s = record s { inventory_breaker = cb }

  -- The first half of `Execute`: the refusal, if there is one. A refused call takes the two numbers
  -- that its call and its report would have taken.
  unfoldable pub ask_breaker : World → Dependency → Act I (Option (CallError Status))
  ask_breaker w d s =
      let cb = breaker_of d s in
      let (allowed, asked) = allow (w.clock s.tick) cb in
      if allowed then (none, record (set_breaker d asked s) { tick = s.tick + 1 }) else (
        some (circuit_open (record { dependency = cb.name })),
        record (set_breaker d (short_circuit asked) s) { tick = s.tick + 3 },
      )

  -- The second half, with the result of the call.
  unfoldable pub report_call :
      {A : Type 0} → World → Dependency → Result Status A → Act I (Result (CallError Status) A)
  report_call w d (ok a) s = (
    ok a,
    record (set_breaker d (record_success (w.clock s.tick) (breaker_of d s)) s) {
      tick = s.tick + 1;
    },
  )
  report_call w d (err e) s = (
    err (from_call e),
    record (set_breaker d (record_failure (w.clock s.tick) (breaker_of d s)) s) {
      tick = s.tick + 1;
    },
  )

  unfoldable pub get_user : World → String → Act I (Result Status (Option User))
  get_user w id s = (w.user_reply s.tick id, record s { tick = s.tick + 1 })

pub record System (I : Type 0) : Type 0 where
  pub server : ReservationServer I
  pub requests : List Stage

module _ (inv : InventoryService) (w : World) where
  open inv use {State, handle}

  unfoldable pub update_stock_call :
      UpdateStockRequest → Act State (Result Status UpdateStockResponse)
  update_stock_call req s =
      let (r, i) = remote (w.outcome s.tick) (handle req) s.inventory in
      (r, record s { inventory = i; tick = s.tick + 1 })

  abbrev pub answers :
      CreateReservationRequest → Act State (Answer CreateReservationResponse) → Act State Stage
  answers req m = m >>= λ a. pure (finished req a)

  unfoldable pub looked_up :
      CreateReservationRequest → Result String (Option ReservationRow) → Act State Stage
  looked_up req (ok (some row)) = answers req (replay w row)
  looked_up req _ = pure (starting req)

  unfoldable pub saga_begun : Job → Result String (Unit {0}) → Act State Stage
  saga_begun job (err e) = do
    inc (Metric.failures "database_insert")
    pure (
        finished job.req
          (fail (status_error Code.internal "no se pudo iniciar la saga de reserva")))
  saga_begun job (ok _) = do
    n ← next_tick
    publish_reservation_event job.req.user_id (new_reservation_created w.env n (event_data job))
    pure (user_asking job)

  unfoldable pub user_checked : Job → Result (CallError Status) (Option User) → Act State Stage
  user_checked job (err e) = answers job.req (user_refused inv w job e)
  user_checked job (ok none) = pure (finished job.req panics)
  user_checked job (ok (some user)) = do
    record_saga_transition w job.saga_id user_validated success
        (concat "Usuario validado: " user.nombre)
    pure (lock_asking job user.email)

  unfoldable pub lock_checked :
      Job → String → Result (CallError Status) UpdateStockResponse → Act State Stage
  lock_checked job email (err e) = answers job.req (lock_failed inv w job e)
  lock_checked job email (ok res) =
      if res.status then pure (saving job email) else answers job.req (no_stock inv w job)

  -- The end of a run whose reservation was not saved.
  unfoldable pub end_not_saved : Job → Act State Stage
  end_not_saved job = do
    record_saga_transition w job.saga_id saga_failed failure
        "Reserva no persistida; se ejecuto compensacion de inventario"
    pure
        (finished job.req (fail (status_error Code.internal "error interno al guardar la reserva")))

  unfoldable pub insert_tried : Job → String → Result String (Unit {0}) → Act State Stage
  insert_tried job email (ok _) = answers job.req (confirm w job email)
  insert_tried job email (err error) = do
    inc (Metric.failures "database_insert")
    record_saga_transition w job.saga_id reservation_insert_failed failure error
    publish_failed w job "database_insert_failed"
    record_saga_transition w job.saga_id compensating success
        "Liberando stock por fallo posterior al bloqueo"
    pure (releasing job max_attempts 1)

  unfoldable pub release_checked :
      Job → ℕ → ℕ → Result (CallError Status) UpdateStockResponse → Act State Stage
  release_checked job left attempt (err e) = pure (releasing job left (attempt + 1))
  release_checked job left attempt (ok res) =
      if res.status
      then released_at inv w job.saga_id job.req.room_type_id attempt >> end_not_saved job
      else pure (releasing job left (attempt + 1))

  -- From a breaker's answer to the call, or past it.
  unfoldable pub once_allowed :
      Stage → (CallError Status → Act State Stage) → Option (CallError Status) → Act State Stage
  once_allowed calling refused none = pure calling
  once_allowed calling refused (some e) = refused e

  -- One stage of a request.
  unfoldable pub step : Stage → Act State Stage
  step (arrived req) = do found ← find_existing w req.idempotency_key; looked_up req found
  step (starting req) = do
    n ← next_tick
    m ← next_tick
    let job = new_job w n m req
    r ← start_saga w job.saga_id job.reservation_id req
    saga_begun job r
  step (user_asking job) = do
    refusal ← ask_breaker w users
    once_allowed (user_calling job) (λ e. user_checked job (err e)) refusal
  step (user_calling job) = do r ← get_user w job.req.user_id; pure (user_told job r)
  step (user_told job r) = do res ← report_call w users r; user_checked job res
  step (lock_asking job email) = do
    refusal ← ask_breaker w inventory
    once_allowed (lock_calling job email) (λ e. lock_checked job email (err e)) refusal
  step (lock_calling job email) = do
    r ← update_stock_call (block_one job.req.room_type_id)
    pure (lock_told job email r)
  step (lock_told job email r) = do res ← report_call w inventory r; lock_checked job email res
  step (saving job email) = do
    record_saga_transition w job.saga_id stock_locked success
        (concat "Stock bloqueado para room_type_id=" job.req.room_type_id)
    r ← exec w (insert_reservation (reservation_row w job))
    insert_tried job email r
  step (releasing job zero attempt) = do
    give_up inv w job.saga_id job.req.room_type_id
    end_not_saved job
  step (releasing job (suc left) attempt) = do
    refusal ← ask_breaker w inventory
    once_allowed (release_calling job left attempt) (λ e. release_checked job left attempt (err e))
        refusal
  step (release_calling job left attempt) = do
    r ← update_stock_call (release_one job.req.room_type_id)
    pure (release_told job left attempt r)
  step (release_told job left attempt r) = do
    res ← report_call w inventory r
    release_checked job left attempt res
  step (finished req a) = pure (finished req a)

  -- The goroutines that outlive a request; a publication changes nothing of the server.
  unfoldable pub run_task : Task → Act State (Unit {0})
  run_task (publish_event key event) = pure tt
  run_task (send_confirmation saga_id user_id reservation_id email) =
      run_confirmation w saga_id user_id reservation_id email

  -- A request arrives, one of them is taken a stage further, or a goroutine runs.
  pub data Step (s : System State) : System State → Type 0 where
    arrives :
        (req : CreateReservationRequest) → Step s (record s { requests = arrived req ∷ s.requests })
    picks :
        (front back : List Stage) (st : Stage)
        → s.requests ≡ front ++ (st ∷ back)
        → Step s (record {
          server = (step st s.server).1;
          requests = front ++ ((step st s.server).0 ∷ back);
        })
    works :
        (front back : List Task) (task : Task)
        → s.server.tasks ≡ front ++ (task ∷ back)
        → Step s
            (record s { server = (run_task task (record s.server { tasks = front ++ back })).1 })

  pub data Reach (s : System State) : System State → Type 0 where
    here : Reach s s
    next : {t u : System State} → Reach s t → Step t u → Reach s u
