-- ===== src/Reservation/Create.antt =====
-- `CreateReservation` of mi-servicio/main.go, stage by stage: each stage is the code from one outside
-- call to the next.
use proyecto_sd_reserva_de_h.Base.{
  ℕ, ◌+◌, String, Option, none, some, str_eq, concat, find_row, if◌then◌else◌, Result, ok, err, ask,
  Answer, reply, fail, panics, Code, Status, status_error,
}
use proyecto_sd_reserva_de_h.Breaker.{CallError, circuit_open, from_call}
use proyecto_sd_reserva_de_h.Inventory.Tables.{UpdateStockResponse}
use proyecto_sd_reserva_de_h.Reservation.Events.{
  ReservationData, new_reservation_created, new_reservation_confirmed, new_reservation_failed,
}
use proyecto_sd_reserva_de_h.Reservation.Tables.{
  user_validated, stock_locked, reservation_created, notification_dispatching,
  user_validation_failed, stock_lock_failed, stock_unavailable, reservation_insert_failed,
  saga_failed, success, failure, ReservationRow, has_key, insert_reservation,
}
use proyecto_sd_reserva_de_h.Reservation.Remote.{InventoryService, User, World, block_one}
use proyecto_sd_reserva_de_h.Reservation.Server.{
  Metric, send_confirmation, CreateReservationRequest, CreateReservationResponse, Act, pure, ◌>>=◌,
  ◌>>◌, error_message, generate_workflow_id, next_tick, inc, spawn, exec, record_saga_transition,
  start_saga, fail_saga, publish_reservation_event, call_inventory, call_user,
}
use proyecto_sd_reserva_de_h.Reservation.Compensation.{compensate_inventory}

abbrev pub confirmada : String
confirmada = "CONFIRMADA"

-- 150.50
abbrev pub monto_total : ℕ
monto_total = 15050

-- The ids that a run draws, with the request.
pub record Job : Type 0 where
  pub req : CreateReservationRequest
  pub saga_id : String
  pub reservation_id : String

abbrev pub event_data : Job → ReservationData
event_data job = record {
  reservation_id = job.reservation_id;
  user_id = job.req.user_id;
  hotel_id = job.req.hotel_id;
  room_type_id = job.req.room_type_id;
  fecha_inicio = job.req.fecha_inicio;
  fecha_fin = job.req.fecha_fin;
  monto_total = monto_total;
}

abbrev pub idempotency_key_param : String → Option String
idempotency_key_param key = if str_eq key "" then none else some key

-- The database fills `created_at` by its default.
unfoldable pub reservation_row : World → Job → ReservationRow
reservation_row w job = record {
  reservation_id = job.reservation_id;
  user_id = job.req.user_id;
  hotel_id = job.req.hotel_id;
  room_type_id = job.req.room_type_id;
  fecha_inicio = job.req.fecha_inicio;
  fecha_fin = job.req.fecha_fin;
  status = confirmada;
  monto_total = monto_total;
  saga_id = job.saga_id;
  idempotency_key = idempotency_key_param job.req.idempotency_key;
  created_at = w.created_at job.reservation_id;
}

unfoldable pub new_job : World → ℕ → ℕ → CreateReservationRequest → Job
unfolding generate_workflow_id
new_job w n m req = record {
  req = req;
  saga_id = generate_workflow_id w n "saga";
  reservation_id = generate_workflow_id w m "res";
}

-- A blocked call has its own answer.
abbrev pub refuse_call : CallError Status → String → Status → Answer CreateReservationResponse
refuse_call (circuit_open e) unavailable_message otherwise =
    fail (status_error Code.unavailable unavailable_message)
refuse_call (from_call e) unavailable_message otherwise = fail otherwise

module _ {I : Type 0} (w : World) where
  unfoldable pub publish_failed : Job → String → Act I (Unit {0})
  unfolding new_reservation_failed publish_reservation_event
  publish_failed job reason = do
    n ← next_tick
    publish_reservation_event job.req.user_id
        (new_reservation_failed w.env n (event_data job) reason)

  -- The end of a run that saved the reservation.
  unfoldable pub confirm : Job → String → Act I (Answer CreateReservationResponse)
  unfolding record_saga_transition new_reservation_confirmed publish_reservation_event
  confirm job email = do
    record_saga_transition w job.saga_id reservation_created success
        (concat "Reserva " (concat job.reservation_id " creada en PostgreSQL"))
    n ← next_tick
    publish_reservation_event job.reservation_id
        (new_reservation_confirmed w.env n (event_data job))
    record_saga_transition w job.saga_id notification_dispatching success
        "Notificacion asincrona iniciada"
    spawn (send_confirmation job.saga_id job.req.user_id job.reservation_id email)
    inc Metric.created_total
    pure (
        reply (record {
          reservation_id = job.reservation_id;
          status = confirmada;
          monto_total = monto_total;
        }))

  unfoldable pub replay : ReservationRow → Act I (Answer CreateReservationResponse)
  replay row = do
    inc Metric.idempotent_replays
    pure (
        reply (record {
          reservation_id = row.reservation_id;
          status = row.status;
          monto_total = row.monto_total;
        }))

  -- The lookup of an idempotency key; an error of the query counts as not found.
  unfoldable pub find_existing : String → Act I (Result String (Option ReservationRow))
  unfolding ask
  find_existing key s = if str_eq key "" then (ok none, s) else (
    ask (w.outcome s.tick) (find_row (has_key key) s.db.reservations),
    record s { tick = s.tick + 1 },
  )

module _ (inv : InventoryService) (w : World) where
  open inv use {State}

  abbrev pub Run : Type 0
  Run = Act State (Answer CreateReservationResponse)

  -- The reservation could not be saved: the stock is given back.
  unfoldable pub not_saved : Job → String → Run
  unfolding record_saga_transition publish_failed compensate_inventory
  not_saved job error = do
    inc (Metric.failures "database_insert")
    record_saga_transition w job.saga_id reservation_insert_failed failure error
    publish_failed w job "database_insert_failed"
    compensate_inventory inv w job.saga_id job.req.room_type_id
    record_saga_transition w job.saga_id saga_failed failure
        "Reserva no persistida; se ejecuto compensacion de inventario"
    pure (fail (status_error Code.internal "error interno al guardar la reserva"))

  unfoldable pub saved : Job → String → Result String (Unit {0}) → Run
  unfolding not_saved confirm
  saved job email (err e) = not_saved job e
  saved job email (ok _) = confirm w job email

  unfoldable pub save_reservation : Job → String → Run
  unfolding record_saga_transition exec reservation_row saved
  save_reservation job email = do
    record_saga_transition w job.saga_id stock_locked success
        (concat "Stock bloqueado para room_type_id=" job.req.room_type_id)
    r ← exec w (insert_reservation (reservation_row w job))
    saved job email r

  unfoldable pub lock_failed : Job → CallError Status → Run
  unfolding error_message fail_saga publish_failed
  lock_failed job e = do
    inc (Metric.failures "inventory_lock")
    fail_saga w job.saga_id stock_lock_failed (error_message e)
    publish_failed w job (concat "inventory_lock_failed: " (error_message e))
    pure (
        refuse_call e "Servicio de inventario no disponible en este momento" (
          status_error Code.resource_exhausted
            (concat "No se pudo asegurar la habitacion: " (error_message e))))

  unfoldable pub no_stock : Job → Run
  unfolding fail_saga publish_failed
  no_stock job = do
    inc (Metric.failures "inventory_no_stock")
    fail_saga w job.saga_id stock_unavailable "Inventario respondio status=false"
    publish_failed w job "inventory_no_stock"
    pure (fail (status_error Code.resource_exhausted "No hay stock disponible"))

  unfoldable pub locked : Job → String → Result (CallError Status) UpdateStockResponse → Run
  unfolding lock_failed no_stock save_reservation
  locked job email (err e) = lock_failed job e
  locked job email (ok res) = if res.status then save_reservation job email else no_stock job

  unfoldable pub lock_stock : Job → User → Run
  unfolding record_saga_transition call_inventory locked
  lock_stock job user = do
    record_saga_transition w job.saga_id user_validated success
        (concat "Usuario validado: " user.nombre)
    res ← call_inventory inv w (block_one job.req.room_type_id)
    locked job user.email res

  unfoldable pub user_refused : Job → CallError Status → Run
  unfolding error_message fail_saga publish_failed
  user_refused job e = do
    inc (Metric.failures "user_validation")
    fail_saga w job.saga_id user_validation_failed (error_message e)
    publish_failed w job (concat "user_validation_failed: " (error_message e))
    pure (
        refuse_call e "Servicio de usuarios no disponible en este momento" (
          status_error Code.unauthenticated
            (concat "No se pudo validar el usuario: " (error_message e))))

  -- A response with no user: the getters take it, and reading `userRes.User.Nombre` does not.
  unfoldable pub validated : Job → Result (CallError Status) (Option User) → Run
  unfolding user_refused lock_stock
  validated job (err e) = user_refused job e
  validated job (ok none) = pure panics
  validated job (ok (some user)) = lock_stock job user

  unfoldable pub started_saga : Job → Result String (Unit {0}) → Run
  unfolding new_reservation_created publish_reservation_event call_user validated
  started_saga job (err e) = do
    inc (Metric.failures "database_insert")
    pure (fail (status_error Code.internal "no se pudo iniciar la saga de reserva"))
  started_saga job (ok _) = do
    n ← next_tick
    publish_reservation_event job.req.user_id (new_reservation_created w.env n (event_data job))
    res ← call_user inv w job.req.user_id
    validated job res

  -- A run from the drawing of its ids on.
  unfoldable pub run_saga : CreateReservationRequest → Run
  unfolding new_job start_saga started_saga
  run_saga req = do
    n ← next_tick
    m ← next_tick
    let job = new_job w n m req
    r ← start_saga w job.saga_id job.reservation_id req
    started_saga job r

  unfoldable pub existing_or_new :
      CreateReservationRequest → Result String (Option ReservationRow) → Run
  unfolding replay run_saga
  existing_or_new req (ok (some row)) = replay w row
  existing_or_new req _ = run_saga req

  unfoldable pub create_reservation : CreateReservationRequest → Run
  unfolding find_existing existing_or_new
  create_reservation req = do found ← find_existing w req.idempotency_key; existing_or_new req found
