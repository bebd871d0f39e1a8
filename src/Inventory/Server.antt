-- ===== src/Inventory/Server.antt =====
-- The handlers of inventario-service/main.go. The server's state is the database, the messages that
-- it wrote and its metrics; each call of something outside takes the next number of the
-- environment. Log lines are left out.
pub mod Frames
pub mod Messages
use proyecto_sd_reserva_de_h.Base.{
  ℕ, ◌+◌, String, Bool, true, false, not, ◌&&◌, ◌||◌, List, [], ◌∷◌, ◌++◌, Option, none, some,
  str_eq, concat, ◌==◌, if◌then◌else◌, Result, ok, err, Outcome, done, refused, unacknowledged, Env,
  perform, ask, Answer, reply, fail, panics, Code, status_error, length,
}
use proyecto_sd_reserva_de_h.Base.Int.{ℤ, pos, pos_part, ltb_ℤ}
use proyecto_sd_reserva_de_h.Inventory.Events.{
  Event, StockData, operation_block, operation_release, new_inventory_stock_blocked,
  new_inventory_stock_released, new_inventory_stock_failed,
}
use proyecto_sd_reserva_de_h.Inventory.Publisher.{Publisher, Message, publish, is_enabled}
use proyecto_sd_reserva_de_h.Inventory.Tables.{
  Engine, Hotel, RoomType, SearchRequest, RoomTypeAvailability, UpdateStockRequest,
  UpdateStockResponse, block_rows, release_rows, select_hotel_id, search_conditions, select_rooms,
}

pub record InventoryServer (Price : Type 0) : Type 0 where
  pub hotels : List Hotel
  pub room_types : List (RoomType Price)
  pub event_publisher : Option Publisher
  pub sent : List Message  -- newest first
  pub search_total : ℕ
  pub search_empty_total : ℕ
  pub stock_updates : List (String × ℤ)  -- the label and the value of each `Add`, newest first
  pub errors : List (String × String)  -- the labels of each `Inc`, newest first
  pub tick : ℕ

abbrev pub Act : Type 0 → Type 0 → Type 0
Act Price A = InventoryServer Price → A × InventoryServer Price

module _ {Price A : Type 0} where
  abbrev pub pure : A → Act Price A
  pure a s = (a, s)

infixl 5 ◌>>=◌ ◌>>◌
abbrev pub ◌>>=◌ : {Price A B : Type 0} → Act Price A → (A → Act Price B) → Act Price B
◌>>=◌ m f s = let (a, s') = m s in f a s'

abbrev pub ◌>>◌ : {Price A B : Type 0} → Act Price A → Act Price B → Act Price B
m >> k = m >>= λ _. k

-- Any failure to read, and a NULL, leave the empty string.
scanned : Result String (Option (Option String)) → String
scanned (ok (some (some hotel_id))) = hotel_id
scanned _ = ""

abbrev pub is_block : String → Bool
is_block accion = str_eq accion "BLOQUEAR" || str_eq accion "0"

abbrev pub is_release : String → Bool
is_release accion = str_eq accion "LIBERAR" || str_eq accion "1"

module _ {Price : Type 0} where
  abbrev next_tick : Act Price ℕ
  next_tick s = (s.tick, record s { tick = s.tick + 1 })

  abbrev count_error : String → String → Act Price (Unit {0})
  count_error operation kind s = (tt, record s { errors = (operation, kind) ∷ s.errors })

  unfoldable pub hotel_id_for_room_type : Env → String → Act Price String
  unfolding scanned ask
  hotel_id_for_room_type env room_type_id s = (
    scanned (ask (env.outcome s.tick) (select_hotel_id room_type_id s.room_types)),
    record s { tick = s.tick + 1 },
  )

  unfoldable pub stock_data : Env → String → ℤ → String → Act Price StockData
  unfolding hotel_id_for_room_type
  stock_data env room_type_id quantity operation = do
    hotel_id ← hotel_id_for_room_type env room_type_id
    pure (record {
      hotel_id = hotel_id;
      room_type_id = room_type_id;
      quantity = quantity;
      operation = operation;
    })

  send : Env → Publisher → String → Event → Act Price (Unit {0})
  unfolding publish
  send env p key event s =
      let (written, sent) = publish (env.outcome s.tick) p key event s.sent in
      (tt, record s { sent = sent; tick = s.tick + 1 })

  -- A failed write is logged and forgotten.
  unfoldable pub publish_inventory_event : Env → String → Event → Act Price (Unit {0})
  unfolding send is_enabled
  publish_inventory_event env key event s = elim s.event_publisher [
    | none ↦ (tt, s)
    | some p ↦ if not (is_enabled p) then (tt, s) else send env p key event s
  ]

  unfoldable pub report_failure : Env → UpdateStockRequest → String → String → Act Price (Unit {0})
  unfolding stock_data publish_inventory_event
  report_failure env req operation reason = do
    data_ ← stock_data env req.room_type_id req.cantidad operation
    t ← next_tick
    publish_inventory_event env req.room_type_id (new_inventory_stock_failed env t data_ reason)

  unfoldable pub report_change : Env → UpdateStockRequest → String → Act Price (Unit {0})
  unfolding stock_data publish_inventory_event
  report_change env req operation = do
    data_ ← stock_data env req.room_type_id req.cantidad operation
    t ← next_tick
    publish_inventory_event env req.room_type_id (
        if str_eq operation operation_release
        then new_inventory_stock_released env t data_
        else new_inventory_stock_blocked env t data_)

  abbrev pub statement_result :
      Option (List (RoomType Price) × ℕ) → Result String (ℕ × List (RoomType Price))
  statement_result none = err "integer out of range"
  statement_result (some (rows, n)) = ok (n, rows)

  abbrev pub run_statement :
      (List (RoomType Price) → Option (List (RoomType Price) × ℕ))
      → List (RoomType Price)
      → Result String (ℕ × List (RoomType Price))
  run_statement statement rows = statement_result (statement rows)

  -- `ExecContext` and `RowsAffected`.
  unfoldable pub exec_stock :
      Env
      → (List (RoomType Price) → Option (List (RoomType Price) × ℕ))
      → Act Price (Result String ℕ)
  unfolding perform
  exec_stock env statement s =
      let (result, rows) = perform (env.outcome s.tick) (run_statement statement) s.room_types in
      (result, record s { room_types = rows; tick = s.tick + 1 })

  abbrev answer_error : Code → String → Act Price (Answer UpdateStockResponse)
  answer_error c m = pure (fail (status_error c m))

  acknowledge : Env → String → UpdateStockRequest → Act Price (Answer UpdateStockResponse)
  unfolding report_change
  acknowledge env operation req = do
    report_change env req operation
    pure (reply (record { status = true }))

  -- Rows were changed. The counter may refuse the value, and then it panics.
  unfoldable pub confirm_change :
      Env → String → String → UpdateStockRequest → Act Price (Answer UpdateStockResponse)
  unfolding acknowledge
  confirm_change env label operation req s =
      let counted = record s { stock_updates = (label, req.cantidad) ∷ s.stock_updates } in
      if env.counter_accepts req.cantidad
      then acknowledge env operation req counted
      else (panics, s)

  no_stock : Env → String → UpdateStockRequest → Act Price (Answer UpdateStockResponse)
  unfolding report_failure
  no_stock env operation req = do
    count_error "update_stock" "insufficient_stock"
    report_failure env req operation "no hay stock suficiente"
    answer_error Code.resource_exhausted "no hay stock suficiente"

  not_found : Env → String → UpdateStockRequest → Act Price (Answer UpdateStockResponse)
  unfolding report_failure
  not_found env operation req = do
    count_error "update_stock" "room_type_not_found"
    report_failure env req operation "room_type_id no encontrado"
    pure (reply (record { status = false }))

  -- What follows the statement.
  unfoldable pub settle :
      Env
      → String
      → String
      → UpdateStockRequest
      → Result String ℕ
      → Act Price (Answer UpdateStockResponse)
  unfolding report_failure confirm_change no_stock not_found
  settle env label operation req (err e) = do
    count_error "update_stock" "database"
    report_failure env req operation "error al actualizar stock"
    answer_error Code.internal "error al actualizar stock"
  settle env label operation req (ok rows) =
      if rows == 0 && str_eq label "bloquear"
      then no_stock env operation req
      else if rows == 0
      then not_found env operation req
      else confirm_change env label operation req

  unfoldable pub refuse_action : Env → UpdateStockRequest → Act Price (Answer UpdateStockResponse)
  unfolding report_failure
  refuse_action env req = do
    count_error "update_stock" "invalid_action"
    report_failure env req req.accion (concat "accion invalida: " req.accion)
    answer_error Code.invalid_argument (concat "accion invalida: " req.accion)

  unfoldable pub change_stock :
      Env
      → String
      → String
      → UpdateStockRequest
      → (List (RoomType Price) → Option (List (RoomType Price) × ℕ))
      → Act Price (Answer UpdateStockResponse)
  unfolding exec_stock settle
  change_stock env label operation req statement = do
    result ← exec_stock env statement
    settle env label operation req result

  -- The handler `UpdateStock`.
  unfoldable pub update_stock : Env → UpdateStockRequest → Act Price (Answer UpdateStockResponse)
  unfolding change_stock refuse_action
  update_stock env req =
      if is_block req.accion
      then change_stock env "bloquear" operation_block req
          (block_rows req.cantidad req.room_type_id)
      else if is_release req.accion
      then change_stock env "liberar" operation_release req
          (release_rows req.cantidad req.room_type_id)
      else refuse_action env req
