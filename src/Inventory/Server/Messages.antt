-- ===== src/Inventory/Server/Messages.antt =====
-- The event that `UpdateStock` (inventario-service/main.go) publishes for each request.
use proyecto_sd_reserva_de_h.Base.{
  ◌-◌, ◌≢◌, ◌⊎◌, ap, ◌∙◌, arith, false, Outcome, done, refused, unacknowledged, trim_space, perform,
  ℕ, ◌+◌, ◌≡◌, refl, inl, inr, String, true, List, Option, some, str_eq, ◌==◌, if◌then◌else◌,
  concat, ◌∷◌, Answer, Result, ok, err, Env, Bool-cases,
}
use proyecto_sd_reserva_de_h.Base.Int.{ℤ}
use proyecto_sd_reserva_de_h.Inventory.Events.{
  new_event, new_inventory_stock_failed, new_inventory_stock_blocked, new_inventory_stock_released,
  Event, Payload, stock_changed, stock_failed, operation_block, operation_release,
  event_type_inventory_stock_blocked, event_type_inventory_stock_released,
  event_type_inventory_stock_failed,
}
use proyecto_sd_reserva_de_h.Inventory.Publisher.{
  KafkaPublisher, message, is_enabled, kafka, Message, publish,
}
use proyecto_sd_reserva_de_h.Inventory.Tables.{
  RoomType, UpdateStockRequest, UpdateStockResponse, is_granted, block_rows, release_rows,
}
use proyecto_sd_reserva_de_h.Inventory.Server.{
  InventoryServer, send, stock_data, hotel_id_for_room_type, acknowledge, confirm_change, no_stock,
  not_found, publish_inventory_event, report_failure, report_change, settle, refuse_action,
  exec_stock, change_stock, is_block, is_release, update_stock,
}

-- What an event says was moved, or was to be.
abbrev pub moved : Payload → String × ℤ
moved (stock_changed p) = (p.room_type_id, p.quantity)
moved (stock_failed p) = (p.room_type_id, p.quantity)

-- An event is handed to the publisher, with the room type's id as its key, in the last call.
abbrev Publishes :
    {Price : Type 0}
    → Env
    → UpdateStockRequest
    → KafkaPublisher
    → String
    → List Message
    → InventoryServer Price
    → Type 0
Publishes env req k event_type before t =
    (n : ℕ) × (event : Event) × (t.tick ≡ n + 1)
    × (t.sent ≡ (publish (env.outcome n) (kafka k) req.room_type_id event before).1)
    × (event.event_type ≡ event_type)
    × (moved event.payload ≡ (req.room_type_id, req.cantidad))

-- A change is published as an event of one type.
abbrev Reports : Type 0 → Env → UpdateStockRequest → KafkaPublisher → String → String → Type 0
Reports Price env req k operation changed =
    (s : InventoryServer Price)
    → s.event_publisher ≡ some (kafka k)
    → Publishes env req k changed s.sent (report_change env req operation s).1

-- One message is added: it has the room type's id as its key, tells the quantity, and is of a type.
abbrev pub Tells : UpdateStockRequest → String → List Message → List Message → Type 0
Tells req event_type before after =
    (m : Message) × (after ≡ m ∷ before)
    × (m.key ≡ req.room_type_id)
    × (m.value.event_type ≡ event_type)
    × (moved m.value.payload ≡ (req.room_type_id, req.cantidad))

abbrev answered_type : String → Answer UpdateStockResponse → String
answered_type changed a = if is_granted a then changed else event_type_inventory_stock_failed

-- The type of the event that tells of an answer.
abbrev pub type_of_answer : UpdateStockRequest → Answer UpdateStockResponse → String
type_of_answer req a =
    if is_granted a
    then if is_block req.accion
      then event_type_inventory_stock_blocked
      else event_type_inventory_stock_released
    else event_type_inventory_stock_failed

outcome-cases :
    (o : Outcome)
    → ((e : String) × (o ≡ refused e)) ⊎ (o ≡ done) ⊎ ((e : String) × (o ≡ unacknowledged e))
outcome-cases done = inr (inl refl)
outcome-cases (refused e) = inl (e, refl)
outcome-cases (unacknowledged e) = inr (inr (e, refl))

module _ {Price : Type 0} (env : Env) (req : UpdateStockRequest) (k : KafkaPublisher)
    (on : k.enabled ≡ true) where
  publish_inventory_event_lem :
      (key : String) (event : Event) (s : InventoryServer Price)
      → s.event_publisher ≡ some (kafka k)
      → let t = (publish_inventory_event env key event s).1 in
        (t.tick ≡ s.tick + 1)
        × (t.sent ≡ (publish (env.outcome s.tick) (kafka k) key event s.sent).1)
  unfolding publish_inventory_event send publish is_enabled
  publish_inventory_event_lem key event s h = rw (h, on) (refl, refl)

  report_failure-Publishes :
      (operation reason : String) (s : InventoryServer Price)
      → s.event_publisher ≡ some (kafka k)
      → Publishes env req k event_type_inventory_stock_failed s.sent
          (report_failure env req operation reason s).1
  unfolding report_failure stock_data hotel_id_for_room_type new_inventory_stock_failed new_event
  report_failure-Publishes operation reason s h =
      let (n, q) = publish_inventory_event_lem req.room_type_id _ _ h in
      (s.tick + 1 + 1, _, n, q, refl, refl)

  report_block-Publishes :
      (s : InventoryServer Price)
      → s.event_publisher ≡ some (kafka k)
      → Publishes env req k event_type_inventory_stock_blocked s.sent
          (report_change env req operation_block s).1
  unfolding report_change stock_data hotel_id_for_room_type new_inventory_stock_blocked new_event
  report_block-Publishes s h =
      let (n, q) = publish_inventory_event_lem req.room_type_id _ _ h in
      (s.tick + 1 + 1, _, n, q, refl, refl)

  report_release-Publishes :
      (s : InventoryServer Price)
      → s.event_publisher ≡ some (kafka k)
      → Publishes env req k event_type_inventory_stock_released s.sent
          (report_change env req operation_release s).1
  unfolding report_change stock_data hotel_id_for_room_type new_inventory_stock_released new_event
  report_release-Publishes s h =
      let (n, q) = publish_inventory_event_lem req.room_type_id _ _ h in
      (s.tick + 1 + 1, _, n, q, refl, refl)

  settle-Publishes :
      (label operation changed : String) (r : Result String ℕ) (s : InventoryServer Price)
      → Reports Price env req k operation changed
      → env.counter_accepts req.cantidad ≡ true
      → s.event_publisher ≡ some (kafka k)
      → let (a, t) = settle env label operation req r s in
        Publishes env req k (answered_type changed a) s.sent t
  unfolding settle no_stock not_found confirm_change acknowledge
  settle-Publishes label operation changed (err e) s reports c h =
      report_failure-Publishes operation "error al actualizar stock"
        (record s { errors = ("update_stock", "database") ∷ s.errors }) h
  settle-Publishes label operation changed (ok n) s reports c h = elim (Bool-cases (n == 0)) [
    | inl z ↦ elim (Bool-cases (str_eq label "bloquear")) [
      | inl b ↦
          rw (z, b)
            (report_failure-Publishes operation "no hay stock suficiente"
              (record s { errors = ("update_stock", "insufficient_stock") ∷ s.errors }) h)
      | inr nb ↦
          rw (z, nb)
            (report_failure-Publishes operation "room_type_id no encontrado"
              (record s { errors = ("update_stock", "room_type_not_found") ∷ s.errors }) h)
    ]
    | inr nz ↦
        rw (nz, c)
          (reports (record s { stock_updates = (label, req.cantidad) ∷ s.stock_updates }) h)
  ]

  change_stock-Publishes :
      (label operation changed : String)
      (statement : List (RoomType Price) → Option (List (RoomType Price) × ℕ))
      (s : InventoryServer Price)
      → Reports Price env req k operation changed
      → env.counter_accepts req.cantidad ≡ true
      → s.event_publisher ≡ some (kafka k)
      → let (a, t) = change_stock env label operation req statement s in
        Publishes env req k (answered_type changed a) s.sent t
  unfolding change_stock exec_stock
  change_stock-Publishes label operation changed statement s reports c h =
      let (r, after) = exec_stock env statement s in
      settle-Publishes label operation changed r after reports c h

  refuse_action-Publishes :
      (s : InventoryServer Price)
      → s.event_publisher ≡ some (kafka k)
      → let (a, t) = refuse_action env req s in Publishes env req k (answered_type "" a) s.sent t
  unfolding refuse_action
  refuse_action-Publishes s h =
      report_failure-Publishes req.accion (concat "accion invalida: " req.accion)
        (record s { errors = ("update_stock", "invalid_action") ∷ s.errors }) h

  update_stock-Publishes :
      (s : InventoryServer Price)
      → env.counter_accepts req.cantidad ≡ true
      → s.event_publisher ≡ some (kafka k)
      → let (a, t) = update_stock env req s in Publishes env req k (type_of_answer req a) s.sent t
  unfolding update_stock
  update_stock-Publishes s c h = elim (Bool-cases (is_block req.accion)) [
    | inl b ↦ rw b (
        change_stock-Publishes "bloquear" operation_block event_type_inventory_stock_blocked
          (block_rows req.cantidad req.room_type_id) s report_block-Publishes c h)
    | inr nb ↦ elim (Bool-cases (is_release req.accion)) [
      | inl r ↦
          rw (nb, r)
            (change_stock-Publishes "liberar" operation_release event_type_inventory_stock_released
              (release_rows req.cantidad req.room_type_id) s report_release-Publishes c h)
      | inr nr ↦ rw (nb, nr) (refuse_action-Publishes s h)
    ]
  ]

  written :
      (before : List Message) (t : InventoryServer Price) (event_type : String)
      → str_eq (trim_space req.room_type_id) "" ≡ false
      → ((e : String) → env.outcome (t.tick - 1) ≢ refused e)
      → Publishes env req k event_type before t
      → Tells req event_type before t.sent
  unfolding publish perform
  written before t event_type named r (n, event, last, sent, type_, data_) =
      elim (outcome-cases (env.outcome n)) [
        | inl (e, q) ↦ absurd (r e (ap env.outcome (omega arith) ∙ q))
        | inr (inl q) ↦
            (message req.room_type_id event, rw (on, named, q) at sent, refl, type_, data_)
        | inr (inr (e, q)) ↦
            (message req.room_type_id event, rw (on, named, q) at sent, refl, type_, data_)
      ]

  -- A Kafka publisher is enabled, the room type's id is not blank, the metrics library takes the
  -- quantity, and the last call, which is the write of the message, is not refused. Then `UpdateStock`
  -- writes exactly one message, whatever its database calls do: keyed by the room type, with its id
  -- and the quantity of the request, and of the type that the answer tells, a block or a release for
  -- status true and a failure otherwise.
  pub update_stock-Tells :
      (s : InventoryServer Price)
      → s.event_publisher ≡ some (kafka k)
      → str_eq (trim_space req.room_type_id) "" ≡ false
      → env.counter_accepts req.cantidad ≡ true
      → ((e : String) → env.outcome ((update_stock env req s).1.tick - 1) ≢ refused e)
      → let (a, t) = update_stock env req s in Tells req (type_of_answer req a) s.sent t.sent
  update_stock-Tells s h named c r =
      written s.sent (update_stock env req s).1 _ named r (update_stock-Publishes s c h)
