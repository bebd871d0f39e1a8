-- ===== src/Inventory/Events.antt =====
-- inventario-service/internal/events/events.go. The event id and the time come from the
-- environment: `uuid.NewString()` and `time.Now()`.
use proyecto_sd_reserva_de_h.Base.{ℕ, String, Env}
use proyecto_sd_reserva_de_h.Base.Int.{ℤ}

abbrev pub event_type_inventory_stock_blocked : String
event_type_inventory_stock_blocked = "InventoryStockBlocked"

abbrev pub event_type_inventory_stock_released : String
event_type_inventory_stock_released = "InventoryStockReleased"

abbrev pub event_type_inventory_stock_failed : String
event_type_inventory_stock_failed = "InventoryStockFailed"

abbrev pub operation_block : String
operation_block = "BLOCK"

abbrev pub operation_release : String
operation_release = "RELEASE"

abbrev pub status_blocked : String
status_blocked = "BLOCKED"

abbrev pub status_released : String
status_released = "RELEASED"

abbrev pub status_failed : String
status_failed = "FAILED"

abbrev pub source_inventory_service : String
source_inventory_service = "inventario-service"

pub record StockData : Type 0 where
  pub hotel_id : String
  pub room_type_id : String
  pub quantity : ℤ
  pub operation : String

pub record InventoryStockPayload : Type 0 where
  pub hotel_id : String
  pub room_type_id : String
  pub quantity : ℤ
  pub operation : String
  pub status : String

pub record InventoryStockFailedPayload : Type 0 where
  pub hotel_id : String
  pub room_type_id : String
  pub quantity : ℤ
  pub operation : String
  pub status : String
  pub reason : String

-- The values that the field `Payload interface{}` is given.
pub data Payload : Type 0 where
  stock_changed : InventoryStockPayload → Payload
  stock_failed : InventoryStockFailedPayload → Payload

pub record Event : Type 0 where
  pub event_id : String
  pub event_type : String
  pub version : ℕ
  pub source_service : String
  pub occurred_at : String
  pub correlation_id : String
  pub payload : Payload

unfoldable pub new_event : Env → ℕ → String → Payload → Event
new_event env tick event_type payload = record {
  event_id = env.uuid tick;
  event_type = event_type;
  version = 1;
  source_service = source_inventory_service;
  occurred_at = env.timestamp tick;
  correlation_id = "";
  payload = payload;
}

unfoldable pub new_inventory_stock_blocked : Env → ℕ → StockData → Event
unfolding new_event
new_inventory_stock_blocked env tick d = new_event env tick event_type_inventory_stock_blocked (
    stock_changed (record {
      hotel_id = d.hotel_id;
      room_type_id = d.room_type_id;
      quantity = d.quantity;
      operation = operation_block;
      status = status_blocked;
    }))

unfoldable pub new_inventory_stock_released : Env → ℕ → StockData → Event
unfolding new_event
new_inventory_stock_released env tick d = new_event env tick event_type_inventory_stock_released (
    stock_changed (record {
      hotel_id = d.hotel_id;
      room_type_id = d.room_type_id;
      quantity = d.quantity;
      operation = operation_release;
      status = status_released;
    }))

unfoldable pub new_inventory_stock_failed : Env → ℕ → StockData → String → Event
unfolding new_event
new_inventory_stock_failed env tick d reason =
    new_event env tick event_type_inventory_stock_failed (
      stock_failed (record {
        hotel_id = d.hotel_id;
        room_type_id = d.room_type_id;
        quantity = d.quantity;
        operation = d.operation;
        status = status_failed;
        reason = reason;
      }))
