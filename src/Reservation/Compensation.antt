-- ===== src/Reservation/Compensation.antt =====
-- `compensateInventory` of mi-servicio/main.go, with no pause between the attempts: what other requests
-- do in the pauses is in Concurrent.
pub mod Effect
pub mod Bounds
use proyecto_sd_reserva_de_h.Base.{
  ℕ, zero, suc, ◌+◌, String, Bool, true, false, concat, print_ℕ, if◌then◌else◌, Result, ok, err,
  Status,
}
use proyecto_sd_reserva_de_h.Breaker.{CallError}
use proyecto_sd_reserva_de_h.Inventory.Tables.{UpdateStockResponse}
use proyecto_sd_reserva_de_h.Reservation.Tables.{
  success, failure, compensating, compensated, compensation_failed,
}
use proyecto_sd_reserva_de_h.Reservation.Remote.{InventoryService, World, release_one}
use proyecto_sd_reserva_de_h.Reservation.Server.{
  Metric, Act, pure, ◌>>=◌, ◌>>◌, inc, record_saga_transition, call_inventory,
}

abbrev pub max_attempts : ℕ
max_attempts = 3

module _ (inv : InventoryService) (w : World) (saga_id room_type_id : String) where
  open inv use {State}

  unfoldable pub give_up : Act State Bool
  unfolding record_saga_transition
  give_up = do
    inc (Metric.compensations "failed")
    record_saga_transition w saga_id compensation_failed failure
        "No se pudo liberar stock despues de 3 intentos"
    pure false

  unfoldable pub released_at : ℕ → Act State Bool
  unfolding record_saga_transition
  released_at attempt = do
    inc (Metric.compensations "success")
    record_saga_transition w saga_id compensated success
        (concat "Stock liberado en intento " (print_ℕ attempt))
    pure true

  -- What follows an attempt: `retry` is the rest of the loop.
  unfoldable pub after_attempt :
      ℕ → Act State Bool → Result (CallError Status) UpdateStockResponse → Act State Bool
  unfolding released_at
  after_attempt attempt retry (err e) = retry
  after_attempt attempt retry (ok res) = if res.status then released_at attempt else retry

  -- The loop, with `left` attempts to go.
  unfoldable pub release_attempts : ℕ → ℕ → Act State Bool
  unfolding give_up after_attempt call_inventory
  release_attempts zero attempt = give_up
  release_attempts (suc left) attempt = do
    res ← call_inventory inv w (release_one room_type_id)
    after_attempt attempt (release_attempts left (attempt + 1)) res

  unfoldable pub compensate_inventory : Act State Bool
  unfolding record_saga_transition release_attempts
  compensate_inventory = do
    record_saga_transition w saga_id compensating success
        "Liberando stock por fallo posterior al bloqueo"
    release_attempts max_attempts 1
