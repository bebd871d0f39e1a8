-- ===== src/Inventory/Handler.antt =====
-- `UpdateStock` of inventario-service/internal/transport/grpc/handler.go, the layered server's
-- handler. Its five seconds are one more way for a database call to fail.
pub mod Agreement
pub mod Search
mod Examples
use proyecto_sd_reserva_de_h.Base.{
  ◌+◌, print_ℕ, String, Bool, ◌||◌, str_eq, concat, if◌then◌else◌, Result, ok, err, Env, Answer,
  reply, fail, Code, Status, status_error,
}
use proyecto_sd_reserva_de_h.Base.Int.{ℤ, pos, negsuc}
use proyecto_sd_reserva_de_h.Inventory.Tables.{UpdateStockRequest, UpdateStockResponse}
use proyecto_sd_reserva_de_h.Inventory.Repository.{
  DomainError, insufficient_stock, room_type_not_found, invalid_action, invalid_quantity,
  database_error, error_text, Database, Transactions, service_update_stock,
}

-- Every action but the two names of a release stands for a block.
unfoldable pub action_str : String → String
action_str accion = if str_eq accion "LIBERAR" || str_eq accion "1" then "LIBERAR" else "BLOQUEAR"

-- `%d` of an int32.
show : ℤ → String
show (pos n) = print_ℕ n
show (negsuc n) = concat "-" (print_ℕ (n + 1))

unfoldable pub status_of : UpdateStockRequest → DomainError → Status
unfolding error_text show
status_of req insufficient_stock =
    status_error Code.resource_exhausted
      (concat "insufficient stock for room_type_id " req.room_type_id)
status_of req room_type_not_found =
    status_error Code.not_found (concat "room_type_id " (concat req.room_type_id " not found"))
status_of req invalid_quantity =
    status_error Code.invalid_argument (concat "invalid quantity: " (show req.cantidad))
status_of req invalid_action =
    status_error Code.internal (concat "failed to update stock: " (error_text invalid_action))
status_of req (database_error e) = status_error Code.internal (concat "failed to update stock: " e)

respond : UpdateStockRequest → Result DomainError Bool → Answer UpdateStockResponse
unfolding status_of
respond req (ok success) = reply (record { status = success })
respond req (err e) = fail (status_of req e)

unfoldable pub handle_update_stock :
    {Price : Type 0}
    → Transactions Price
    → Env
    → UpdateStockRequest
    → Database Price
    → Answer UpdateStockResponse × Database Price
unfolding action_str respond
handle_update_stock tx env req d =
    let (r, d') =
      service_update_stock tx env req.room_type_id req.cantidad (action_str req.accion) d in
    (respond req r, d')
