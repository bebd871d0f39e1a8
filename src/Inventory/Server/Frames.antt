-- ===== src/Inventory/Server/Frames.antt =====
-- What the parts of `UpdateStock` (inventario-service/main.go) leave alone: after its statement the
-- handler only reads the tables.
use proyecto_sd_reserva_de_h.Base.{
  ℕ, ◌≡◌, String, true, false, ◌&&◌, arith, str_eq, ◌==◌, if◌then◌else◌, Result, ok, err, Env,
  Answer, reply, fail, panics, Code, status_error, concat,
}
use proyecto_sd_reserva_de_h.Inventory.Tables.{UpdateStockRequest, UpdateStockResponse}
use proyecto_sd_reserva_de_h.Inventory.Server.{
  InventoryServer, report_failure, settle, refuse_action,
}

-- The answer that follows a statement.
unfoldable pub settled_answer :
    Env → UpdateStockRequest → String → Result String ℕ → Answer UpdateStockResponse
settled_answer env req label (err e) = fail (status_error Code.internal "error al actualizar stock")
settled_answer env req label (ok rows) =
    if rows == 0 && str_eq label "bloquear"
    then fail (status_error Code.resource_exhausted "no hay stock suficiente")
    else if rows == 0
    then reply (record { status = false })
    else if env.counter_accepts req.cantidad
    then reply (record { status = true })
    else panics

module _ {Price : Type 0} (env : Env) (req : UpdateStockRequest) (s : InventoryServer Price) where
  report_failure_frame :
      (operation reason : String)
      → (report_failure env req operation reason s).1.room_types ≡ s.room_types
  unfolding report_failure
  report_failure_frame operation reason = ground arith

  pub refuse_action_lem :
      ((refuse_action env req s).0
        ≡ fail (status_error Code.invalid_argument (concat "accion invalida: " req.accion)))
      × ((refuse_action env req s).1.room_types ≡ s.room_types)
  unfolding refuse_action
  refuse_action_lem = ground arith

  pub settle_lem :
      (label operation : String) (r : Result String ℕ)
      → ((settle env label operation req r s).0 ≡ settled_answer env req label r)
        × ((settle env label operation req r s).1.room_types ≡ s.room_types)
  unfolding settle settled_answer
  settle_lem label operation (err e) = ground arith
  settle_lem label operation (ok n) = ground arith
