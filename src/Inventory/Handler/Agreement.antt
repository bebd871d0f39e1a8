-- ===== src/Inventory/Handler/Agreement.antt =====
-- The handler of the layered server (inventario-service/internal/transport/grpc/handler.go) beside
-- that of inventario-service/main.go.
use proyecto_sd_reserva_de_h.Base.{
  ◌≡◌, ◌≢◌, refl, ◌⊎◌, inl, inr, true, arith, str_eq_iff, Env, reply, fail, Status, status_error,
  Code, String, concat,
}
use proyecto_sd_reserva_de_h.Base.Int.{pos, ◌<ℤ◌}
use proyecto_sd_reserva_de_h.Inventory.Tables.{UpdateStockRequest}
use proyecto_sd_reserva_de_h.Inventory.Stock.{HasUniqueIds}
use proyecto_sd_reserva_de_h.Inventory.Repository.{Database, Transactions}
use proyecto_sd_reserva_de_h.Inventory.Repository.Effects.{Done, repository_update_stock_atomic}
use proyecto_sd_reserva_de_h.Inventory.Handler.{action_str, handle_update_stock, status_of}

module _ {Price : Type 0} where
  -- An action that names neither a block nor a release is not refused: the request is handled as a
  -- block.
  pub handle_unknown_action :
      (tx : Transactions Price) (env : Env) (req : UpdateStockRequest) (d : Database Price)
      → req.accion ≢ "LIBERAR"
      → req.accion ≢ "1"
      → handle_update_stock tx env req d
        ≡ handle_update_stock tx env (record req { accion = "BLOQUEAR" }) d
  unfolding handle_update_stock
  handle_unknown_action tx env req d l o =
      ground (arith, str_eq_iff req.accion "LIBERAR", str_eq_iff req.accion "1")

  -- On unique ids the handler never answers with status false, and does all or nothing. It fails and
  -- changes no row; or exactly one stock moved by a positive quantity, up for a release and down for
  -- any other action. Then it replies true, or fails with INTERNAL where the reply of the COMMIT was
  -- lost.
  pub handle_update_stock_atomic :
      (tx : Transactions Price) (env : Env) (req : UpdateStockRequest) (d : Database Price)
      → HasUniqueIds d.room_types
      → let (a, d') = handle_update_stock tx env req d in
        ((st : Status) × (a ≡ fail st) × (d'.room_types ≡ d.room_types))
        ⊎ (((a ≡ reply (record { status = true }))
              ⊎ ((m : String) × (a ≡ fail (status_error Code.internal m))))
            × (pos 0 <ℤ req.cantidad)
            × Done req.cantidad req.room_type_id (action_str req.accion) d.room_types d'.room_types)
  unfolding handle_update_stock
  handle_update_stock_atomic tx env req d u =
      elim (repository_update_stock_atomic tx env req.room_type_id req.cantidad
        (action_str req.accion) d u) [
          | inl (e, r, rows) ↦ inl (status_of req e, rw r refl, rows)
          | inr (inl r, q, moved) ↦ inr (inl (rw r refl), q, moved)
          | inr (inr (x, r), q, moved) ↦
              inr (inr (concat "failed to update stock: " x, rw r refl), q, moved)
        ]
