-- ===== src/Inventory/Metrics.antt =====
-- The metrics of inventario-service/main.go: the series that `init` makes, and the gauge of the rooms
-- that are left. A sum of stocks is below 2^53 wherever its rows are fewer than four million, so that
-- the gauge's float64 is the sum.
pub mod Gauge
pub mod Series
use mathlib.Core.Path.{◌∙◌, ap, sym}
use proyecto_sd_reserva_de_h.Base.{
  ℕ, ◌≡◌, ◌≢◌, refl, ◌⊎◌, inl, inr, arith, String, Bool, true, false, List, [], ◌∷◌, Option, none,
  some, str_eq, ◌==◌, ◌+◌, if◌then◌else◌, Result, ok, err, Outcome, done, refused, unacknowledged,
  Env, ask, perform, All, Bool-cases, Option-cases,
}
use proyecto_sd_reserva_de_h.Base.Int.{
  ℤ, pos, ◌+ℤ◌, ◌-ℤ◌, ◌≤ℤ◌, leb_ℤ, in_int4, int_laws, pos_part, neg_part,
}
use proyecto_sd_reserva_de_h.Inventory.Events.{operation_block, operation_release}
use proyecto_sd_reserva_de_h.Inventory.Tables.{
  RoomType, UpdateStockRequest, total_stock, block_rows, release_rows,
}
use proyecto_sd_reserva_de_h.Inventory.Stock.{
  HasUniqueIds, put_stock, stock_of, adjust_row, always, block_rows_by_id, release_rows_by_id,
  total_stock-put_stock,
}
use proyecto_sd_reserva_de_h.Inventory.Server.{
  InventoryServer, run_statement, settle, change_stock, refuse_action, is_block, is_release,
  update_stock,
}
use proyecto_sd_reserva_de_h.Inventory.Contract.{update_stock-Refines}
use proyecto_sd_reserva_de_h.Inventory.History.{serve_all}

-- The series that `init` makes with an `Add(0)`, newest first.
abbrev pub initial_stock_updates : List (String × ℤ)
initial_stock_updates = ("liberar", pos 0) ∷ ("bloquear", pos 0) ∷ []

abbrev pub initial_errors : List (String × String)
initial_errors =
    ("search", "database")
    ∷ ("search", "row_scan")
    ∷ ("update_stock", "invalid_action")
    ∷ ("update_stock", "database")
    ∷ ("update_stock", "insufficient_stock")
    ∷ ("update_stock", "room_type_not_found")
    ∷ []

gauge_value : Result String ℤ → ℤ
gauge_value (ok total) = total
gauge_value (err e) = pos 0

-- The gauge `inventory_available_rooms`, with no table before `main` has stored the database.
unfoldable pub available_rooms : {Price : Type 0} → Outcome → Option (List (RoomType Price)) → ℤ
unfolding gauge_value ask
available_rooms outcome none = pos 0
available_rooms outcome (some rows) = gauge_value (ask outcome (total_stock rows))

-- The value of a counter with one label.
abbrev pub counter : String → List (String × ℤ) → ℤ
counter label [] = pos 0
counter label ((l, q) ∷ adds) =
    let rest = counter label adds in if str_eq l label then q +ℤ rest else rest
