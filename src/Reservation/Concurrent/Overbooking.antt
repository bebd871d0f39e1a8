-- ===== src/Reservation/Concurrent/Overbooking.antt =====
-- Requests of mi-servicio/main.go that overlap, over the stocks of inventario-service/main.go.
use mathlib.Core.Path.{◌∙◌, ap}
use proyecto_sd_reserva_de_h.Base.{
  ℕ, ◌+◌, ◌≤◌, ◌≡◌, ◌≢◌, String, arith, true, [], some, unacknowledged, Env,
}
use proyecto_sd_reserva_de_h.Base.Int.{pos, +ℤ_parts, nonneg_is_pos, pos_part, neg_part}
use proyecto_sd_reserva_de_h.Inventory.Stock.{stock_of}
use proyecto_sd_reserva_de_h.Inventory.Server.{InventoryServer}
use proyecto_sd_reserva_de_h.Inventory.History.{IsStocked, Holds}
use proyecto_sd_reserva_de_h.Reservation.Remote.{World}
use proyecto_sd_reserva_de_h.Reservation.Server.{ReservationServer}
use proyecto_sd_reserva_de_h.Reservation.Ledger.{gave_up_total}
use proyecto_sd_reserva_de_h.Reservation.Calls.{IsAcknowledged}
use proyecto_sd_reserva_de_h.Reservation.Integration.{inventory_service}
use proyecto_sd_reserva_de_h.Reservation.Accounts.Conserved.{reserved}
use proyecto_sd_reserva_de_h.Reservation.Concurrent.{System, Reach}
use proyecto_sd_reserva_de_h.Reservation.Concurrent.Holding.{held}
use proyecto_sd_reserva_de_h.Reservation.Concurrent.Balance.{Reach-Accounted}

-- The two services never book more than there was, however the requests overlap: from stocks of at
-- least 0 and no request on its way, at every moment what a room type had is what is left, its new
-- reservations, the units that requests on their way hold, and at most one unit for each compensation
-- that was given up. No reply of a call that took effect is lost.
pub no_overbooking_overlapping :
    (Price : Type 0) (env : Env) (ack : (n : ℕ) (e : String) → env.outcome n ≢ unacknowledged e)
    (c : env.counter_accepts (pos 1) ≡ true) (w : World)
    → IsAcknowledged w
    → (s : ReservationServer (InventoryServer Price)) (t : System (InventoryServer Price))
      (key : String) (v : ℕ)
    → Holds IsStocked s.inventory
    → stock_of key s.inventory.room_types ≡ some (pos v)
    → Reach (inventory_service Price env ack c) w (record { server = s; requests = [] }) t
    → (n : ℕ) × (left : ℕ) × (stock_of key t.server.inventory.room_types ≡ some (pos left))
      × (reserved key t.server.db.reservations + held key t.requests + n + left
          ≡ reserved key s.db.reservations + v)
      × (gave_up_total s.metrics + n ≤ gave_up_total t.server.metrics)
no_overbooking_overlapping Price env ack c w k s t key v h e r =
    let inv = inventory_service Price env ack c in
    let start : System (InventoryServer Price) = record { server = s; requests = [] } in
    let (sound, f) = Reach-Accounted inv key w k start t r h in
    let (v', n, st, sum, g) = f (pos v) e in
    let p = ap pos_part sum in
    let m = ap neg_part sum in
    let a = +ℤ_parts v' (pos (reserved key t.server.db.reservations + held key t.requests + n)) in
    let b = +ℤ_parts (pos v) (pos (reserved key s.db.reservations + 0)) in
    let e' = nonneg_is_pos v' (sound.0 key v' st) in
    let z = ap neg_part e' in (n, pos_part v', st ∙ ap some e', omega arith, g)
