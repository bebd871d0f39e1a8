-- ===== src/Reservation/Integration.antt =====
-- The reservation service (mi-servicio/main.go) with the inventory service
-- (inventario-service/main.go) behind its calls.
use mathlib.Core.Path.{◌∙◌, ap}
use proyecto_sd_reserva_de_h.Base.{
  ℕ, ◌+◌, ◌≤◌, ◌≡◌, ◌≢◌, refl, ◌&&◌, String, arith, true, List, str_eq, Option, none, some,
  unacknowledged, Env, Answer,
}
use proyecto_sd_reserva_de_h.Base.Int.{ℤ, pos, +ℤ_parts, nonneg_is_pos, pos_part, neg_part}
use proyecto_sd_reserva_de_h.Inventory.Tables.{UpdateStockResponse, is_granted}
use proyecto_sd_reserva_de_h.Inventory.Stock.{stock_of}
use proyecto_sd_reserva_de_h.Inventory.Server.{InventoryServer, update_stock}
use proyecto_sd_reserva_de_h.Inventory.History.{
  IsStocked, Holds, update_stock-Holds, then_after, update_stock_after,
}
use proyecto_sd_reserva_de_h.Reservation.Remote.{
  InventoryService, World, take_one, give_one, block_one, release_one,
}
use proyecto_sd_reserva_de_h.Reservation.Server.{CreateReservationRequest, ReservationServer}
use proyecto_sd_reserva_de_h.Reservation.Ledger.{gave_up_total}
use proyecto_sd_reserva_de_h.Reservation.Calls.{IsAcknowledged}
use proyecto_sd_reserva_de_h.Reservation.Accounts.Conserved.{
  create_all, reserved, create_all_conserves, create_all-IsSound,
}

pub then_after-block :
    (a : Answer UpdateStockResponse) (key j : String) (v : Option ℤ)
    → then_after (block_one key) a j v ≡ take_one (is_granted a && str_eq key j) v
then_after-block a key j none = refl
then_after-block a key j (some v) = ground arith

pub then_after-release :
    (a : Answer UpdateStockResponse) (key j : String) (v : Option ℤ)
    → then_after (release_one key) a j v ≡ give_one (is_granted a && str_eq key j) v
then_after-release a key j none = refl
then_after-release a key j (some v) = ground arith

-- The inventory server as the service that the reservation server is written against, in an
-- environment where no reply of its database is lost and the metrics take a 1.
abbrev pub inventory_service :
    (Price : Type 0) (env : Env)
    → ((n : ℕ) (e : String) → env.outcome n ≢ unacknowledged e)
    → env.counter_accepts (pos 1) ≡ true
    → InventoryService
inventory_service Price env ack c = record {
  State = InventoryServer Price;
  handle = λ req s. update_stock env req s;
  stock = λ key s. stock_of key s.room_types;
  IsSound = λ s. Holds IsStocked s;
  blocks_soundly = λ key s h. update_stock-Holds env (block_one key) s (omega arith) h;
  releases_soundly = λ key s h. update_stock-Holds env (release_one key) s (omega arith) h;
  blocks_one = λ key j s h.
      update_stock_after env (block_one key) s j h.1 ack c
      ∙ then_after-block (update_stock env (block_one key) s).0 key j _;
  releases_one = λ key j s h.
      update_stock_after env (release_one key) s j h.1 ack c
      ∙ then_after-release (update_stock env (release_one key) s).0 key j _;
}

-- The services together never book more than there was: over any sequence of reservation requests,
-- the reservations of a room type grow by at most the stock that it had, and so does their sum with
-- the units that failed compensations left blocked. Stocks are nonnegative at the start, and no reply
-- of a call that took effect is lost.
pub no_overbooking_end_to_end :
    (Price : Type 0) (env : Env) (ack : (n : ℕ) (e : String) → env.outcome n ≢ unacknowledged e)
    (c : env.counter_accepts (pos 1) ≡ true) (w : World)
    → IsAcknowledged w
    → (reqs : List CreateReservationRequest) (s : ReservationServer (InventoryServer Price))
      (key : String) (v : ℕ)
    → Holds IsStocked s.inventory
    → stock_of key s.inventory.room_types ≡ some (pos v)
    → let t = (create_all (inventory_service Price env ack c) w reqs s).1 in
      (n : ℕ) × (left : ℕ) × (stock_of key t.inventory.room_types ≡ some (pos left))
      × (reserved key t.db.reservations + n + left ≡ reserved key s.db.reservations + v)
      × (gave_up_total s.metrics + n ≤ gave_up_total t.metrics)
no_overbooking_end_to_end Price env ack c w k reqs s key v h e =
    let inv = inventory_service Price env ack c in
    let (v', n, st, sum, g) = create_all_conserves inv w k reqs s key (pos v) h e in
    let sound = (create_all-IsSound inv w k reqs s h).0 key v' st in
    let p = ap pos_part sum in
    let m = ap neg_part sum in
    let a = +ℤ_parts v' (pos (reserved key (create_all inv w reqs s).1.db.reservations + n)) in
    let b = +ℤ_parts (pos v) (pos (reserved key s.db.reservations)) in
    let e' = nonneg_is_pos v' sound in
    let z = ap neg_part e' in (n, pos_part v', st ∙ ap some e', omega arith, g)
