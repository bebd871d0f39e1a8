-- ===== src/Reservation/Lost/Examples.antt =====
-- The lost replies at a concrete reservation server.
use proyecto_sd_reserva_de_h.Base.{
  true, ℕ, ◌≡◌, refl, [], ◌∷◌, some, if◌then◌else◌, find_row, perform, update_rows, ◌==◌, fail,
  Code, status_error, concat, done, unacknowledged,
}
use proyecto_sd_reserva_de_h.Base.Int.{pos, ◌-ℤ◌, ◌+ℤ◌}
use proyecto_sd_reserva_de_h.Breaker.{allow, new_circuit_breaker}
use proyecto_sd_reserva_de_h.Inventory.Tables.{block_rows, release_rows}
use proyecto_sd_reserva_de_h.Inventory.Stock.{stock_of}
use proyecto_sd_reserva_de_h.Inventory.Server.{update_stock}
use proyecto_sd_reserva_de_h.Inventory.Samples.{calm}
use proyecto_sd_reserva_de_h.Reservation.Tables.{insert_reservation, insert_saga_event, update_saga}
use proyecto_sd_reserva_de_h.Reservation.Remote.{World, block_one}
use proyecto_sd_reserva_de_h.Reservation.Server.{record_saga_transition}
use proyecto_sd_reserva_de_h.Reservation.Ledger.{ledger}
use proyecto_sd_reserva_de_h.Reservation.Create.{Job, reservation_row, lock_stock, save_reservation}
use proyecto_sd_reserva_de_h.Reservation.Compensation.{compensate_inventory, max_attempts}
use proyecto_sd_reserva_de_h.Reservation.Compensation.Bounds.{
  GivesAtMost, compensate_inventory_bounds,
}
use proyecto_sd_reserva_de_h.Reservation.Lost.{lock_reply_lost}
use proyecto_sd_reserva_de_h.Reservation.Lost.Insertion.{Compensated, insert_reply_lost}
use proyecto_sd_reserva_de_h.Reservation.Samples.{world, services, reservations, stay, server-Holds}

abbrev job : Job
job = record { req = stay; saga_id = "saga-1"; reservation_id = "res-1" }

-- The reply of one call is lost.
abbrev losing : ℕ → World
losing n = record world {
  env = record calm { outcome = λ m. if m == n then unacknowledged "deadline exceeded" else done };
}

-- The unit stays taken, and there is no reservation.
lock_lost :
    let u =
      (lock_stock services (losing 3) job (record { nombre = "Ana"; email = "" }) reservations).1 in
    (stock_of "rt3" u.inventory.room_types ≡ some (pos 4)) × (u.db.reservations ≡ [])
unfolding lock_stock stock_of find_row new_circuit_breaker update_stock block_rows update_rows ◌-ℤ◌
    insert_saga_event update_saga
lock_lost = (refl, refl)

lock_reply_lost_example :
    let (a, u) =
      lock_stock services (losing 3) job (record { nombre = "Ana"; email = "" }) reservations in
    (a
      ≡ fail (
          status_error Code.resource_exhausted
            (concat "No se pudo asegurar la habitacion: " "deadline exceeded")))
    × (ledger u ≡ record (ledger reservations) {
      inventory = (services.handle (block_one "rt3") reservations.inventory).1;
    })
unfolding record_saga_transition allow new_circuit_breaker
lock_reply_lost_example =
    lock_reply_lost services (losing 3) job (record { nombre = "Ana"; email = "" }) reservations
      "deadline exceeded" refl refl

insert_reply_lost_example :
    let (a, u) = save_reservation services (losing 2) job "ana@example.com" reservations in
    let row = reservation_row (losing 2) job in
    (a ≡ fail (status_error Code.internal "error interno al guardar la reserva"))
    × (u.db.reservations ≡ row ∷ [])
    × Compensated services
        (losing 2)
        job
        (record (ledger reservations) { reservations = row ∷ [] })
        u
unfolding record_saga_transition insert_reservation find_row perform insert_saga_event update_saga
    reservation_row
insert_reply_lost_example =
    insert_reply_lost services (losing 2) job "ana@example.com" reservations "deadline exceeded"
      (record reservations.db { reservations = reservation_row (losing 2) job ∷ [] }) refl refl

-- The reply of the first release is lost, and the second gives the unit back again.
released_twice :
    let (b, t) = compensate_inventory services (losing 3) "saga-1" "rt3" reservations in
    (b ≡ true) × (stock_of "rt3" t.inventory.room_types ≡ some (pos 7))
unfolding compensate_inventory new_circuit_breaker update_stock release_rows update_rows ◌+ℤ◌
    stock_of find_row
released_twice = (refl, refl)

compensate_inventory_bounds_example :
    let (b, t) = compensate_inventory services (losing 3) "saga-1" "rt3" reservations in
    GivesAtMost services (losing 3) "saga-1" "rt3" max_attempts b reservations.inventory t.inventory
compensate_inventory_bounds_example =
    compensate_inventory_bounds services (losing 3) "saga-1" "rt3" reservations server-Holds
