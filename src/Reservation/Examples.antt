-- ===== src/Reservation/Examples.antt =====
-- Tests of the reservation service, and the theorems at a concrete server with the inventory service
-- behind it.
use proyecto_sd_reserva_de_h.Base.{
  arith, ℕ, ◌+◌, ◌≤◌, ◌≡◌, refl, true, false, List, [], ◌∷◌, some, none, reply, find_row, perform,
  update_rows,
}
use proyecto_sd_reserva_de_h.Base.Int.{pos, ◌-ℤ◌}
use proyecto_sd_reserva_de_h.Breaker.{new_circuit_breaker}
use proyecto_sd_reserva_de_h.Inventory.Tables.{block_rows}
use proyecto_sd_reserva_de_h.Inventory.Stock.{stock_of}
use proyecto_sd_reserva_de_h.Inventory.Server.{InventoryServer, update_stock}
use proyecto_sd_reserva_de_h.Inventory.Samples.{calm, deluxe_stock, calm_done}
use proyecto_sd_reserva_de_h.Reservation.Tables.{
  ReservationRow, has_key, insert_saga, insert_reservation, insert_saga_event, update_saga,
  state_text, started, user_validated, saga_failed, user_validation_failed,
  notification_dispatching, never, SagaRow, stock_lock_failed, stock_unavailable,
  reservation_insert_failed,
}
use proyecto_sd_reserva_de_h.Reservation.Server.{
  Metric, CreateReservationRequest, ReservationServer,
}
use proyecto_sd_reserva_de_h.Reservation.Ledger.{ledger, gave_up_total}
use proyecto_sd_reserva_de_h.Reservation.Compensation.{compensate_inventory}
use proyecto_sd_reserva_de_h.Reservation.Compensation.Effect.{
  Gives, unless, compensate_inventory_accounts,
}
use proyecto_sd_reserva_de_h.Reservation.Create.{run_saga, create_reservation}
use proyecto_sd_reserva_de_h.Breaker.Invariant.{IsValid, new_circuit_breaker-IsValid}
use proyecto_sd_reserva_de_h.Reservation.Background.{
  confirmation, call_notification, run_confirmation,
}
use proyecto_sd_reserva_de_h.Reservation.Background.Ending.{Closes, run_confirmation-Closes}
use proyecto_sd_reserva_de_h.Reservation.Walk.Run.{Traces, run_saga-Traces}
use proyecto_sd_reserva_de_h.Reservation.Accounts.{Settles, is_reply, response_of, IsRowOf}
use proyecto_sd_reserva_de_h.Reservation.Accounts.Run.{create_reservation_accounts}
use proyecto_sd_reserva_de_h.Reservation.Accounts.Conserved.{
  create_all, reserved, Balances, create_all_conserves,
}
use proyecto_sd_reserva_de_h.Reservation.Queries.{to_message, get_reservation}
use proyecto_sd_reserva_de_h.Reservation.Replay.{create_reservation_repeats, create_then_get}
use proyecto_sd_reserva_de_h.Reservation.Integration.{no_overbooking_end_to_end}
use proyecto_sd_reserva_de_h.Reservation.Walk.{trace}
use proyecto_sd_reserva_de_h.Reservation.Metrics.{has_state, initial_states}
use proyecto_sd_reserva_de_h.Reservation.Samples.{
  world, services, breaker, reservations, stay, server-Holds, world_calm,
}

stay_replied : is_reply (create_reservation services world stay reservations).0 ≡ true
unfolding create_reservation find_row perform insert_saga new_circuit_breaker update_stock
    block_rows update_rows ◌-ℤ◌ insert_reservation insert_saga_event update_saga
stay_replied = refl

-- One unit is taken, and one reservation added.
stay_booked :
    let t = (create_reservation services world stay reservations).1 in
    (stock_of "rt3" t.inventory.room_types ≡ some (pos 4)) × (reserved "rt3" t.db.reservations ≡ 1)
unfolding create_reservation find_row perform insert_saga new_circuit_breaker update_stock
    block_rows update_rows ◌-ℤ◌ insert_reservation insert_saga_event update_saga stock_of
stay_booked = (refl, refl)

-- The failures of a saga's steps have no series before the first of each.
failures_without_series :
    (has_state user_validation_failed initial_states ≡ false)
    × (has_state stock_lock_failed initial_states ≡ false)
    × (has_state stock_unavailable initial_states ≡ false)
    × (has_state reservation_insert_failed initial_states ≡ false)
unfolding state_text
failures_without_series = (refl, refl, refl, refl)

-- A run without stock records one of them.
abbrev unknown_room : CreateReservationRequest
unknown_room = record stay { room_type_id = "rt9" }

records_without_series :
    trace (create_reservation services world unknown_room reservations).1.metrics
    ≡ saga_failed ∷ stock_lock_failed ∷ user_validated ∷ started ∷ []
unfolding create_reservation find_row perform insert_saga new_circuit_breaker update_stock
    block_rows update_rows insert_saga_event update_saga
records_without_series = refl

-- A repeated request, and one with no key for a room type that is not there.
abbrev bookings : List CreateReservationRequest
bookings = stay ∷ stay ∷ record stay { room_type_id = "rt9"; idempotency_key = "" } ∷ []

compensate_inventory_accounts_example :
    let (b, t) = compensate_inventory services world "saga-1" "rt3" reservations in
    Gives services "rt3" b (unless b) (ledger reservations) (ledger t)
compensate_inventory_accounts_example =
    compensate_inventory_accounts services world world_calm "saga-1" "rt3" reservations server-Holds

create_reservation_accounts_example :
    let (a, t) = create_reservation services world stay reservations in
    Settles services stay (ledger reservations) a (ledger t)
create_reservation_accounts_example =
    create_reservation_accounts services world world_calm stay reservations server-Holds

create_all_conserves_example :
    Balances services "rt3"
      (pos 5)
      (ledger reservations)
      (ledger (create_all services world bookings reservations).1)
create_all_conserves_example =
    create_all_conserves services world world_calm bookings reservations "rt3" (pos 5) server-Holds
      deluxe_stock

no_overbooking_end_to_end_example :
    let t = (create_all services world bookings reservations).1 in
    (n : ℕ) × (left : ℕ) × (stock_of "rt3" t.inventory.room_types ≡ some (pos left))
    × (reserved "rt3" t.db.reservations + n + left ≡ 0 + 5)
    × (0 + n ≤ gave_up_total t.metrics)
no_overbooking_end_to_end_example =
    no_overbooking_end_to_end ℕ calm calm_done refl world world_calm bookings reservations "rt3" 5
      server-Holds deluxe_stock

create_reservation_repeats_example :
    let (a, t) = create_reservation services world stay reservations in
    create_reservation services world stay t
    ≡ (a, record t { metrics = Metric.idempotent_replays ∷ t.metrics; tick = t.tick + 1 })
create_reservation_repeats_example =
    create_reservation_repeats services world world_calm stay reservations server-Holds refl
      stay_replied refl

nothing_stored : find_row (has_key "k1") reservations.db.reservations ≡ none
unfolding find_row
nothing_stored = refl

create_then_get_example :
    let (a, t) = create_reservation services world stay reservations in
    (row : ReservationRow) × IsRowOf stay row
    × (a ≡ reply (response_of row))
    × ((get_reservation world.env row.reservation_id t).0 ≡ reply (to_message row))
create_then_get_example =
    create_then_get services world world_calm stay reservations server-Holds nothing_stored
      stay_replied refl

run_saga-Traces_example :
    let (a, t) = run_saga services world stay reservations in Traces services world a reservations t
run_saga-Traces_example = run_saga-Traces services world stay reservations

breaker-IsValid : IsValid (breaker "notification")
breaker-IsValid =
    new_circuit_breaker-IsValid "notification" 5 15000000000 (omega arith) (omega arith)

abbrev saga : SagaRow
saga = record {
  saga_id = "saga-1";
  reservation_id = "res-1";
  user_id = "u1";
  hotel_id = "h2";
  room_type_id = "rt3";
  status = notification_dispatching;
  current_step = notification_dispatching;
  compensation_status = never;
  error_message = "";
}

abbrev dispatching : ReservationServer (InventoryServer ℕ)
dispatching = record reservations { db = record reservations.db { sagas = saga ∷ [] } }

run_confirmation-Closes_example :
    Closes world
      (call_notification world (confirmation "u1" "res-1" "ana@example.com") dispatching).0
      "saga-1"
      "saga-2"
      saga
      dispatching
      (run_confirmation world "saga-1" "u1" "res-1" "ana@example.com" dispatching).1
unfolding find_row
run_confirmation-Closes_example =
    run_confirmation-Closes world "saga-1" "saga-2" "u1" "res-1" "ana@example.com" saga dispatching
      breaker-IsValid refl refl (λ e p. absurd (cc p))
