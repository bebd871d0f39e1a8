-- ===== src/Reservation/Concurrent/Examples.antt =====
-- Tests of overlapping requests, and the theorems at concrete runs.
use mathlib.Core.Path.{subst, ◌∙◌}
use mathlib.Core.List.{append_assoc}
use proyecto_sd_reserva_de_h.Base.{
  ℕ, zero, suc, ◌+◌, ◌*◌, ◌≤◌, ◌≡◌, refl, sym, true, List, [], ◌∷◌, ◌++◌, some, reply, fail, Code,
  status_error, print_ℕ, find_row, perform, update_rows, arith,
}
use proyecto_sd_reserva_de_h.Base.Int.{pos, ◌-ℤ◌}
use proyecto_sd_reserva_de_h.Breaker.{new_circuit_breaker, allow, record_success}
use proyecto_sd_reserva_de_h.Inventory.Tables.{block_rows}
use proyecto_sd_reserva_de_h.Inventory.Stock.{stock_of}
use proyecto_sd_reserva_de_h.Inventory.Server.{InventoryServer, update_stock}
use proyecto_sd_reserva_de_h.Inventory.Samples.{calm, deluxe_stock, calm_done}
use proyecto_sd_reserva_de_h.Reservation.Tables.{
  ReservationRow, has_key, key_taken, insert_saga, insert_reservation, insert_saga_event,
  update_saga,
}
use proyecto_sd_reserva_de_h.Reservation.Remote.{InventoryService, World, remote}
use proyecto_sd_reserva_de_h.Reservation.Server.{
  CreateReservationRequest, CreateReservationResponse, ReservationServer, record_saga_transition,
  start_saga, exec, publish_reservation_event,
}
use proyecto_sd_reserva_de_h.Reservation.Ledger.{gave_up_total}
use proyecto_sd_reserva_de_h.Reservation.Create.{
  Job, create_reservation, find_existing, new_job, reservation_row, confirm, replay,
}
use proyecto_sd_reserva_de_h.Reservation.Accounts.{response_of}
use proyecto_sd_reserva_de_h.Reservation.Accounts.Conserved.{reserved}
use proyecto_sd_reserva_de_h.Reservation.Samples.{
  world, services, reservations, stay, server-Holds, world_calm,
}
use proyecto_sd_reserva_de_h.Reservation.Concurrent.{
  Stage, arrived, saving, finished, step, System, arrives, picks, Reach, here, next, report_call,
  ask_breaker, get_user, update_stock_call, looked_up, saga_begun, user_checked, lock_checked,
  insert_tried, once_allowed,
}
use proyecto_sd_reserva_de_h.Reservation.Concurrent.Sequential.{
  run_alone, run_alone-create_reservation,
}
use proyecto_sd_reserva_de_h.Reservation.Concurrent.Holding.{held}
use proyecto_sd_reserva_de_h.Reservation.Concurrent.Balance.{Accounted, Reach-Accounted}
use proyecto_sd_reserva_de_h.Reservation.Concurrent.Overbooking.{no_overbooking_overlapping}
use proyecto_sd_reserva_de_h.Reservation.Concurrent.Replies.{one_reply_per_key}
use proyecto_sd_reserva_de_h.Reservation.Concurrent.Late.{run_among, late_request_fails}
use proyecto_sd_reserva_de_h.Reservation.Concurrent.Ending.{
  arrivals, stages_taken, unfinished_requests, overlapping_requests_end,
}

-- A script of arrivals, and of picks by place.
data Turn : Type 0 where
  arrive : CreateReservationRequest → Turn
  pick : ℕ → Turn

module _ (inv : InventoryService) (w : World) where
  open inv use {State}

  abbrev pick_from : ReservationServer State → List Stage → ℕ → List Stage → System State
  pick_from s front i [] = record { server = s; requests = front ++ [] }
  pick_from s front zero (st ∷ back) =
      let (st', t) = step inv w st s in record { server = t; requests = front ++ (st' ∷ back) }
  pick_from s front (suc i) (st ∷ back) = pick_from s (front ++ (st ∷ [])) i back

  abbrev turn : System State → Turn → System State
  turn s (arrive req) = record s { requests = arrived req ∷ s.requests }
  turn s (pick i) = pick_from s.server [] i s.requests

  abbrev play : System State → List Turn → System State
  play s [] = s
  play s (m ∷ ms) = play (turn s m) ms

  pick_from-Reach :
      (r s : System State) (front : List Stage) (i : ℕ) (sts : List Stage)
      → s.requests ≡ front ++ sts
      → Reach inv w r s
      → Reach inv w r (pick_from s.server front i sts)
  pick_from-Reach r s front i [] e h =
      subst (λ rs. Reach inv w r (record { server = s.server; requests = rs })) e h
  pick_from-Reach r s front zero (st ∷ back) e h = next h (picks front back st e)
  pick_from-Reach r s front (suc i) (st ∷ back) e h =
      pick_from-Reach r s (front ++ (st ∷ [])) i back (e ∙ sym (append_assoc front (st ∷ []) back))
        h

  play-Reach : (r s : System State) (ms : List Turn) → Reach inv w r s → Reach inv w r (play s ms)
  play-Reach r s [] h = h
  play-Reach r s (arrive req ∷ ms) h = play-Reach r (turn s (arrive req)) ms (next h (arrives req))
  play-Reach r s (pick i ∷ ms) h =
      play-Reach r (turn s (pick i)) ms (pick_from-Reach r s [] i s.requests refl h)

run_alone-create_reservation_example :
    let (a, t) = create_reservation services world stay reservations in
    run_alone services world 20 (arrived stay) reservations ≡ (finished stay a, t)
run_alone-create_reservation_example =
    run_alone-create_reservation services world 20 stay reservations (omega arith)

abbrev opening : System (InventoryServer ℕ)
opening = record { server = reservations; requests = [] }

abbrev other : CreateReservationRequest
other = record stay { user_id = "u2"; idempotency_key = "k2" }

-- With ids of their own.
abbrev busy : World
busy = record world { random_hex = λ n. some (print_ℕ n) }

-- Two requests of one room type, a stage of the one and a stage of the other, up to their locks.
abbrev overlapping : List Turn
overlapping =
    arrive stay
    ∷ arrive other
    ∷ pick 0
    ∷ pick 1
    ∷ pick 0
    ∷ pick 1
    ∷ pick 0
    ∷ pick 1
    ∷ pick 0
    ∷ pick 1
    ∷ pick 0
    ∷ pick 1
    ∷ pick 0
    ∷ pick 1
    ∷ pick 0
    ∷ pick 1
    ∷ []

abbrev midway : System (InventoryServer ℕ)
midway = play services busy opening overlapping

midway_held :
    (held "rt3" midway.requests ≡ 2)
    × (stock_of "rt3" midway.server.inventory.room_types ≡ some (pos 3))
unfolding step looked_up find_existing find_row saga_begun start_saga perform insert_saga
    once_allowed ask_breaker allow publish_reservation_event insert_saga_event update_saga new_job
    new_circuit_breaker user_checked get_user record_saga_transition report_call update_stock_call
    print_ℕ remote lock_checked update_stock block_rows update_rows ◌-ℤ◌ stock_of record_success
    exec
midway_held = (refl, refl)

midway_reached : Reach services busy opening midway
midway_reached = play-Reach services busy opening opening overlapping here

Reach-Accounted_example : Accounted services "rt3" busy world_calm opening midway
Reach-Accounted_example =
    Reach-Accounted services "rt3" busy world_calm opening midway midway_reached

no_overbooking_overlapping_example :
    (n : ℕ) × (left : ℕ) × (stock_of "rt3" midway.server.inventory.room_types ≡ some (pos left))
    × (reserved "rt3" midway.server.db.reservations + held "rt3" midway.requests + n + left
        ≡ reserved "rt3" reservations.db.reservations + 5)
    × (gave_up_total reservations.metrics + n ≤ gave_up_total midway.server.metrics)
no_overbooking_overlapping_example =
    no_overbooking_overlapping ℕ calm calm_done refl busy world_calm reservations midway "rt3" 5
      server-Holds deluxe_stock midway_reached

overlapping_requests_end_example :
    stages_taken services busy midway_reached + unfinished_requests midway.requests
    ≤ 20 * arrivals services busy midway_reached
overlapping_requests_end_example =
    overlapping_requests_end services busy opening midway midway_reached refl

-- A request up to its end, and the same request again.
abbrev repeated : List Turn
repeated =
    arrive stay
    ∷ pick 0
    ∷ pick 0
    ∷ pick 0
    ∷ pick 0
    ∷ pick 0
    ∷ pick 0
    ∷ pick 0
    ∷ pick 0
    ∷ pick 0
    ∷ arrive stay
    ∷ pick 0
    ∷ []

abbrev settled : System (InventoryServer ℕ)
settled = play services busy opening repeated

abbrev booked : CreateReservationResponse
booked = record {
  reservation_id = "res-20260705161000-2";
  status = "CONFIRMADA";
  monto_total = 15050;
}

both_replied : settled.requests ≡ finished stay (reply booked) ∷ finished stay (reply booked) ∷ []
unfolding step looked_up find_existing find_row saga_begun start_saga perform insert_saga
    once_allowed ask_breaker allow publish_reservation_event insert_saga_event update_saga new_job
    new_circuit_breaker user_checked get_user record_saga_transition report_call update_stock_call
    remote lock_checked update_stock block_rows update_rows ◌-ℤ◌ stock_of record_success exec
    print_ℕ insert_reservation reservation_row insert_tried confirm replay
both_replied = refl

one_reply_per_key_example :
    (row : ReservationRow) × (find_row (has_key "k1") settled.server.db.reservations ≡ some row)
    × (booked ≡ response_of row)
    × (booked ≡ response_of row)
one_reply_per_key_example =
    one_reply_per_key services busy reservations settled [] (finished stay (reply booked) ∷ [])
      (finished stay (reply booked) ∷ []) [] stay stay booked booked
      (play-Reach services busy opening opening repeated here) both_replied both_replied refl refl

abbrev first_job : Job
first_job = record { req = stay; saga_id = "saga-1"; reservation_id = "res-1" }

abbrev late_job : Job
late_job = record { req = stay; saga_id = "saga-2"; reservation_id = "res-2" }

-- A request that comes to its INSERT when its key is stored.
abbrev stored : ReservationServer (InventoryServer ℕ)
stored = record reservations {
  db = record reservations.db { reservations = reservation_row busy first_job ∷ [] };
}

key_is_taken :
    key_taken (reservation_row busy late_job).idempotency_key stored.db.reservations ≡ true
unfolding find_row reservation_row
key_is_taken = refl

-- Other calls are made between the stages.
abbrev changes :
    List (ReservationServer (InventoryServer ℕ) → ReservationServer (InventoryServer ℕ))
changes =
    let change : ReservationServer (InventoryServer ℕ) → ReservationServer (InventoryServer ℕ) =
      λ s. record s { tick = s.tick + 5 } in
    change ∷ change ∷ change ∷ change ∷ change ∷ change ∷ change ∷ change ∷ change ∷ change ∷ change
    ∷ []

late_request_fails_example :
    run_among services busy changes (saving late_job "ana@example.com") stored
    ≡ finished stay (fail (status_error Code.internal "error interno al guardar la reserva"))
late_request_fails_example =
    late_request_fails services busy changes late_job "ana@example.com" stored key_is_taken
      (omega arith)
