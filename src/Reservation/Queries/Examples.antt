-- ===== src/Reservation/Queries/Examples.antt =====
-- Tests of the queries of the reservation service, and the theorems at a concrete table.
use mathlib.Core.List.{Perm}
use proyecto_sd_reserva_de_h.Base.{
  ℕ, ◌≡◌, refl, String, true, List, [], ◌∷◌, none, select, map, All, ask, reply,
}
use proyecto_sd_reserva_de_h.Breaker.{new_circuit_breaker}
use proyecto_sd_reserva_de_h.Inventory.Samples.{calm}
use proyecto_sd_reserva_de_h.Reservation.Tables.{ReservationRow}
use proyecto_sd_reserva_de_h.Reservation.Server.{ReservationServer}
use proyecto_sd_reserva_de_h.Reservation.Queries.{
  select_newest, ReservationMessage, to_message, has_user, scan_reservations, list_reservations,
}
use proyecto_sd_reserva_de_h.Reservation.Queries.Listing.{
  IsOf, IsNewestFirst, list_reservations_private, list_reservations_complete,
}

abbrev row_of : String → String → ℕ → ReservationRow
row_of id user time = record {
  reservation_id = id;
  user_id = user;
  hotel_id = "h1";
  room_type_id = "rt1";
  fecha_inicio = "2026-08-01";
  fecha_fin = "2026-08-03";
  status = "CONFIRMADA";
  monto_total = 15050;
  saga_id = "saga-1";
  idempotency_key = none;
  created_at = time;
}

abbrev three : ReservationServer (Unit {0})
three = record {
  db = record {
    reservations =
        row_of "res-1" "ana" 10 ∷ row_of "res-2" "luis" 20 ∷ row_of "res-3" "ana" 30 ∷ [];
    sagas = [];
    saga_events = [];
  };
  inventory = tt;
  user_breaker = new_circuit_breaker "user" 5 15000000000;
  inventory_breaker = new_circuit_breaker "inventory" 5 15000000000;
  notification_breaker = new_circuit_breaker "notification" 5 15000000000;
  has_publisher = true;
  tasks = [];
  metrics = [];
  tick = 0;
}

abbrev of_ana : List ReservationMessage
of_ana = to_message (row_of "res-3" "ana" 30) ∷ to_message (row_of "res-1" "ana" 10) ∷ []

ana_listed : (list_reservations calm "ana" three).0 ≡ reply of_ana
unfolding list_reservations select_newest select scan_reservations ask
ana_listed = refl

list_reservations_private_example : All (IsOf "ana") of_ana
list_reservations_private_example = list_reservations_private calm "ana" three of_ana ana_listed

list_reservations_complete_example :
    (rows : List ReservationRow) × ((list_reservations calm "ana" three).0
      ≡ reply (map to_message rows))
    × Perm rows (select (has_user "ana") three.db.reservations)
    × IsNewestFirst rows
list_reservations_complete_example = list_reservations_complete calm "ana" three (λ n. refl) refl
