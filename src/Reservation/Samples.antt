-- ===== src/Reservation/Samples.antt =====
-- Test data of the reservation service, with the inventory service behind it.
use proyecto_sd_reserva_de_h.Base.{ℕ, refl, true, String, [], some, ltb, if◌then◌else◌, ok}
use proyecto_sd_reserva_de_h.Breaker.{CircuitBreaker, new_circuit_breaker}
use proyecto_sd_reserva_de_h.Inventory.Server.{InventoryServer}
use proyecto_sd_reserva_de_h.Inventory.History.{Holds, IsStocked}
use proyecto_sd_reserva_de_h.Inventory.Samples.{
  calm, server, server-HasUniqueIds, server-IsStocked, calm_done,
}
use proyecto_sd_reserva_de_h.Reservation.Remote.{InventoryService, World}
use proyecto_sd_reserva_de_h.Reservation.Server.{CreateReservationRequest, ReservationServer}
use proyecto_sd_reserva_de_h.Reservation.Calls.{IsAcknowledged}
use proyecto_sd_reserva_de_h.Reservation.Integration.{inventory_service}

abbrev pub world : World
world = record {
  env = calm;
  random_hex = λ n. if ltb n 9 then some "0a1b2c3d" else some "4e5f6a7b";
  date_text = λ n. "20260705161000";
  created_at = λ id. 0;
  user_reply = λ n id. ok (some (record { nombre = "Ana"; email = "ana@example.com" }));
  notification_reply = λ n req. ok true;
}

abbrev pub services : InventoryService
services = inventory_service ℕ calm calm_done refl

abbrev pub breaker : String → CircuitBreaker
breaker name = new_circuit_breaker name 5 15000000000

abbrev pub reservations : ReservationServer (InventoryServer ℕ)
reservations = record {
  db = record { reservations = []; sagas = []; saga_events = [] };
  inventory = server;
  user_breaker = breaker "user";
  inventory_breaker = breaker "inventory";
  notification_breaker = breaker "notification";
  has_publisher = true;
  tasks = [];
  metrics = [];
  tick = 0;
}

abbrev pub stay : CreateReservationRequest
stay = record {
  user_id = "u1";
  hotel_id = "h2";
  room_type_id = "rt3";
  fecha_inicio = "2026-08-01";
  fecha_fin = "2026-08-03";
  idempotency_key = "k1";
}

pub server-Holds : Holds IsStocked server
server-Holds = (server-IsStocked, server-HasUniqueIds)

pub world_calm : IsAcknowledged world
world_calm = calm_done
