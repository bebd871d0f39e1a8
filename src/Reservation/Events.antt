-- ===== src/Reservation/Events.antt =====
-- mi-servicio/internal/events/events.go. The event id and the time come from the environment; the
-- amount is in cents.
use proyecto_sd_reserva_de_h.Base.{ℕ, String, Env}

abbrev pub event_type_reservation_created : String
event_type_reservation_created = "ReservationCreated"

abbrev pub event_type_reservation_confirmed : String
event_type_reservation_confirmed = "ReservationConfirmed"

abbrev pub event_type_reservation_failed : String
event_type_reservation_failed = "ReservationFailed"

abbrev pub source_reservation_service : String
source_reservation_service = "reservation-service"

pub record ReservationCreatedPayload : Type 0 where
  pub user_id : String
  pub hotel_id : String
  pub room_type_id : String
  pub fecha_inicio : String
  pub fecha_fin : String
  pub status : String

pub record ReservationConfirmedPayload : Type 0 where
  pub reservation_id : String
  pub user_id : String
  pub hotel_id : String
  pub room_type_id : String
  pub fecha_inicio : String
  pub fecha_fin : String
  pub status : String
  pub monto_total : ℕ

pub record ReservationFailedPayload : Type 0 where
  pub user_id : String
  pub hotel_id : String
  pub room_type_id : String
  pub fecha_inicio : String
  pub fecha_fin : String
  pub status : String
  pub reason : String

-- The values that the field `Payload interface{}` is given.
pub data Payload : Type 0 where
  created : ReservationCreatedPayload → Payload
  confirmed : ReservationConfirmedPayload → Payload
  failed : ReservationFailedPayload → Payload

pub record Event : Type 0 where
  pub event_id : String
  pub event_type : String
  pub version : ℕ
  pub source_service : String
  pub occurred_at : String
  pub correlation_id : String
  pub payload : Payload

pub record ReservationData : Type 0 where
  pub reservation_id : String
  pub user_id : String
  pub hotel_id : String
  pub room_type_id : String
  pub fecha_inicio : String
  pub fecha_fin : String
  pub monto_total : ℕ

unfoldable pub new_event : Env → ℕ → String → Payload → Event
new_event env tick event_type payload = record {
  event_id = env.uuid tick;
  event_type = event_type;
  version = 1;
  source_service = source_reservation_service;
  occurred_at = env.timestamp tick;
  correlation_id = "";
  payload = payload;
}

unfoldable pub new_reservation_created : Env → ℕ → ReservationData → Event
unfolding new_event
new_reservation_created env tick d = new_event env tick event_type_reservation_created (
    created (record {
      user_id = d.user_id;
      hotel_id = d.hotel_id;
      room_type_id = d.room_type_id;
      fecha_inicio = d.fecha_inicio;
      fecha_fin = d.fecha_fin;
      status = "CREATING";
    }))

unfoldable pub new_reservation_confirmed : Env → ℕ → ReservationData → Event
unfolding new_event
new_reservation_confirmed env tick d = new_event env tick event_type_reservation_confirmed (
    confirmed (record {
      reservation_id = d.reservation_id;
      user_id = d.user_id;
      hotel_id = d.hotel_id;
      room_type_id = d.room_type_id;
      fecha_inicio = d.fecha_inicio;
      fecha_fin = d.fecha_fin;
      status = "CONFIRMED";
      monto_total = d.monto_total;
    }))

unfoldable pub new_reservation_failed : Env → ℕ → ReservationData → String → Event
unfolding new_event
new_reservation_failed env tick d reason = new_event env tick event_type_reservation_failed (
    failed (record {
      user_id = d.user_id;
      hotel_id = d.hotel_id;
      room_type_id = d.room_type_id;
      fecha_inicio = d.fecha_inicio;
      fecha_fin = d.fecha_fin;
      status = "FAILED";
      reason = reason;
    }))
