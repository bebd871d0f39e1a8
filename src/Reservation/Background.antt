-- ===== src/Reservation/Background.antt =====
-- The two goroutines of mi-servicio/main.go that outlive their request.
pub mod Ending
use proyecto_sd_reserva_de_h.Base.{◌+◌, String, Bool, List, Result, ok, err, Outcome, Status}
use proyecto_sd_reserva_de_h.Breaker.{CallError, execute}
use proyecto_sd_reserva_de_h.Reservation.Events.{Event}
use proyecto_sd_reserva_de_h.Reservation.Publisher.{Publisher, Message, publish}
use proyecto_sd_reserva_de_h.Reservation.Tables.{
  success, failure, completed, completed_with_notification_failure,
}
use proyecto_sd_reserva_de_h.Reservation.Remote.{World, SendConfirmationRequest}
use proyecto_sd_reserva_de_h.Reservation.Server.{
  Metric, Act, ◌>>=◌, ◌>>◌, error_message, inc, record_saga_transition,
}

abbrev pub confirmation : String → String → String → SendConfirmationRequest
confirmation user_id reservation_id email = record {
  user_id = user_id;
  reservation_id = reservation_id;
  tipo = "CONFIRMACION";
  email = email;
}

-- The error of a publication is only logged.
unfoldable pub run_publication : Outcome → Publisher → String → Event → List Message → List Message
unfolding publish
run_publication outcome publisher key event sent = (publish outcome publisher key event sent).1

module _ {I : Type 0} (w : World) where
  -- `Execute(s.notificationBreaker, …)` of one `SendConfirmation`.
  unfoldable pub call_notification :
      SendConfirmationRequest → Act I (Result (CallError Status) Bool)
  unfolding execute
  call_notification req s =
      let (r, cb, t) =
        execute (w.clock s.tick) (w.clock (s.tick + 2)) s.notification_breaker
          (λ (u : Unit {0}). (w.notification_reply (s.tick + 1) req, u)) tt in
      (r, record s { notification_breaker = cb; tick = s.tick + 3 })

  unfoldable pub notified : String → Result (CallError Status) Bool → Act I (Unit {0})
  unfolding error_message record_saga_transition
  notified saga_id (err e) = do
    inc (Metric.notifications "failed")
    record_saga_transition w saga_id completed_with_notification_failure failure (error_message e)
  notified saga_id (ok _) = do
    inc (Metric.notifications "success")
    record_saga_transition w saga_id completed success "Reserva confirmada y notificacion procesada"

  unfoldable pub run_confirmation : String → String → String → String → Act I (Unit {0})
  unfolding call_notification notified
  run_confirmation saga_id user_id reservation_id email = do
    res ← call_notification (confirmation user_id reservation_id email)
    notified saga_id res
