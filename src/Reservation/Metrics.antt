-- ===== src/Reservation/Metrics.antt =====
-- The series that `init` of mi-servicio/main.go makes of its counters with labels, each with an
-- `Add(0)`.
use proyecto_sd_reserva_de_h.Base.{List, [], ◌∷◌, Bool, false, ◌||◌, str_eq}
use proyecto_sd_reserva_de_h.Reservation.Tables.{
  SagaState, started, user_validated, stock_locked, reservation_created, notification_dispatching,
  completed, completed_with_notification_failure, compensating, compensated, compensation_failed,
  saga_failed, state_text, success, failure,
}
use proyecto_sd_reserva_de_h.Reservation.Server.{Metric}

-- The states that the loop of `init` runs over.
abbrev pub initial_states : List SagaState
initial_states =
    started ∷ user_validated ∷ stock_locked ∷ reservation_created ∷ notification_dispatching
    ∷ completed ∷ completed_with_notification_failure ∷ compensating ∷ compensated
    ∷ compensation_failed ∷ saga_failed ∷ []

abbrev transition_series : List SagaState → List Metric → List Metric
transition_series [] rest = rest
transition_series (state ∷ states) rest =
    Metric.saga_transitions state success
    ∷ Metric.saga_transitions state failure
    ∷ transition_series states rest

-- In the order of the source.
abbrev pub initial_series : List Metric
initial_series =
    Metric.failures "user_validation"
    ∷ Metric.failures "inventory_lock"
    ∷ Metric.failures "inventory_no_stock"
    ∷ Metric.failures "database_insert"
    ∷ Metric.failures "list_database"
    ∷ Metric.failures "get_database"
    ∷ Metric.failures "get_not_found"
    ∷ Metric.notifications "success"
    ∷ Metric.notifications "failed"
    ∷ transition_series initial_states
        (Metric.compensations "success" ∷ Metric.compensations "failed" ∷ [])

-- Whether a state has its series from the start, by its label.
abbrev pub has_state : SagaState → List SagaState → Bool
has_state state [] = false
has_state state (x ∷ states) = str_eq (state_text x) (state_text state) || has_state state states
