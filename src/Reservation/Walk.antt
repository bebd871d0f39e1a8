-- ===== src/Reservation/Walk.antt =====
-- The states that a saga of mi-servicio/main.go records, in order.
pub mod Saving
pub mod Run
use proyecto_sd_reserva_de_h.Base.{
  ℕ, ◌≡◌, refl, ◌⊎◌, inl, inr, String, arith, List, [], ◌∷◌, Bool, true, false, Answer, reply, fail,
  panics, Status, Result, ok, err, if◌then◌else◌,
}
use proyecto_sd_reserva_de_h.Reservation.Tables.{
  SagaState, started, user_validated, stock_locked, reservation_created, notification_dispatching,
  completed, completed_with_notification_failure, compensating, compensated, compensation_failed,
  saga_failed, user_validation_failed, stock_lock_failed, stock_unavailable,
  reservation_insert_failed,
}
use proyecto_sd_reserva_de_h.Reservation.Server.{Metric, CreateReservationResponse}

-- The states in the order in which they are counted, newest first.
abbrev pub trace : List Metric → List SagaState
trace [] = []
trace (Metric.saga_transitions state result ∷ metrics) = state ∷ trace metrics
trace (_ ∷ metrics) = trace metrics

-- Which state may follow which.
pub data Follows : SagaState → SagaState → Type 0 where
  user_known : Follows started user_validated
  user_unknown : Follows started user_validation_failed
  user_ended : Follows user_validation_failed saga_failed
  lock_taken : Follows user_validated stock_locked
  lock_refused : Follows user_validated stock_lock_failed
  lock_ended : Follows stock_lock_failed saga_failed
  nothing_left : Follows user_validated stock_unavailable
  nothing_ended : Follows stock_unavailable saga_failed
  row_saved : Follows stock_locked reservation_created
  row_refused : Follows stock_locked reservation_insert_failed
  dispatched : Follows reservation_created notification_dispatching
  undoes : Follows reservation_insert_failed compensating
  undone : Follows compensating compensated
  not_undone : Follows compensating compensation_failed
  undone_ended : Follows compensated saga_failed
  not_undone_ended : Follows compensation_failed saga_failed

-- A walk from the start of a saga, on top of what was recorded before.
pub data Walk (before : List SagaState) : SagaState → List SagaState → Type 0 where
  begins : Walk before started (started ∷ before)
  goes :
      {a b : SagaState} {states : List SagaState}
      → Walk before a states
      → Follows a b
      → Walk before b (b ∷ states)

-- Where a run may stop, by its answer.
pub data Stops : Answer CreateReservationResponse → SagaState → Type 0 where
  succeeds : (r : CreateReservationResponse) → Stops (reply r) notification_dispatching
  fails : (st : Status) → Stops (fail st) saga_failed
  crashes : Stops panics started
