-- ===== src/Reservation/Background/Ending.antt =====
-- How the background notification of mi-servicio/main.go ends its saga.
use proyecto_sd_reserva_de_h.Base.{
  ◌+◌, ◌≡◌, ◌≢◌, ◌∙◌, ap, arith, refl, inl, inr, String, Bool, false, List, [], ◌∷◌, none, some,
  map, str_eq, str_eq_iff, find_row, Bool-cases, if◌then◌else◌, Outcome, done, refused,
  unacknowledged, perform, Result, ok, err, Status,
}
use proyecto_sd_reserva_de_h.Breaker.{CallError}
use proyecto_sd_reserva_de_h.Breaker.Invariant.{IsValid}
use proyecto_sd_reserva_de_h.Breaker.Calls.{execute-IsValid}
use proyecto_sd_reserva_de_h.Reservation.Tables.{
  completed, completed_with_notification_failure, success, failure, SagaState, StepResult, SagaRow,
  SagaEventRow, Database, is_saga, move_saga, update_saga, insert_saga_event,
}
use proyecto_sd_reserva_de_h.Reservation.Remote.{World}
use proyecto_sd_reserva_de_h.Reservation.Server.{
  Metric, ReservationServer, record_saga_transition, exec, error_message, inc,
}
use proyecto_sd_reserva_de_h.Reservation.Ledger.{ledger, IsQuiet, record_saga_transition-IsQuiet}
use proyecto_sd_reserva_de_h.Reservation.Walk.{trace}
use proyecto_sd_reserva_de_h.Reservation.Background.{
  confirmation, call_notification, notified, run_confirmation,
}

-- The row of a saga after its notification, by the result of the call.
abbrev pub ended : Result (CallError Status) Bool → SagaRow → SagaRow
ended (ok b) row = record row { status = completed; current_step = completed }
ended (err e) row = record row {
  status = completed_with_notification_failure;
  current_step = completed_with_notification_failure;
  error_message = error_message e;
}

update_saga-sagas :
    (saga_id : String) (state : SagaState) (result : StepResult) (detail : String)
    (outcome : Outcome) (db : Database)
    → ((e : String) → outcome ≢ refused e)
    → (perform outcome (update_saga saga_id state result detail) db).1.sagas
      ≡ map (λ row. if is_saga saga_id row then move_saga state result detail row else row) db.sagas
unfolding perform update_saga
update_saga-sagas saga_id state result detail done db h = refl
update_saga-sagas saga_id state result detail (refused e) db h = absurd (h e refl)
update_saga-sagas saga_id state result detail (unacknowledged e) db h = refl

insert_saga_event-sagas :
    (row : SagaEventRow) (outcome : Outcome) (db : Database)
    → (perform outcome (insert_saga_event row) db).1.sagas ≡ db.sagas
unfolding perform insert_saga_event
insert_saga_event-sagas row outcome db = ground arith

module _ (state : SagaState) (result : StepResult) (detail saga_id : String) where
  abbrev moved_if : SagaRow → SagaRow
  moved_if row = if is_saga saga_id row then move_saga state result detail row else row

  moved_row :
      (row : SagaRow) (rows : List SagaRow)
      → find_row (is_saga saga_id) rows ≡ some row
      → find_row (is_saga saga_id) (map moved_if rows) ≡ some (move_saga state result detail row)
  unfolding find_row move_saga
  moved_row row [] e = absurd (cc e)
  moved_row row (r ∷ rows) e = elim (Bool-cases (is_saga saga_id r)) [
    | inl b ↦
        let same : r ≡ row = ap (λ o. elim o [ none ↦ r | some x ↦ x ]) (rw b at e) in
        rw b (rw b (ap (λ x. some (move_saga state result detail x)) same))
    | inr b ↦ rw b (rw b (moved_row row rows (rw b at e)))
  ]

  other_row :
      (other : String) (rows : List SagaRow)
      → str_eq saga_id other ≡ false
      → find_row (is_saga other) (map moved_if rows) ≡ find_row (is_saga other) rows
  unfolding find_row move_saga
  other_row other [] o = refl
  other_row other (r ∷ rows) o = elim (Bool-cases (is_saga saga_id r)) [
    | inl b ↦
        let n = ap (λ x. str_eq x other) ((str_eq_iff r.saga_id saga_id).0 b) ∙ o in
        rw (b, n) (other_row other rows o)
    | inr b ↦ rw (b, other_row other rows o) refl
  ]

module _ {I : Type 0} (w : World) where
  notified-IsQuiet :
      (saga_id : String) (r : Result (CallError Status) Bool)
      → IsQuiet (notified {I = I} w saga_id r)
  unfolding notified
  notified-IsQuiet saga_id (ok b) s =
      record_saga_transition-IsQuiet w saga_id completed success
        "Reserva confirmada y notificacion procesada" (inc (Metric.notifications "success") s).1
  notified-IsQuiet saga_id (err e) s =
      record_saga_transition-IsQuiet w saga_id completed_with_notification_failure failure
        (error_message e) (inc (Metric.notifications "failed") s).1

  pub run_confirmation-IsQuiet :
      (saga_id user_id reservation_id email : String)
      → IsQuiet (run_confirmation {I = I} w saga_id user_id reservation_id email)
  unfolding run_confirmation call_notification
  run_confirmation-IsQuiet saga_id user_id reservation_id email s =
      let (r, t) = call_notification w (confirmation user_id reservation_id email) s in
      notified-IsQuiet saga_id r t

  -- What a notification leaves: the ledger, a valid breaker, the ended saga, the other sagas, and one
  -- more state that is counted.
  abbrev pub Closes :
      Result (CallError Status) Bool
      → String
      → String
      → SagaRow
      → ReservationServer I
      → ReservationServer I
      → Type 0
  Closes r saga_id other row s t =
      (ledger t ≡ ledger s)
      × IsValid t.notification_breaker
      × (find_row (is_saga saga_id) t.db.sagas ≡ some (ended r row))
      × (find_row (is_saga other) t.db.sagas ≡ find_row (is_saga other) s.db.sagas)
      × (trace t.metrics ≡ (ended r row).status ∷ trace s.metrics)

  recorded :
      (state : SagaState) (result : StepResult) (detail saga_id other : String) (row : SagaRow)
      (s : ReservationServer I)
      → find_row (is_saga saga_id) s.db.sagas ≡ some row
      → str_eq saga_id other ≡ false
      → ((e : String) → w.outcome s.tick ≢ refused e)
      → let t = (record_saga_transition w saga_id state result detail s).1 in
        (find_row (is_saga saga_id) t.db.sagas ≡ some (move_saga state result detail row))
        × (find_row (is_saga other) t.db.sagas ≡ find_row (is_saga other) s.db.sagas)
  unfolding record_saga_transition exec
  recorded state result detail saga_id other row s e o h =
      let event : SagaEventRow = record {
        saga_id = saga_id;
        step = state;
        result = result;
        detail = detail;
      } in
      let (u, db) = perform (w.outcome s.tick) (update_saga saga_id state result detail) s.db in
      let same = insert_saga_event-sagas event (w.outcome (s.tick + 1)) db in
      let moved = update_saga-sagas saga_id state result detail (w.outcome s.tick) s.db h in
      (
        ap (find_row (is_saga saga_id)) (same ∙ moved)
            ∙ moved_row state result detail saga_id row s.db.sagas e,
        ap (find_row (is_saga other)) (same ∙ moved)
            ∙ other_row state result detail saga_id other s.db.sagas o,
      )

  notified-Closes :
      (saga_id other : String) (row : SagaRow) (r : Result (CallError Status) Bool)
      (s : ReservationServer I)
      → IsValid s.notification_breaker
      → find_row (is_saga saga_id) s.db.sagas ≡ some row
      → str_eq saga_id other ≡ false
      → ((e : String) → w.outcome s.tick ≢ refused e)
      → Closes r saga_id other row s (notified w saga_id r s).1
  unfolding notified move_saga
  notified-Closes saga_id other row (ok b) s v e o h =
      let counted = (inc (Metric.notifications "success") s).1 in
      let (p, q) =
        recorded completed success "Reserva confirmada y notificacion procesada" saga_id other row
          counted e o h in
      (notified-IsQuiet saga_id (ok b) s, v, p, q, refl)
  notified-Closes saga_id other row (err x) s v e o h =
      let counted = (inc (Metric.notifications "failed") s).1 in
      let (p, q) =
        recorded completed_with_notification_failure failure (error_message x) saga_id other row
          counted e o h in
      (notified-IsQuiet saga_id (err x) s, v, p, q, refl)

  -- The UPDATE of the saga is not refused. Then a notification ends its saga, which has a row: the row
  -- has the status and the step `COMPLETED` when the call was replied to, and
  -- `COMPLETED_WITH_NOTIFICATION_FAILURE` with the error when the call failed or the breaker refused
  -- it; that state is counted, and no other saga's row changes. It changes no stock, no reservation
  -- and no count of compensations, and keeps its breaker valid.
  pub run_confirmation-Closes :
      (saga_id other user_id reservation_id email : String) (row : SagaRow)
      (s : ReservationServer I)
      → IsValid s.notification_breaker
      → find_row (is_saga saga_id) s.db.sagas ≡ some row
      → str_eq saga_id other ≡ false
      → ((e : String) → w.outcome (s.tick + 3) ≢ refused e)
      → Closes
          (call_notification w (confirmation user_id reservation_id email) s).0
          saga_id
          other
          row
          s
          (run_confirmation w saga_id user_id reservation_id email s).1
  unfolding run_confirmation call_notification
  run_confirmation-Closes saga_id other user_id reservation_id email row s v e o h =
      let (r, t) = call_notification w (confirmation user_id reservation_id email) s in
      let req = confirmation user_id reservation_id email in
      let fn : Unit {0} → Result Status Bool × Unit {0} =
        λ u. (w.notification_reply (s.tick + 1) req, u) in
      notified-Closes saga_id other row r t
        (execute-IsValid fn (w.clock s.tick) (w.clock (s.tick + 2)) s.notification_breaker tt v) e o
        h
