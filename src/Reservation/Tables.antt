-- ===== src/Reservation/Tables.antt =====
-- The tables of mi-servicio/main.go and its SQL, as functions on lists of rows. Amounts are in cents;
-- the columns that hold times are left out, and so are the limits on the length of a text, which show
-- as refused statements.
use proyecto_sd_reserva_de_h.Base.{
  ℕ, String, Bool, true, false, not, ◌&&◌, ◌||◌, List, ◌∷◌, Option, none, some, str_eq, find_row,
  map, if◌then◌else◌, Result, ok, err,
}

-- The texts of the columns `status` and `step`.
pub data SagaState : Type 0 where
  started user_validated stock_locked reservation_created notification_dispatching : SagaState
  completed completed_with_notification_failure compensating compensated : SagaState
  compensation_failed saga_failed : SagaState
  user_validation_failed stock_lock_failed stock_unavailable reservation_insert_failed : SagaState

unfoldable pub state_text : SagaState → String
state_text started = "STARTED"
state_text user_validated = "USER_VALIDATED"
state_text stock_locked = "STOCK_LOCKED"
state_text reservation_created = "RESERVATION_CREATED"
state_text notification_dispatching = "NOTIFICATION_DISPATCHING"
state_text completed = "COMPLETED"
state_text completed_with_notification_failure = "COMPLETED_WITH_NOTIFICATION_FAILURE"
state_text compensating = "COMPENSATING"
state_text compensated = "COMPENSATED"
state_text compensation_failed = "COMPENSATION_FAILED"
state_text saga_failed = "FAILED"
state_text user_validation_failed = "USER_VALIDATION_FAILED"
state_text stock_lock_failed = "STOCK_LOCK_FAILED"
state_text stock_unavailable = "STOCK_UNAVAILABLE"
state_text reservation_insert_failed = "RESERVATION_INSERT_FAILED"

-- The column `result`.
pub data StepResult : Type 0 where
  success failure : StepResult

-- The column `compensation_status`: NONE, RUNNING, DONE, FAILED.
pub data CompensationStatus : Type 0 where
  never running finished gave_up : CompensationStatus

pub record ReservationRow : Type 0 where
  pub reservation_id : String
  pub user_id : String
  pub hotel_id : String
  pub room_type_id : String
  pub fecha_inicio : String
  pub fecha_fin : String
  pub status : String
  pub monto_total : ℕ
  pub saga_id : String
  pub idempotency_key : Option String  -- the column may be NULL
  pub created_at : ℕ

pub record SagaRow : Type 0 where
  pub saga_id : String
  pub reservation_id : String
  pub user_id : String
  pub hotel_id : String
  pub room_type_id : String
  pub status : SagaState
  pub current_step : SagaState
  pub compensation_status : CompensationStatus
  pub error_message : String

pub record SagaEventRow : Type 0 where
  pub saga_id : String
  pub step : SagaState
  pub result : StepResult
  pub detail : String

pub record Database : Type 0 where
  pub reservations : List ReservationRow
  pub sagas : List SagaRow
  pub saga_events : List SagaEventRow  -- newest first

abbrev pub is_saga : String → SagaRow → Bool
is_saga saga_id row = str_eq row.saga_id saga_id

abbrev pub is_reservation : String → ReservationRow → Bool
is_reservation reservation_id row = str_eq row.reservation_id reservation_id

abbrev pub has_key : String → ReservationRow → Bool
has_key key row = elim row.idempotency_key [ none ↦ false | some k ↦ str_eq k key ]

abbrev pub exists {ℓ} : {A : Type ℓ} → Option A → Bool
exists none = false
exists (some a) = true

-- The primary key refuses an id that is there.
unfoldable pub insert_saga : SagaRow → Database → Result String (Unit {0} × Database)
insert_saga row db =
    if exists (find_row (is_saga row.saga_id) db.sagas)
    then err "duplicate key value violates unique constraint \"reservation_sagas_pkey\""
    else ok (tt, record db { sagas = row ∷ db.sagas })

-- The unique index leaves out NULL and the empty text.
abbrev pub key_taken : Option String → List ReservationRow → Bool
key_taken none rows = false
key_taken (some key) rows = not (str_eq key "") && exists (find_row (has_key key) rows)

unfoldable pub insert_reservation : ReservationRow → Database → Result String (Unit {0} × Database)
insert_reservation row db =
    if exists (find_row (is_reservation row.reservation_id) db.reservations)
      || key_taken row.idempotency_key db.reservations
    then err "duplicate key value violates unique constraint"
    else ok (tt, record db { reservations = row ∷ db.reservations })

-- The reference to `reservation_sagas` refuses an event of no saga.
unfoldable pub insert_saga_event : SagaEventRow → Database → Result String (Unit {0} × Database)
insert_saga_event row db =
    if exists (find_row (is_saga row.saga_id) db.sagas)
    then ok (tt, record db { saga_events = row ∷ db.saga_events })
    else err "insert or update on table \"reservation_saga_events\" violates foreign key constraint"

abbrev pub compensation_of : SagaState → CompensationStatus
compensation_of compensating = running
compensation_of compensated = finished
compensation_of compensation_failed = gave_up
compensation_of _ = never

-- The two `CASE` expressions.
abbrev pub merge_compensation : CompensationStatus → CompensationStatus → CompensationStatus
merge_compensation never old = old
merge_compensation new_ old = new_

abbrev pub merge_error : StepResult → String → String → String
merge_error failure detail old = detail
merge_error success detail old = old

unfoldable pub move_saga : SagaState → StepResult → String → SagaRow → SagaRow
move_saga state result detail row = record row {
  status = state;
  current_step = state;
  compensation_status = merge_compensation (compensation_of state) row.compensation_status;
  error_message = merge_error result detail row.error_message;
}

unfoldable pub update_saga :
    String → SagaState → StepResult → String → Database → Result String (Unit {0} × Database)
unfolding move_saga
update_saga saga_id state result detail db = ok (
  tt,
  record db {
    sagas =
        map (λ row. if is_saga saga_id row then move_saga state result detail row else row)
          db.sagas;
  },
)
