-- ===== src/Reservation/Remote.antt =====
-- What the reservation service calls: the inventory service behind its RPC, as an interface with the
-- laws that the saga relies on, and the other services by their replies.
use proyecto_sd_reserva_de_h.Base.{
  ℕ, ◌≡◌, ◌&&◌, String, Bool, Option, none, some, str_eq, if◌then◌else◌, Result, ok, err, Outcome,
  done, refused, unacknowledged, Env, Answer, reply, fail, panics, Code, Status, status_error,
}
use proyecto_sd_reserva_de_h.Base.Int.{ℤ, pos, ◌+ℤ◌, ◌-ℤ◌}
use proyecto_sd_reserva_de_h.Inventory.Tables.{UpdateStockRequest, UpdateStockResponse, is_granted}

-- The two requests that the service makes, for one unit.
abbrev pub block_one : String → UpdateStockRequest
block_one key = record { room_type_id = key; cantidad = pos 1; accion = "BLOQUEAR" }

abbrev pub release_one : String → UpdateStockRequest
release_one key = record { room_type_id = key; cantidad = pos 1; accion = "LIBERAR" }

-- A stock with one unit less, and one more, if `here`.
abbrev pub take_one : Bool → Option ℤ → Option ℤ
take_one here none = none
take_one here (some v) = some (if here then v -ℤ pos 1 else v)

abbrev pub give_one : Bool → Option ℤ → Option ℤ
give_one here none = none
give_one here (some v) = some (if here then v +ℤ pos 1 else v)

pub record InventoryService : Type 1 where
  pub State : Type 0
  pub handle : UpdateStockRequest → State → Answer UpdateStockResponse × State
  pub stock : String → State → Option ℤ
  pub IsSound : State → Type 0
  pub blocks_soundly : (key : String) (i : State) → IsSound i → IsSound (handle (block_one key) i).1
  pub releases_soundly :
      (key : String) (i : State) → IsSound i → IsSound (handle (release_one key) i).1
  pub blocks_one :
      (key j : String) (i : State)
      → IsSound i
      → stock j (handle (block_one key) i).1
        ≡ take_one (is_granted (handle (block_one key) i).0 && str_eq key j) (stock j i)
  pub releases_one :
      (key j : String) (i : State)
      → IsSound i
      → stock j (handle (release_one key) i).1
        ≡ give_one (is_granted (handle (release_one key) i).0 && str_eq key j) (stock j i)

-- The messages of mi-servicio/pb/servicio.proto.
pub record User : Type 0 where
  pub nombre : String
  pub email : String

pub record SendConfirmationRequest : Type 0 where
  pub user_id : String
  pub reservation_id : String
  pub tipo : String
  pub email : String

-- Randomness, dates and the replies of the services that are not modelled. The field `User` of a
-- user response may be missing.
pub record World : Type 0 where
  pub env : Env
  pub open env use *
  pub random_hex : ℕ → Option String
  pub date_text : ℕ → String
  pub created_at : String → ℕ  -- CURRENT_TIMESTAMP at the INSERT of the reservation with an id
  pub user_reply : ℕ → String → Result Status (Option User)
  pub notification_reply : ℕ → SendConfirmationRequest → Result Status Bool

-- A handler that panics takes its process down, and the caller sees a lost connection.
abbrev pub answer_result : {A : Type 0} → Answer A → Result Status A
answer_result (reply a) = ok a
answer_result (fail st) = err st
answer_result panics = err (status_error Code.unavailable "error reading from server: EOF")

-- A call over the network.
unfoldable pub remote : {A I : Type 0} → Outcome → (I → Answer A × I) → I → Result Status A × I
remote done handler i = let (a, i') = handler i in (answer_result a, i')
remote (refused e) handler i = (err (status_error Code.unavailable e), i)
remote (unacknowledged e) handler i = (err (status_error Code.unavailable e), (handler i).1)
