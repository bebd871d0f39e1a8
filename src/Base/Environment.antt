-- ===== src/Base/Environment.antt =====
-- What surrounds a service: the answers of its database, its network and its clock. Every call of
-- something outside the process takes the next number, and the environment is a function of it.
use Prim.Native.Nat.{ℕ}
use Prim.Native.String.{String}
use mathlib.Core.Bool.{Bool}
use mathlib.Core.Path.{◌≡◌, refl}
use mathlib.Core.Logic.{◌⊎◌, inl, inr}
use proyecto_sd_reserva_de_h.Base.Int.{ℤ}

pub data Result {ℓ κ} (E : Type ℓ) (A : Type κ) : Type (ℓ ⊔ κ) where
  ok : A → Result E A
  err : E → Result E A

pub Result-cases {ℓ κ} :
    {E : Type ℓ} {A : Type κ} (r : Result E A) → ((a : A) × (r ≡ ok a)) ⊎ ((e : E) × (r ≡ err e))
Result-cases (ok a) = inl (a, refl)
Result-cases (err e) = inr (e, refl)

-- How an outside call goes. It may fail after it took effect: the reply is lost, or the deadline
-- passes on the way back.
pub data Outcome : Type 0 where
  done : Outcome
  refused unacknowledged : String → Outcome

pub record Env : Type 0 where
  pub outcome : ℕ → Outcome
  pub clock : ℕ → ℕ  -- nanoseconds
  pub uuid : ℕ → String
  pub timestamp : ℕ → String  -- RFC 3339
  pub counter_accepts : ℤ → Bool  -- whether `Counter.Add` of the metrics library takes the value

module _ {D A : Type 0} where
  abbrev pub answered : D → Result String (A × D) → Result String A × D
  answered d (ok (a, d')) = (ok a, d')
  answered d (err e) = (err e, d)

  abbrev pub reply_lost : String → D → Result String (A × D) → Result String A × D
  reply_lost e d (ok (a, d')) = (err e, d')
  reply_lost e d (err e') = (err e', d)

  -- A statement that changes the database `D` and returns an `A`; `err` is the engine's own refusal,
  -- which changes nothing.
  unfoldable pub perform : Outcome → (D → Result String (A × D)) → D → Result String A × D
  perform done statement d = answered d (statement d)
  perform (refused e) statement d = (err e, d)
  perform (unacknowledged e) statement d = reply_lost e d (statement d)

-- A query: it changes nothing.
unfoldable pub ask : {A : Type 0} → Outcome → A → Result String A
ask done a = ok a
ask (refused e) a = err e
ask (unacknowledged e) a = err e

-- The canonical status codes of gRPC that the services return.
pub data Code : Type 0 where
  unknown invalid_argument not_found resource_exhausted unavailable : Code
  unauthenticated internal unimplemented : Code

pub record Status : Type 0 where
  pub code : Code
  pub message : String

-- What a handler does: it replies, returns a status error, or panics.
pub data Answer (A : Type 0) : Type 0 where
  reply : A → Answer A
  fail : Status → Answer A
  panics : Answer A

abbrev pub status_error : Code → String → Status
status_error c m = record { code = c; message = m }
