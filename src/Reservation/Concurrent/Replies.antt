-- ===== src/Reservation/Concurrent/Replies.antt =====
-- What requests of mi-servicio/main.go with one idempotency key are told when they overlap.
use mathlib.Core.Path.{subst, ◌∙◌, ap}
use proyecto_sd_reserva_de_h.Base.{
  ◌≡◌, refl, sym, false, List, [], ◌∷◌, ◌++◌, Option, none, some, str_eq, find_row, reply, All,
}
use proyecto_sd_reserva_de_h.Reservation.Tables.{has_key, ReservationRow}
use proyecto_sd_reserva_de_h.Reservation.Remote.{InventoryService, World}
use proyecto_sd_reserva_de_h.Reservation.Server.{
  CreateReservationRequest, CreateReservationResponse, ReservationServer,
}
use proyecto_sd_reserva_de_h.Reservation.Ledger.{Ledger}
use proyecto_sd_reserva_de_h.Reservation.Accounts.{response_of}
use proyecto_sd_reserva_de_h.Reservation.Concurrent.{
  Stage, arrived, finished, step, System, Step, arrives, picks, works, Reach, here, next,
}
use proyecto_sd_reserva_de_h.Reservation.Concurrent.Holding.{run_task-IsQuiet}
use proyecto_sd_reserva_de_h.Reservation.Concurrent.Keys.{IsRecorded, silent, IsRecorded-Extends}
use proyecto_sd_reserva_de_h.Reservation.Concurrent.Telling.{step-Tells}

All-at :
    {A : Type 0} (P : A → Type 0) (front back : List A) (a : A) → All P (front ++ (a ∷ back)) → P a
All-at P [] back a h = h.0
All-at P (x ∷ front) back a h = All-at P front back a h.1

All-weaker :
    {A : Type 0} (P Q : A → Type 0) (as_ : List A) → ((x : A) → P x → Q x) → All P as_ → All Q as_
All-weaker P Q [] f h = tt
All-weaker P Q (a ∷ as_) f h = (f a h.0, All-weaker P Q as_ f h.1)

All-replaced :
    {A : Type 0} (P Q : A → Type 0) (front back : List A) (a b : A)
    → ((x : A) → P x → Q x)
    → Q b
    → All P (front ++ (a ∷ back))
    → All Q (front ++ (b ∷ back))
All-replaced P Q [] back a b f q h = (q, All-weaker P Q back f h.1)
All-replaced P Q (x ∷ front) back a b f q h = (f x h.0, All-replaced P Q front back a b f q h.1)

-- The reply that a request got.
abbrev told : CreateReservationResponse → Stage → CreateReservationResponse
told otherwise (finished req (reply a)) = a
told otherwise _ = otherwise

abbrev or_else : ReservationRow → Option ReservationRow → ReservationRow
or_else row none = row
or_else row (some found) = found

module _ (inv : InventoryService) (w : World) where
  open inv use {State}

  abbrev AllRecorded : System State → Type 0
  AllRecorded s = All (IsRecorded s.server.db.reservations) s.requests

  Step-AllRecorded : (s t : System State) → Step inv w s t → AllRecorded s → AllRecorded t
  Step-AllRecorded s t (arrives req) h = (silent s.server.db.reservations (arrived req) refl, h)
  Step-AllRecorded s t (picks front back st e) h =
      let before = s.server.db.reservations in
      let (st', u) = step inv w st s.server in
      let h' = subst (All (IsRecorded before)) e h in
      let (kept, said) =
        step-Tells inv w st s.server (All-at (IsRecorded before) front back st h') in
      All-replaced (IsRecorded before) (IsRecorded u.db.reservations) front back st st'
        (λ x. IsRecorded-Extends before u.db.reservations x kept) said h'
  Step-AllRecorded s t (works front back task e) h =
      let ready = record s.server { tasks = front ++ back } in
      subst (λ (l : Ledger State). All (IsRecorded l.reservations) s.requests)
        (sym (run_task-IsQuiet inv w "" task ready)) h

  Reach-AllRecorded : (s t : System State) → Reach inv w s t → AllRecorded s → AllRecorded t
  Reach-AllRecorded s t here h = h
  Reach-AllRecorded s t (next {t = u} r st) h = Step-AllRecorded u t st (Reach-AllRecorded s u r h)

  IsRecorded-at :
      (s : ReservationServer State) (t : System State) (front back : List Stage)
      (req : CreateReservationRequest) (a : CreateReservationResponse)
      → Reach inv w (record { server = s; requests = [] }) t
      → t.requests ≡ front ++ (finished req (reply a) ∷ back)
      → IsRecorded t.server.db.reservations (finished req (reply a))
  IsRecorded-at s t front back req a r e =
      All-at (IsRecorded t.server.db.reservations) front back (finished req (reply a))
        (subst (All (IsRecorded t.server.db.reservations)) e (Reach-AllRecorded _ t r tt))

  -- Of requests that overlap in any order, all that are replied to with one idempotency key, which is
  -- not empty, get the same reply, and it is the reservation that a lookup of the key finds: whatever
  -- the other services, the database and the network do.
  pub one_reply_per_key :
      (s : ReservationServer State) (t : System State) (front back front' back' : List Stage)
      (req req' : CreateReservationRequest) (a a' : CreateReservationResponse)
      → Reach inv w (record { server = s; requests = [] }) t
      → t.requests ≡ front ++ (finished req (reply a) ∷ back)
      → t.requests ≡ front' ++ (finished req' (reply a') ∷ back')
      → req.idempotency_key ≡ req'.idempotency_key
      → str_eq req.idempotency_key "" ≡ false
      → (row : ReservationRow) × (find_row (has_key req.idempotency_key) t.server.db.reservations
          ≡ some row)
        × (a ≡ response_of row)
        × (a' ≡ response_of row)
  one_reply_per_key s t front back front' back' req req' a a' r e e' same n =
      let (row, f, q) = IsRecorded-at s t front back req a r e n refl in
      let (row', f', q') =
        IsRecorded-at s t front' back' req' a' r e' (ap (λ k. str_eq k "") (sym same) ∙ n) refl in
      let same_row =
        sym f' ∙ ap (λ k. find_row (has_key k) t.server.db.reservations) (sym same) ∙ f in
      (row, f, ap (told a) q, ap (told a') q' ∙ ap response_of (ap (or_else row) same_row))
