-- ===== src/Reservation/Concurrent/Keys.antt =====
-- What a lookup of an idempotency key finds in the reservations of mi-servicio/main.go, and that later
-- reservations keep it.
use mathlib.Core.Path.{◌∙◌, ap}
use proyecto_sd_reserva_de_h.Base.{
  ◌≡◌, refl, ◌⊎◌, inl, inr, arith, String, Bool, true, false, List, ◌∷◌, Option, none, some, str_eq,
  str_eq_iff, find_row, ok, err, Outcome, done, refused, unacknowledged, perform, reply, Bool-cases,
}
use proyecto_sd_reserva_de_h.Reservation.Tables.{
  has_key, key_taken, insert_reservation, ReservationRow, Database,
}
use proyecto_sd_reserva_de_h.Reservation.Accounts.{is_reply, response_of}
use proyecto_sd_reserva_de_h.Reservation.Concurrent.{Stage, finished, request_of}

abbrev pub replies : Stage → Bool
replies (finished req a) = is_reply a
replies _ = false

-- A request that is replied to is told of the reservation that a lookup of its key finds.
abbrev pub IsRecorded : List ReservationRow → Stage → Type 0
IsRecorded rows st =
    str_eq (request_of st).idempotency_key "" ≡ false
    → replies st ≡ true
    → (row : ReservationRow) × (find_row (has_key (request_of st).idempotency_key) rows ≡ some row)
      × (st ≡ finished (request_of st) (reply (response_of row)))

-- What a lookup of a key finds stays.
abbrev pub Extends : List ReservationRow → List ReservationRow → Type 0
Extends rows rows' =
    (key : String) (row : ReservationRow)
    → str_eq key "" ≡ false
    → find_row (has_key key) rows ≡ some row
    → find_row (has_key key) rows' ≡ some row

pub silent : (rows : List ReservationRow) (st : Stage) → replies st ≡ false → IsRecorded rows st
silent rows st q n r = absurd (cc (q, r))

pub IsRecorded-Extends :
    (rows rows' : List ReservationRow) (st : Stage)
    → Extends rows rows'
    → IsRecorded rows st
    → IsRecorded rows' st
IsRecorded-Extends rows rows' st x h n r =
    let (row, f, e) = h n r in (row, x (request_of st).idempotency_key row n f, e)

is_key :
    (o : Option String) (key : String)
    → elim o [ none ↦ false | some k ↦ str_eq k key ] ≡ true
    → o ≡ some key
is_key none key e = absurd (cc e)
is_key (some k) key e = ap some ((str_eq_iff k key).0 e)

found_is_taken :
    (key : String) (rows : List ReservationRow) (found : ReservationRow)
    → str_eq key "" ≡ false
    → find_row (has_key key) rows ≡ some found
    → key_taken (some key) rows ≡ true
found_is_taken key rows found n f = rw (n, f) refl

-- The unique index keeps what a lookup finds.
free_key-Extends :
    (row : ReservationRow) (rows : List ReservationRow)
    → key_taken row.idempotency_key rows ≡ false
    → Extends rows (row ∷ rows)
unfolding find_row
free_key-Extends row rows free key found n f = elim (Bool-cases (has_key key row)) [
  | inl e ↦
      let taken =
        ap (λ o. key_taken o rows) (is_key row.idempotency_key key e)
        ∙ found_is_taken key rows found n f in
      absurd (cc (free, taken))
  | inr e ↦ rw e f
]

insert_reservation-cases :
    (row : ReservationRow) (db : Database)
    → ((e : String) × (insert_reservation row db ≡ err e))
      ⊎ ((insert_reservation row db ≡ ok (tt, record db { reservations = row ∷ db.reservations }))
          × (key_taken row.idempotency_key db.reservations ≡ false))
unfolding insert_reservation
insert_reservation-cases row db = ground arith

pub inserts-Extends :
    (outcome : Outcome) (row : ReservationRow) (db : Database)
    → let (r, db') = perform outcome (insert_reservation row) db in
      (r ≡ ok tt → db'.reservations ≡ row ∷ db.reservations)
      × Extends db.reservations db'.reservations
unfolding perform
inserts-Extends done row db = elim (insert_reservation-cases row db) [
  | inl (e, q) ↦ rw q ((λ x. absurd (cc x)), (λ key found n f. f))
  | inr (q, free) ↦ rw q ((λ x. refl), free_key-Extends row db.reservations free)
]
inserts-Extends (refused e) row db = ((λ x. absurd (cc x)), (λ key found n f. f))
inserts-Extends (unacknowledged e) row db = elim (insert_reservation-cases row db) [
  | inl (e', q) ↦ rw q ((λ x. absurd (cc x)), (λ key found n f. f))
  | inr (q, free) ↦ rw q ((λ x. absurd (cc x)), free_key-Extends row db.reservations free)
]
