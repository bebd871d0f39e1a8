-- ===== src/Reservation/Accounts.antt =====
-- What one run of `CreateReservation` (mi-servicio/main.go) does to the stocks and the reservations,
-- by its answer.
pub mod Saving
pub mod Run
pub mod Conserved
use mathlib.Core.Path.{subst, ◌∙◌, ap}
use proyecto_sd_reserva_de_h.Base.{
  ℕ, ◌+◌, ◌≡◌, ◌≢◌, refl, sym, ◌&&◌, String, arith, Bool, true, false, List, ◌∷◌, str_eq, Result,
  ok, err, Status, Option, none, some, if◌then◌else◌, Outcome, done, refused, unacknowledged,
  perform, Answer, reply, fail, panics, find_row, Code, status_error,
}
use proyecto_sd_reserva_de_h.Base.Int.{ℤ}
use proyecto_sd_reserva_de_h.Breaker.{CallError, circuit_open, from_call}
use proyecto_sd_reserva_de_h.Inventory.Tables.{UpdateStockResponse}
use proyecto_sd_reserva_de_h.Reservation.Tables.{
  ReservationRow, Database, insert_reservation, has_key,
}
use proyecto_sd_reserva_de_h.Reservation.Remote.{
  InventoryService, User, World, take_one, give_one, block_one,
}
use proyecto_sd_reserva_de_h.Reservation.Server.{
  CreateReservationRequest, CreateReservationResponse, ReservationServer, Act, call_inventory,
  call_user, exec, inc,
}
use proyecto_sd_reserva_de_h.Reservation.Ledger.{Ledger, ledger, IsQuiet}
use proyecto_sd_reserva_de_h.Reservation.Calls.{
  IsAcknowledged, is_success, take_one-false, call_inventory-blocks,
}
use proyecto_sd_reserva_de_h.Reservation.Create.{
  confirmada, monto_total, idempotency_key_param, replay, existing_or_new, run_saga,
  create_reservation,
}

-- The row that a run adds for a request, whatever the ids it draws.
abbrev pub IsRowOf : CreateReservationRequest → ReservationRow → Type 0
IsRowOf req row =
    (row.user_id ≡ req.user_id)
    × (row.hotel_id ≡ req.hotel_id)
    × (row.room_type_id ≡ req.room_type_id)
    × (row.fecha_inicio ≡ req.fecha_inicio)
    × (row.fecha_fin ≡ req.fecha_fin)
    × (row.status ≡ confirmada)
    × (row.monto_total ≡ monto_total)
    × (row.idempotency_key ≡ idempotency_key_param req.idempotency_key)

abbrev pub response_of : ReservationRow → CreateReservationResponse
response_of row = record {
  reservation_id = row.reservation_id;
  status = row.status;
  monto_total = row.monto_total;
}

abbrev pub is_reply : {A : Type 0} → Answer A → Bool
is_reply (reply a) = true
is_reply (fail st) = false
is_reply panics = false

module _ (inv : InventoryService) where
  open inv use {State, stock, IsSound}

  -- One unit of `key` is taken if `here`.
  abbrev pub Takes : String → Bool → Ledger State → Ledger State → Type 0
  Takes key here l l' =
      IsSound l'.inventory
      × ((j : String)
          → stock j l'.inventory ≡ take_one (here && str_eq key j) (stock j l.inventory))

  -- The four ways in which a run may end: the stored reservation of the key is returned; nothing is
  -- booked; a unit is taken and its reservation added; or a unit is taken, the reservation is not
  -- saved, and the compensation is given up.
  pub data Settles (req : CreateReservationRequest) (l : Ledger State)
      (a : Answer CreateReservationResponse) (l' : Ledger State) : Type 0 where
    replayed :
        (row : ReservationRow)
        → find_row (has_key req.idempotency_key) l.reservations ≡ some row
        → a ≡ reply (response_of row)
        → l' ≡ l
        → Settles req l a l'
    not_booked :
        is_reply a ≡ false
        → Takes req.room_type_id false l l'
        → l'.reservations ≡ l.reservations
        → l'.given_up ≡ l.given_up
        → Settles req l a l'
    booked :
        (row : ReservationRow)
        → IsRowOf req row
        → a ≡ reply (response_of row)
        → Takes req.room_type_id true l l'
        → l'.reservations ≡ row ∷ l.reservations
        → l'.given_up ≡ l.given_up
        → Settles req l a l'
    leaked :
        a ≡ fail (status_error Code.internal "error interno al guardar la reserva")
        → Takes req.room_type_id true l l'
        → l'.reservations ≡ l.reservations
        → l'.given_up ≡ l.given_up + 1
        → Settles req l a l'
