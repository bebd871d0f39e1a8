-- ===== src/Reservation/Replay.antt =====
-- What a client of mi-servicio/main.go sees after a reservation: the repeated request and the lookup.
use mathlib.Core.Path.{◌∙◌, ap}
use proyecto_sd_reserva_de_h.Base.{
  ◌+◌, ◌≡◌, refl, sym, String, arith, Bool, true, false, List, ◌∷◌, str_eq, str_eq_refl, Option,
  none, some, find_row, ask, Result, ok, done, Answer, reply,
}
use proyecto_sd_reserva_de_h.Reservation.Tables.{ReservationRow, has_key, is_reservation}
use proyecto_sd_reserva_de_h.Reservation.Remote.{InventoryService, World}
use proyecto_sd_reserva_de_h.Reservation.Server.{
  Metric, CreateReservationRequest, CreateReservationResponse, ReservationServer,
}
use proyecto_sd_reserva_de_h.Reservation.Ledger.{Ledger, ledger}
use proyecto_sd_reserva_de_h.Reservation.Calls.{IsAcknowledged}
use proyecto_sd_reserva_de_h.Reservation.Create.{
  find_existing, existing_or_new, replay, create_reservation,
}
use proyecto_sd_reserva_de_h.Reservation.Queries.{to_message, query, got, get_reservation}
use proyecto_sd_reserva_de_h.Reservation.Accounts.{
  Settles, replayed, not_booked, booked, leaked, is_reply, response_of, IsRowOf,
}
use proyecto_sd_reserva_de_h.Reservation.Accounts.Run.{create_reservation_accounts}

pub find_row-head :
    {A : Type 0} (p : A → Bool) (a : A) (as_ : List A) → p a ≡ true → find_row p (a ∷ as_) ≡ some a
unfolding find_row
find_row-head p a as_ h = ground arith

pub row_has_key :
    (req : CreateReservationRequest) (row : ReservationRow)
    → str_eq req.idempotency_key "" ≡ false
    → IsRowOf req row
    → has_key req.idempotency_key row ≡ true
row_has_key req row n f = rw (f.7, n) (str_eq_refl _)

module _ (inv : InventoryService) (w : World) where
  open inv use {State, IsSound}

  finds_existing :
      (key : String) (s : ReservationServer State) (row : ReservationRow)
      → str_eq key "" ≡ false
      → w.outcome s.tick ≡ done
      → find_row (has_key key) s.db.reservations ≡ some row
      → find_existing w key s ≡ (ok (some row), record s { tick = s.tick + 1 })
  unfolding find_existing ask
  finds_existing key s row n d f = rw (n, d, f) refl

  replays_found :
      (req : CreateReservationRequest) (s : ReservationServer State) (row : ReservationRow)
      → str_eq req.idempotency_key "" ≡ false
      → w.outcome s.tick ≡ done
      → find_row (has_key req.idempotency_key) s.db.reservations ≡ some row
      → create_reservation inv w req s ≡ (
        reply (response_of row),
        record s { metrics = Metric.idempotent_replays ∷ s.metrics; tick = s.tick + 1 },
      )
  unfolding create_reservation existing_or_new replay
  replays_found req s row n d f =
      ap
        (λ (p : Result String (Option ReservationRow) × ReservationServer State).
          existing_or_new inv w req p.0 p.1)
        (finds_existing req.idempotency_key s row n d f)

  reply_is_found :
      (req : CreateReservationRequest) (l l' : Ledger State) (a : Answer CreateReservationResponse)
      → str_eq req.idempotency_key "" ≡ false
      → is_reply a ≡ true
      → Settles inv req l a l'
      → (row : ReservationRow) × (find_row (has_key req.idempotency_key) l'.reservations ≡ some row)
        × (a ≡ reply (response_of row))
  reply_is_found req l l' a n r (replayed row f e q) = (
    row,
    ap (λ (x : Ledger State). find_row (has_key req.idempotency_key) x.reservations) q ∙ f,
    e,
  )
  reply_is_found req l l' a n r (not_booked r' t rs g) = ground arith
  reply_is_found req l l' a n r (booked row f e t rs g) = (
    row,
    ap (find_row (has_key req.idempotency_key)) rs
        ∙ find_row-head (has_key req.idempotency_key) row l.reservations (row_has_key req row n f),
    e,
  )
  reply_is_found req l l' a n r (leaked e t rs g) = let x = sym r ∙ ap is_reply e in ground arith

  -- A repeated request with an idempotency key gets the reply of the first one, and nothing changes
  -- but the counter of replays and the tick: no reservation is added and no stock is taken. The first
  -- request was replied to, no reply of a call that took effect was lost, and the lookup of the key
  -- goes well.
  pub create_reservation_repeats :
      IsAcknowledged w
      → (req : CreateReservationRequest) (s : ReservationServer State) → IsSound s.inventory
      → str_eq req.idempotency_key "" ≡ false
      → is_reply (create_reservation inv w req s).0 ≡ true
      → w.outcome (create_reservation inv w req s).1.tick ≡ done
      → let (a, t) = create_reservation inv w req s in
        create_reservation inv w req t
        ≡ (a, record t { metrics = Metric.idempotent_replays ∷ t.metrics; tick = t.tick + 1 })
  create_reservation_repeats k req s h n r d =
      let (a, t) = create_reservation inv w req s in
      let (row, f, e) =
        reply_is_found req (ledger s) (ledger t) a n r
          (create_reservation_accounts inv w k req s h) in
      replays_found req t row n d f
      ∙ ap
          (λ (x : Answer CreateReservationResponse).
            (x, record t { metrics = Metric.idempotent_replays ∷ t.metrics; tick = t.tick + 1 }))
          (sym e)

  gets_found :
      (id : String) (s : ReservationServer State) (row : ReservationRow)
      → w.outcome s.tick ≡ done
      → find_row (is_reservation id) s.db.reservations ≡ some row
      → (get_reservation w.env id s).0 ≡ reply (to_message row)
  unfolding get_reservation query got ask
  gets_found id s row d f = rw (d, f) refl

  get_booked :
      (req : CreateReservationRequest) (l : Ledger State) (t : ReservationServer State)
      (a : Answer CreateReservationResponse)
      → find_row (has_key req.idempotency_key) l.reservations ≡ none
      → is_reply a ≡ true
      → w.outcome t.tick ≡ done
      → Settles inv req l a (ledger t)
      → (row : ReservationRow) × IsRowOf req row
        × (a ≡ reply (response_of row))
        × ((get_reservation w.env row.reservation_id t).0 ≡ reply (to_message row))
  get_booked req l t a new_ r d (replayed row f e q) = let x = sym new_ ∙ f in ground arith
  get_booked req l t a new_ r d (not_booked r' taken rs g) = ground arith
  get_booked req l t a new_ r d (booked row f e taken rs g) = (
    row,
    f,
    e,
    gets_found row.reservation_id t row d (
        ap (find_row (is_reservation row.reservation_id)) rs
        ∙ find_row-head (is_reservation row.reservation_id) row l.reservations (str_eq_refl _)),
  )
  get_booked req l t a new_ r d (leaked e taken rs g) =
      let x = sym r ∙ ap is_reply e in ground arith

  -- A new reservation can be looked up: when `CreateReservation` replies to a request whose key is not
  -- used yet, `GetReservation` with the id of the reply returns the data of the request, confirmed.
  -- No reply of a call that took effect was lost, and the query goes well.
  pub create_then_get :
      IsAcknowledged w
      → (req : CreateReservationRequest) (s : ReservationServer State) → IsSound s.inventory
      → find_row (has_key req.idempotency_key) s.db.reservations ≡ none
      → is_reply (create_reservation inv w req s).0 ≡ true
      → w.outcome (create_reservation inv w req s).1.tick ≡ done
      → let (a, t) = create_reservation inv w req s in
        (row : ReservationRow) × IsRowOf req row
        × (a ≡ reply (response_of row))
        × ((get_reservation w.env row.reservation_id t).0 ≡ reply (to_message row))
  create_then_get k req s h new_ r d =
      let (a, t) = create_reservation inv w req s in
      get_booked req (ledger s) t a new_ r d (create_reservation_accounts inv w k req s h)
