-- ===== src/Reservation/Queries.antt =====
-- `GetReservation` and `ListReservations` of mi-servicio/main.go.
pub mod Listing
mod Examples
use proyecto_sd_reserva_de_h.Base.{
  ℕ, ◌+◌, leb, String, List, [], ◌∷◌, ◌++◌, Option, none, some, str_eq, concat, find_row, select,
  if◌then◌else◌, Result, ok, err, Outcome, done, refused, unacknowledged, ask, Answer, reply, fail,
  Code, status_error, Env, Bool,
}
use proyecto_sd_reserva_de_h.Reservation.Tables.{ReservationRow, Database, is_reservation}
use proyecto_sd_reserva_de_h.Reservation.Server.{Metric, Act, pure, ◌>>=◌, ◌>>◌, inc}

-- The message `Reservation` of mi-servicio/pb/servicio.proto.
pub record ReservationMessage : Type 0 where
  pub reservation_id : String
  pub user_id : String
  pub hotel_id : String
  pub room_type_id : String
  pub status : String
  pub fecha_inicio : String
  pub fecha_fin : String
  pub monto_total : ℕ

-- `Scan` of one row.
abbrev pub to_message : ReservationRow → ReservationMessage
to_message row = record {
  reservation_id = row.reservation_id;
  user_id = row.user_id;
  hotel_id = row.hotel_id;
  room_type_id = row.room_type_id;
  status = row.status;
  fecha_inicio = row.fecha_inicio;
  fecha_fin = row.fecha_fin;
  monto_total = row.monto_total;
}

abbrev pub has_user : String → ReservationRow → Bool
has_user user_id row = str_eq row.user_id user_id

abbrev pub keep_scanned :
    Outcome → ReservationRow → List ReservationMessage → List ReservationMessage
keep_scanned done row list = list ++ to_message row ∷ []
keep_scanned (refused e) row list = list
keep_scanned (unacknowledged e) row list = list

abbrev insert_newest : ReservationRow → List ReservationRow → List ReservationRow
insert_newest row [] = row ∷ []
insert_newest row (r ∷ rows) =
    let rest = insert_newest row rows in
    if leb r.created_at row.created_at then row ∷ r ∷ rows else r ∷ rest

-- `ORDER BY created_at DESC`.
abbrev newest_first : List ReservationRow → List ReservationRow
newest_first [] = []
newest_first (row ∷ rows) = insert_newest row (newest_first rows)

-- `SELECT … FROM reservations WHERE user_id = $1 ORDER BY created_at DESC`.
unfoldable pub select_newest : String → Database → List ReservationRow
select_newest user_id db = newest_first (select (has_user user_id) db.reservations)

module _ {I : Type 0} (env : Env) where
  -- `QueryContext`.
  unfoldable pub query : {A : Type 0} → (Database → A) → Act I (Result String A)
  unfolding ask
  query statement s = (ask (env.outcome s.tick) (statement s.db), record s { tick = s.tick + 1 })

  unfoldable pub got : Result String (Option ReservationRow) → Act I (Answer ReservationMessage)
  got (err e) = do
    inc (Metric.failures "get_database")
    pure (fail (status_error Code.internal (concat "error en base de datos: " e)))
  got (ok none) = do
    inc (Metric.failures "get_not_found")
    pure (fail (status_error Code.not_found "reserva no encontrada"))
  got (ok (some row)) = do inc Metric.get_total; pure (reply (to_message row))

  unfoldable pub get_reservation : String → Act I (Answer ReservationMessage)
  unfolding query got
  get_reservation reservation_id = do
    found ← query (λ db. find_row (is_reservation reservation_id) db.reservations)
    got found

  -- The loop over the rows: one that does not scan is logged and left out.
  unfoldable pub scan_reservations :
      List ReservationRow → List ReservationMessage → Act I (List ReservationMessage)
  scan_reservations [] list s = (list, s)
  scan_reservations (row ∷ rows) list s =
      scan_reservations rows (keep_scanned (env.outcome s.tick) row list)
        (record s { tick = s.tick + 1 })

  unfoldable pub listed :
      Result String (List ReservationRow) → Act I (Answer (List ReservationMessage))
  unfolding scan_reservations
  listed (err e) = do
    inc (Metric.failures "list_database")
    pure (fail (status_error Code.internal "error al consultar la base de datos"))
  listed (ok rows) = do list ← scan_reservations rows []; inc Metric.list_total; pure (reply list)

  unfoldable pub list_nothing : Act I (Answer (List ReservationMessage))
  list_nothing = do inc Metric.list_total; pure (reply [])

  unfoldable pub list_rows : String → Act I (Answer (List ReservationMessage))
  unfolding query listed select_newest
  list_rows user_id = do rows ← query (select_newest user_id); listed rows

  unfoldable pub list_reservations : String → Act I (Answer (List ReservationMessage))
  unfolding list_nothing list_rows
  list_reservations user_id = if str_eq user_id "" then list_nothing else list_rows user_id
