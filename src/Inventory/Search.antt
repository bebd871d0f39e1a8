-- ===== src/Inventory/Search.antt =====
-- The handler `SearchAvailableRooms` of inventario-service/main.go.
pub mod Results
pub mod Errors
use proyecto_sd_reserva_de_h.Base.{
  ℕ, ◌+◌, String, List, [], ◌∷◌, ◌++◌, ◌==◌, if◌then◌else◌, Result, ok, err, Outcome, done, refused,
  unacknowledged, Env, ask, Answer, reply, fail, Code, status_error, length,
}
use proyecto_sd_reserva_de_h.Inventory.Tables.{
  Engine, SearchRequest, RoomTypeAvailability, search_conditions, select_rooms,
}
use proyecto_sd_reserva_de_h.Inventory.Server.{InventoryServer, Act}

module _ (engine : Engine) where
  open engine use {Price}

  abbrev keep_scanned :
      Outcome
      → RoomTypeAvailability Price
      → List (RoomTypeAvailability Price)
      → List (RoomTypeAvailability Price)
  keep_scanned done row rooms = rooms ++ row ∷ []
  keep_scanned (refused e) row rooms = rooms
  keep_scanned (unacknowledged e) row rooms = rooms

  count_row_scan : InventoryServer Price → InventoryServer Price
  count_row_scan s = record s { errors = ("search", "row_scan") ∷ s.errors; tick = s.tick + 1 }

  abbrev note_scan : Outcome → InventoryServer Price → InventoryServer Price
  note_scan done s = record s { tick = s.tick + 1 }
  note_scan (refused e) s = count_row_scan s
  note_scan (unacknowledged e) s = count_row_scan s

  -- The loop over the rows: a row that does not scan is counted and left out.
  unfoldable pub scan_rooms :
      Env
      → List (RoomTypeAvailability Price)
      → List (RoomTypeAvailability Price)
      → Act Price (List (RoomTypeAvailability Price))
  unfolding count_row_scan
  scan_rooms env [] rooms s = (rooms, s)
  scan_rooms env (row ∷ rows) rooms s =
      scan_rooms env rows (keep_scanned (env.outcome s.tick) row rooms)
        (note_scan (env.outcome s.tick) s)

  count_search : List (RoomTypeAvailability Price) → InventoryServer Price → InventoryServer Price
  count_search rooms s = record s {
    search_total = s.search_total + 1;
    search_empty_total =
        if length rooms == 0 then s.search_empty_total + 1 else s.search_empty_total;
  }

  found_rooms :
      Env
      → Result String (List (RoomTypeAvailability Price))
      → Act Price (Answer (List (RoomTypeAvailability Price)))
  unfolding scan_rooms count_search
  found_rooms env (err e) s = (
    fail (status_error Code.internal "error al consultar inventario"),
    record s { errors = ("search", "database") ∷ s.errors },
  )
  found_rooms env (ok rows) s =
      let (rooms, s') = scan_rooms env rows [] s in (reply rooms, count_search rooms s')

  -- The handler `SearchAvailableRooms`; the reply is the field `rooms` of its response.
  unfoldable pub search_available_rooms :
      Env → SearchRequest Price → Act Price (Answer (List (RoomTypeAvailability Price)))
  unfolding found_rooms ask
  search_available_rooms env req s =
      let rows = select_rooms engine (search_conditions engine req) s.hotels s.room_types in
      found_rooms env (ask (env.outcome s.tick) rows) (record s { tick = s.tick + 1 })
