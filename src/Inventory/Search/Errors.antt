-- ===== src/Inventory/Search/Errors.antt =====
-- The errors that `SearchAvailableRooms` of inventario-service/main.go counts, and the series that
-- `init` makes.
use proyecto_sd_reserva_de_h.Base.{
  ◌+◌, refl, String, List, [], ◌∷◌, Result, ok, err, Env, Outcome, done, refused, unacknowledged,
  ask,
}
use proyecto_sd_reserva_de_h.Inventory.Tables.{
  Engine, SearchRequest, RoomTypeAvailability, search_conditions, select_rooms,
}
use proyecto_sd_reserva_de_h.Inventory.Server.{InventoryServer}
use proyecto_sd_reserva_de_h.Inventory.Metrics.Series.{AreInitial}
use proyecto_sd_reserva_de_h.Inventory.Search.{
  note_scan, count_row_scan, scan_rooms, count_search, found_rooms, search_available_rooms,
}

module _ (engine : Engine) where
  open engine use {Price}

  note_scan-AreInitial :
      (outcome : Outcome) (s : InventoryServer Price)
      → AreInitial s.errors
      → AreInitial (note_scan engine outcome s).errors
  unfolding count_row_scan
  note_scan-AreInitial done s h = h
  note_scan-AreInitial (refused e) s h = (refl, h)
  note_scan-AreInitial (unacknowledged e) s h = (refl, h)

  scan_rooms-AreInitial :
      (env : Env) (rows rooms : List (RoomTypeAvailability Price)) (s : InventoryServer Price)
      → AreInitial s.errors
      → AreInitial (scan_rooms engine env rows rooms s).1.errors
  unfolding scan_rooms
  scan_rooms-AreInitial env [] rooms s h = h
  scan_rooms-AreInitial env (row ∷ rows) rooms s h =
      scan_rooms-AreInitial env rows _ _ (note_scan-AreInitial (env.outcome s.tick) s h)

  found_rooms-AreInitial :
      (env : Env) (r : Result String (List (RoomTypeAvailability Price)))
      (s : InventoryServer Price)
      → AreInitial s.errors
      → AreInitial (found_rooms engine env r s).1.errors
  unfolding found_rooms count_search
  found_rooms-AreInitial env (ok rows) s h = scan_rooms-AreInitial env rows [] s h
  found_rooms-AreInitial env (err e) s h = (refl, h)

  -- Every error that a search counts is in a series that `init` has made.
  pub search_available_rooms-AreInitial :
      (env : Env) (req : SearchRequest Price) (s : InventoryServer Price)
      → AreInitial s.errors
      → AreInitial (search_available_rooms engine env req s).1.errors
  unfolding search_available_rooms
  search_available_rooms-AreInitial env req s h =
      let rows = select_rooms engine (search_conditions engine req) s.hotels s.room_types in
      let asked = record s { tick = s.tick + 1 } in
      found_rooms-AreInitial env (ask (env.outcome s.tick) rows) asked h
