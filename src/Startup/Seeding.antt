-- ===== src/Startup/Seeding.antt =====
-- `initializeDB` of inventario-service/main.go. A table that is not there yet is an empty one; a price
-- is given by `numeric`, which reads a NUMERIC literal by its cents.
pub mod Rows
pub mod Tables
use proyecto_sd_reserva_de_h.Base.{
  ℕ, ◌+◌, String, Bool, true, false, ◌||◌, not, List, [], ◌∷◌, ◌++◌, Option, none, some, str_eq,
  find_row, length, ◌==◌, if◌then◌else◌, Result, ok, err, Outcome, done, refused, unacknowledged,
  Env, perform,
}
use proyecto_sd_reserva_de_h.Base.Int.{pos}
use proyecto_sd_reserva_de_h.Inventory.Tables.{Hotel, RoomType, has_id}
use proyecto_sd_reserva_de_h.Inventory.Server.{InventoryServer}
use proyecto_sd_reserva_de_h.Reservation.Tables.{exists}

abbrev pub seed_hotels : List Hotel
seed_hotels =
    record { id = "h1"; nombre = "Hotel Continental"; ubicacion = "New York" }
    ∷ record { id = "h2"; nombre = "Hotel California"; ubicacion = "California" }
    ∷ []

abbrev pub is_hotel : String → Hotel → Bool
is_hotel id h = str_eq h.id id

-- The reference of `hotel_id` to `hotels`; NULL refers to nothing.
abbrev pub refers : Option String → List Hotel → Bool
refers none hotels = true
refers (some id) hotels = exists (find_row (is_hotel id) hotels)

-- The error of `Scan` is dropped, and leaves the 0.
abbrev pub count_hotels : Outcome → List Hotel → ℕ
count_hotels done hotels = length hotels
count_hotels (refused e) hotels = 0
count_hotels (unacknowledged e) hotels = 0

-- What comes after a step that may end the process.
abbrev pub and_then : {A B : Type 0} → Option A → (A → Option B) → Option B
and_then none f = none
and_then (some a) f = f a

module _ {Price : Type 0} where
  abbrev pub seed_room_types : (ℕ → Price) → List (RoomType Price)
  seed_room_types numeric =
      record {
        id = "rt1";
        hotel_id = some "h1";
        nombre = "Suite Ejecutiva";
        precio_noche = numeric 25000;
        capacidad = pos 2;
        stock_total = pos 10;
      }
      ∷ record {
        id = "rt2";
        hotel_id = some "h1";
        nombre = "Habitacion Simple";
        precio_noche = numeric 10000;
        capacidad = pos 1;
        stock_total = pos 20;
      }
      ∷ record {
        id = "rt3";
        hotel_id = some "h2";
        nombre = "Deluxe King";
        precio_noche = numeric 18000;
        capacidad = pos 2;
        stock_total = pos 5;
      }
      ∷ []

  -- An INSERT takes all its rows or none: an id that is there refuses it.
  unfoldable pub insert_hotels :
      List Hotel → InventoryServer Price → Result String (Unit {0} × InventoryServer Price)
  insert_hotels [] s = ok (tt, s)
  insert_hotels (h ∷ rows) s =
      let rest = insert_hotels rows (record s { hotels = s.hotels ++ (h ∷ []) }) in
      if exists (find_row (is_hotel h.id) s.hotels)
      then err "duplicate key value violates unique constraint \"hotels_pkey\""
      else rest

  -- So does a room type of no hotel.
  unfoldable pub insert_room_types :
      List (RoomType Price)
      → InventoryServer Price
      → Result String (Unit {0} × InventoryServer Price)
  insert_room_types [] s = ok (tt, s)
  insert_room_types (r ∷ rows) s =
      let rest = insert_room_types rows (record s { room_types = s.room_types ++ (r ∷ []) }) in
      if exists (find_row (has_id r.id) s.room_types) || not (refers r.hotel_id s.hotels)
      then err "insert or update on table \"room_types\" violates a constraint"
      else rest

  -- `CREATE TABLE IF NOT EXISTS`; an error ends the process.
  abbrev pub table_created : Outcome → InventoryServer Price → Option (InventoryServer Price)
  table_created done s = some (record s { tick = s.tick + 1 })
  table_created (refused e) s = none
  table_created (unacknowledged e) s = none

  -- An `Exec` whose result is not read.
  unfoldable pub try_insert :
      Env
      → (InventoryServer Price → Result String (Unit {0} × InventoryServer Price))
      → InventoryServer Price
      → InventoryServer Price
  try_insert env statement s = record (perform (env.outcome s.tick) statement s).1 {
    tick = s.tick + 1;
  }

  -- The test data of an empty table of hotels.
  unfoldable pub seed : Env → (ℕ → Price) → InventoryServer Price → InventoryServer Price
  seed env numeric s =
      let counted = record s { tick = s.tick + 1 } in
      if count_hotels (env.outcome s.tick) s.hotels == 0
      then try_insert env (insert_room_types (seed_room_types numeric))
          (try_insert env (insert_hotels seed_hotels) counted)
      else counted

  unfoldable pub initialize_db :
      Env → (ℕ → Price) → InventoryServer Price → Option (InventoryServer Price)
  initialize_db env numeric s =
      and_then (table_created (env.outcome s.tick) s)
        (λ t. and_then (table_created (env.outcome t.tick) t) (λ u. some (seed env numeric u)))
