-- ===== src/Inventory/Samples.antt =====
-- Test data of the inventory service: the rows that inventario-service/main.go inserts into an empty
-- database, with prices in cents, and an environment where all goes well.
use proyecto_sd_reserva_de_h.Base.{
  ℕ, ◌≡◌, ◌≢◌, refl, find_row, true, not, [], ◌∷◌, some, String, arith, done, unacknowledged, Env,
}
use proyecto_sd_reserva_de_h.Base.Int.{ℤ, pos, ◌≤ℤ◌, ltb_ℤ}
use proyecto_sd_reserva_de_h.Inventory.Publisher.{noop}
use proyecto_sd_reserva_de_h.Inventory.Tables.{Hotel, RoomType}
use proyecto_sd_reserva_de_h.Inventory.Stock.{HasUniqueIds, stock_of}
use proyecto_sd_reserva_de_h.Inventory.Server.{InventoryServer}
use proyecto_sd_reserva_de_h.Inventory.Metrics.{initial_stock_updates}
use proyecto_sd_reserva_de_h.Inventory.Contract.{view}
use proyecto_sd_reserva_de_h.Inventory.History.{IsStocked}

-- Every call goes well; the metrics library takes what is not negative.
abbrev pub calm : Env
calm = record {
  outcome = λ n. done;
  clock = λ n. n;
  uuid = λ n. "id";
  timestamp = λ n. "2026-07-05T16:10:00Z";
  counter_accepts = λ q. not (ltb_ℤ q (pos 0));
}

abbrev pub suite : RoomType ℕ
suite = record {
  id = "rt1";
  hotel_id = some "h1";
  nombre = "Suite Ejecutiva";
  precio_noche = 25000;
  capacidad = pos 2;
  stock_total = pos 10;
}

abbrev pub deluxe : RoomType ℕ
deluxe = record {
  id = "rt3";
  hotel_id = some "h2";
  nombre = "Deluxe King";
  precio_noche = 18000;
  capacidad = pos 2;
  stock_total = pos 5;
}

abbrev pub continental : Hotel
continental = record { id = "h1"; nombre = "Hotel Continental"; ubicacion = "New York" }

abbrev pub california : Hotel
california = record { id = "h2"; nombre = "Hotel California"; ubicacion = "California" }

abbrev pub server : InventoryServer ℕ
server = record {
  hotels = continental ∷ california ∷ [];
  room_types = suite ∷ deluxe ∷ [];
  event_publisher = some noop;
  sent = [];
  search_total = 0;
  search_empty_total = 0;
  stock_updates = initial_stock_updates;
  errors = [];
  tick = 0;
}

pub server-HasUniqueIds : HasUniqueIds server.room_types
unfolding find_row
server-HasUniqueIds = (refl, (refl, tt))

pub server-IsStocked : IsStocked (view server.room_types)
unfolding stock_of find_row
server-IsStocked key v e = ground arith

pub deluxe_stock : stock_of "rt3" server.room_types ≡ some (pos 5)
unfolding stock_of find_row
deluxe_stock = refl

pub calm_done : (n : ℕ) (e : String) → calm.outcome n ≢ unacknowledged e
calm_done n e h = cc

pub calm_counts : (q : ℤ) → pos 0 ≤ℤ q → calm.counter_accepts q ≡ true
calm_counts q h = ground arith
