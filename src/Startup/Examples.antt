-- ===== src/Startup/Examples.antt =====
-- Tests of the start of the services, and the theorems at concrete settings.
use proyecto_sd_reserva_de_h.Base.{
  ℕ, ◌≡◌, ◌<◌, ◌⊎◌, refl, String, true, false, Option, none, some, str_eq, ◌==◌, if◌then◌else◌,
  trim_space, [], find_row, perform, done, length, ◌≢◌, ok,
}
use proyecto_sd_reserva_de_h.Inventory.Publisher.{noop, new_publisher}
use proyecto_sd_reserva_de_h.Inventory.Stock.{stock_of}
use proyecto_sd_reserva_de_h.Inventory.Server.{InventoryServer}
use proyecto_sd_reserva_de_h.Inventory.History.{IsStocked, Holds}
use proyecto_sd_reserva_de_h.Inventory.Samples.{calm}
use proyecto_sd_reserva_de_h.Startup.Seeding.{
  seed_hotels, seed_room_types, initialize_db, seed, try_insert, insert_room_types, insert_hotels,
}
use proyecto_sd_reserva_de_h.Startup.Seeding.Rows.{Keeps}
use proyecto_sd_reserva_de_h.Startup.Main.{Host, new_inventory_server, inventory_main}
use proyecto_sd_reserva_de_h.Startup.Main.Serving.{inventory_main_serves}
use proyecto_sd_reserva_de_h.Inventory.Metrics.{initial_stock_updates}
use proyecto_sd_reserva_de_h.Startup.{
  Variables, get_env, inventory_events_config, eq_lower, reservation_get_env_bool,
  inventory_get_env_bool, ping_until, wait_for_database,
}
use proyecto_sd_reserva_de_h.Startup.Waiting.{wait_for_database_first}
use proyecto_sd_reserva_de_h.Startup.Settings.{yes_for_both}

-- The third ping is answered.
abbrev third : ℕ → Option String
third n = if n == 2 then none else some "connection refused"

third_found : wait_for_database third ≡ some 2
unfolding wait_for_database ping_until
third_found = refl

wait_for_database_first_example :
    ((k : ℕ) × (wait_for_database third ≡ some k)
      × (k < 15)
      × (third k ≡ none)
      × ((m : ℕ) → m < k → (e : String) × (third m ≡ some e)))
    ⊎ ((wait_for_database third ≡ none) × ((m : ℕ) → m < 15 → (e : String) × (third m ≡ some e)))
wait_for_database_first_example = wait_for_database_first third

abbrev set_to : String → Variables
set_to value key = if str_eq key "KAFKA_ENABLED" then value else ""

yes_for_both_example : reservation_get_env_bool (set_to "YES") "KAFKA_ENABLED" false ≡ true
unfolding inventory_get_env_bool
yes_for_both_example = yes_for_both (set_to "YES") "KAFKA_ENABLED" false refl

-- Not the other way around.
read_apart :
    (reservation_get_env_bool (set_to "True") "KAFKA_ENABLED" false ≡ true)
    × (inventory_get_env_bool (set_to "True") "KAFKA_ENABLED" false ≡ false)
unfolding reservation_get_env_bool inventory_get_env_bool eq_lower trim_space
read_apart = (refl, refl)

-- Where every outside call goes well.
abbrev willing : Host
willing = record {
  open_database = λ url. none;
  ping = λ n. none;
  execute_schema = λ statement. none;
  dial = λ host. none;
  listen = λ address. none;
}

abbrev unset : Variables
unset key = ""

abbrev started : InventoryServer ℕ
started = record {
  hotels = seed_hotels;
  room_types = seed_room_types (λ cents. cents);
  event_publisher = some noop;
  sent = [];
  search_total = 0;
  search_empty_total = 0;
  stock_updates = initial_stock_updates;
  errors = [];
  tick = 5;
}

inventory_starts : inventory_main unset willing calm (λ cents. cents) [] [] ≡ ok ("50053", started)
unfolding inventory_main wait_for_database initialize_db get_env seed new_inventory_server
    try_insert perform insert_room_types find_row insert_hotels new_publisher
    inventory_events_config
inventory_starts = refl

-- After a start that inserted the hotels only, a later one inserts nothing.
abbrev without_rooms : InventoryServer ℕ
without_rooms = record started { room_types = []; tick = 3 }

inventory_starts_without_rooms :
    inventory_main unset willing calm (λ cents. cents) seed_hotels [] ≡ ok ("50053", without_rooms)
unfolding inventory_main wait_for_database initialize_db get_env seed new_inventory_server
    try_insert perform insert_room_types find_row insert_hotels new_publisher
    inventory_events_config
inventory_starts_without_rooms = refl

no_rooms-Holds : Holds IsStocked (new_inventory_server {Price = ℕ} unset seed_hotels [])
unfolding new_inventory_server stock_of find_row
no_rooms-Holds = ((λ key v e. absurd (cc e)), tt)

inventory_main_serves_example :
    ((k : ℕ) × (k < 15) × (willing.ping k ≡ none))
    × Holds IsStocked without_rooms
    × Keeps [] without_rooms.room_types
    × (calm.outcome 2 ≡ done
        → length seed_hotels ≢ 0
        → (without_rooms.hotels ≡ seed_hotels) × (without_rooms.room_types ≡ []))
inventory_main_serves_example =
    inventory_main_serves unset willing calm (λ cents. cents) seed_hotels [] "50053" without_rooms
      no_rooms-Holds inventory_starts_without_rooms
