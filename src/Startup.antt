-- ===== src/Startup.antt =====
-- How the services start: the settings that mi-servicio/main.go, inventario-service/main.go and
-- inventario-service/internal/config/config.go read from the environment, the wait for the database,
-- and the servers that the two `main` functions build. A variable that is not set reads as "".
pub mod Waiting
pub mod Settings
pub mod Seeding
pub mod Main
mod Examples
use Prim.Native.Char.{code}
use proyecto_sd_reserva_de_h.Base.{
  ℕ, zero, suc, ◌+◌, String, Bool, true, false, ◌||◌, ◌&&◌, List, [], ◌∷◌, Option, none, some, leb,
  ◌==◌, str_eq, trim_space, concat, if◌then◌else◌,
}
use proyecto_sd_reserva_de_h.Breaker.{new_circuit_breaker}
use proyecto_sd_reserva_de_h.Reservation.Tables.{Database}
use proyecto_sd_reserva_de_h.Reservation.Server.{ReservationServer}
use proyecto_sd_reserva_de_h.Reservation.Publisher.{Config as ReservationConfig}
use proyecto_sd_reserva_de_h.Inventory.Publisher.{Config as InventoryConfig}

abbrev pub Variables : Type 0
Variables = String → String

unfoldable pub get_env : Variables → String → String → String
get_env vars key fallback = let v = vars key in if str_eq v "" then fallback else v

-- `unicode.ToLower` where the result is ASCII and neither `i` nor `k`.
abbrev lower_code : ℕ → ℕ
lower_code n = if leb 65 n && leb n 90 then n + 32 else n

-- `strings.ToLower(s) == t`, for such a `t`.
unfoldable pub eq_lower : String → String → Bool
eq_lower String.[] String.[] = true
eq_lower String.[] (String.◌∷◌ d t) = false
eq_lower (String.◌∷◌ c s) String.[] = false
eq_lower (String.◌∷◌ c s) (String.◌∷◌ d t) = lower_code (code c) == code d && eq_lower s t

abbrev pub is_yes : String → Bool
is_yes v =
    eq_lower v "true"
    || (eq_lower v "1" || (eq_lower v "yes" || (eq_lower v "y" || eq_lower v "on")))

abbrev is_no : String → Bool
is_no v =
    eq_lower v "false"
    || (eq_lower v "0" || (eq_lower v "no" || (eq_lower v "n" || eq_lower v "off")))

-- `getEnvBool` of mi-servicio/main.go.
unfoldable pub reservation_get_env_bool : Variables → String → Bool → Bool
reservation_get_env_bool vars key fallback =
    let v = trim_space (vars key) in if is_yes v then true else if is_no v then false else fallback

abbrev pub is_one_of : String → List String → Bool
is_one_of v [] = false
is_one_of v (word ∷ words) = str_eq v word || is_one_of v words

abbrev pub yes_words : List String
yes_words = "true" ∷ "TRUE" ∷ "1" ∷ "yes" ∷ "YES" ∷ "y" ∷ "Y" ∷ "on" ∷ "ON" ∷ []

-- `getEnvBool` of inventario-service/main.go.
unfoldable pub inventory_get_env_bool : Variables → String → Bool → Bool
inventory_get_env_bool vars key fallback =
    let v = vars key in if str_eq v "" then fallback else is_one_of v yes_words

-- The loop of pings: the number of the one that is answered, if any is, with `left` to go.
unfoldable pub ping_until : (ℕ → Option String) → ℕ → ℕ → Option ℕ
ping_until ping zero i = none
ping_until ping (suc left) i = elim (ping i) [
  | none ↦ some i
  | some e ↦ ping_until ping left (i + 1)
]

-- After fifteen errors the process ends.
unfoldable pub wait_for_database : (ℕ → Option String) → Option ℕ
unfolding ping_until
wait_for_database ping = ping_until ping 15 0

abbrev database_url : String → String → String → String → String → String
database_url user password host port name = concat "postgres://" (
    concat user (
      concat ":" (
        concat password (
          concat "@" (
            concat host
              (concat ":" (concat port (concat "/" (concat name "?sslmode=disable")))))))))

unfoldable pub reservation_database_url : Variables → String
unfolding get_env
reservation_database_url vars =
    database_url (get_env vars "RESERVAS_DB_USER" "postgres")
      (get_env vars "RESERVAS_DB_PASSWORD" "postgres") (get_env vars "RESERVAS_DB_HOST" "localhost")
      (get_env vars "RESERVAS_DB_PORT" "5432") (get_env vars "RESERVAS_DB_NAME" "reservas_service")

unfoldable pub inventory_database_url : Variables → String
unfolding get_env
inventory_database_url vars =
    database_url (get_env vars "DB_USER" "postgres") (get_env vars "DB_PASSWORD" "postgres")
      (get_env vars "DB_HOST" "localhost") (get_env vars "DB_PORT" "5432")
      (get_env vars "DB_NAME" "inventario_db")

unfoldable pub reservation_events_config : Variables → ReservationConfig
unfolding get_env reservation_get_env_bool
reservation_events_config vars = record {
  enabled = reservation_get_env_bool vars "KAFKA_ENABLED" false;
  bootstrap_servers = get_env vars "KAFKA_BOOTSTRAP_SERVERS" "kafka:9092";
  topic = get_env vars "KAFKA_RESERVATIONS_TOPIC" "origenx.reservations.events";
  client_id = get_env vars "KAFKA_CLIENT_ID" "reservation-service";
}

unfoldable pub inventory_events_config : Variables → InventoryConfig
unfolding get_env inventory_get_env_bool
inventory_events_config vars = record {
  enabled = inventory_get_env_bool vars "KAFKA_ENABLED" false;
  bootstrap_servers = get_env vars "KAFKA_BOOTSTRAP_SERVERS" "kafka:9092";
  topic = get_env vars "KAFKA_INVENTORY_TOPIC" "origenx.inventory.events";
  client_id = get_env vars "KAFKA_CLIENT_ID" "inventario-service";
}

-- The server that `main` of mi-servicio builds; `NewPublisher` never returns nil.
unfoldable pub new_reservation_server : {I : Type 0} → Database → I → ReservationServer I
new_reservation_server db inventory = record {
  db = db;
  inventory = inventory;
  user_breaker = new_circuit_breaker "user" 5 15000000000;
  inventory_breaker = new_circuit_breaker "inventory" 5 15000000000;
  notification_breaker = new_circuit_breaker "notification" 5 15000000000;
  has_publisher = true;
  tasks = [];
  metrics = [];
  tick = 0;
}

-- `Config` and `Load` of inventario-service/internal/config/config.go.
pub record ServiceConfig : Type 0 where
  pub db_host : String
  pub db_user : String
  pub db_password : String
  pub db_name : String
  pub db_port : String
  pub grpc_port : String

unfoldable pub load : Variables → ServiceConfig
unfolding get_env
load vars = record {
  db_host = get_env vars "DB_HOST" "localhost";
  db_user = get_env vars "DB_USER" "postgres";
  db_password = get_env vars "DB_PASSWORD" "postgres";
  db_name = get_env vars "DB_NAME" "inventario_db";
  db_port = get_env vars "DB_PORT" "5432";
  grpc_port = get_env vars "PORT" "50051";
}
