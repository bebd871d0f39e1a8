-- ===== src/Startup/Main.antt =====
-- The `main` functions of mi-servicio/main.go, inventario-service/main.go and
-- inventario-service/cmd/server/main.go, up to the call of `Serve`. Metrics servers, tracing and log
-- lines are left out; a `log.Fatalf` is an error with its message, that of a table without its cause.
pub mod Serving
use proyecto_sd_reserva_de_h.Base.{
  ℕ, String, List, [], ◌∷◌, Option, none, some, concat, Result, ok, err, Env,
}
use proyecto_sd_reserva_de_h.Reservation.Tables.{Database}
use proyecto_sd_reserva_de_h.Reservation.Server.{ReservationServer}
use proyecto_sd_reserva_de_h.Inventory.Tables.{Hotel, RoomType}
use proyecto_sd_reserva_de_h.Inventory.Publisher.{new_publisher}
use proyecto_sd_reserva_de_h.Inventory.Server.{InventoryServer}
use proyecto_sd_reserva_de_h.Inventory.Metrics.{initial_stock_updates}
use proyecto_sd_reserva_de_h.Startup.{
  Variables, get_env, wait_for_database, reservation_database_url, inventory_database_url,
  inventory_events_config, new_reservation_server, ServiceConfig, load,
}
use proyecto_sd_reserva_de_h.Startup.Seeding.{initialize_db}

-- The statements of `initializeReservationSchema`, by what they make.
pub data SchemaStatement : Type 0 where
  reservations_table saga_id_column user_created_at_index : SchemaStatement
  idempotency_key_column idempotency_key_index : SchemaStatement
  sagas_table saga_events_table saga_created_at_index : SchemaStatement

abbrev pub reservation_schema : List SchemaStatement
reservation_schema =
    SchemaStatement.reservations_table ∷ SchemaStatement.saga_id_column
    ∷ SchemaStatement.user_created_at_index ∷ SchemaStatement.idempotency_key_column
    ∷ SchemaStatement.idempotency_key_index ∷ SchemaStatement.sagas_table
    ∷ SchemaStatement.saga_events_table ∷ SchemaStatement.saga_created_at_index ∷ []

-- What the process meets outside: the errors of `sql.Open`, of each ping, of a statement, of
-- `grpc.Dial` and of `net.Listen`.
pub record Host : Type 0 where
  pub open_database : String → Option String
  pub ping : ℕ → Option String
  pub execute_schema : SchemaStatement → Option String
  pub dial : String → Option String
  pub listen : String → Option String

infixl 5 ◌>>=◌ ◌>>◌
abbrev pub ◌>>=◌ : {A B : Type 0} → Result String A → (A → Result String B) → Result String B
err e >>= f = err e
ok a >>= f = f a

abbrev pub ◌>>◌ : {A B : Type 0} → Result String A → Result String B → Result String B
m >> k = m >>= λ _. k

-- `if err != nil { log.Fatalf(…) }`.
abbrev pub must : String → Option String → Result String (Unit {0})
must message none = ok tt
must message (some e) = err (concat message e)

-- The loop ends at the first error.
unfoldable pub first_error : {A : Type 0} → (A → Option String) → List A → Option String
first_error run [] = none
first_error run (x ∷ xs) = elim (run x) [ none ↦ first_error run xs | some e ↦ some e ]

abbrev pub must_answer : String → (ℕ → Option String) → Option ℕ → Result String (Unit {0})
must_answer message ping (some n) = ok tt
must_answer message ping none = must message (ping 14)

abbrev pub error_of : String → String → String
error_of service host =
    concat "Error conectando a " (concat service (concat " (" (concat host "): ")))

-- The port and the server.
unfoldable pub reservation_main :
    {I : Type 0} → Variables → Host → Database → I → Result String (String × ReservationServer I)
reservation_main vars host db inventory = do
  must "Error inicializando conexion: " (host.open_database (reservation_database_url vars))
  must_answer "No se pudo conectar a la BD tras 15 intentos: " host.ping
      (wait_for_database host.ping)
  must "Error inicializando esquema de reservas y saga: "
      (first_error host.execute_schema reservation_schema)
  let users = get_env vars "USER_SERVICE_HOST" "localhost:9090"
  must (error_of "Usuarios" users) (host.dial users)
  let stocks = get_env vars "INVENTORY_SERVICE_HOST" "localhost:50053"
  must (error_of "Inventario" stocks) (host.dial stocks)
  let mails = get_env vars "NOTIFICATION_SERVICE_HOST" "localhost:50051"
  must (error_of "Notificaciones" mails) (host.dial mails)
  let port = get_env vars "PORT" "50052"
  must (concat "No se pudo escuchar en :" (concat port ": ")) (host.listen (concat ":" port))
  ok (port, new_reservation_server db inventory)

module _ {Price : Type 0} where
  unfoldable pub new_inventory_server :
      Variables → List Hotel → List (RoomType Price) → InventoryServer Price
  new_inventory_server vars hotels room_types = record {
    hotels = hotels;
    room_types = room_types;
    event_publisher = some (new_publisher (inventory_events_config vars));
    sent = [];
    search_total = 0;
    search_empty_total = 0;
    stock_updates = initial_stock_updates;
    errors = [];
    tick = 0;
  }

  abbrev pub tables_made : Option (InventoryServer Price) → Result String (InventoryServer Price)
  tables_made none = err "Error creando tablas"
  tables_made (some s) = ok s

  unfoldable pub inventory_main :
      Variables
      → Host
      → Env
      → (ℕ → Price)
      → List Hotel
      → List (RoomType Price)
      → Result String (String × InventoryServer Price)
  inventory_main vars host env numeric hotels room_types = do
    must "Error inicializando conexion: " (host.open_database (inventory_database_url vars))
    must_answer "No se pudo conectar a la BD de inventario tras 15 intentos: " host.ping
        (wait_for_database host.ping)
    s ← tables_made (initialize_db env numeric (new_inventory_server vars hotels room_types))
    let port = get_env vars "PORT" "50053"
    must "Error al escuchar: " (host.listen (concat ":" port))
    ok (port, s)

-- `ConnectDB` of inventario-service/internal/db/db.go, by its DSN.
unfoldable pub data_source_name : ServiceConfig → String
data_source_name cfg = concat "host=" (
    concat cfg.db_host (
      concat " user=" (
        concat cfg.db_user (
          concat " password=" (
            concat cfg.db_password (
              concat " dbname=" (
                concat cfg.db_name
                  (concat " port=" (concat cfg.db_port " sslmode=disable TimeZone=UTC")))))))))

-- The port that the layered server listens on.
unfoldable pub layered_main : Variables → Host → Result String String
layered_main vars host = do
  let cfg = load vars
  must "Could not connect to database: failed to connect to database: "
      (host.open_database (data_source_name cfg))
  must (concat "Failed to listen on port " (concat cfg.grpc_port ": "))
      (host.listen (concat ":" cfg.grpc_port))
  ok cfg.grpc_port
