-- ===== src/Startup/Main/Serving.antt =====
-- What holds when a `main` of mi-servicio/main.go or inventario-service/main.go comes to serve.
use mathlib.Core.Path.{subst, ◌∙◌, ap}
use proyecto_sd_reserva_de_h.Base.{
  ℕ, ◌<◌, ◌≡◌, ◌≢◌, refl, sym, inl, inr, arith, String, List, Option, none, some, concat, length,
  Result, ok, err, Env, done,
}
use proyecto_sd_reserva_de_h.Reservation.Tables.{Database}
use proyecto_sd_reserva_de_h.Reservation.Server.{ReservationServer}
use proyecto_sd_reserva_de_h.Inventory.Tables.{Hotel, RoomType}
use proyecto_sd_reserva_de_h.Inventory.Server.{InventoryServer}
use proyecto_sd_reserva_de_h.Inventory.History.{IsStocked, Holds}
use proyecto_sd_reserva_de_h.Startup.{
  Variables, get_env, wait_for_database, reservation_database_url, inventory_database_url,
  new_reservation_server,
}
use proyecto_sd_reserva_de_h.Startup.Waiting.{wait_for_database_first}
use proyecto_sd_reserva_de_h.Startup.Seeding.{initialize_db}
use proyecto_sd_reserva_de_h.Startup.Seeding.Rows.{Keeps}
use proyecto_sd_reserva_de_h.Startup.Seeding.Tables.{initialize_db-Seeds}
use proyecto_sd_reserva_de_h.Startup.Main.{
  Host, ◌>>=◌, error_of, must, must_answer, first_error, reservation_schema, reservation_main,
  new_inventory_server, tables_made, inventory_main,
}

went_on :
    {A B : Type 0} (m : Result String A) (f : A → Result String B) (b : B)
    → (m >>= f) ≡ ok b
    → (a : A) × (m ≡ ok a) × (f a ≡ ok b)
went_on (err e) f b q = absurd (cc q)
went_on (ok a) f b q = (a, refl, q)

answered :
    (message : String) (ping : ℕ → Option String) (found : Option ℕ)
    → found ≡ wait_for_database ping
    → must_answer message ping found ≡ ok tt
    → (k : ℕ) × (k < 15) × (ping k ≡ none)
answered message ping found q e = elim (wait_for_database_first ping) [
  | inl (k, p, b, n, f) ↦ (k, b, n)
  | inr (p, f) ↦
      let (x, last) = f 14 (omega arith) in
      let none_found = ap (must_answer message ping) (q ∙ p) in
      let fails = ap (must message) last in absurd (cc (e, none_found, fails))
]

made :
    {Price : Type 0} (o : Option (InventoryServer Price)) (s : InventoryServer Price)
    → tables_made o ≡ ok s
    → o ≡ some s
made none s e = absurd (cc e)
made (some t) s e = ground arith

no_error : (message : String) (o : Option String) (a : Unit {0}) → must message o ≡ ok a → o ≡ none
no_error message none a e = refl
no_error message (some x) a e = absurd (cc e)

same_server :
    {S : Type 0} (port port' : String) (s t : S)
    → ◌≡◌ {A = Result String (String × S)} (ok (port, s)) (ok (port', t))
    → s ≡ t
same_server port port' s t e = cc e

module _ {Price : Type 0} where
  -- When the inventory service comes to serve, from tables with unique ids and no negative stock, one
  -- of the first fifteen pings of its database was answered, its tables are of that kind, every stock
  -- that was there is unchanged, and where there were hotels, and they were counted, so are the tables:
  -- also where the room types of an earlier start are missing.
  pub inventory_main_serves :
      (vars : Variables) (host : Host) (env : Env) (numeric : ℕ → Price) (hotels : List Hotel)
      (room_types : List (RoomType Price)) (port : String) (s : InventoryServer Price)
      → Holds IsStocked (new_inventory_server vars hotels room_types)
      → inventory_main vars host env numeric hotels room_types ≡ ok (port, s)
      → ((k : ℕ) × (k < 15) × (host.ping k ≡ none))
        × Holds IsStocked s
        × Keeps room_types s.room_types
        × (env.outcome 2 ≡ done
            → length hotels ≢ 0
            → (s.hotels ≡ hotels) × (s.room_types ≡ room_types))
  unfolding inventory_main new_inventory_server
  inventory_main_serves vars host env numeric hotels room_types port s h e =
      let (o, p1, e1) =
        went_on
          (must "Error inicializando conexion: " (host.open_database (inventory_database_url vars)))
          _ (port, s) e in
      let (a, p2, e2) =
        went_on
          (must_answer "No se pudo conectar a la BD de inventario tras 15 intentos: " host.ping
            (wait_for_database host.ping))
          _ (port, s) e1 in
      let (t, p3, e3) =
        went_on
          (tables_made (initialize_db env numeric (new_inventory_server vars hotels room_types))) _
          (port, s) e2 in
      let (l, p4, e4) =
        went_on
          (must "Error al escuchar: " (host.listen (concat ":" (get_env vars "PORT" "50053")))) _
          (port, s) e3 in
      let seeded =
        initialize_db-Seeds env numeric (new_inventory_server vars hotels room_types) t h
          (made (initialize_db env numeric (new_inventory_server vars hotels room_types)) t p3) in
      let at_s =
        subst
          (λ (x : InventoryServer Price).
            Holds IsStocked x
            × Keeps room_types x.room_types
            × (env.outcome 2 ≡ done
                → length hotels ≢ 0
                → (x.hotels ≡ hotels) × (x.room_types ≡ room_types)))
          (same_server _ port t s e4) seeded in
      (answered _ host.ping (wait_for_database host.ping) refl p2, at_s.0, at_s.1, at_s.2)

-- When the reservation service comes to serve, one of the first fifteen pings of its database was
-- answered, every statement of its schema was accepted, and the server is a new one.
pub reservation_main_serves :
    {I : Type 0} (vars : Variables) (host : Host) (db : Database) (inventory : I) (port : String)
    (s : ReservationServer I)
    → reservation_main vars host db inventory ≡ ok (port, s)
    → ((k : ℕ) × (k < 15) × (host.ping k ≡ none))
      × (first_error host.execute_schema reservation_schema ≡ none)
      × (s ≡ new_reservation_server db inventory)
unfolding reservation_main
reservation_main_serves vars host db inventory port s e =
    let users = get_env vars "USER_SERVICE_HOST" "localhost:9090" in
    let stocks = get_env vars "INVENTORY_SERVICE_HOST" "localhost:50053" in
    let mails = get_env vars "NOTIFICATION_SERVICE_HOST" "localhost:50051" in
    let listens = get_env vars "PORT" "50052" in
    let waited : String = "No se pudo conectar a la BD tras 15 intentos: " in
    let (o, p1, e1) =
      went_on
        (must "Error inicializando conexion: " (host.open_database (reservation_database_url vars)))
        _ (port, s) e in
    let (a, p2, e2) =
      went_on (must_answer waited host.ping (wait_for_database host.ping)) _ (port, s) e1 in
    let (c, p3, e3) =
      went_on
        (must "Error inicializando esquema de reservas y saga: "
          (first_error host.execute_schema reservation_schema))
        _ (port, s) e2 in
    let (u, p4, e4) = went_on (must (error_of "Usuarios" users) (host.dial users)) _ (port, s) e3 in
    let (i, p5, e5) =
      went_on (must (error_of "Inventario" stocks) (host.dial stocks)) _ (port, s) e4 in
    let (n, p6, e6) =
      went_on (must (error_of "Notificaciones" mails) (host.dial mails)) _ (port, s) e5 in
    let (l, p7, e7) =
      went_on
        (must (concat "No se pudo escuchar en :" (concat listens ": "))
          (host.listen (concat ":" listens)))
        (λ x. ok (listens, new_reservation_server db inventory)) (port, s) e6 in
    (
      answered waited host.ping (wait_for_database host.ping) refl p2,
      no_error "Error inicializando esquema de reservas y saga: "
          (first_error host.execute_schema reservation_schema) c p3,
      sym (same_server listens port (new_reservation_server db inventory) s e7),
    )
