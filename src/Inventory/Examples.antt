-- ===== src/Inventory/Examples.antt =====
-- Tests of the inventory service, and the theorems at concrete servers.
use mathlib.Core.List.{Memᴰ, Perm}
use mathlib.Core.List.Perm
use proyecto_sd_reserva_de_h.Base.{
  inl, map, trim_space, ℕ, ◌≡◌, refl, str_eq, concat, update_rows, ask, true, List, [], ◌∷◌, some,
  String, arith, ltb, leb, All, done, reply, panics,
}
use proyecto_sd_reserva_de_h.Base.Int.{ℤ, pos, negsuc, ◌+ℤ◌, ◌-ℤ◌, ◌≤ℤ◌}
use proyecto_sd_reserva_de_h.Inventory.Events.{new_inventory_stock_blocked}
use proyecto_sd_reserva_de_h.Inventory.Tables.{
  Engine, SearchRequest, RoomTypeAvailability, search_conditions, select_rooms, block_rows,
  release_rows, UpdateStockRequest, availability, total_stock,
}
use proyecto_sd_reserva_de_h.Inventory.Stock.{stock_of}
use proyecto_sd_reserva_de_h.Inventory.Publisher.{KafkaPublisher, kafka, publish}
use proyecto_sd_reserva_de_h.Inventory.Server.{InventoryServer, update_stock}
use proyecto_sd_reserva_de_h.Inventory.Server.Messages.{Tells, type_of_answer, update_stock-Tells}
use proyecto_sd_reserva_de_h.Inventory.Contract.{view, contract, Refines, update_stock-Refines}
use proyecto_sd_reserva_de_h.Inventory.Contract.Promise.{Promised, update_stock-Promised}
use proyecto_sd_reserva_de_h.Inventory.History.{
  serve_all, blocked, released, Holds, IsStocked, serve_all-Holds,
}
use proyecto_sd_reserva_de_h.Inventory.Accounts.{serve_all_balances, no_overbooking}
use proyecto_sd_reserva_de_h.Inventory.Metrics.{available_rooms, counter}
use proyecto_sd_reserva_de_h.Inventory.Metrics.Gauge.{gauge_agrees}
use proyecto_sd_reserva_de_h.Inventory.Negative.{negative_release}
use proyecto_sd_reserva_de_h.Inventory.Search.{search_available_rooms, scan_rooms}
use proyecto_sd_reserva_de_h.Inventory.Search.Results.{
  Meets, Offered, search_sound, search_complete,
}
use proyecto_sd_reserva_de_h.Inventory.Handler.Search.{
  handle_search, without_name, handle_search_agrees,
}
use proyecto_sd_reserva_de_h.Inventory.Samples.{
  calm, deluxe, california, server, server-HasUniqueIds, server-IsStocked, deluxe_stock, calm_done,
  calm_counts,
}

abbrev block : String → ℤ → UpdateStockRequest
block key n = record { room_type_id = key; cantidad = n; accion = "BLOQUEAR" }

abbrev release : String → ℤ → UpdateStockRequest
release key n = record { room_type_id = key; cantidad = n; accion = "LIBERAR" }

-- One more than is left is refused.
abbrev requests : List UpdateStockRequest
requests =
    block "rt3" (pos 2) ∷ block "rt3" (pos 4) ∷ release "rt3" (pos 1) ∷ block "rt3" (pos 4) ∷ []

-- The second block is refused.
requests_books : blocked "rt3" (serve_all calm requests server).0 ≡ pos 6
unfolding serve_all update_stock block_rows update_rows ◌-ℤ◌ ◌+ℤ◌ release_rows
requests_books = refl

update_stock-Refines_example :
    Refines
      (update_stock calm (block "rt3" (pos 2)) server)
      (contract calm done (block "rt3" (pos 2)) (view server.room_types))
update_stock-Refines_example =
    update_stock-Refines calm (block "rt3" (pos 2)) server server-HasUniqueIds

update_stock-Promised_example :
    Promised done
      (block "rt3" (pos 2))
      "rt1"
      (pos 5)
      server.room_types
      (update_stock calm (block "rt3" (pos 2)) server)
unfolding ◌-ℤ◌
update_stock-Promised_example =
    update_stock-Promised calm (block "rt3" (pos 2)) server (pos 5) "rt1" server-HasUniqueIds
      deluxe_stock (omega arith) (inl refl) refl refl refl

serve_all-Holds_example : Holds IsStocked (serve_all calm requests server).1
serve_all-Holds_example =
    serve_all-Holds calm requests server (omega arith) (server-IsStocked, server-HasUniqueIds)

serve_all_balances_example :
    (w : ℤ) × (stock_of "rt3" (serve_all calm requests server).1.room_types ≡ some w)
    × (w +ℤ blocked "rt3" (serve_all calm requests server).0
        ≡ pos 5 +ℤ released "rt3" (serve_all calm requests server).0)
serve_all_balances_example =
    serve_all_balances calm requests server "rt3" (pos 5) calm_done calm_counts (omega arith)
      server-HasUniqueIds deluxe_stock

no_overbooking_example :
    blocked "rt3" (serve_all calm requests server).0
    ≤ℤ pos 5 +ℤ released "rt3" (serve_all calm requests server).0
no_overbooking_example =
    no_overbooking calm requests server "rt3" (pos 5) calm_done calm_counts (omega arith)
      (server-IsStocked, server-HasUniqueIds) deluxe_stock

abbrev writing : KafkaPublisher
writing = record {
  enabled = true;
  topic = "inventory-events";
  writer = record {
    addresses = "kafka:9092" ∷ [];
    topic = "inventory-events";
    client_id = "inventario-service";
  };
}

abbrev telling : InventoryServer ℕ
telling = record server { event_publisher = some (kafka writing) }

update_stock-Tells_example :
    let (a, t) = update_stock calm (block "rt3" (pos 2)) telling in
    Tells (block "rt3" (pos 2)) (type_of_answer (block "rt3" (pos 2)) a) [] t.sent
unfolding trim_space
update_stock-Tells_example =
    update_stock-Tells calm (block "rt3" (pos 2)) writing refl telling refl refl refl
      (λ e p. absurd (cc p))

tells_of_a_block :
    map {B = String × String}
      (λ m. (m.key, m.value.event_type))
      (update_stock calm (block "rt3" (pos 2)) telling).1.sent
    ≡ ("rt3", "InventoryStockBlocked") ∷ []
unfolding update_stock update_rows block_rows publish ◌-ℤ◌ trim_space new_inventory_stock_blocked
tells_of_a_block = refl

gauge_agrees_example :
    let t = (serve_all calm requests server).1 in
    available_rooms done (some t.room_types) +ℤ counter "bloquear" t.stock_updates
    ≡ available_rooms done (some server.room_types) +ℤ counter "liberar" t.stock_updates
gauge_agrees_example =
    gauge_agrees calm requests server calm_done calm_counts (omega arith) server-HasUniqueIds refl

rooms_at_start : available_rooms done (some server.room_types) ≡ pos 15
unfolding available_rooms ask ◌+ℤ◌ total_stock
rooms_at_start = refl

-- The deluxe rooms fall to -3.
negative_release_example :
    ((update_stock calm (release "rt3" (negsuc 7)) server).0 ≡ panics)
    × (stock_of "rt3" (update_stock calm (release "rt3" (negsuc 7)) server).1.room_types
        ≡ some (pos 5 +ℤ negsuc 7))
unfolding ◌+ℤ◌
negative_release_example =
    negative_release calm (release "rt3" (negsuc 7)) server (pos 5) server-HasUniqueIds refl refl
      refl deluxe_stock refl

-- Prices in cents, and a pattern match that looks for the text itself.
abbrev cents : Engine
cents = record {
  Price = ℕ;
  zero_price = 0;
  ltb_price = ltb;
  leb_price = leb;
  ilike = λ s pattern_text. str_eq (concat "%" (concat s "%")) pattern_text;
}

abbrev cheap_in_california : SearchRequest ℕ
cheap_in_california = record {
  fecha_inicio = "2026-07-10";
  fecha_fin = "2026-07-12";
  ubicacion = "California";
  precio_max = 20000;
  capacidad = pos 2;
}

deluxe-Meets : Meets cents cheap_in_california california deluxe
deluxe-Meets = record { place = λ h. refl; price = λ h. refl; capacity = λ h. omega arith }

cheap_rooms :
    (search_available_rooms cents calm cheap_in_california server).0
    ≡ reply (availability cents deluxe california ∷ [])
unfolding search_available_rooms search_conditions select_rooms scan_rooms ask
cheap_rooms = refl

search_sound_example :
    All
      (Offered cents cheap_in_california server.hotels server.room_types)
      (availability cents deluxe california ∷ [])
search_sound_example = search_sound cents calm cheap_in_california server _ cheap_rooms

search_complete_example :
    (rooms : List (RoomTypeAvailability ℕ)) × ((search_available_rooms cents calm
        cheap_in_california server).0
      ≡ reply rooms)
    × Memᴰ (availability cents deluxe california) rooms
search_complete_example =
    search_complete cents calm cheap_in_california server deluxe california (λ n. refl)
      (Memᴰ.tail (Memᴰ.head refl)) (Memᴰ.tail (Memᴰ.head refl)) refl (omega arith) deluxe-Meets

handle_search_agrees_example :
    (rooms : List (RoomTypeAvailability ℕ)) × ((search_available_rooms cents calm
        cheap_in_california server).0
      ≡ reply rooms)
    × (replied : List (RoomTypeAvailability ℕ)) × (handle_search cents
          (λ found. found)
          done
          cheap_in_california
          server.hotels
          server.room_types
        ≡ reply replied)
    × Perm replied (map (without_name cents) rooms)
handle_search_agrees_example =
    handle_search_agrees cents (λ found. found) calm cheap_in_california server
      (λ found. Perm.refl found) (λ n. refl) ((refl, refl), ((refl, refl), tt))
