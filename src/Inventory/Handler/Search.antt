-- ===== src/Inventory/Handler/Search.antt =====
-- `SearchAvailableRooms` of the layered inventory server: inventario-service/internal/repository,
-- internal/service, internal/transport/grpc/handler.go, and internal/domain/room_type.go. Hotels of
-- room types are given here too by a column that may be NULL, and gorm's query is the same join.
use mathlib.Core.Path.{subst}
use mathlib.Core.List.{Perm}
use mathlib.Core.List.Perm
use proyecto_sd_reserva_de_h.Base.{
  ℕ, ◌≡◌, refl, String, true, List, [], ◌∷◌, ◌++◌, str_eq, concat, if◌then◌else◌, Result, ok, err,
  Outcome, done, Env, ask, Answer, reply, fail, Code, status_error, All, map, Bool-cases, inl, inr,
}
use proyecto_sd_reserva_de_h.Base.Int.{ℤ, pos, ltb_ℤ, in_int4, to_int32, to_int32_of_int4}
use proyecto_sd_reserva_de_h.Inventory.Tables.{
  Engine, Hotel, RoomType, SearchRequest, RoomTypeAvailability, Condition, ubicacion_ilike,
  precio_le, capacidad_ge, search_conditions, is_match, join_hotels, select_rooms,
}
use proyecto_sd_reserva_de_h.Inventory.Server.{InventoryServer}
use proyecto_sd_reserva_de_h.Inventory.Search.{search_available_rooms}
use proyecto_sd_reserva_de_h.Inventory.Search.Results.{searches_all}

-- A row of the result of the repository.
pub record RoomAvailability (Price : Type 0) : Type 0 where
  pub hotel_id : String
  pub nombre_hotel : String
  pub room_type_id : String
  pub precio_noche : Price
  pub capacidad : ℤ  -- int
  pub stock_disponible : ℤ  -- int

abbrev to_row : {Price : Type 0} → RoomTypeAvailability Price → RoomAvailability Price
to_row a = record {
  hotel_id = a.hotel_id;
  nombre_hotel = a.nombre_hotel;
  room_type_id = a.room_type_id;
  precio_noche = a.precio_noche;
  capacidad = a.capacidad;
  stock_disponible = a.stock_disponible;
}

-- The field `RoomTypeName` is not set.
unfoldable pub to_room : {Price : Type 0} → RoomAvailability Price → RoomTypeAvailability Price
to_room r = record {
  hotel_id = r.hotel_id;
  nombre_hotel = r.nombre_hotel;
  room_type_id = r.room_type_id;
  precio_noche = r.precio_noche;
  capacidad = to_int32 r.capacidad;
  stock_disponible = to_int32 r.stock_disponible;
  room_type_name = "";
}

module _ (engine : Engine) where
  open engine use {Price, zero_price, ltb_price}

  -- The conditions that the repository adds to its query.
  unfoldable pub repository_conditions : String → Price → ℤ → List (Condition Price)
  repository_conditions location max_price min_capacity =
      (if str_eq location "" then [] else ubicacion_ilike (concat "%" (concat location "%")) ∷ [])
      ++ ((if ltb_price zero_price max_price then precio_le max_price ∷ [] else [])
          ++ (if ltb_ℤ (pos 0) min_capacity then capacidad_ge min_capacity ∷ [] else []))

  -- The query names no order: `arrange` is the one that the engine returns its rows in.
  unfoldable pub repository_search :
      (List (RoomAvailability Price) → List (RoomAvailability Price))
      → Outcome
      → String
      → Price
      → ℤ
      → List Hotel
      → List (RoomType Price)
      → Result String (List (RoomAvailability Price))
  unfolding repository_conditions
  repository_search arrange outcome location max_price min_capacity hotels rows =
      elim (ask outcome (
        arrange (
          map to_row (
            select_rooms engine (repository_conditions location max_price min_capacity) hotels
              rows)))) [
                | ok found ↦ ok found
                | err e ↦ err (concat "error querying available rooms: " e)
              ]

  -- `SearchAvailableRooms` of the service.
  abbrev service_search :
      (List (RoomAvailability Price) → List (RoomAvailability Price))
      → Outcome
      → String
      → Price
      → ℤ
      → List Hotel
      → List (RoomType Price)
      → Result String (List (RoomAvailability Price))
  service_search arrange outcome location max_price min_capacity hotels rows =
      repository_search arrange outcome location max_price min_capacity hotels rows

  unfoldable pub handle_search :
      (List (RoomAvailability Price) → List (RoomAvailability Price))
      → Outcome
      → SearchRequest Price
      → List Hotel
      → List (RoomType Price)
      → Answer (List (RoomTypeAvailability Price))
  unfolding repository_search to_room
  handle_search arrange outcome req hotels rows =
      elim (service_search arrange outcome req.ubicacion req.precio_max req.capacidad hotels rows) [
        | err e ↦ fail (status_error Code.internal (concat "failed to search rooms: " e))
        | ok rooms ↦ reply (map to_room rooms)
      ]

  abbrev pub without_name : RoomTypeAvailability Price → RoomTypeAvailability Price
  without_name room = record room { room_type_name = "" }

  abbrev pub IsInt4Room : RoomTypeAvailability Price → Type 0
  IsInt4Room room = (in_int4 room.capacidad ≡ true) × (in_int4 room.stock_disponible ≡ true)

  rooms_agree :
      (rooms : List (RoomTypeAvailability Price))
      → All IsInt4Room rooms
      → map to_room (map to_row rooms) ≡ map without_name rooms
  unfolding to_room
  rooms_agree [] h = refl
  rooms_agree (room ∷ rooms) (h, hs) =
      rw
        (
          to_int32_of_int4 room.capacidad h.0,
          to_int32_of_int4 room.stock_disponible h.1,
          rooms_agree rooms hs,
        )
        refl

  join_int4 :
      (cs : List (Condition Price)) (r : RoomType Price) (hotels : List Hotel)
      (rest : List (RoomTypeAvailability Price))
      → in_int4 r.capacidad ≡ true
      → in_int4 r.stock_total ≡ true
      → All IsInt4Room rest
      → All IsInt4Room (join_hotels engine cs r hotels rest)
  unfolding join_hotels
  join_int4 cs r [] rest c t h = h
  join_int4 cs r (hotel ∷ hotels) rest c t h =
      let others = join_int4 cs r hotels rest c t h in
      elim (Bool-cases (is_match engine cs r hotel)) [
        | inl e ↦ rw e ((c, t), others)
        | inr e ↦ rw e others
      ]

  abbrev pub IsInt4Row : RoomType Price → Type 0
  IsInt4Row r = (in_int4 r.capacidad ≡ true) × (in_int4 r.stock_total ≡ true)

  select_int4 :
      (cs : List (Condition Price)) (hotels : List Hotel) (rows : List (RoomType Price))
      → All IsInt4Row rows
      → All IsInt4Room (select_rooms engine cs hotels rows)
  unfolding select_rooms
  select_int4 cs hotels [] h = tt
  select_int4 cs hotels (r ∷ rows) (h, hs) =
      join_int4 cs r hotels _ h.0 h.1 (select_int4 cs hotels rows hs)

  -- The two servers answer a search alike: when every outside call goes well and the columns hold
  -- INTs, the layered handler replies with the rooms of main.go's, each as often and in whatever
  -- order its query returns them, but leaves the name of the room type empty.
  pub handle_search_agrees :
      (arrange : List (RoomAvailability Price) → List (RoomAvailability Price)) (env : Env)
      (req : SearchRequest Price) (s : InventoryServer Price)
      → ((found : List (RoomAvailability Price)) → Perm (arrange found) found)
      → ((n : ℕ) → env.outcome n ≡ done)
      → All IsInt4Row s.room_types
      → (rooms : List (RoomTypeAvailability Price)) × ((search_available_rooms engine env req s).0
          ≡ reply rooms)
        × (replied : List (RoomTypeAvailability Price)) × (handle_search arrange done req s.hotels
              s.room_types
            ≡ reply replied)
        × Perm replied (map without_name rooms)
  unfolding handle_search ask search_conditions
  handle_search_agrees arrange env req s p d h =
      let rooms = select_rooms engine (search_conditions engine req) s.hotels s.room_types in
      (
        rooms,
        searches_all engine env req s d,
        map to_room (arrange (map to_row rooms)),
        refl,
        subst (Perm (map to_room (arrange (map to_row rooms))))
            (rooms_agree rooms (select_int4 (search_conditions engine req) s.hotels s.room_types h))
            (Perm.map to_room (p (map to_row rooms))),
      )
