-- ===== src/Inventory/Tables.antt =====
-- The tables of the inventory service and the SQL of inventario-service/main.go, as functions on
-- lists of rows. Prices and the pattern match `ILIKE` are PostgreSQL's and enter as parameters.
use proyecto_sd_reserva_de_h.Base.{
  ℕ, String, Bool, true, false, ◌&&◌, List, [], ◌∷◌, ◌++◌, Option, none, some, str_eq, concat,
  find_row, update_rows, if◌then◌else◌, Answer, reply,
}
use proyecto_sd_reserva_de_h.Base.Int.{ℤ, pos, ◌+ℤ◌, ◌-ℤ◌, ltb_ℤ, leb_ℤ, in_int4}

-- The order on NUMERIC and `double precision` values, and the pattern match. A price is any type.
pub record Engine : Type 1 where
  pub Price : Type 0
  pub zero_price : Price
  pub ltb_price : Price → Price → Bool
  pub leb_price : Price → Price → Bool
  pub ilike : String → String → Bool

pub record Hotel : Type 0 where
  pub id : String
  pub nombre : String
  pub ubicacion : String

pub record RoomType (Price : Type 0) : Type 0 where
  pub id : String
  pub hotel_id : Option String  -- the column may be NULL
  pub nombre : String
  pub precio_noche : Price
  pub capacidad : ℤ
  pub stock_total : ℤ

module _ {Price : Type 0} where
  abbrev pub has_id : String → RoomType Price → Bool
  has_id key r = str_eq r.id key

  -- An INT column refuses a value outside its range.
  unfoldable pub set_stock : ℤ → RoomType Price → Option (RoomType Price)
  set_stock v r = if in_int4 v then some (record r { stock_total = v }) else none

  -- `… SET stock_total = stock_total - $1 WHERE id = $2 AND stock_total >= $1`.
  unfoldable pub block_rows :
      ℤ → String → List (RoomType Price) → Option (List (RoomType Price) × ℕ)
  unfolding set_stock
  block_rows quantity key =
      update_rows (λ r. has_id key r && leb_ℤ quantity r.stock_total)
        (λ r. set_stock (r.stock_total -ℤ quantity) r)

  -- `… SET stock_total = stock_total + $1 WHERE id = $2`.
  unfoldable pub release_rows :
      ℤ → String → List (RoomType Price) → Option (List (RoomType Price) × ℕ)
  unfolding set_stock
  release_rows quantity key =
      update_rows (has_id key) (λ r. set_stock (r.stock_total +ℤ quantity) r)

  -- `SELECT hotel_id FROM room_types WHERE id = $1`.
  unfoldable pub select_hotel_id : String → List (RoomType Price) → Option (Option String)
  select_hotel_id key rows = elim (find_row (has_id key) rows) [
    | none ↦ none
    | some r ↦ some r.hotel_id
  ]

  -- `SELECT COALESCE(SUM(stock_total), 0) FROM room_types`, as a sum of integers.
  unfoldable pub total_stock : List (RoomType Price) → ℤ
  total_stock [] = pos 0
  total_stock (r ∷ rows) = r.stock_total +ℤ total_stock rows

-- The messages of inventario-service/proto/inventory.proto.
pub record SearchRequest (Price : Type 0) : Type 0 where
  pub fecha_inicio : String
  pub fecha_fin : String
  pub ubicacion : String
  pub precio_max : Price
  pub capacidad : ℤ  -- int32

pub record RoomTypeAvailability (Price : Type 0) : Type 0 where
  pub hotel_id : String
  pub nombre_hotel : String
  pub room_type_id : String
  pub precio_noche : Price
  pub capacidad : ℤ
  pub stock_disponible : ℤ
  pub room_type_name : String

pub record UpdateStockRequest : Type 0 where
  pub room_type_id : String
  pub cantidad : ℤ  -- int32
  pub accion : String

pub record UpdateStockResponse : Type 0 where
  pub status : Bool

abbrev pub is_granted : Answer UpdateStockResponse → Bool
is_granted (reply r) = r.status
is_granted _ = false

-- The optional conditions that a search adds to its `WHERE`, each with its argument.
pub data Condition (Price : Type 0) : Type 0 where
  ubicacion_ilike : String → Condition Price
  precio_le : Price → Condition Price
  capacidad_ge : ℤ → Condition Price

module _ (engine : Engine) where
  open engine use {Price, zero_price, ltb_price, leb_price, ilike}

  -- The pattern is `%` around the text that was asked for.
  unfoldable pub search_conditions : SearchRequest Price → List (Condition Price)
  search_conditions req =
      (if str_eq req.ubicacion ""
        then []
        else ubicacion_ilike (concat "%" (concat req.ubicacion "%")) ∷ [])
      ++ ((if ltb_price zero_price req.precio_max then precio_le req.precio_max ∷ [] else [])
          ++ (if ltb_ℤ (pos 0) req.capacidad then capacidad_ge req.capacidad ∷ [] else []))

  unfoldable pub holds : Condition Price → Hotel → RoomType Price → Bool
  holds (ubicacion_ilike pattern_text) h r = ilike h.ubicacion pattern_text
  holds (precio_le p) h r = leb_price r.precio_noche p
  holds (capacidad_ge c) h r = leb_ℤ c r.capacidad

  unfoldable pub hold_all : List (Condition Price) → Hotel → RoomType Price → Bool
  unfolding holds
  hold_all [] h r = true
  hold_all (c ∷ cs) h r = holds c h r && hold_all cs h r

  abbrev pub is_hotel_of : RoomType Price → Hotel → Bool
  is_hotel_of r h = elim r.hotel_id [ none ↦ false | some key ↦ str_eq h.id key ]

  -- `rt.stock_total > 0`, the join, and the conditions, for one pair of rows.
  unfoldable pub is_match : List (Condition Price) → RoomType Price → Hotel → Bool
  unfolding hold_all
  is_match cs r h = is_hotel_of r h && (ltb_ℤ (pos 0) r.stock_total && hold_all cs h r)

  abbrev pub availability : RoomType Price → Hotel → RoomTypeAvailability Price
  availability r h = record {
    hotel_id = h.id;
    nombre_hotel = h.nombre;
    room_type_id = r.id;
    precio_noche = r.precio_noche;
    capacidad = r.capacidad;
    stock_disponible = r.stock_total;
    room_type_name = r.nombre;
  }

  -- The matches of one room type, put in front of those of the others. The order is the engine's:
  -- the query names none.
  unfoldable pub join_hotels :
      List (Condition Price)
      → RoomType Price
      → List Hotel
      → List (RoomTypeAvailability Price)
      → List (RoomTypeAvailability Price)
  unfolding is_match
  join_hotels cs r [] rest = rest
  join_hotels cs r (h ∷ hotels) rest =
      let others = join_hotels cs r hotels rest in
      if is_match cs r h then availability r h ∷ others else others

  unfoldable pub select_rooms :
      List (Condition Price)
      → List Hotel
      → List (RoomType Price)
      → List (RoomTypeAvailability Price)
  unfolding join_hotels
  select_rooms cs hotels [] = []
  select_rooms cs hotels (r ∷ rows) = join_hotels cs r hotels (select_rooms cs hotels rows)
