-- ===== src/Inventory/Search/Results.antt =====
-- Which rooms `SearchAvailableRooms` (inventario-service/main.go) returns.
use mathlib.Core.List.{Memᴰ, append-nil, append_assoc}
use mathlib.Core.Path.{subst}
use proyecto_sd_reserva_de_h.Base.{
  ℕ, ◌+◌, ◌≡◌, ◌≢◌, refl, sym, ap, ◌∙◌, ◌↔◌, ◌⊎◌, inl, inr, String, true, List, [], ◌∷◌, ◌++◌,
  arith, str_eq_iff, concat, Bool-cases, Outcome, done, refused, unacknowledged, Env, ask, reply,
  All,
}
use proyecto_sd_reserva_de_h.Base.Int.{pos, ◌≤ℤ◌, ◌<ℤ◌}
use proyecto_sd_reserva_de_h.Inventory.Tables.{
  Engine, Hotel, RoomType, SearchRequest, RoomTypeAvailability, Condition, search_conditions,
  hold_all, is_hotel_of, is_match, availability, join_hotels, select_rooms,
}
use proyecto_sd_reserva_de_h.Inventory.Server.{InventoryServer}
use proyecto_sd_reserva_de_h.Inventory.Search.{keep_scanned, scan_rooms, search_available_rooms}

outcome-cases :
    (o : Outcome) → (o ≡ done) ⊎ ((e : String) × ((o ≡ refused e) ⊎ (o ≡ unacknowledged e)))
outcome-cases done = inl refl
outcome-cases (refused e) = inr (e, inl refl)
outcome-cases (unacknowledged e) = inr (e, inr refl)

reply_eq : {A : Type 0} {a b : A} → reply a ≡ reply b → a ≡ b
reply_eq e = cc

module _ (engine : Engine) where
  open engine use {Price, zero_price, ltb_price, leb_price, ilike}

  -- The filters that a request asks for; an empty place, and a price or a capacity that is not
  -- positive, ask for none.
  pub record Meets (req : SearchRequest Price) (h : Hotel) (r : RoomType Price) : Type 0 where
    pub place :
        req.ubicacion ≢ "" → ilike h.ubicacion (concat "%" (concat req.ubicacion "%")) ≡ true
    pub price :
        ltb_price zero_price req.precio_max ≡ true → leb_price r.precio_noche req.precio_max ≡ true
    pub capacity : pos 0 <ℤ req.capacidad → req.capacidad ≤ℤ r.capacidad

  pub conditions-Meets :
      (req : SearchRequest Price) (h : Hotel) (r : RoomType Price)
      → (hold_all engine (search_conditions engine req) h r ≡ true) ↔ Meets req h r
  unfolding search_conditions hold_all
  conditions-Meets req h r = (
    (λ e. ground (arith, str_eq_iff req.ubicacion "")),
    (λ m. ground (arith, str_eq_iff req.ubicacion "")),
  )

  -- A room of the reply stands for a room type and its hotel, both in the tables, in stock and with
  -- every filter met.
  pub record Offered (req : SearchRequest Price) (hotels : List Hotel)
      (rows : List (RoomType Price)) (room : RoomTypeAvailability Price) : Type 0 where
    pub hotel : Hotel
    pub room_type : RoomType Price
    pub listed : Memᴰ room_type rows
    pub owner : Memᴰ hotel hotels
    pub owns : is_hotel_of engine room_type hotel ≡ true
    pub in_stock : pos 0 <ℤ room_type.stock_total
    pub meets : Meets req hotel room_type
    pub shows : room ≡ availability engine room_type hotel

  match_parts :
      (req : SearchRequest Price) (r : RoomType Price) (h : Hotel)
      → is_match engine (search_conditions engine req) r h ≡ true
      → (is_hotel_of engine r h ≡ true)
        × (pos 0 <ℤ r.stock_total)
        × (hold_all engine (search_conditions engine req) h r ≡ true)
  unfolding is_match
  match_parts req r h e = ground arith

  parts_match :
      (req : SearchRequest Price) (r : RoomType Price) (h : Hotel)
      → is_hotel_of engine r h ≡ true
      → pos 0 <ℤ r.stock_total
      → Meets req h r
      → is_match engine (search_conditions engine req) r h ≡ true
  unfolding is_match
  parts_match req r h o p m = let e = (conditions-Meets req h r).1 m in rw (o, e) (ground arith)

  join_sound :
      (req : SearchRequest Price) (hotels : List Hotel) (rows : List (RoomType Price))
      (r : RoomType Price) (hs : List Hotel) (rest : List (RoomTypeAvailability Price))
      → Memᴰ r rows
      → ((h : Hotel) → Memᴰ h hs → Memᴰ h hotels)
      → All (Offered req hotels rows) rest
      → All (Offered req hotels rows) (join_hotels engine (search_conditions engine req) r hs rest)
  unfolding join_hotels
  join_sound req hotels rows r [] rest m sub all = all
  join_sound req hotels rows r (h ∷ hs) rest m sub all =
      let others = join_sound req hotels rows r hs rest m (λ h' k. sub h' (Memᴰ.tail k)) all in
      elim (Bool-cases (is_match engine (search_conditions engine req) r h)) [
        | inl e ↦
            let (o, p, c) = match_parts req r h e in
            rw e (
              record {
                hotel = h;
                room_type = r;
                listed = m;
                owner = sub h (Memᴰ.head refl);
                owns = o;
                in_stock = p;
                meets = (conditions-Meets req h r).0 c;
                shows = refl;
              },
              others,
            )
        | inr e ↦ rw e others
      ]

  select_sound :
      (req : SearchRequest Price) (hotels : List Hotel) (rows rs : List (RoomType Price))
      → ((r : RoomType Price) → Memᴰ r rs → Memᴰ r rows)
      → All (Offered req hotels rows) (select_rooms engine (search_conditions engine req) hotels rs)
  unfolding select_rooms
  select_sound req hotels rows [] sub = tt
  select_sound req hotels rows (r ∷ rs) sub =
      join_sound req hotels rows r hotels _ (sub r (Memᴰ.head refl)) (λ h k. k)
        (select_sound req hotels rows rs (λ r' k. sub r' (Memᴰ.tail k)))

  join_keeps :
      (cs : List (Condition Price)) (r : RoomType Price) (hs : List Hotel)
      (rest : List (RoomTypeAvailability Price)) (room : RoomTypeAvailability Price)
      → Memᴰ room rest
      → Memᴰ room (join_hotels engine cs r hs rest)
  unfolding join_hotels
  join_keeps cs r [] rest room m = m
  join_keeps cs r (h ∷ hs) rest room m = elim (Bool-cases (is_match engine cs r h)) [
    | inl e ↦ rw e (Memᴰ.tail (join_keeps cs r hs rest room m))
    | inr e ↦ rw e (join_keeps cs r hs rest room m)
  ]

  join_complete :
      (cs : List (Condition Price)) (r : RoomType Price) (h : Hotel) (hs : List Hotel)
      (rest : List (RoomTypeAvailability Price))
      → Memᴰ h hs
      → is_match engine cs r h ≡ true
      → Memᴰ (availability engine r h) (join_hotels engine cs r hs rest)
  unfolding join_hotels
  join_complete cs r h [] rest k m = elim k [ ]
  join_complete cs r h (h' ∷ hs) rest (Memᴰ.head e) m =
      rw (ap (is_match engine cs r) (sym e) ∙ m) (Memᴰ.head (ap (availability engine r) e))
  join_complete cs r h (h' ∷ hs) rest (Memᴰ.tail k) m =
      let there = join_complete cs r h hs rest k m in
      elim (Bool-cases (is_match engine cs r h')) [
        | inl e ↦ rw e (Memᴰ.tail there)
        | inr e ↦ rw e there
      ]

  select_complete :
      (cs : List (Condition Price)) (r : RoomType Price) (h : Hotel) (hotels : List Hotel)
      (rows : List (RoomType Price))
      → Memᴰ r rows
      → Memᴰ h hotels
      → is_match engine cs r h ≡ true
      → Memᴰ (availability engine r h) (select_rooms engine cs hotels rows)
  unfolding select_rooms
  select_complete cs r h hotels [] i k m = elim i [ ]
  select_complete cs r h hotels (r' ∷ rows) (Memᴰ.head e) k m =
      rw (← e) (join_complete cs r h hotels _ k m)
  select_complete cs r h hotels (r' ∷ rows) (Memᴰ.tail i) k m =
      join_keeps cs r' hotels _ _ (select_complete cs r h hotels rows i k m)

  All-append :
      (P : RoomTypeAvailability Price → Type 0) (xs : List (RoomTypeAvailability Price))
      (x : RoomTypeAvailability Price)
      → All P xs
      → P x
      → All P (xs ++ x ∷ [])
  All-append P [] x h p = (p, tt)
  All-append P (y ∷ xs) x h p = (h.0, All-append P xs x h.1 p)

  keep_scanned_sound :
      (P : RoomTypeAvailability Price → Type 0) (o : Outcome) (row : RoomTypeAvailability Price)
      (rooms : List (RoomTypeAvailability Price))
      → P row
      → All P rooms
      → All P (keep_scanned engine o row rooms)
  keep_scanned_sound P done row rooms h k = All-append P rooms row k h
  keep_scanned_sound P (refused e) row rooms h k = k
  keep_scanned_sound P (unacknowledged e) row rooms h k = k

  scan_sound :
      (P : RoomTypeAvailability Price → Type 0) (env : Env)
      (rows rooms : List (RoomTypeAvailability Price)) (s : InventoryServer Price)
      → All P rows
      → All P rooms
      → All P (scan_rooms engine env rows rooms s).0
  unfolding scan_rooms
  scan_sound P env [] rooms s h k = k
  scan_sound P env (row ∷ rows) rooms s h k =
      scan_sound P env rows _ _ h.1 (keep_scanned_sound P (env.outcome s.tick) row rooms h.0 k)

  scan_all :
      (env : Env) (rows rooms : List (RoomTypeAvailability Price)) (s : InventoryServer Price)
      → ((n : ℕ) → env.outcome n ≡ done)
      → (scan_rooms engine env rows rooms s).0 ≡ rooms ++ rows
  unfolding scan_rooms
  scan_all env [] rooms s d = sym (append-nil rooms)
  scan_all env (row ∷ rows) rooms s d =
      scan_all env rows (keep_scanned engine (env.outcome s.tick) row rooms) _ d
      ∙ ap (λ o. keep_scanned engine o row rooms ++ rows) (d s.tick)
      ∙ append_assoc rooms (row ∷ []) rows

  -- Every room of a reply is on offer: rows that fail to scan are left out, and nothing is added.
  pub search_sound :
      (env : Env) (req : SearchRequest Price) (s : InventoryServer Price)
      (rooms : List (RoomTypeAvailability Price))
      → (search_available_rooms engine env req s).0 ≡ reply rooms
      → All (Offered req s.hotels s.room_types) rooms
  unfolding search_available_rooms ask
  search_sound env req s rooms e =
      let rows = select_rooms engine (search_conditions engine req) s.hotels s.room_types in
      let offered = select_sound req s.hotels s.room_types s.room_types (λ r k. k) in
      let scanned =
        scan_sound (Offered req s.hotels s.room_types) env rows [] (record s { tick = s.tick + 1 })
          offered tt in
      elim (outcome-cases (env.outcome s.tick)) [
        | inl d ↦ subst (All (Offered req s.hotels s.room_types)) (reply_eq (rw d at e)) scanned
        | inr (m, inl d) ↦ absurd (cc (rw d at e))
        | inr (m, inr d) ↦ absurd (cc (rw d at e))
      ]

  -- Without a failing call, a search is its query.
  pub searches_all :
      (env : Env) (req : SearchRequest Price) (s : InventoryServer Price)
      → ((n : ℕ) → env.outcome n ≡ done)
      → (search_available_rooms engine env req s).0
        ≡ reply (select_rooms engine (search_conditions engine req) s.hotels s.room_types)
  unfolding search_available_rooms ask
  searches_all env req s d =
      let rows = select_rooms engine (search_conditions engine req) s.hotels s.room_types in
      rw (d s.tick) (ap reply (scan_all env rows [] (record s { tick = s.tick + 1 }) d))

  -- When every outside call goes well, the reply holds each room type that is in stock, with each
  -- hotel of its own that meets the filters with it.
  pub search_complete :
      (env : Env) (req : SearchRequest Price) (s : InventoryServer Price) (r : RoomType Price)
      (h : Hotel)
      → ((n : ℕ) → env.outcome n ≡ done)
      → Memᴰ r s.room_types
      → Memᴰ h s.hotels
      → is_hotel_of engine r h ≡ true
      → pos 0 <ℤ r.stock_total
      → Meets req h r
      → (rooms : List (RoomTypeAvailability Price)) × ((search_available_rooms engine env req s).0
          ≡ reply rooms)
        × Memᴰ (availability engine r h) rooms
  unfolding search_available_rooms ask
  search_complete env req s r h d i k o p m =
      let rows = select_rooms engine (search_conditions engine req) s.hotels s.room_types in
      (
        rows,
        searches_all env req s d,
        select_complete (search_conditions engine req) r h s.hotels s.room_types i k
            (parts_match req r h o p m),
      )
