-- ===== src/Startup/Seeding/Tables.antt =====
-- What `initializeDB` of inventario-service/main.go leaves in the tables.
use mathlib.Core.Path.{subst, ◌∙◌, ap}
use proyecto_sd_reserva_de_h.Base.{
  ℕ, ◌+◌, ◌≡◌, ◌≢◌, refl, sym, ◌⊎◌, inl, inr, ◌||◌, not, arith, String, Bool, true, false, List, [],
  ◌∷◌, ◌++◌, Option, none, some, Bool-cases, find_row, length, ◌==◌, Result, Result-cases, ok,
  Outcome, done, refused, unacknowledged, Env, perform, All,
}
use proyecto_sd_reserva_de_h.Base.Int.{pos, ◌≤ℤ◌}
use proyecto_sd_reserva_de_h.Inventory.Tables.{Hotel, RoomType, has_id}
use proyecto_sd_reserva_de_h.Inventory.Stock.{stock_of}
use proyecto_sd_reserva_de_h.Inventory.Server.{InventoryServer}
use proyecto_sd_reserva_de_h.Inventory.History.{IsStocked, Holds}
use proyecto_sd_reserva_de_h.Reservation.Tables.{exists}
use proyecto_sd_reserva_de_h.Startup.Seeding.{
  is_hotel, seed_hotels, refers, count_hotels, seed_room_types, insert_hotels, insert_room_types,
  table_created, and_then, try_insert, seed, initialize_db,
}
use proyecto_sd_reserva_de_h.Startup.Seeding.Rows.{
  IsGood, Keeps, appended-Keeps, appended-IsStocked, appended-HasUniqueIds,
}

perform-cases :
    {D : Type 0} (outcome : Outcome) (statement : D → Result String (Unit {0} × D)) (d : D)
    → ((perform outcome statement d).1 ≡ d)
      ⊎ ((d' : D) × (statement d ≡ ok (tt, d')) × ((perform outcome statement d).1 ≡ d'))
unfolding perform
perform-cases done statement d = elim (Result-cases (statement d)) [
  | inl ((x, d'), q) ↦ rw q (inr (d', refl, refl))
  | inr (e, q) ↦ rw q (inl refl)
]
perform-cases (refused e) statement d = inl refl
perform-cases (unacknowledged e) statement d = elim (Result-cases (statement d)) [
  | inl ((x, d'), q) ↦ rw q (inr (d', refl, refl))
  | inr (e', q) ↦ rw q (inl refl)
]

counted_none :
    (o : Outcome) (hotels : List Hotel)
    → (count_hotels o hotels == 0) ≡ true
    → o ≡ done
    → length hotels ≡ 0
counted_none done hotels e d = ground arith
counted_none (refused x) hotels e d = absurd (cc d)
counted_none (unacknowledged x) hotels e d = absurd (cc d)

is_free : {A : Type 0} (o : Option A) (b : Bool) → exists o || b ≡ false → o ≡ none
is_free none b e = refl
is_free (some a) b e = absurd (cc e)

module _ {Price : Type 0} where
  -- The tables are good, and keep every stock.
  abbrev Grows : InventoryServer Price → InventoryServer Price → Type 0
  Grows s t = IsGood t.room_types × Keeps s.room_types t.room_types

  inserts-Grows :
      (rows : List (RoomType Price)) (s t : InventoryServer Price)
      → All (λ r. pos 0 ≤ℤ r.stock_total) rows
      → IsGood s.room_types
      → insert_room_types rows s ≡ ok (tt, t)
      → Grows s t
  unfolding insert_room_types
  inserts-Grows [] s t p h e =
      let same : s ≡ t = ground arith in subst (Grows s) same (h, λ key v q. q)
  inserts-Grows (r ∷ rows) s t (p, ps) (stocked, unique) e =
      elim (Bool-cases
        (exists (find_row (has_id r.id) s.room_types) || not (refers r.hotel_id s.hotels))) [
          | inl b ↦ absurd (cc (rw b at e))
          | inr b ↦
              let free = is_free (find_row (has_id r.id) s.room_types) _ b in
              let one = record s { room_types = s.room_types ++ (r ∷ []) } in
              let (good, kept) =
                inserts-Grows rows one t ps
                  (
                    appended-IsStocked s.room_types r p stocked,
                    appended-HasUniqueIds s.room_types r free unique,
                  )
                  (rw b at e) in
              (good, λ key v q. kept key v (appended-Keeps s.room_types (r ∷ []) key v q))
        ]

  hotels_only :
      (rows : List Hotel) (s t : InventoryServer Price)
      → insert_hotels rows s ≡ ok (tt, t)
      → t.room_types ≡ s.room_types
  unfolding insert_hotels
  hotels_only [] s t e = ground arith
  hotels_only (h ∷ rows) s t e = elim (Bool-cases (exists (find_row (is_hotel h.id) s.hotels))) [
    | inl b ↦ absurd (cc (rw b at e))
    | inr b ↦ hotels_only rows (record s { hotels = s.hotels ++ (h ∷ []) }) t (rw b at e)
  ]

  try_hotels :
      (env : Env) (s : InventoryServer Price)
      → (try_insert env (insert_hotels seed_hotels) s).room_types ≡ s.room_types
  unfolding try_insert
  try_hotels env s = elim (perform-cases (env.outcome s.tick) (insert_hotels seed_hotels) s) [
    | inl q ↦ ap (λ (x : InventoryServer Price). x.room_types) q
    | inr (t, e, q) ↦
        ap (λ (x : InventoryServer Price). x.room_types) q ∙ hotels_only seed_hotels s t e
  ]

  try_room_types-Grows :
      (env : Env) (rows : List (RoomType Price)) (s : InventoryServer Price)
      → All (λ r. pos 0 ≤ℤ r.stock_total) rows
      → IsGood s.room_types
      → Grows s (try_insert env (insert_room_types rows) s)
  unfolding try_insert
  try_room_types-Grows env rows s p h =
      elim (perform-cases (env.outcome s.tick) (insert_room_types rows) s) [
        | inl q ↦ subst (Grows s) (sym q) (h, λ key v e. e)
        | inr (t, e, q) ↦ subst (Grows s) (sym q) (inserts-Grows rows s t p h e)
      ]

  -- What a seeding leaves.
  abbrev pub Seeds : Env → InventoryServer Price → InventoryServer Price → Type 0
  Seeds env s t =
      Holds IsStocked t
      × Keeps s.room_types t.room_types
      × (env.outcome s.tick ≡ done
          → length s.hotels ≢ 0
          → (t.hotels ≡ s.hotels) × (t.room_types ≡ s.room_types))

  seed-Seeds :
      (env : Env) (numeric : ℕ → Price) (s : InventoryServer Price)
      → Holds IsStocked s
      → Seeds env s (seed env numeric s)
  unfolding seed
  seed-Seeds env numeric s h =
      let counted = record s { tick = s.tick + 1 } in
      let with_hotels = try_insert env (insert_hotels seed_hotels) counted in
      let same = try_hotels env counted in
      elim (Bool-cases (count_hotels (env.outcome s.tick) s.hotels == 0)) [
        | inl b ↦
            let (good, kept) =
              try_room_types-Grows env (seed_room_types numeric) with_hotels
                (omega arith, (omega arith, (omega arith, tt))) (subst IsGood (sym same) h) in
            rw b (
              good,
              (λ key v e. kept key v (ap (stock_of key) same ∙ e)),
              (λ d n. absurd (n (counted_none (env.outcome s.tick) s.hotels b d))),
            )
        | inr b ↦ rw b (h, (λ key v e. e), (λ d n. (refl, refl)))
      ]

  created-cases :
      (o : Outcome) (s : InventoryServer Price)
      → (table_created o s ≡ none) ⊎ (table_created o s ≡ some (record s { tick = s.tick + 1 }))
  created-cases done s = inr refl
  created-cases (refused e) s = inl refl
  created-cases (unacknowledged e) s = inl refl

  initialized :
      (env : Env) (numeric : ℕ → Price) (s t : InventoryServer Price)
      → initialize_db env numeric s ≡ some t
      → seed env numeric (record s { tick = s.tick + 1 + 1 }) ≡ t
  unfolding initialize_db
  initialized env numeric s t e =
      let one = record s { tick = s.tick + 1 } in
      let second : InventoryServer Price → Option (InventoryServer Price) =
        λ u. and_then (table_created (env.outcome u.tick) u) (λ x. some (seed env numeric x)) in
      elim (created-cases (env.outcome s.tick) s) [
        | inl q ↦ let p = ap (λ o. and_then o second) q in absurd (cc (p, e))
        | inr q ↦
            let p = ap (λ o. and_then o second) q in
            elim (created-cases (env.outcome one.tick) one) [
              | inl q' ↦
                  let p' = ap (λ o. and_then o (λ x. some (seed env numeric x))) q' in
                  absurd (cc (p, p', e))
              | inr q' ↦
                  let p' = ap (λ o. and_then o (λ x. some (seed env numeric x))) q' in cc (p, p', e)
            ]
      ]

  -- When `initializeDB` of the inventory service returns, from tables with unique ids and no negative
  -- stock, the tables are of that kind, and every stock that was there is unchanged, whatever its
  -- statements do. When there were hotels and they are counted, it changes no table: not even where
  -- the room types of an earlier start are missing.
  pub initialize_db-Seeds :
      (env : Env) (numeric : ℕ → Price) (s t : InventoryServer Price)
      → Holds IsStocked s
      → initialize_db env numeric s ≡ some t
      → Holds IsStocked t
        × Keeps s.room_types t.room_types
        × (env.outcome (s.tick + 1 + 1) ≡ done
            → length s.hotels ≢ 0
            → (t.hotels ≡ s.hotels) × (t.room_types ≡ s.room_types))
  unfolding initialize_db
  initialize_db-Seeds env numeric s t h e =
      subst (Seeds env (record s { tick = s.tick + 1 + 1 })) (initialized env numeric s t e)
        (seed-Seeds env numeric (record s { tick = s.tick + 1 + 1 }) h)
