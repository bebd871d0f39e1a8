-- ===== src/Inventory/Repository/Effects.antt =====
-- What `UpdateStock` of inventario-service/internal/repository does to the rows.
use mathlib.Core.Path.{subst}
use proyecto_sd_reserva_de_h.Base.{
  ℕ, ◌≡◌, ◌≢◌, refl, sym, ◌∙◌, ◌⊎◌, inl, inr, String, Bool, true, List, Option, none, some, arith,
  str_eq, str_eq_iff, ◌==◌, Bool-cases, Result, ok, err, Env, Result-cases,
}
use proyecto_sd_reserva_de_h.Base.Int.{ℤ, pos, ◌+ℤ◌, ◌-ℤ◌, ◌<ℤ◌, leb_ℤ, in_int4}
use proyecto_sd_reserva_de_h.Inventory.Tables.{RoomType, block_rows, release_rows}
use proyecto_sd_reserva_de_h.Inventory.Stock.{
  HasUniqueIds, put_stock, stock_of, adjust_row, always, block_rows_by_id, release_rows_by_id,
}
use proyecto_sd_reserva_de_h.Inventory.Repository.{
  DomainError, database_error, Database, Transactions, update_column, update_body, Body, succeeded,
  repository_update_stock, after_block, after_release, missing_or_short,
}

-- The result of a transaction whose changes stand: success, or a COMMIT whose reply was lost.
abbrev pub Commits : {A : Type 0} → A → Result DomainError A → Type 0
Commits a r = (r ≡ ok a) ⊎ ((x : String) × (r ≡ err (database_error x)))

succeeded-Commits : (r : Result DomainError (Unit {0})) → Commits tt r → Commits true (succeeded r)
unfolding succeeded
succeeded-Commits r (inl e) = inl (rw e refl)
succeeded-Commits r (inr (x, e)) = inr (x, rw e refl)

module _ {Price : Type 0} where
  -- One stock was changed, and nothing else.
  pub record Changed (guard : ℤ → Bool) (change : ℤ → ℤ) (key : String)
      (rows rows' : List (RoomType Price)) : Type 0 where
    pub before : ℤ
    pub known : stock_of key rows ≡ some before
    pub guarded : guard before ≡ true
    pub fits : in_int4 (change before) ≡ true
    pub written : rows' ≡ put_stock key (change before) rows

  adjusted :
      (guard : ℤ → Bool) (change : ℤ → ℤ) (key : String) (rows rows' : List (RoomType Price))
      (n : ℕ) (o : Option ℤ)
      → stock_of key rows ≡ o
      → adjust_row guard change key rows o ≡ some (rows', n)
      → n ≢ 0
      → Changed guard change key rows rows'
  unfolding adjust_row
  adjusted guard change key rows rows' n none e h nz = absurd (nz (ground arith))
  adjusted guard change key rows rows' n (some v) e h nz = record {
    before = v;
    known = e;
    guarded = ground arith;
    fits = ground arith;
    written = ground arith;
  }

  update_column_ok :
      (env : Env) (statement : List (RoomType Price) → Option (List (RoomType Price) × ℕ))
      (d : Database Price) (n : ℕ)
      → (update_column env statement d).0 ≡ ok n
      → statement d.room_types ≡ some ((update_column env statement d).1.room_types, n)
  unfolding update_column
  update_column_ok env statement d n h = ground arith

  after_block_ok :
      (env : Env) (key : String) (r : Result String ℕ × Database Price)
      → (after_block env key r).0 ≡ ok tt
      → (n : ℕ) × (r.0 ≡ ok n) × (n ≢ 0) × ((after_block env key r).1 ≡ r.1)
  unfolding after_block missing_or_short
  after_block_ok env key (err e, d) h = absurd (cc)
  after_block_ok env key (ok n, d) h = elim (Bool-cases (n == 0)) [
    | inl z ↦ absurd (ground arith)
    | inr nz ↦ (n, refl, ground arith, ground arith)
  ]

  after_release_ok :
      (r : Result String ℕ × Database Price)
      → (after_release r).0 ≡ ok tt
      → (n : ℕ) × (r.0 ≡ ok n) × (n ≢ 0) × ((after_release r).1 ≡ r.1)
  unfolding after_release
  after_release_ok (err e, d) h = absurd (cc)
  after_release_ok (ok n, d) h = elim (Bool-cases (n == 0)) [
    | inl z ↦ absurd (ground arith)
    | inr nz ↦ (n, refl, ground arith, refl)
  ]

  -- What a body that returns without an error has done.
  abbrev pub Done : ℤ → String → String → List (RoomType Price) → List (RoomType Price) → Type 0
  Done quantity key action rows rows' =
      ((action ≡ "BLOQUEAR") × Changed (leb_ℤ quantity) (λ v. v -ℤ quantity) key rows rows')
      ⊎ ((action ≡ "LIBERAR") × Changed always (λ v. v +ℤ quantity) key rows rows')

  block_Done :
      (env : Env) (key : String) (quantity : ℤ) (d : Database Price)
      → HasUniqueIds d.room_types
      → (after_block env key (update_column env (block_rows quantity key) d)).0 ≡ ok tt
      → Changed
          (leb_ℤ quantity)
          (λ v. v -ℤ quantity)
          key
          d.room_types
          (after_block env key (update_column env (block_rows quantity key) d)).1.room_types
  block_Done env key quantity d u h =
      let (n, r, nz, same) =
        after_block_ok env key (update_column env (block_rows quantity key) d) h in
      let st = update_column_ok env (block_rows quantity key) d n r in
      subst
        (λ (x : Database Price).
          Changed (leb_ℤ quantity) (λ v. v -ℤ quantity) key d.room_types x.room_types)
        (sym same)
        (adjusted (leb_ℤ quantity) (λ v. v -ℤ quantity) key d.room_types _ n _ refl
          (sym (block_rows_by_id quantity key d.room_types u) ∙ st) nz)

  release_Done :
      (env : Env) (key : String) (quantity : ℤ) (d : Database Price)
      → HasUniqueIds d.room_types
      → (after_release (update_column env (release_rows quantity key) d)).0 ≡ ok tt
      → Changed always
          (λ v. v +ℤ quantity)
          key
          d.room_types
          (after_release (update_column env (release_rows quantity key) d)).1.room_types
  release_Done env key quantity d u h =
      let (n, r, nz, same) = after_release_ok (update_column env (release_rows quantity key) d) h in
      let st = update_column_ok env (release_rows quantity key) d n r in
      subst
        (λ (x : Database Price). Changed always (λ v. v +ℤ quantity) key d.room_types x.room_types)
        (sym same)
        (adjusted always (λ v. v +ℤ quantity) key d.room_types _ n _ refl
          (sym (release_rows_by_id quantity key d.room_types u) ∙ st) nz)

  body_Done :
      (env : Env) (key : String) (quantity : ℤ) (action : String) (d : Database Price)
      → HasUniqueIds d.room_types
      → (update_body env key quantity action d).0 ≡ ok tt
      → Done quantity key action d.room_types (update_body env key quantity action d).1.room_types
  unfolding update_body
  body_Done env key quantity action d u h = elim (Bool-cases (str_eq action "BLOQUEAR")) [
    | inl b ↦
        rw b (inl ((str_eq_iff action "BLOQUEAR").0 b, block_Done env key quantity d u (rw b at h)))
    | inr nb ↦ elim (Bool-cases (str_eq action "LIBERAR")) [
      | inl l ↦
          rw (nb, l)
            (inr (
              (str_eq_iff action "LIBERAR").0 l,
              release_Done env key quantity d u (rw (nb, l) at h),
            ))
      | inr nl ↦ absurd (cc (rw (nb, nl) at h))
    ]
  ]

  transacted :
      (tx : Transactions Price) (body : Body Price) (d : Database Price)
      → ((e : DomainError) × ((tx.transaction body d).0 ≡ err e)
          × ((tx.transaction body d).1.room_types ≡ d.room_types))
        ⊎ (((body d).0 ≡ ok tt)
            × Commits tt (tx.transaction body d).0
            × ((tx.transaction body d).1.room_types ≡ (body d).1.room_types))
  transacted tx body d = elim (Result-cases (body d).0) [
    | inl (t, e) ↦ elim (tx.commits_or_fails body d e) [
      | inl (r, rows) ↦ inr (e, inl r, rows)
      | inr (x, r, inl rows) ↦ inl (database_error x, r, rows)
      | inr (x, r, inr rows) ↦ inr (e, inr (x, r), rows)
    ]
    | inr (x, e) ↦
        let (which, rows) = tx.rolls_back body d x e in
        elim which [ inl r ↦ inl (x, r, rows) | inr (y, r) ↦ inl (database_error y, r, rows) ]
  ]

  -- On unique ids `UpdateStock` does all or nothing, whatever its database calls do. It fails and the
  -- rows are as they were; or the quantity is positive and exactly the one stock was changed,
  -- downwards under its guard or upwards, as the action says. Then it returns true, or the error of a
  -- COMMIT whose reply was lost.
  pub repository_update_stock_atomic :
      (tx : Transactions Price) (env : Env) (key : String) (quantity : ℤ) (action : String)
      (d : Database Price)
      → HasUniqueIds d.room_types
      → let (r, d') = repository_update_stock tx env key quantity action d in
        ((e : DomainError) × (r ≡ err e) × (d'.room_types ≡ d.room_types))
        ⊎ (Commits true r
            × (pos 0 <ℤ quantity)
            × Done quantity key action d.room_types d'.room_types)
  unfolding repository_update_stock
  repository_update_stock_atomic tx env key quantity action d u =
      elim (Bool-cases (leb_ℤ quantity (pos 0))) [
        | inl z ↦ rw z (inl (_, refl, refl))
        | inr p ↦ elim (transacted tx (update_body env key quantity action) d) [
          | inl (e, r, rows) ↦ rw (p, r) (inl (e, refl, rows))
          | inr (b, r, rows) ↦ rw p (
              inr (
                succeeded-Commits (tx.transaction (update_body env key quantity action) d).0 r,
                ground arith,
                subst (Done quantity key action d.room_types) (sym rows)
                    (body_Done env key quantity action d u b),
              ))
        ]
      ]
