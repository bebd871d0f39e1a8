-- ===== src/Inventory/Repository.antt =====
-- The layered inventory server: inventario-service/internal/repository, internal/service and
-- internal/domain/errors.go. gorm's transaction is a parameter with the laws that the code relies
-- on; its UpdateColumn calls are the conditional updates that they write.
pub mod Effects
use proyecto_sd_reserva_de_h.Base.{
  ℕ, ◌+◌, ◌≡◌, ◌⊎◌, String, Bool, true, false, List, [], ◌∷◌, Option, none, some, str_eq, concat,
  ◌==◌, if◌then◌else◌, Result, ok, err, Outcome, Env, perform, ask, select, length,
}
use proyecto_sd_reserva_de_h.Base.Int.{ℤ, pos, leb_ℤ}
use proyecto_sd_reserva_de_h.Inventory.Tables.{RoomType, has_id, block_rows, release_rows}
use proyecto_sd_reserva_de_h.Inventory.Server.{run_statement}

-- The sentinel errors of internal/domain/errors.go, and any other error.
pub data DomainError : Type 0 where
  insufficient_stock room_type_not_found invalid_action invalid_quantity : DomainError
  database_error : String → DomainError

unfoldable pub error_text : DomainError → String
error_text insufficient_stock = "insufficient stock"
error_text room_type_not_found = "room_type_id not found"
error_text invalid_action = "invalid action: must be BLOQUEAR or LIBERAR"
error_text invalid_quantity = "quantity must be greater than zero"
error_text (database_error e) = e

-- The database behind the repository, and the number of the next call to it.
pub record Database (Price : Type 0) : Type 0 where
  pub room_types : List (RoomType Price)
  pub tick : ℕ

abbrev pub Body : Type 0 → Type 0
Body Price = Database Price → Result DomainError (Unit {0}) × Database Price

-- `(*gorm.DB).Transaction`: an error of the body rolls its changes back. Without one the changes are
-- committed, or the transaction itself fails; then they are undone, or, where the COMMIT took effect
-- and its reply was lost, they stand.
pub record Transactions (Price : Type 0) : Type 0 where
  pub transaction : Body Price → Body Price
  pub rolls_back :
      (body : Body Price) (d : Database Price) (e : DomainError)
      → (body d).0 ≡ err e
      → (((transaction body d).0 ≡ err e)
          ⊎ ((x : String) × ((transaction body d).0 ≡ err (database_error x))))
        × ((transaction body d).1.room_types ≡ d.room_types)
  pub commits_or_fails :
      (body : Body Price) (d : Database Price)
      → (body d).0 ≡ ok tt
      → (((transaction body d).0 ≡ ok tt)
          × ((transaction body d).1.room_types ≡ (body d).1.room_types))
        ⊎ ((e : String) × ((transaction body d).0 ≡ err (database_error e))
            × (((transaction body d).1.room_types ≡ d.room_types)
                ⊎ ((transaction body d).1.room_types ≡ (body d).1.room_types)))

succeeded : Result DomainError (Unit {0}) → Result DomainError Bool
succeeded (ok _) = ok true
succeeded (err e) = err e

-- The error of the count is not looked at: `count` then keeps its 0.
counted : {Price : Type 0} → Result String (List (RoomType Price)) → ℕ
counted (ok rows) = length rows
counted (err e) = 0

module _ {Price : Type 0} where
  update_column :
      Env
      → (List (RoomType Price) → Option (List (RoomType Price) × ℕ))
      → Database Price
      → Result String ℕ × Database Price
  unfolding perform
  update_column env statement d =
      let (r, rows) = perform (env.outcome d.tick) (run_statement statement) d.room_types in
      (r, record { room_types = rows; tick = d.tick + 1 })

  missing_or_short : Env → String → Body Price
  unfolding counted ask select
  missing_or_short env key d = (
    if counted (ask (env.outcome d.tick) (select (has_id key) d.room_types)) == 0
        then err room_type_not_found
        else err insufficient_stock,
    record d { tick = d.tick + 1 },
  )

  after_block :
      Env
      → String
      → Result String ℕ × Database Price
      → Result DomainError (Unit {0}) × Database Price
  unfolding missing_or_short
  after_block env key (err e, d) = (err (database_error e), d)
  after_block env key (ok n, d) = if n == 0 then missing_or_short env key d else (ok tt, d)

  after_release : Result String ℕ × Database Price → Result DomainError (Unit {0}) × Database Price
  after_release (err e, d) = (err (database_error e), d)
  after_release (ok n, d) = (if n == 0 then err room_type_not_found else ok tt, d)

  -- The function that `UpdateStock` hands to the transaction.
  unfoldable pub update_body : Env → String → ℤ → String → Body Price
  unfolding update_column after_block after_release
  update_body env key quantity action d =
      if str_eq action "BLOQUEAR"
      then after_block env key (update_column env (block_rows quantity key) d)
      else if str_eq action "LIBERAR"
      then after_release (update_column env (release_rows quantity key) d)
      else (err invalid_action, d)

  -- `UpdateStock` of the repository.
  unfoldable pub repository_update_stock :
      Transactions Price
      → Env
      → String
      → ℤ
      → String
      → Database Price
      → Result DomainError Bool × Database Price
  unfolding update_body succeeded
  repository_update_stock tx env key quantity action d =
      if leb_ℤ quantity (pos 0)
      then (err invalid_quantity, d)
      else let (r, d') = tx.transaction (update_body env key quantity action) d in (succeeded r, d')

  -- `UpdateStock` of the service.
  abbrev pub service_update_stock :
      Transactions Price
      → Env
      → String
      → ℤ
      → String
      → Database Price
      → Result DomainError Bool × Database Price
  service_update_stock tx env key quantity action d =
      repository_update_stock tx env key quantity action d
