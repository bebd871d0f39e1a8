-- ===== src/Inventory/Handler/Examples.antt =====
-- Tests of the layered inventory server, and its theorems at a concrete table.
use proyecto_sd_reserva_de_h.Base.{
  inr, find_row, ℕ, ◌≡◌, refl, str_eq_iff, update_rows, ◌⊎◌, true, [], ◌∷◌, some, String, arith,
  Result, ok, err, reply, fail, Status, status_error, Code,
}
use proyecto_sd_reserva_de_h.Base.Int.{pos, ◌-ℤ◌, ◌<ℤ◌}
use proyecto_sd_reserva_de_h.Inventory.Tables.{block_rows, UpdateStockRequest}
use proyecto_sd_reserva_de_h.Inventory.Stock.{stock_of}
use proyecto_sd_reserva_de_h.Inventory.Repository.{
  update_body, DomainError, database_error, Database, Body, Transactions, repository_update_stock,
}
use proyecto_sd_reserva_de_h.Inventory.Repository.Effects.{
  Commits, Done, repository_update_stock_atomic,
}
use proyecto_sd_reserva_de_h.Inventory.Handler.{action_str, handle_update_stock}
use proyecto_sd_reserva_de_h.Inventory.Handler.Agreement.{
  handle_unknown_action, handle_update_stock_atomic,
}
use proyecto_sd_reserva_de_h.Inventory.Samples.{calm, suite, deluxe, server-HasUniqueIds}

-- A transaction that always commits.
kept :
    Database ℕ
    → Result DomainError (Unit {0}) × Database ℕ
    → Result DomainError (Unit {0}) × Database ℕ
kept d (ok t, d') = (ok t, d')
kept d (err e, d') = (err e, d)

run_through : Body ℕ → Body ℕ
run_through body d = kept d (body d)

committing : Transactions ℕ
unfolding run_through kept
committing = record {
  transaction = run_through;
  rolls_back = λ body d e h. ground arith;
  commits_or_fails = λ body d h. ground arith;
}

-- One whose COMMIT takes effect and loses its reply.
unheard :
    Database ℕ
    → Result DomainError (Unit {0}) × Database ℕ
    → Result DomainError (Unit {0}) × Database ℕ
unheard d (ok t, d') = (err (database_error "unexpected EOF"), d')
unheard d (err e, d') = (err e, d)

commit_unheard : Body ℕ → Body ℕ
commit_unheard body d = unheard d (body d)

losing_commits : Transactions ℕ
unfolding commit_unheard unheard
losing_commits = record {
  transaction = commit_unheard;
  rolls_back = λ body d e h. ground arith;
  commits_or_fails = λ body d h. inr ("unexpected EOF", ground arith, inr (ground arith));
}

abbrev database : Database ℕ
database = record { room_types = suite ∷ deluxe ∷ []; tick = 0 }

repository_update_stock_atomic_example :
    let (r, d') = repository_update_stock committing calm "rt3" (pos 2) "BLOQUEAR" database in
    ((e : DomainError) × (r ≡ err e) × (d'.room_types ≡ database.room_types))
    ⊎ (Commits true r
        × (pos 0 <ℤ pos 2)
        × Done (pos 2) "rt3" "BLOQUEAR" database.room_types d'.room_types)
repository_update_stock_atomic_example =
    repository_update_stock_atomic committing calm "rt3" (pos 2) "BLOQUEAR" database
      server-HasUniqueIds

-- The change stands, and the caller is told of an error.
commit_lost :
    let (r, d') = repository_update_stock losing_commits calm "rt3" (pos 2) "BLOQUEAR" database in
    (r ≡ err (database_error "unexpected EOF")) × (stock_of "rt3" d'.room_types ≡ some (pos 3))
unfolding repository_update_stock losing_commits commit_unheard unheard update_body block_rows
    update_rows ◌-ℤ◌ stock_of find_row
commit_lost = (refl, refl)

abbrev reserve : UpdateStockRequest
reserve = record { room_type_id = "rt3"; cantidad = pos 2; accion = "RESERVAR" }

handle_unknown_action_example :
    handle_update_stock committing calm reserve database
    ≡ handle_update_stock committing calm (record reserve { accion = "BLOQUEAR" }) database
handle_unknown_action_example =
    handle_unknown_action committing calm reserve database
      (ground (arith, str_eq_iff "RESERVAR" "LIBERAR")) (ground (arith, str_eq_iff "RESERVAR" "1"))

handle_update_stock_atomic_example :
    let (a, d') = handle_update_stock committing calm reserve database in
    ((st : Status) × (a ≡ fail st) × (d'.room_types ≡ database.room_types))
    ⊎ (((a ≡ reply (record { status = true }))
          ⊎ ((m : String) × (a ≡ fail (status_error Code.internal m))))
        × (pos 0 <ℤ pos 2)
        × Done (pos 2) "rt3" (action_str "RESERVAR") database.room_types d'.room_types)
handle_update_stock_atomic_example =
    handle_update_stock_atomic committing calm reserve database server-HasUniqueIds
