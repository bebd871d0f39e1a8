-- ===== src/Reservation/Queries/Listing.antt =====
-- Which reservations `ListReservations` (mi-servicio/main.go) returns.
use mathlib.Core.List.{append-nil, append_assoc, Perm}
use mathlib.Core.List.Perm
use mathlib.Core.Path.{◌∙◌, ap, subst}
use proyecto_sd_reserva_de_h.Base.{
  ℕ, ◌+◌, ◌≤◌, leb, arith, ◌≡◌, sym, inl, inr, String, Bool, true, false, List, [], ◌∷◌, ◌++◌,
  str_eq, str_eq_iff, Bool-cases, select, map, All, if◌then◌else◌, Outcome, done, refused,
  unacknowledged, ask, Env, Answer, reply, fail, panics,
}
use proyecto_sd_reserva_de_h.Reservation.Tables.{ReservationRow}
use proyecto_sd_reserva_de_h.Reservation.Server.{ReservationServer}
use proyecto_sd_reserva_de_h.Reservation.Queries.{
  insert_newest, newest_first, select_newest, ReservationMessage, to_message, has_user, query,
  keep_scanned, scan_reservations, listed, list_nothing, list_rows, list_reservations,
}

abbrev pub IsOf : String → ReservationMessage → Type 0
IsOf user_id m = m.user_id ≡ user_id

All-append :
    (user_id : String) (ms : List ReservationMessage) (m : ReservationMessage)
    → All (IsOf user_id) ms
    → IsOf user_id m
    → All (IsOf user_id) (ms ++ m ∷ [])
All-append user_id [] m h p = (p, tt)
All-append user_id (x ∷ ms) m (h, hs) p = (h, All-append user_id ms m hs p)

select-has_user :
    (user_id : String) (rows : List ReservationRow)
    → All (λ (r : ReservationRow). r.user_id ≡ user_id) (select (has_user user_id) rows)
unfolding select
select-has_user user_id [] = tt
select-has_user user_id (row ∷ rows) =
    let rest = select-has_user user_id rows in
    elim (Bool-cases (has_user user_id row)) [
      | inl e ↦ rw e ((str_eq_iff row.user_id user_id).0 e, rest)
      | inr e ↦ rw e rest
    ]

-- No row is newer than the one before it.
abbrev pub IsNewestFirst : List ReservationRow → Type 0
IsNewestFirst [] = Unit
IsNewestFirst (row ∷ rows) =
    All (λ (r : ReservationRow). r.created_at ≤ row.created_at) rows × IsNewestFirst rows

insert_newest-Perm :
    (row : ReservationRow) (rows : List ReservationRow) → Perm (insert_newest row rows) (row ∷ rows)
insert_newest-Perm row [] = Perm.refl (row ∷ [])
insert_newest-Perm row (r ∷ rows) = elim (Bool-cases (leb r.created_at row.created_at)) [
  | inl e ↦ rw e (Perm.refl (row ∷ r ∷ rows))
  | inr e ↦ rw e (Perm.trans (Perm.cons r (insert_newest-Perm row rows)) (Perm.swap row r rows))
]

newest_first-Perm : (rows : List ReservationRow) → Perm (newest_first rows) rows
newest_first-Perm [] = Perm.nil
newest_first-Perm (row ∷ rows) =
    Perm.trans (insert_newest-Perm row (newest_first rows)) (Perm.cons row (newest_first-Perm rows))

insert_newest-All :
    (P : ReservationRow → Type 0) (row : ReservationRow) (rows : List ReservationRow)
    → P row
    → All P rows
    → All P (insert_newest row rows)
insert_newest-All P row [] p h = (p, h)
insert_newest-All P row (r ∷ rows) p h = elim (Bool-cases (leb r.created_at row.created_at)) [
  | inl e ↦ rw e (p, h)
  | inr e ↦ rw e (h.0, insert_newest-All P row rows p h.1)
]

newest_first-All :
    (P : ReservationRow → Type 0) (rows : List ReservationRow)
    → All P rows
    → All P (newest_first rows)
newest_first-All P [] h = tt
newest_first-All P (row ∷ rows) (p, h) =
    insert_newest-All P row (newest_first rows) p (newest_first-All P rows h)

older-All :
    (n m : ℕ) (rows : List ReservationRow)
    → n ≤ m
    → All (λ (r : ReservationRow). r.created_at ≤ n) rows
    → All (λ (r : ReservationRow). r.created_at ≤ m) rows
older-All n m [] b h = tt
older-All n m (r ∷ rows) b (p, h) = (omega arith, older-All n m rows b h)

insert_newest-IsNewestFirst :
    (row : ReservationRow) (rows : List ReservationRow)
    → IsNewestFirst rows
    → IsNewestFirst (insert_newest row rows)
insert_newest-IsNewestFirst row [] h = (tt, tt)
insert_newest-IsNewestFirst row (r ∷ rows) (p, h) =
    elim (Bool-cases (leb r.created_at row.created_at)) [
      | inl e ↦
          let b : r.created_at ≤ row.created_at = ground arith in
          rw e ((b, older-All r.created_at row.created_at rows b p), (p, h))
      | inr e ↦
          let b : row.created_at ≤ r.created_at = ground arith in
          rw e (
            insert_newest-All (λ x. x.created_at ≤ r.created_at) row rows b p,
            insert_newest-IsNewestFirst row rows h,
          )
    ]

newest_first-IsNewestFirst : (rows : List ReservationRow) → IsNewestFirst (newest_first rows)
newest_first-IsNewestFirst [] = tt
newest_first-IsNewestFirst (row ∷ rows) =
    insert_newest-IsNewestFirst row (newest_first rows) (newest_first-IsNewestFirst rows)

-- Every reservation that an answer shows is the user's.
abbrev Shows : String → Answer (List ReservationMessage) → Type 0
Shows user_id (reply list) = All (IsOf user_id) list
Shows user_id (fail st) = Unit
Shows user_id panics = Unit

keep-IsOf :
    (user_id : String) (o : Outcome) (row : ReservationRow) (list : List ReservationMessage)
    → row.user_id ≡ user_id
    → All (IsOf user_id) list
    → All (IsOf user_id) (keep_scanned o row list)
keep-IsOf user_id done row list p h = All-append user_id list (to_message row) h p
keep-IsOf user_id (refused e) row list p h = h
keep-IsOf user_id (unacknowledged e) row list p h = h

module _ {I : Type 0} (env : Env) where
  scan-IsOf :
      (user_id : String) (rows : List ReservationRow) (list : List ReservationMessage)
      (s : ReservationServer I)
      → All (λ (r : ReservationRow). r.user_id ≡ user_id) rows
      → All (IsOf user_id) list
      → All (IsOf user_id) (scan_reservations env rows list s).0
  unfolding scan_reservations
  scan-IsOf user_id [] list s h p = p
  scan-IsOf user_id (row ∷ rows) list s (h, hs) p =
      scan-IsOf user_id rows _ _ hs (keep-IsOf user_id (env.outcome s.tick) row list h p)

  scan_all :
      (rows : List ReservationRow) (list : List ReservationMessage) (s : ReservationServer I)
      → ((n : ℕ) → env.outcome n ≡ done)
      → (scan_reservations env rows list s).0 ≡ list ++ map to_message rows
  unfolding scan_reservations
  scan_all [] list s d = sym (append-nil list)
  scan_all (row ∷ rows) list s d =
      scan_all rows (keep_scanned (env.outcome s.tick) row list) _ d
      ∙ ap (λ o. keep_scanned o row list ++ map to_message rows) (d s.tick)
      ∙ append_assoc list (to_message row ∷ []) (map to_message rows)

  listed-Shows :
      (user_id : String) (o : Outcome) (s t : ReservationServer I)
      → Shows user_id (listed env (ask o (select_newest user_id s.db)) t).0
  unfolding listed ask select_newest
  listed-Shows user_id done s t =
      scan-IsOf user_id (select_newest user_id s.db) [] t
        (newest_first-All (λ r. r.user_id ≡ user_id) (select (has_user user_id) s.db.reservations)
          (select-has_user user_id s.db.reservations))
        tt
  listed-Shows user_id (refused e) s t = tt
  listed-Shows user_id (unacknowledged e) s t = tt

  by_name-Shows :
      (user_id : String) (nameless : Bool) (s : ReservationServer I)
      → Shows user_id ((if nameless then list_nothing env else list_rows env user_id) s).0
  unfolding list_nothing list_rows query
  by_name-Shows user_id true s = tt
  by_name-Shows user_id false s = listed-Shows user_id (env.outcome s.tick) s _

  -- `ListReservations` never shows a reservation of another user, whatever its database does.
  pub list_reservations_private :
      (user_id : String) (s : ReservationServer I) (list : List ReservationMessage)
      → (list_reservations env user_id s).0 ≡ reply list
      → All (IsOf user_id) list
  unfolding list_reservations
  list_reservations_private user_id s list e =
      subst (Shows user_id) e (by_name-Shows user_id (str_eq user_id "") s)

  -- When every outside call goes well, a user that is named is answered with the messages of exactly
  -- the rows of the table that are the user's, each as often as it stands there, and no row is newer
  -- than the one before it.
  pub list_reservations_complete :
      (user_id : String) (s : ReservationServer I)
      → ((n : ℕ) → env.outcome n ≡ done)
      → str_eq user_id "" ≡ false
      → (rows : List ReservationRow) × ((list_reservations env user_id s).0
          ≡ reply (map to_message rows))
        × Perm rows (select (has_user user_id) s.db.reservations)
        × IsNewestFirst rows
  unfolding list_reservations list_rows listed query ask select_newest
  list_reservations_complete user_id s d named =
      let selected = select (has_user user_id) s.db.reservations in
      let rows = select_newest user_id s.db in
      (
        rows,
        rw (named, d s.tick) (ap reply (scan_all rows [] (record s { tick = s.tick + 1 }) d)),
        newest_first-Perm selected,
        newest_first-IsNewestFirst selected,
      )
