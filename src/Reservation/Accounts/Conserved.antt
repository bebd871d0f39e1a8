-- ===== src/Reservation/Accounts/Conserved.antt =====
-- Any sequence of `CreateReservation` requests to mi-servicio/main.go: what the stocks lose is booked.
use mathlib.Core.Path.{subst, ◌∙◌, ap}
use proyecto_sd_reserva_de_h.Base.{
  ℕ, ◌+◌, ◌≤◌, ◌≡◌, sym, String, arith, Bool, true, false, List, [], ◌∷◌, str_eq, some,
  if◌then◌else◌, Answer,
}
use proyecto_sd_reserva_de_h.Base.Int.{
  ℤ, pos, pos_part, neg_part, ◌+ℤ◌, ◌-ℤ◌, +ℤ_parts, -ℤ_parts, eq_of_parts,
}
use proyecto_sd_reserva_de_h.Reservation.Tables.{ReservationRow}
use proyecto_sd_reserva_de_h.Reservation.Remote.{InventoryService, World, take_one}
use proyecto_sd_reserva_de_h.Reservation.Server.{
  CreateReservationRequest, CreateReservationResponse, ReservationServer,
}
use proyecto_sd_reserva_de_h.Reservation.Ledger.{Ledger, ledger}
use proyecto_sd_reserva_de_h.Reservation.Calls.{IsAcknowledged}
use proyecto_sd_reserva_de_h.Reservation.Create.{create_reservation}
use proyecto_sd_reserva_de_h.Reservation.Accounts.{Settles, replayed, not_booked, booked, leaked}
use proyecto_sd_reserva_de_h.Reservation.Accounts.Run.{create_reservation_accounts}

-- The requests in order, with their answers.
unfoldable pub create_all :
    (inv : InventoryService)
    → World
    → List CreateReservationRequest
    → ReservationServer inv.State
    → List (Answer CreateReservationResponse) × ReservationServer inv.State
create_all inv w [] s = ([], s)
create_all inv w (req ∷ reqs) s =
    let (a, t) = create_reservation inv w req s in
    let (answers, u) = create_all inv w reqs t in (a ∷ answers, u)

abbrev pub one_if : Bool → ℕ
one_if here = if here then 1 else 0

-- The reservations of one room type.
abbrev pub reserved : String → List ReservationRow → ℕ
reserved key [] = 0
reserved key (row ∷ rows) = one_if (str_eq row.room_type_id key) + reserved key rows

pub one_less :
    (here : Bool) (v : ℤ) (n m : ℕ)
    → m ≡ one_if here + n
    → (if here then v -ℤ pos 1 else v) +ℤ pos m ≡ v +ℤ pos n
one_less false v n m e = ap (λ x. v +ℤ pos x) (omega arith)
one_less true v n m e =
    let p = +ℤ_parts (v -ℤ pos 1) (pos m) in
    let q = +ℤ_parts v (pos n) in let r = -ℤ_parts v (pos 1) in eq_of_parts _ _ (omega arith)

pub chain :
    (v v' v'' : ℤ) (n n' n'' d d' : ℕ)
    → v' +ℤ pos (n' + d) ≡ v +ℤ pos n
    → v'' +ℤ pos (n'' + d') ≡ v' +ℤ pos n'
    → v'' +ℤ pos (n'' + (d + d')) ≡ v +ℤ pos n
chain v v' v'' n n' n'' d d' e e' =
    let p = ap pos_part e in
    let m = ap neg_part e in
    let p' = ap pos_part e' in
    let m' = ap neg_part e' in
    let a = +ℤ_parts v' (pos (n' + d)) in
    let b = +ℤ_parts v (pos n) in
    let c = +ℤ_parts v'' (pos (n'' + d')) in
    let f = +ℤ_parts v' (pos n') in
    let g = +ℤ_parts v'' (pos (n'' + (d + d'))) in eq_of_parts _ _ (omega arith)

module _ (inv : InventoryService) where
  open inv use {State, stock, IsSound}

  -- From a stock of `v`: the stock and the reservations of `key` have the same sum afterwards, but
  -- for `d` units, each of a compensation that was given up.
  abbrev pub Balances : String → ℤ → Ledger State → Ledger State → Type 0
  Balances key v l l' =
      (v' : ℤ) × (d : ℕ) × (stock key l'.inventory ≡ some v')
      × (v' +ℤ pos (reserved key l'.reservations + d) ≡ v +ℤ pos (reserved key l.reservations))
      × (l.given_up + d ≤ l'.given_up)

  Settles-Balances :
      (req : CreateReservationRequest) (a : Answer CreateReservationResponse) (l l' : Ledger State)
      (key : String) (v : ℤ)
      → Settles inv req l a l'
      → stock key l.inventory ≡ some v
      → Balances key v l l'
  Settles-Balances req a l l' key v (replayed row f e q) h =
      subst (Balances key v l) (sym q) (v, 0, h, one_less false v _ _ (omega arith), omega arith)
  Settles-Balances req a l l' key v (not_booked r (i, st) rs g) h = (
    v,
    0,
    st key ∙ ap (take_one false) h,
    let r' = ap (reserved key) rs in one_less false v _ _ (omega arith),
    omega arith,
  )
  Settles-Balances req a l l' key v (booked row f e (i, st) rs g) h = (
    if str_eq req.room_type_id key then v -ℤ pos 1 else v,
    0,
    st key ∙ ap (take_one (str_eq req.room_type_id key)) h,
    let r' = ap (reserved key) rs in
        let k = ap (λ x. one_if (str_eq x key)) f.2 in
        one_less (str_eq req.room_type_id key) v _ _ (omega arith),
    omega arith,
  )
  Settles-Balances req a l l' key v (leaked e (i, st) rs g) h = (
    if str_eq req.room_type_id key then v -ℤ pos 1 else v,
    one_if (str_eq req.room_type_id key),
    st key ∙ ap (take_one (str_eq req.room_type_id key)) h,
    let r' = ap (reserved key) rs in one_less (str_eq req.room_type_id key) v _ _ (omega arith),
    ground arith,
  )

  Settles-IsSound :
      (req : CreateReservationRequest) (a : Answer CreateReservationResponse) (l l' : Ledger State)
      → Settles inv req l a l'
      → IsSound l.inventory
      → IsSound l'.inventory
  Settles-IsSound req a l l' (replayed row f e q) h =
      subst (λ (x : Ledger State). IsSound x.inventory) (sym q) h
  Settles-IsSound req a l l' (not_booked r t rs g) h = t.0
  Settles-IsSound req a l l' (booked row f e t rs g) h = t.0
  Settles-IsSound req a l l' (leaked e t rs g) h = t.0

  chain-Balances :
      (key : String) (v : ℤ) (l l' l'' : Ledger State) (b : Balances key v l l')
      → Balances key b.0 l' l''
      → Balances key v l l''
  chain-Balances key v l l' l'' (v', d, st, e, g) (v'', d', st', e', g') =
      (v'', d + d', st', chain v v' v'' _ _ _ d d' e e', omega arith)

  module _ (w : World) (k : IsAcknowledged w) where
    pub create_all-IsSound :
        (reqs : List CreateReservationRequest) (s : ReservationServer State)
        → IsSound s.inventory
        → IsSound (create_all inv w reqs s).1.inventory
    unfolding create_all
    create_all-IsSound [] s h = h
    create_all-IsSound (req ∷ reqs) s h =
        let (a, t) = create_reservation inv w req s in
        create_all-IsSound reqs t (
          Settles-IsSound req a (ledger s) (ledger t) (create_reservation_accounts inv w k req s h)
            h)

    -- Over any sequence of requests, replays and failures included, no unit of a room type is lost
    -- or booked twice: the stock and the reservations of the room type have the same sum afterwards,
    -- but for at most one unit for each compensation that was given up and counted. No reply of a
    -- call that took effect is lost, and the inventory service is sound.
    pub create_all_conserves :
        (reqs : List CreateReservationRequest) (s : ReservationServer State) (key : String) (v : ℤ)
        → IsSound s.inventory
        → stock key s.inventory ≡ some v
        → Balances key v (ledger s) (ledger (create_all inv w reqs s).1)
    unfolding create_all
    create_all_conserves [] s key v h e = (v, 0, e, one_less false v _ _ (omega arith), omega arith)
    create_all_conserves (req ∷ reqs) s key v h e =
        let (a, t) = create_reservation inv w req s in
        let settled = create_reservation_accounts inv w k req s h in
        let one = Settles-Balances req a (ledger s) (ledger t) key v settled e in
        chain-Balances key v (ledger s) (ledger t) _ one (
          create_all_conserves reqs t key one.0
            (Settles-IsSound req a (ledger s) (ledger t) settled h) one.2)
