-- ===== src/Sharing/Roles.antt =====
-- A trip keeps its owners, and nobody leaves it owing or owed.
use flight_pricing.Base.{
  ℕ, ◌≡◌, refl, subst, true, false, not, ◌&&◌, Option, none, some, List, [], ◌∷◌, ◌++◌, ◌==◌,
  filter, length, arith, ◌⊎◌, inl, inr, Bool-cases, Option-cases,
}
use flight_pricing.Base.Int.{pos}
use flight_pricing.Base.Result.{
  ok, err, raise_if, >>=-eq-ok, raise_if-ok, remove_other, owner_stays, still_owes, owner_role,
  no_such_user,
}
use flight_pricing.Models.{Db}
use flight_pricing.Models.People.{UserTrip, TripRole, is_owner}
use flight_pricing.Expenses.Balances.{books, net_of}
use flight_pricing.Expenses.Overview.{ledger, has_balance}
use flight_pricing.Expenses.Debts.{has_balance_complete}
use flight_pricing.Sharing.Members.{
  MemberIn, MemberOut, SharedRole, as_editor, as_viewer, role_of, access, user_row, set_role,
  share_with, add_member, without_row, unshare, remove_member,
}

-- The owners of a trip, by the rows that say so.
abbrev pub owners : ℕ → List UserTrip → ℕ
owners trip_id rs = length (filter (λ r. r.trip_id == trip_id && is_owner r.role) rs)

owners-append :
    (t : ℕ) (rs : List UserTrip) (r : UserTrip)
    → is_owner r.role ≡ false
    → owners t (rs ++ r ∷ []) ≡ owners t rs
owners-append t [] r h = ground arith
owners-append t (r' ∷ rs) r h = ground (arith, owners-append t rs r h)

owners-set_role :
    (t u t' : ℕ) (role : TripRole) (rs : List UserTrip) {r : UserTrip}
    → access u t' rs ≡ some r
    → is_owner r.role ≡ false
    → is_owner role ≡ false
    → owners t (set_role u t' role rs) ≡ owners t rs
owners-set_role t u t' role [] a h k = cc
owners-set_role t u t' role (r' ∷ rs) {r} a h k =
    ground (arith, owners-set_role t u t' role rs {r = r})

owners-without_row :
    (t u t' : ℕ) (rs : List UserTrip) {r : UserTrip}
    → access u t' rs ≡ some r
    → is_owner r.role ≡ false
    → owners t (without_row u t' rs) ≡ owners t rs
owners-without_row t u t' [] a h = cc
owners-without_row t u t' (r' ∷ rs) {r} a h = ground (arith, owners-without_row t u t' rs {r = r})

is_owner-role_of : (role : SharedRole) → is_owner (role_of role) ≡ false
is_owner-role_of as_editor = refl
is_owner-role_of as_viewer = refl

owners-share_with :
    (db : Db) (trip_id : ℕ) (body : MemberIn) (now t : ℕ) (o : Option UserTrip) {db' : Db}
    → access body.user_id trip_id db.user_trips ≡ o
    → share_with db trip_id body now o ≡ ok db'
    → owners t db'.user_trips ≡ owners t db.user_trips
unfolding share_with
owners-share_with db trip_id body now t none {db'} a h =
    let row : UserTrip = record {
      user_id = body.user_id;
      trip_id = trip_id;
      role = role_of body.role;
      created_at = now;
    } in
    let made : record db { user_trips = db.user_trips ++ row ∷ [] } ≡ db' = cc in
    subst (λ (d : Db). owners t d.user_trips ≡ owners t db.user_trips) made
      (owners-append t db.user_trips row (is_owner-role_of body.role))
owners-share_with db trip_id body now t (some r) {db'} a h = elim (Bool-cases (is_owner r.role)) [
  | inl owner ↦ let k : err owner_role ≡ ok db' = rw owner at h in cc
  | inr other ↦
      let rows = set_role body.user_id trip_id (role_of body.role) db.user_trips in
      let k : ok (record db { user_trips = rows }) ≡ ok db' = rw other at h in
      let made : record db { user_trips = rows } ≡ db' = cc in
      subst (λ (d : Db). owners t d.user_trips ≡ owners t db.user_trips) made
        (owners-set_role t body.user_id trip_id (role_of body.role) db.user_trips {r = r} a other
          (is_owner-role_of body.role))
]

-- Sharing a trip, or changing a member's role, leaves the number of owners of every trip as it was.
pub owners-add_member :
    (db : Db) (trip_id : ℕ) (body : MemberIn) (now t : ℕ) {r : Db × MemberOut}
    → add_member db trip_id body now ≡ ok r
    → owners t r.0.user_trips ≡ owners t db.user_trips
unfolding add_member
owners-add_member db trip_id body now t {r} h =
    elim (Option-cases (user_row body.user_id db.users)) [
      | inl unknown ↦ let k : err no_such_user ≡ ok r = rw (unknown, add_member) at h in cc
      | inr (user, known) ↦
          let o = access body.user_id trip_id db.user_trips in
          let k = rw (known, add_member) at h in
          let (db', ran, h₁) = >>=-eq-ok (share_with db trip_id body now o) _ k in
          let made : db' ≡ r.0 = cc in
          subst (λ (d : Db). owners t d.user_trips ≡ owners t db.user_trips) made
            (owners-share_with db trip_id body now t o {db' = db'} refl ran)
    ]

unshare-ok :
    (db : Db) (trip_id u : ℕ) (o : Option UserTrip) {db' : Db}
    → unshare db trip_id u o ≡ ok db'
    → (r : UserTrip) × (o ≡ some r)
      × (is_owner r.role ≡ false)
      × (has_balance db trip_id u ≡ false)
      × (record db { user_trips = without_row u trip_id db.user_trips } ≡ db')
unfolding unshare
unshare-ok db trip_id u none {db'} h = cc
unshare-ok db trip_id u (some r) {db'} h =
    let (_, plain, h₁) = >>=-eq-ok (raise_if (is_owner r.role) owner_stays) _ h in
    let (_, even, h₂) = >>=-eq-ok (raise_if (has_balance db trip_id u) still_owes) _ h₁ in
    (r, refl, raise_if-ok _ owner_stays plain, raise_if-ok _ still_owes even, cc)

-- A member is removed only by themselves or by an owner of the trip; every trip keeps its number of
-- owners; and in every currency the member neither owes nor is owed anything on that trip.
pub remove_member_settled :
    (db : Db) (trip_id u me : ℕ) (role : TripRole) (t c : ℕ) {db' : Db}
    → remove_member db trip_id u me role ≡ ok db'
    → ((u ≡ me) ⊎ (is_owner role ≡ true))
      × (owners t db'.user_trips ≡ owners t db.user_trips)
      × (let l = ledger db trip_id in net_of u c (books l.expenses l.shares l.settlements) ≡ pos 0)
unfolding remove_member
remove_member_settled db trip_id u me role t c {db'} h =
    let rows = db.user_trips in
    let (_, may, h₁) =
      >>=-eq-ok (raise_if (not (u == me) && not (is_owner role)) remove_other) _ h in
    let allowed = raise_if-ok (not (u == me) && not (is_owner role)) remove_other may in
    let (r, found, plain, even, made) =
      unshare-ok db trip_id u (access u trip_id rows) {db' = db'} h₁ in
    (
      ground arith,
      subst (λ (d : Db). owners t d.user_trips ≡ owners t rows) made
          (owners-without_row t u trip_id rows {r = r} found plain),
      has_balance_complete db trip_id u c even,
    )
