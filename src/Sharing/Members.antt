-- ===== src/Sharing/Members.antt =====
-- tp_backend/tp_api/sharing/service.py and the access gates of tp_backend/tp_api/deps.py.
use flight_pricing.Base.{
  ℕ, Bool, not, ◌&&◌, Option, none, some, List, [], ◌∷◌, ◌++◌, leb, ◌==◌, if◌then◌else◌, find,
  filter,
}
use flight_pricing.Base.Sort.{sort_by}
use flight_pricing.Base.Text.{Text}
use flight_pricing.Base.Result.{
  Result, ok, err, raise_if, ◌>>=◌, ◌>>◌, no_such_trip, no_such_user, not_a_member, owner_role,
  owner_stays, still_owes, remove_other, view_only, owner_only,
}
use flight_pricing.Models.{Db}
use flight_pricing.Models.People.{User, UserTrip, TripRole, editor, viewer, is_owner, is_viewer}
use flight_pricing.Expenses.Overview.{has_balance}

-- `MemberIn.role`: no request can name an owner.
pub data SharedRole : Type 0 where
  as_editor as_viewer : SharedRole

abbrev pub role_of : SharedRole → TripRole
role_of as_editor = editor
role_of as_viewer = viewer

pub record MemberIn : Type 0 where
  pub user_id : ℕ
  pub role : SharedRole

pub record MemberOut : Type 0 where
  pub user_id : ℕ
  pub email : Text
  pub name : Option Text
  pub picture : Option Text
  pub role : TripRole

-- `_member`
abbrev pub member_out : User → TripRole → MemberOut
member_out user role = record {
  user_id = user.user_id;
  email = user.email;
  name = user.name;
  picture = user.picture;
  role = role;
}

-- `db.get(UserTrip, (user_id, trip_id))`
abbrev pub is_row : ℕ → ℕ → UserTrip → Bool
is_row user_id trip_id r = r.user_id == user_id && r.trip_id == trip_id

abbrev pub access : ℕ → ℕ → List UserTrip → Option UserTrip
access user_id trip_id = find (is_row user_id trip_id)

-- `db.get(User, user_id)`
abbrev pub user_row : ℕ → List User → Option User
user_row user_id = find (λ u. u.user_id == user_id)

-- `require_trip_access`: the caller's role, or 404.
unfoldable pub require_trip_access : Db → ℕ → ℕ → Result TripRole
require_trip_access db trip_id user_id = elim (access user_id trip_id db.user_trips) [
  | none ↦ err no_such_trip
  | some r ↦ ok r.role
]

-- `require_edit` and `require_admin`
unfoldable pub require_edit : TripRole → Result (Unit {0})
require_edit role = raise_if (is_viewer role) view_only

unfoldable pub require_admin : TripRole → Result (Unit {0})
require_admin role = raise_if (not (is_owner role)) owner_only

-- The join and the order of `members`; a row without its user joins nothing.
join_users : List User → List UserTrip → List MemberOut
join_users users [] = []
join_users users (r ∷ rs) = elim (user_row r.user_id users) [
  | none ↦ join_users users rs
  | some u ↦ member_out u r.role ∷ join_users users rs
]

unfoldable pub members : Db → ℕ → List MemberOut
unfolding join_users
members db trip_id = join_users db.users (
    sort_by (λ a b. leb a.created_at b.created_at)
      (filter (λ r. r.trip_id == trip_id) db.user_trips))

-- `row.role = role`
abbrev pub set_role : ℕ → ℕ → TripRole → List UserTrip → List UserTrip
set_role user_id trip_id role [] = []
set_role user_id trip_id role (r ∷ rs) =
    if is_row user_id trip_id r
    then record r { role = role } ∷ rs
    else r ∷ set_role user_id trip_id role rs

-- The three ways of `add_member`, by the row that is there.
unfoldable pub share_with : Db → ℕ → MemberIn → ℕ → Option UserTrip → Result Db
share_with db trip_id body now none = ok (record db {
  user_trips =
      db.user_trips
      ++ record {
        user_id = body.user_id;
        trip_id = trip_id;
        role = role_of body.role;
        created_at = now;
      }
        ∷ [];
})
share_with db trip_id body now (some r) =
    if is_owner r.role
    then err owner_role
    else ok
        (record db { user_trips = set_role body.user_id trip_id (role_of body.role) db.user_trips })

-- `add_member`
unfoldable pub add_member : Db → ℕ → MemberIn → ℕ → Result (Db × MemberOut)
unfolding share_with
add_member db trip_id body now = elim (user_row body.user_id db.users) [
  | none ↦ err no_such_user
  | some user ↦ do
    db' ← share_with db trip_id body now (access body.user_id trip_id db.user_trips)
    ok (db', member_out user (role_of body.role))
]

-- `db.delete(row)`: the row with the key.
abbrev pub without_row : ℕ → ℕ → List UserTrip → List UserTrip
without_row user_id trip_id [] = []
without_row user_id trip_id (r ∷ rs) =
    if is_row user_id trip_id r then rs else r ∷ without_row user_id trip_id rs

-- The second half of `remove_member`, by the row that is there.
unfoldable pub unshare : Db → ℕ → ℕ → Option UserTrip → Result Db
unshare db trip_id user_id none = err not_a_member
unshare db trip_id user_id (some r) = do
  raise_if (is_owner r.role) owner_stays
  raise_if (has_balance db trip_id user_id) still_owes
  ok (record db { user_trips = without_row user_id trip_id db.user_trips })

-- `remove_member`: `me` is the caller and `role` their role on the trip.
unfoldable pub remove_member : Db → ℕ → ℕ → ℕ → TripRole → Result Db
unfolding unshare
remove_member db trip_id user_id me role = do
  raise_if (not (user_id == me) && not (is_owner role)) remove_other
  unshare db trip_id user_id (access user_id trip_id db.user_trips)
