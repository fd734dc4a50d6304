-- ===== src/Models/People.antt =====
-- tp_backend/libs/db/models.py: people, trips and who may see them; the roles of libs/db/enums.py.
use flight_pricing.Base.{ℕ, Bool, true, false, Option}
use flight_pricing.Base.Text.{Text}

pub data TripRole : Type 0 where
  owner editor viewer : TripRole

abbrev pub is_owner : TripRole → Bool
is_owner owner = true
is_owner _ = false

abbrev pub is_viewer : TripRole → Bool
is_viewer viewer = true
is_viewer _ = false

pub record User : Type 0 where
  pub user_id : ℕ
  pub google_sub : ℕ
  pub email : Text
  pub name : Option Text
  pub picture : Option Text

-- Tokens and Google's ids are numbers, as ids are.
pub record UserSession : Type 0 where
  pub token : ℕ
  pub user_id : ℕ
  pub expires_at : ℕ

pub record UserTrip : Type 0 where
  pub user_id : ℕ
  pub trip_id : ℕ
  pub role : TripRole
  pub created_at : ℕ

-- `lat` and `lon` are floats in the source, of which the modelled code reads only whether they are
-- there: a number stands for each.
pub record City : Type 0 where
  pub city_id : ℕ
  pub name : Text
  pub country : Option Text
  pub timezone : Option Text
  pub lat : Option ℕ
  pub lon : Option ℕ

-- A clock time of day, without its seconds.
pub record Time : Type 0 where
  pub hour : ℕ
  pub minute : ℕ

pub record Trip : Type 0 where
  pub trip_id : ℕ
  pub city_id : ℕ
  pub name : Option Text
  pub arrive_date : ℕ
  pub arrive_time : Option Time
  pub depart_date : ℕ
  pub depart_time : Option Time
  pub extra_details : Option Text
  pub deleted : Bool
