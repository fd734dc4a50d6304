-- ===== src/Auth/Session.antt =====
-- tp_backend/libs/auth.py: users and sessions; tp_backend/tp_api/auth_routes.py: signing in and out, and
-- tp_backend/tp_api/deps.py: the user of a request.
use flight_pricing.Base.{
  ℕ, ◌+◌, Bool, not, Option, none, some, List, [], ◌∷◌, ◌++◌, map, ltb, leb, ◌==◌, if◌then◌else◌,
  find, filter,
}
use flight_pricing.Models.People.{User, UserSession}
use flight_pricing.Auth.Google.{GoogleIdentity, Exchanged, refused, granted}

-- The two tables that signing in writes.
pub record Accounts : Type 0 where
  pub users : List User
  pub sessions : List UserSession

abbrev pub of_sub : ℕ → User → Bool
of_sub sub u = u.google_sub == sub

abbrev pub refreshed : GoogleIdentity → User → User
refreshed who u = record u { email = who.email; name = who.name; picture = who.picture }

abbrev pub new_user : ℕ → GoogleIdentity → User
new_user user_id who = record {
  user_id = user_id;
  google_sub = who.sub;
  email = who.email;
  name = who.name;
  picture = who.picture;
}

-- `upsert_user`: the table and the row that the statement returns; `user_id` is the uuid it would use.
unfoldable pub upsert_user : List User → GoogleIdentity → ℕ → List User × User
upsert_user us who user_id = elim (find (of_sub who.sub) us) [
  | some u ↦ (map (λ v. if of_sub who.sub v then refreshed who v else v) us, refreshed who u)
  | none ↦ (us ++ new_user user_id who ∷ [], new_user user_id who)
]

abbrev pub new_session : ℕ → ℕ → ℕ → UserSession
new_session token user_id expires_at = record {
  token = token;
  user_id = user_id;
  expires_at = expires_at;
}

-- `start_session`; `ttl` is the setting's span.
unfoldable pub start_session : List UserSession → ℕ → ℕ → ℕ → ℕ → List UserSession
start_session ss user_id token ttl now =
    filter (λ s. not (ltb s.expires_at now)) ss ++ new_session token user_id (now + ttl) ∷ []

abbrev pub session_row : ℕ → List UserSession → Option UserSession
session_row token = find (λ s. s.token == token)

abbrev pub owner_of : List User → ℕ → Option UserSession → Option User
owner_of us now none = none
owner_of us now (some s) =
    if leb s.expires_at now then none else find (λ u. u.user_id == s.user_id) us

-- `user_for_token`
unfoldable pub user_for_token : Accounts → ℕ → ℕ → Option User
user_for_token db token now = owner_of db.users now (session_row token db.sessions)

-- `end_session`: the row with the key.
unfoldable pub end_session : Accounts → ℕ → Accounts
end_session db token = record db { sessions = filter (λ s. not (s.token == token)) db.sessions }

-- The writes of `sign_in_with_google`, once the code is exchanged.
unfoldable pub admit : Accounts → GoogleIdentity → ℕ → ℕ → ℕ → ℕ → Accounts × User
unfolding upsert_user start_session
admit db who user_id token ttl now =
    let (us, user) = upsert_user db.users who user_id in
    (record { users = us; sessions = start_session db.sessions user.user_id token ttl now }, user)

-- `sign_in_with_google`; a refusal is answered with 401, and nothing is written.
unfoldable pub sign_in :
    Accounts → Exchanged GoogleIdentity → ℕ → ℕ → ℕ → ℕ → Accounts × Exchanged User
unfolding admit
sign_in db (refused e) user_id token ttl now = (db, refused e)
sign_in db (granted who) user_id token ttl now =
    let done = admit db who user_id token ttl now in (done.0, granted done.1)

-- `current_user`, of a token that is none where the header was empty: none is answered with 401.
unfoldable pub current_user : Accounts → Option ℕ → ℕ → Option User
unfolding user_for_token
current_user db none now = none
current_user db (some token) now = user_for_token db token now
