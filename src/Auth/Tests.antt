-- ===== src/Auth/Tests.antt =====
-- One account signing in on a device and out again, and the theorems at it.
use flight_pricing.Base.{ℕ, ◌≡◌, refl, true, Option, none, some, [], ◌∷◌, ◌&&◌}
use flight_pricing.Base.Text.{Text}
use flight_pricing.Auth.Google.{
  Settings, Claims, GoogleIdentity, Reply, reply, is_set, exchange_code, granted,
}
use flight_pricing.Auth.Session.{Accounts, admit, user_for_token, end_session}
use flight_pricing.Auth.Accepted.{IsVouched, exchange_code-IsVouched}
use flight_pricing.Auth.Present.{IsReturned, IsKeyed, user_for_token-admit, admit-IsKeyed}

abbrev cfg : Settings
cfg = record { client_id = 7 ∷ []; client_secret = 8 ∷ []; redirect_uri = 9 ∷ [] }

abbrev ana : GoogleIdentity
ana = record { sub = 4; email = 97 ∷ []; name = some (65 ∷ []); picture = none }

abbrev decode : Text → Option Claims
decode [] = none
decode (c ∷ t) = some (record {
  aud = some (7 ∷ []);
  sub = some 4;
  email = some (c ∷ []);
  name = some (65 ∷ []);
  picture = none;
})

-- The token is `x.a.y`.
abbrev post : Text → Reply
post code = reply 200 (some (120 ∷ 46 ∷ 97 ∷ 46 ∷ 121 ∷ []))

granted_ana : exchange_code cfg post decode (1 ∷ []) ≡ granted ana
unfolding exchange_code
granted_ana = refl

exchange_code-IsVouched_example :
    (is_set cfg.client_id && is_set cfg.client_secret && is_set cfg.redirect_uri ≡ true)
    × IsVouched cfg decode (post (1 ∷ [])) ana
exchange_code-IsVouched_example =
    exchange_code-IsVouched cfg post decode (1 ∷ []) {who = ana} granted_ana

-- Ana has an older profile and an older session, and so has someone else.
abbrev db : Accounts
db = record {
  users =
      record { user_id = 1; google_sub = 3; email = 98 ∷ []; name = none; picture = none }
      ∷ record { user_id = 2; google_sub = 4; email = 99 ∷ []; name = none; picture = none }
      ∷ [];
  sessions =
      record { token = 11; user_id = 2; expires_at = 5 }
      ∷ record { token = 12; user_id = 1; expires_at = 50 }
      ∷ [];
}

db-IsKeyed : IsKeyed db
db-IsKeyed = record { ids = refl; subs = refl; tokens = refl }

user_for_token-admit_example :
    (user_for_token (admit db ana 5 13 30 10).0 13 39 ≡ some (admit db ana 5 13 30 10).1)
    × IsReturned ana (admit db ana 5 13 30 10).0.users (admit db ana 5 13 30 10).1
user_for_token-admit_example = user_for_token-admit db ana 5 13 30 10 39 db-IsKeyed (refl, refl)

admit-IsKeyed_example :
    IsKeyed (admit db ana 5 13 30 10).0
    × ((ended : ℕ)
        → IsKeyed (end_session db ended) × IsKeyed (end_session (admit db ana 5 13 30 10).0 ended))
admit-IsKeyed_example = admit-IsKeyed db ana 5 13 30 10 db-IsKeyed (refl, refl)
