-- ===== src/Auth/Google.antt =====
-- tp_backend/libs/auth.py: from an authorization code to a Google identity. Google's answer, and the
-- decoding of a token's payload (base64 and JSON), are arguments.
use flight_pricing.Base.{
  ℕ, ◌-◌, ◌%◌, Bool, true, false, not, ◌&&◌, ◌||◌, Option, none, some, [], ◌∷◌, ◌++◌, ◌==◌,
  if◌then◌else◌, length, zero, suc,
}
use flight_pricing.Base.Text.{Text, text_eq}

-- The `AuthError`s, by their messages, and Python's own errors.
pub data AuthError : Type 0 where
  not_configured unreachable no_id_token other_client no_email : AuthError
  rejected : ℕ → AuthError
  malformed : AuthError

pub data Exchanged {ℓ} (A : Type ℓ) : Type ℓ where
  refused : AuthError → Exchanged A
  granted : A → Exchanged A

pub record GoogleIdentity : Type 0 where
  pub sub : ℕ
  pub email : Text
  pub name : Option Text
  pub picture : Option Text

-- The settings that are read; an unset one is empty.
pub record Settings : Type 0 where
  pub client_id : Text
  pub client_secret : Text
  pub redirect_uri : Text

-- What the token endpoint gave: no answer, or a status with the `id_token` of its body.
pub data Reply : Type 0 where
  no_reply : Reply
  reply : ℕ → Option Text → Reply

pub record Claims : Type 0 where
  pub aud : Option Text
  pub sub : Option ℕ
  pub email : Option Text
  pub name : Option Text
  pub picture : Option Text

abbrev pub is_set : Text → Bool
is_set [] = false
is_set (c ∷ t) = true

-- `google_auth_url`: refused where sign-in is not configured; the query is the library's to write.
unfoldable pub google_auth_url : Settings → (Text → Text) → Text → Exchanged Text
google_auth_url cfg url state =
    if not (is_set cfg.client_id) || not (is_set cfg.redirect_uri)
    then refused not_configured
    else granted (url state)

-- `id_token.split(".")[1]`
after_dot : Text → Option Text
after_dot [] = none
after_dot (c ∷ t) = let rest = after_dot t in if c == 46 then some t else rest

before_dot : Text → Text
before_dot [] = []
before_dot (c ∷ t) = let rest = before_dot t in if c == 46 then [] else c ∷ rest

unfoldable pub payload_of : Text → Option Text
unfolding after_dot before_dot
payload_of id_token = elim (after_dot id_token) [ none ↦ none | some t ↦ some (before_dot t) ]

abbrev pub equals_signs : ℕ → Text
equals_signs zero = []
equals_signs (suc n) = 61 ∷ equals_signs n

-- `payload + "=" * (-len(payload) % 4)`
unfoldable pub padded : Text → Text
padded payload = payload ++ equals_signs ((4 - length payload % 4) % 4)

-- `_claims`: none where Python raises.
unfoldable pub claims_of : (Text → Option Claims) → Text → Option Claims
unfolding payload_of padded
claims_of decode id_token = elim (payload_of id_token) [
  | none ↦ none
  | some payload ↦ decode (padded payload)
]

abbrev pub same_text : Option Text → Text → Bool
same_text none t = false
same_text (some u) t = text_eq u t

-- The checks on the claims; a missing `sub` is a `KeyError`.
abbrev pub identity : Claims → Option Text → Option ℕ → Exchanged GoogleIdentity
identity c none sub = refused no_email
identity c (some []) sub = refused no_email
identity c (some (e ∷ email)) none = refused malformed
identity c (some (e ∷ email)) (some sub) =
    granted (record { sub = sub; email = e ∷ email; name = c.name; picture = c.picture })

unfoldable pub checked : Settings → Option Claims → Exchanged GoogleIdentity
checked cfg none = refused malformed
checked cfg (some c) =
    if not (same_text c.aud cfg.client_id) then refused other_client else identity c c.email c.sub

unfoldable pub read_reply : Settings → (Text → Option Claims) → Reply → Exchanged GoogleIdentity
unfolding checked claims_of
read_reply cfg decode no_reply = refused unreachable
read_reply cfg decode (reply status none) =
    if not (status == 200) then refused (rejected status) else refused no_id_token
read_reply cfg decode (reply status (some id_token)) =
    if not (status == 200)
    then refused (rejected status)
    else if not (is_set id_token)
    then refused no_id_token
    else checked cfg (claims_of decode id_token)

-- `exchange_code`; `post` is the request to Google with the code.
unfoldable pub exchange_code :
    Settings → (Text → Reply) → (Text → Option Claims) → Text → Exchanged GoogleIdentity
unfolding read_reply
exchange_code cfg post decode code =
    if not (is_set cfg.client_id && is_set cfg.client_secret && is_set cfg.redirect_uri)
    then refused not_configured
    else read_reply cfg decode (post code)
