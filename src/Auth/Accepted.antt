-- ===== src/Auth/Accepted.antt =====
-- Which codes are exchanged for an identity.
use flight_pricing.Base.{
  ℕ, ◌≡◌, refl, true, ◌&&◌, Option, none, some, [], ◌∷◌, ◌==◌, arith, Bool-cases, inl, inr, subst,
  ap,
}
use flight_pricing.Base.Text.{Text, text_eq_iff}
use flight_pricing.Auth.Google.{
  granted, GoogleIdentity, Settings, Reply, no_reply, reply, Claims, is_set, claims_of, same_text,
  identity, checked, read_reply, exchange_code,
}

-- The claims support the identity: its fields are theirs, for this client, with an email.
pub record IsBacked (cfg : Settings) (c : Claims) (who : GoogleIdentity) : Type 0 where
  pub for_client : c.aud ≡ some cfg.client_id
  pub has_email : is_set who.email ≡ true
  pub same_email : c.email ≡ some who.email
  pub same_sub : c.sub ≡ some who.sub
  pub same_name : c.name ≡ who.name
  pub same_picture : c.picture ≡ who.picture

-- A reply of status 200 whose token decodes to claims that support the identity.
pub record IsVouched (cfg : Settings) (decode : Text → Option Claims) (r : Reply)
    (who : GoogleIdentity) : Type 0 where
  pub id_token : Text
  pub is_reply : r ≡ reply 200 (some id_token)
  pub claims : Claims
  pub decoded : claims_of decode id_token ≡ some claims
  pub backed : IsBacked cfg claims who

same_text-some : (o : Option Text) (t : Text) → same_text o t ≡ true → o ≡ some t
same_text-some none t h = cc
same_text-some (some u) t h = ap some ((text_eq_iff u t).0 h)

identity-granted :
    (cfg : Settings) (c : Claims) (email : Option Text) (sub : Option ℕ) {who : GoogleIdentity}
    → c.aud ≡ some cfg.client_id
    → c.email ≡ email
    → c.sub ≡ sub
    → identity c email sub ≡ granted who
    → IsBacked cfg c who
identity-granted cfg c none sub a e s h = cc
identity-granted cfg c (some []) sub a e s h = cc
identity-granted cfg c (some (l ∷ email)) none a e s h = cc
identity-granted cfg c (some (l ∷ email)) (some sub) {who} a e s h =
    let same : record { sub = sub; email = l ∷ email; name = c.name; picture = c.picture } ≡ who =
      cc in
    subst (IsBacked cfg c) same (record {
      for_client = a;
      has_email = refl;
      same_email = e;
      same_sub = s;
      same_name = refl;
      same_picture = refl;
    })

checked-granted :
    (cfg : Settings) (o : Option Claims) {who : GoogleIdentity}
    → checked cfg o ≡ granted who
    → (c : Claims) × (o ≡ some c) × IsBacked cfg c who
unfolding checked
checked-granted cfg none h = cc
checked-granted cfg (some c) {who} h = elim (Bool-cases (same_text c.aud cfg.client_id)) [
  | inl same ↦ (
    c,
    refl,
    identity-granted cfg c c.email c.sub (same_text-some c.aud cfg.client_id same) refl refl
        (ground (arith, h)),
  )
  | inr other ↦ ground (arith, h)
]

read_reply-granted :
    (cfg : Settings) (decode : Text → Option Claims) (r : Reply) {who : GoogleIdentity}
    → read_reply cfg decode r ≡ granted who
    → IsVouched cfg decode r who
unfolding read_reply
read_reply-granted cfg decode no_reply h = cc
read_reply-granted cfg decode (reply status none) h = ground (arith, h)
read_reply-granted cfg decode (reply status (some id_token)) {who} h =
    elim (Bool-cases (status == 200)) [
      | inr other ↦ ground (arith, h)
      | inl good ↦ elim (Bool-cases (is_set id_token)) [
        | inr blank ↦ ground (arith, h)
        | inl full ↦
            let judged : checked cfg (claims_of decode id_token) ≡ granted who =
              ground (arith, h) in
            let (c, decoded, backed) = checked-granted cfg (claims_of decode id_token) judged in
            record {
              id_token = id_token;
              is_reply = ap (λ n. reply n (some id_token)) (ground (arith, good));
              claims = c;
              decoded = decoded;
              backed = backed;
            }
      ]
    ]

-- A code is exchanged for an identity only where sign-in is configured and Google answered with status
-- 200 and a token whose claims are for this client and hold the identity's id, its email, which is not
-- empty, and its name and picture. In every other case no identity comes out.
pub exchange_code-IsVouched :
    (cfg : Settings) (post : Text → Reply) (decode : Text → Option Claims) (code : Text)
    {who : GoogleIdentity}
    → exchange_code cfg post decode code ≡ granted who
    → (is_set cfg.client_id && is_set cfg.client_secret && is_set cfg.redirect_uri ≡ true)
      × IsVouched cfg decode (post code) who
unfolding exchange_code
exchange_code-IsVouched cfg post decode code {who} h =
    elim (Bool-cases
      (is_set cfg.client_id && is_set cfg.client_secret && is_set cfg.redirect_uri)) [
        | inl on ↦
            let read : read_reply cfg decode (post code) ≡ granted who = ground (arith, h) in
            (on, read_reply-granted cfg decode (post code) read)
        | inr off ↦ ground (arith, h)
      ]
