-- ===== src/Auth/Present.antt =====
-- Who a token stands for after signing in and out, and the keys of the two tables.
use flight_pricing.Base.{
  ℕ, ◌+◌, ◌≡◌, refl, Bool, true, false, not, none, some, List, [], ◌∷◌, ◌==◌, ltb, if◌then◌else◌,
  arith, Bool-cases, Option-cases, inl, inr, sym, subst, ◌∙◌, map, find, ◌++◌, ap, filter, member,
  distinct, distinct-append, ==_iff,
}
use flight_pricing.Models.People.{User, UserSession}
use flight_pricing.Auth.Google.{GoogleIdentity}
use flight_pricing.Auth.Session.{
  Accounts, of_sub, refreshed, new_user, upsert_user, new_session, start_session, session_row,
  user_for_token, end_session, admit,
}

abbrev pub ids_of : List User → List ℕ
ids_of = map (λ u. u.user_id)

abbrev pub subs_of : List User → List ℕ
subs_of = map (λ u. u.google_sub)

abbrev pub tokens_of : List UserSession → List ℕ
tokens_of = map (λ s. s.token)

-- No two users share an id or a Google id, and no two sessions a token.
pub record IsKeyed (db : Accounts) : Type 0 where
  pub ids : distinct (ids_of db.users) ≡ true
  pub subs : distinct (subs_of db.users) ≡ true
  pub tokens : distinct (tokens_of db.sessions) ≡ true

abbrev renewed : GoogleIdentity → List User → List User
renewed who = map (λ v. if of_sub who.sub v then refreshed who v else v)

ids_of-renewed : (who : GoogleIdentity) (us : List User) → ids_of (renewed who us) ≡ ids_of us
ids_of-renewed who [] = refl
ids_of-renewed who (u ∷ us) = ground (arith, ids_of-renewed who us)

subs_of-renewed : (who : GoogleIdentity) (us : List User) → subs_of (renewed who us) ≡ subs_of us
subs_of-renewed who [] = refl
subs_of-renewed who (u ∷ us) = ground (arith, subs_of-renewed who us)

ids_of-append : (us : List User) (u : User) → ids_of (us ++ u ∷ []) ≡ ids_of us ++ u.user_id ∷ []
ids_of-append [] u = refl
ids_of-append (v ∷ us) u = ap (λ t. v.user_id ∷ t) (ids_of-append us u)

subs_of-append :
    (us : List User) (u : User) → subs_of (us ++ u ∷ []) ≡ subs_of us ++ u.google_sub ∷ []
subs_of-append [] u = refl
subs_of-append (v ∷ us) u = ap (λ t. v.google_sub ∷ t) (subs_of-append us u)

tokens_of-append :
    (ss : List UserSession) (s : UserSession)
    → tokens_of (ss ++ s ∷ []) ≡ tokens_of ss ++ s.token ∷ []
tokens_of-append [] s = refl
tokens_of-append (r ∷ ss) s = ap (λ t. r.token ∷ t) (tokens_of-append ss s)

member-find :
    (sub : ℕ) (us : List User) {u : User}
    → find (of_sub sub) us ≡ some u
    → member u.user_id (ids_of us) ≡ true
member-find sub [] h = cc
member-find sub (v ∷ us) {u} h = elim (Bool-cases (of_sub sub v)) [
  | inl hit ↦ let same : v ≡ u = ground (arith, h) in rw (sym same) (ground arith)
  | inr miss ↦ ground (arith, member-find sub us {u = u})
]

find-missing :
    (sub : ℕ) (us : List User) → find (of_sub sub) us ≡ none → member sub (subs_of us) ≡ false
find-missing sub [] h = refl
find-missing sub (v ∷ us) h = ground (arith, find-missing sub us)

absent-other :
    (x y : ℕ) (xs : List ℕ) → distinct (x ∷ xs) ≡ true → member y xs ≡ true → (x == y) ≡ false
absent-other x y xs d h = elim (Bool-cases (x == y)) [
  | inl same ↦
      let moved = subst (λ z. member z xs ≡ true) (sym ((==_iff x y).0 same)) h in
      ground (arith, d, moved)
  | inr other ↦ other
]

-- The user that the statement returns is the one that the table then has under its id.
find-renewed :
    (who : GoogleIdentity) (us : List User) {u : User}
    → distinct (ids_of us) ≡ true
    → find (of_sub who.sub) us ≡ some u
    → find (λ v. v.user_id == u.user_id) (renewed who us) ≡ some (refreshed who u)
find-renewed who [] d h = cc
find-renewed who (v ∷ us) {u} d h = elim (Bool-cases (of_sub who.sub v)) [
  | inl hit ↦ let same : v ≡ u = ground (arith, h) in rw (sym same) (ground arith)
  | inr miss ↦
      let found : find (of_sub who.sub) us ≡ some u = ground (arith, h) in
      let listed = member-find who.sub us found in
      let later = find-renewed who us {u = u} (ground (arith, d)) found in
      let other = absent-other v.user_id u.user_id (ids_of us) d listed in rw (miss, other) later
]

-- The session tables agree with the users on the ids they take: a new user's id and a new token are
-- fresh.
abbrev pub AreFresh : Accounts → ℕ → ℕ → Type 0
AreFresh db user_id token =
    (member user_id (ids_of db.users) ≡ false) × (member token (tokens_of db.sessions) ≡ false)

find-new :
    (us : List User) (u : User)
    → member u.user_id (ids_of us) ≡ false
    → find (λ v. v.user_id == u.user_id) (us ++ u ∷ []) ≡ some u
find-new [] u h = ground arith
find-new (v ∷ us) u h = ground (arith, find-new us u)

-- The user that an upsert returns is found by its id and has the identity's profile.
pub record IsReturned (who : GoogleIdentity) (us : List User) (u : User) : Type 0 where
  pub found : find (λ v. v.user_id == u.user_id) us ≡ some u
  pub same_sub : u.google_sub ≡ who.sub
  pub same_email : u.email ≡ who.email
  pub same_name : u.name ≡ who.name
  pub same_picture : u.picture ≡ who.picture

find-of_sub :
    (sub : ℕ) (us : List User) {u : User} → find (of_sub sub) us ≡ some u → u.google_sub ≡ sub
find-of_sub sub [] h = cc
find-of_sub sub (v ∷ us) {u} h = elim (Bool-cases (of_sub sub v)) [
  | inl hit ↦
      let same : v ≡ u = ground (arith, h) in
      ap (λ w. w.google_sub) (sym same) ∙ (==_iff v.google_sub sub).0 hit
  | inr miss ↦ find-of_sub sub us {u = u} (ground (arith, h))
]

upsert_user-IsReturned :
    (us : List User) (who : GoogleIdentity) (user_id : ℕ)
    → distinct (ids_of us) ≡ true
    → member user_id (ids_of us) ≡ false
    → IsReturned who (upsert_user us who user_id).0 (upsert_user us who user_id).1
unfolding upsert_user
upsert_user-IsReturned us who user_id d fresh = elim (Option-cases (find (of_sub who.sub) us)) [
  | inl none_yet ↦
      rw (upsert_user, none_yet)
        (record {
          found = find-new us (new_user user_id who) fresh;
          same_sub = refl;
          same_email = refl;
          same_name = refl;
          same_picture = refl;
        })
  | inr (u, known) ↦
      rw (upsert_user, known)
        (record {
          found = find-renewed who us d known;
          same_sub = find-of_sub who.sub us known;
          same_email = refl;
          same_name = refl;
          same_picture = refl;
        })
]

session_row-new :
    (keep : UserSession → Bool) (ss : List UserSession) (s : UserSession)
    → member s.token (tokens_of ss) ≡ false
    → session_row s.token (filter keep ss ++ s ∷ []) ≡ some s
session_row-new keep [] s h = ground arith
session_row-new keep (r ∷ ss) s h = ground (arith, session_row-new keep ss s)

-- Signing in and asking for the token later gives the user who signed in, until the session's span has
-- passed, and nobody from then on; that user has the identity's id at Google, email, name and picture.
-- Asked of tables whose keys are unique, with a fresh id and token.
pub user_for_token-admit :
    (db : Accounts) (who : GoogleIdentity) (user_id token ttl now later : ℕ)
    → IsKeyed db
    → AreFresh db user_id token
    → (user_for_token (admit db who user_id token ttl now).0 token later
        ≡ (if ltb later (now + ttl) then some (admit db who user_id token ttl now).1 else none))
      × IsReturned who
          (admit db who user_id token ttl now).0.users
          (admit db who user_id token ttl now).1
unfolding user_for_token admit start_session
user_for_token-admit db who user_id token ttl now later keyed fresh =
    let u = (upsert_user db.users who user_id).1 in
    let returned = upsert_user-IsReturned db.users who user_id keyed.ids fresh.0 in
    let row =
      session_row-new (λ s. not (ltb s.expires_at now)) db.sessions
        (new_session token u.user_id (now + ttl)) fresh.1 in
    (ground (arith, row, returned.found), returned)

tokens_of-filter :
    (keep : UserSession → Bool) (ss : List UserSession) (token : ℕ)
    → member token (tokens_of ss) ≡ false
    → member token (tokens_of (filter keep ss)) ≡ false
tokens_of-filter keep [] token h = refl
tokens_of-filter keep (s ∷ ss) token h = ground (arith, tokens_of-filter keep ss token)

distinct-filter :
    (keep : UserSession → Bool) (ss : List UserSession)
    → distinct (tokens_of ss) ≡ true
    → distinct (tokens_of (filter keep ss)) ≡ true
distinct-filter keep [] h = refl
distinct-filter keep (s ∷ ss) h =
    ground (arith, distinct-filter keep ss, tokens_of-filter keep ss s.token)

upserted-ids :
    (us : List User) (who : GoogleIdentity) (user_id : ℕ)
    → distinct (ids_of us) ≡ true
    → distinct (subs_of us) ≡ true
    → member user_id (ids_of us) ≡ false
    → (distinct (ids_of (upsert_user us who user_id).0) ≡ true)
      × (distinct (subs_of (upsert_user us who user_id).0) ≡ true)
unfolding upsert_user
upserted-ids us who user_id d e fresh = elim (Option-cases (find (of_sub who.sub) us)) [
  | inl none_yet ↦
      rw (upsert_user, none_yet)
        (
          rw (ids_of-append us (new_user user_id who))
              (distinct-append (ids_of us) user_id d fresh),
          rw (subs_of-append us (new_user user_id who))
              (distinct-append (subs_of us) who.sub e (find-missing who.sub us none_yet)),
        )
  | inr (u, known) ↦ rw (upsert_user, known, ids_of-renewed who us, subs_of-renewed who us) (d, e)
]

end_session-IsKeyed : (db : Accounts) (ended : ℕ) → IsKeyed db → IsKeyed (end_session db ended)
unfolding end_session
end_session-IsKeyed db ended keyed = record {
  ids = keyed.ids;
  subs = keyed.subs;
  tokens = distinct-filter (λ s. not (s.token == ended)) db.sessions keyed.tokens;
}

-- Signing in keeps the keys of both tables unique, so does signing out of any token, before the sign-in or
-- after it: no Google id has two users, so one account stays one user. The id and the token that a
-- sign-in draws are fresh.
pub admit-IsKeyed :
    (db : Accounts) (who : GoogleIdentity) (user_id token ttl now : ℕ)
    → IsKeyed db
    → AreFresh db user_id token
    → let admitted = (admit db who user_id token ttl now).0 in
      IsKeyed admitted
      × ((ended : ℕ) → IsKeyed (end_session db ended) × IsKeyed (end_session admitted ended))
unfolding admit start_session
admit-IsKeyed db who user_id token ttl now keyed fresh =
    let live = λ (s : UserSession). not (ltb s.expires_at now) in
    let user = (upsert_user db.users who user_id).1 in
    let ids = upserted-ids db.users who user_id keyed.ids keyed.subs fresh.0 in
    let admitted : IsKeyed (admit db who user_id token ttl now).0 = record {
      ids = ids.0;
      subs = ids.1;
      tokens =
          rw
            (tokens_of-append (filter live db.sessions)
              (new_session token user.user_id (now + ttl)))
            (distinct-append (tokens_of (filter live db.sessions)) token
              (distinct-filter live db.sessions keyed.tokens)
              (tokens_of-filter live db.sessions token fresh.1));
    } in
    (
      admitted,
      λ ended. (
        end_session-IsKeyed db ended keyed,
        end_session-IsKeyed (admit db who user_id token ttl now).0 ended admitted,
      ),
    )

session_row-ended :
    (ss : List UserSession) (token other : ℕ)
    → session_row other (filter (λ s. not (s.token == token)) ss)
      ≡ (if other == token then none else session_row other ss)
session_row-ended [] token other = ground arith
session_row-ended (s ∷ ss) token other = ground (arith, session_row-ended ss token other)

-- After signing out a token stands for nobody, at any time, and every other token for whom it stood for.
pub user_for_token-end_session :
    (db : Accounts) (token other now : ℕ)
    → user_for_token (end_session db token) other now
      ≡ (if other == token then none else user_for_token db other now)
unfolding user_for_token end_session
user_for_token-end_session db token other now =
    ground (arith, session_row-ended db.sessions token other)
