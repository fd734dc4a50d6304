-- ===== src/Trips/Resolved/Ids.antt =====
-- The ids that the loop over a request's cities gives.
use flight_pricing.Base.{
  ℕ, ◌≡◌, refl, sym, ap, subst, true, ◌||◌, List, [], ◌∷◌, ◌++◌, ◌==◌, ==_iff, all, member,
  member-append, distinct, distinct-append, arith, inl, inr, Bool-cases,
}
use flight_pricing.Base.Result.{ok}
use flight_pricing.Trips.Create.{World, Found, with_city, add_id, resolve_cities}
use flight_pricing.Trips.Resolved.{is_city, is_city_of, is_asked, Found-cases}

-- The ids begin with the one that the others begin with, if there is one.
abbrev pub IsLed : List ℕ → List ℕ → Type 0
IsLed [] out = Unit
IsLed (a ∷ rest) [] = ⊥
IsLed (a ∷ rest) (b ∷ bs) = b ≡ a

-- The ids that the loop gives, in the order of the request: those of the cities that its places are found
-- to be, each once, and every place is a city.
pub record IsResolved (lookup : ℕ → Found) (ps ids out : List ℕ) : Type 0 where
  pub cities : all (λ p. is_city (lookup p)) ps ≡ true
  pub members : (c : ℕ) → member c out ≡ (member c ids || is_asked lookup ps c)
  pub keys : distinct ids ≡ true → distinct out ≡ true
  pub leads : IsLed ids out

IsLed-refl : (ids : List ℕ) → IsLed ids ids
IsLed-refl [] = tt
IsLed-refl (a ∷ rest) = refl

IsLed-add_id : (c : ℕ) (ids out : List ℕ) → IsLed (add_id c ids) out → IsLed ids out
IsLed-add_id c [] out h = tt
IsLed-add_id c (a ∷ rest) [] h = elim (Bool-cases (member c (a ∷ rest))) [
  | inl known ↦ let k : IsLed (a ∷ rest) [] = rw known at h in k
  | inr new ↦ let k : IsLed (a ∷ rest ++ c ∷ []) [] = rw new at h in k
]
IsLed-add_id c (a ∷ rest) (b ∷ bs) h = elim (Bool-cases (member c (a ∷ rest))) [
  | inl known ↦ let k : IsLed (a ∷ rest) (b ∷ bs) = rw known at h in k
  | inr new ↦ let k : IsLed (a ∷ rest ++ c ∷ []) (b ∷ bs) = rw new at h in k
]

member-add_id : (x c : ℕ) (ids : List ℕ) → member x (add_id c ids) ≡ (member x ids || x == c)
member-add_id x c ids = elim (Bool-cases (member c ids)) [
  | inr new ↦ rw new (ground (arith, member-append x ids (c ∷ [])))
  | inl known ↦ rw known (elim (Bool-cases (x == c)) [
    | inl same ↦
        let there = subst (λ y. member y ids ≡ true) (sym ((==_iff x c).0 same)) known in
        ground (arith, there, same)
    | inr other ↦ ground (arith, other)
  ])
]

distinct-add_id : (c : ℕ) (ids : List ℕ) → distinct ids ≡ true → distinct (add_id c ids) ≡ true
distinct-add_id c ids h = elim (Bool-cases (member c ids)) [
  | inl known ↦ rw known h
  | inr new ↦ rw new (distinct-append ids c h new)
]

pub resolve_cities-IsResolved :
    (lookup : ℕ → Found) (ps : List ℕ) (w : World) (ids : List ℕ) {w' : World} {out : List ℕ}
    → resolve_cities w lookup ids ps ≡ (w', ok out)
    → IsResolved lookup ps ids out
unfolding resolve_cities
resolve_cities-IsResolved lookup [] w ids {w'} {out} h =
    let same : ok ids ≡ ok out = ap (λ r. r.1) h in
    let eq : ids ≡ out = cc in
    subst (IsResolved lookup [] ids) eq
      (record { cities = refl; members = λ c. ground arith; keys = λ d. d; leads = IsLed-refl ids })
resolve_cities-IsResolved lookup (p ∷ ps) w ids {w'} {out} h = elim (Found-cases (lookup p)) [
  | inl (inl e) ↦ let k = rw (resolve_cities, e) at h in let k' = ap (λ r. r.1) k in cc
  | inl (inr e) ↦ let k = rw (resolve_cities, e) at h in let k' = ap (λ r. r.1) k in cc
  | inr (d, e) ↦
      let k : resolve_cities (with_city w d) lookup (add_id d.place_id ids) ps ≡ (w', ok out) =
        rw (resolve_cities, e) at h in
      let rest = resolve_cities-IsResolved lookup ps (with_city w d) (add_id d.place_id ids) k in
      record {
        cities = rw e rest.cities;
        members = λ c. rw e (ground (arith, rest.members c, member-add_id c d.place_id ids));
        keys = λ u. rest.keys (distinct-add_id d.place_id ids u);
        leads = IsLed-add_id d.place_id ids out rest.leads;
      }
]

-- The first place is found to be the first city.
abbrev pub IsFirst : (ℕ → Found) → List ℕ → ℕ → Type 0
IsFirst lookup [] c = ⊥
IsFirst lookup (p ∷ ps) c = is_city_of (lookup p) c ≡ true

pub resolve_cities-IsFirst :
    (lookup : ℕ → Found) (ps : List ℕ) (w : World) {w' : World} {c : ℕ} {cs : List ℕ}
    → resolve_cities w lookup [] ps ≡ (w', ok (c ∷ cs))
    → IsFirst lookup ps c
unfolding resolve_cities
resolve_cities-IsFirst lookup [] w {w'} {c} {cs} h =
    let k : ok [] ≡ ok (c ∷ cs) = ap (λ r. r.1) h in cc
resolve_cities-IsFirst lookup (p ∷ ps) w {w'} {c} {cs} h = elim (Found-cases (lookup p)) [
  | inl (inl e) ↦ let k = rw (resolve_cities, e) at h in let k' = ap (λ r. r.1) k in cc
  | inl (inr e) ↦ let k = rw (resolve_cities, e) at h in let k' = ap (λ r. r.1) k in cc
  | inr (d, e) ↦
      let k : resolve_cities (with_city w d) lookup (d.place_id ∷ []) ps ≡ (w', ok (c ∷ cs)) =
        rw (resolve_cities, e) at h in
      let rest = resolve_cities-IsResolved lookup ps (with_city w d) (d.place_id ∷ []) k in
      let same : c ≡ d.place_id = rest.leads in rw e (ground (arith, same))
]
