-- ===== src/Trips/Resolved.antt =====
-- tp_backend/tp_api/main.py, the loop over a request's cities: which ids it gives, and what it leaves of the
-- cities that were there.
pub mod Ids
use flight_pricing.Base.{
  ℕ, ◌≡◌, refl, sym, ◌∙◌, subst, Bool, true, false, ◌||◌, Option, none, some, List, [], ◌∷◌, ◌++◌,
  map, ◌==◌, ==_iff, if◌then◌else◌, any, All, arith, inl, inr, ◌⊎◌, Bool-cases,
}
use flight_pricing.Models.People.{City}
use flight_pricing.Ingest.Enqueue.{CityDetails, or_new, filled, new_city, has_city, ensure_city}
use flight_pricing.Trips.Create.{
  World, Found, other_place, no_answer, city_found, with_city, add_id, resolve_cities,
}

-- The lookup of a place answers with this city.
abbrev pub is_city_of : Found → ℕ → Bool
is_city_of other_place c = false
is_city_of no_answer c = false
is_city_of (city_found d) c = c == d.place_id

abbrev pub is_city : Found → Bool
is_city other_place = false
is_city no_answer = false
is_city (city_found d) = true

-- One of these places is found to be this city.
abbrev pub is_asked : (ℕ → Found) → List ℕ → ℕ → Bool
is_asked lookup ps c = any (λ p. is_city_of (lookup p) c) ps

-- A field that was known is as it was.
abbrev pub IsKnown {ℓ} : {A : Type ℓ} → Option A → Option A → Type ℓ
IsKnown none new = Unit
IsKnown (some a) new = new ≡ some a

-- The row of a city after others may have been asked for: as it was, unless it was one of these, which
-- may have gained what was missing.
pub record IsFilled (asked : ℕ → Bool) (c c' : City) : Type 0 where
  pub same_id : c'.city_id ≡ c.city_id
  pub same_name : c'.name ≡ c.name
  pub country : IsKnown c.country c'.country
  pub timezone : IsKnown c.timezone c'.timezone
  pub lat : IsKnown c.lat c'.lat
  pub lon : IsKnown c.lon c'.lon
  pub only_asked : (asked c.city_id ≡ true) ⊎ (c' ≡ c)

-- The cities that were there, in their order, and then only ones that were asked for.
abbrev pub IsGrown : (ℕ → Bool) → List City → List City → Type 0
IsGrown asked [] cs' = All (λ c. asked c.city_id ≡ true) cs'
IsGrown asked (c ∷ cs) [] = ⊥
IsGrown asked (c ∷ cs) (c' ∷ cs') = IsFilled asked c c' × IsGrown asked cs cs'

-- The times of the last ingests as they were, and then none for cities that were asked for.
abbrev pub IsDated : (ℕ → Bool) → List (ℕ × Option ℕ) → List (ℕ × Option ℕ) → Type 0
IsDated asked [] is' = All (λ i. (asked i.0 ≡ true) × (i.1 ≡ none)) is'
IsDated asked (i ∷ is) [] = ⊥
IsDated asked (i ∷ is) (i' ∷ is') = (i' ≡ i) × IsDated asked is is'

IsKnown-refl {ℓ} : {A : Type ℓ} (o : Option A) → IsKnown o o
IsKnown-refl none = tt
IsKnown-refl (some a) = refl

IsKnown-trans {ℓ} : {A : Type ℓ} (o p q : Option A) → IsKnown o p → IsKnown p q → IsKnown o q
IsKnown-trans none p q h k = tt
IsKnown-trans (some a) p q h k = subst (λ r. IsKnown r q) h k

IsFilled-refl : (asked : ℕ → Bool) (c : City) → IsFilled asked c c
IsFilled-refl asked c = record {
  same_id = refl;
  same_name = refl;
  country = IsKnown-refl c.country;
  timezone = IsKnown-refl c.timezone;
  lat = IsKnown-refl c.lat;
  lon = IsKnown-refl c.lon;
  only_asked = inr refl;
}

IsFilled-trans :
    (asked : ℕ → Bool) (a b c : City) → IsFilled asked a b → IsFilled asked b c → IsFilled asked a c
IsFilled-trans asked a b c h k = record {
  same_id = k.same_id ∙ h.same_id;
  same_name = k.same_name ∙ h.same_name;
  country = IsKnown-trans a.country b.country c.country h.country k.country;
  timezone = IsKnown-trans a.timezone b.timezone c.timezone h.timezone k.timezone;
  lat = IsKnown-trans a.lat b.lat c.lat h.lat k.lat;
  lon = IsKnown-trans a.lon b.lon c.lon h.lon k.lon;
  only_asked = elim h.only_asked [
    | inl yes_a ↦ inl yes_a
    | inr same ↦ elim k.only_asked [
      | inl yes_b ↦ inl (subst (λ x. asked x ≡ true) h.same_id yes_b)
      | inr same' ↦ inr (same' ∙ same)
    ]
  ];
}

pub IsGrown-refl : (asked : ℕ → Bool) (cs : List City) → IsGrown asked cs cs
IsGrown-refl asked [] = tt
IsGrown-refl asked (c ∷ cs) = (IsFilled-refl asked c, IsGrown-refl asked cs)

pub IsDated-refl : (asked : ℕ → Bool) (is : List (ℕ × Option ℕ)) → IsDated asked is is
IsDated-refl asked [] = tt
IsDated-refl asked (i ∷ is) = (refl, IsDated-refl asked is)

pub IsGrown-trans :
    (asked : ℕ → Bool) (a b c : List City)
    → IsGrown asked a b
    → IsGrown asked b c
    → IsGrown asked a c
IsGrown-trans asked [] [] c h k = k
IsGrown-trans asked [] (y ∷ b) [] h k = absurd k
IsGrown-trans asked [] (y ∷ b) (z ∷ c) h k =
    (subst (λ x. asked x ≡ true) (sym k.0.same_id) h.0, IsGrown-trans asked [] b c h.1 k.1)
IsGrown-trans asked (x ∷ a) [] c h k = absurd h
IsGrown-trans asked (x ∷ a) (y ∷ b) [] h k = absurd k
IsGrown-trans asked (x ∷ a) (y ∷ b) (z ∷ c) h k =
    (IsFilled-trans asked x y z h.0 k.0, IsGrown-trans asked a b c h.1 k.1)

pub IsDated-trans :
    (asked : ℕ → Bool) (a b c : List (ℕ × Option ℕ))
    → IsDated asked a b
    → IsDated asked b c
    → IsDated asked a c
IsDated-trans asked [] [] c h k = k
IsDated-trans asked [] (y ∷ b) [] h k = absurd k
IsDated-trans asked [] (y ∷ b) (z ∷ c) h k = (
  subst (λ x. (asked x.0 ≡ true) × (x.1 ≡ none)) (sym k.0) h.0,
  IsDated-trans asked [] b c h.1 k.1,
)
IsDated-trans asked (x ∷ a) [] c h k = absurd h
IsDated-trans asked (x ∷ a) (y ∷ b) [] h k = absurd k
IsDated-trans asked (x ∷ a) (y ∷ b) (z ∷ c) h k = (k.0 ∙ h.0, IsDated-trans asked a b c h.1 k.1)

-- Asking for one city.
IsKnown-or_new {ℓ} : {A : Type ℓ} (o new : Option A) → IsKnown o (or_new o new)
IsKnown-or_new none new = tt
IsKnown-or_new (some a) new = refl

abbrev fill : CityDetails → City → City
fill d c = if c.city_id == d.place_id then filled d c else c

fill-IsFilled :
    (asked : ℕ → Bool) (d : CityDetails) (c : City)
    → asked d.place_id ≡ true
    → IsFilled asked c (fill d c)
fill-IsFilled asked d c h = elim (Bool-cases (c.city_id == d.place_id)) [
  | inr other ↦ rw other (IsFilled-refl asked c)
  | inl mine ↦
      let same = (==_iff c.city_id d.place_id).0 mine in
      rw mine (record {
        same_id = refl;
        same_name = refl;
        country = IsKnown-or_new c.country d.country;
        timezone = IsKnown-or_new c.timezone d.timezone;
        lat = IsKnown-or_new c.lat d.lat;
        lon = IsKnown-or_new c.lon d.lon;
        only_asked = inl (subst (λ x. asked x ≡ true) (sym same) h);
      })
]

fill_all :
    (asked : ℕ → Bool) (d : CityDetails) (cs more : List City)
    → asked d.place_id ≡ true
    → IsGrown asked [] (map (fill d) more)
    → IsGrown asked cs (map (fill d) (cs ++ more))
fill_all asked d [] more h k = k
fill_all asked d (c ∷ cs) more h k = (fill-IsFilled asked d c h, fill_all asked d cs more h k)

IsDated-more :
    (asked : ℕ → Bool) (is more : List (ℕ × Option ℕ))
    → IsDated asked [] more
    → IsDated asked is (is ++ more)
IsDated-more asked [] more h = h
IsDated-more asked (i ∷ is) more h = (refl, IsDated-more asked is more h)

fill_known :
    (asked : ℕ → Bool) (d : CityDetails) (cs : List City)
    → asked d.place_id ≡ true
    → IsGrown asked cs (map (fill d) cs)
fill_known asked d [] h = tt
fill_known asked d (c ∷ cs) h = (fill-IsFilled asked d c h, fill_known asked d cs h)

pub ensure_city-IsGrown :
    (asked : ℕ → Bool) (d : CityDetails) (cs : List City) (is : List (ℕ × Option ℕ))
    → asked d.place_id ≡ true
    → IsGrown asked cs (ensure_city cs is d).0 × IsDated asked is (ensure_city cs is d).1
unfolding ensure_city
ensure_city-IsGrown asked d cs is h = elim (Bool-cases (has_city d.place_id cs)) [
  | inl known ↦ rw (ensure_city, known) (fill_known asked d cs h, IsDated-refl asked is)
  | inr missing ↦
      let new : asked (fill d (new_city d)).city_id ≡ true =
        subst (λ x. asked x ≡ true) (sym ((fill-IsFilled asked d (new_city d) h).same_id)) h in
      rw (ensure_city, missing)
        (
          fill_all asked d cs (new_city d ∷ []) h (new, tt),
          IsDated-more asked is ((d.place_id, none) ∷ []) ((h, refl), tt),
        )
]

pub Found-cases :
    (f : Found) → ((f ≡ other_place) ⊎ (f ≡ no_answer)) ⊎ ((d : CityDetails) × (f ≡ city_found d))
Found-cases other_place = inl (inl refl)
Found-cases no_answer = inl (inr refl)
Found-cases (city_found d) = inr (d, refl)

-- What the loop leaves of the cities: any places that the ones it was given are among are asked for.
pub resolve_cities-IsGrown :
    (lookup : ℕ → Found) (ps : List ℕ) (w : World) (ids : List ℕ) (asked : ℕ → Bool)
    → ((c : ℕ) → is_asked lookup ps c ≡ true → asked c ≡ true)
    → let w' = (resolve_cities w lookup ids ps).0 in
      IsGrown asked w.db.cities w'.db.cities × IsDated asked w.queue.ingested w'.queue.ingested
unfolding resolve_cities
resolve_cities-IsGrown lookup [] w ids asked h =
    (IsGrown-refl asked w.db.cities, IsDated-refl asked w.queue.ingested)
resolve_cities-IsGrown lookup (p ∷ ps) w ids asked h = elim (Found-cases (lookup p)) [
  | inl (inl e) ↦
      rw (resolve_cities, e) (IsGrown-refl asked w.db.cities, IsDated-refl asked w.queue.ingested)
  | inl (inr e) ↦
      rw (resolve_cities, e) (IsGrown-refl asked w.db.cities, IsDated-refl asked w.queue.ingested)
  | inr (d, e) ↦
      let w₁ = with_city w d in
      let w₂ = (resolve_cities w₁ lookup (add_id d.place_id ids) ps).0 in
      let now : asked d.place_id ≡ true = h d.place_id (rw e (ground arith)) in
      let (cities, dates) = ensure_city-IsGrown asked d w.db.cities w.queue.ingested now in
      let (cities', dates') =
        resolve_cities-IsGrown lookup ps w₁ (add_id d.place_id ids) asked
          (λ c k. h c (ground (arith, k))) in
      rw (resolve_cities, e)
        (
          IsGrown-trans asked w.db.cities w₁.db.cities w₂.db.cities cities cities',
          IsDated-trans asked w.queue.ingested w₁.queue.ingested w₂.queue.ingested dates dates',
        )
]
