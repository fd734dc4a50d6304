-- ===== src/Models/Itinerary.antt =====
-- tp_backend/libs/db/models.py: places, a trip's blocks and days, and its shortlist's rows.
use flight_pricing.Base.{ℕ, Option}
use flight_pricing.Base.Text.{Text}

pub data BlockKind : Type 0 where
  place custom : BlockKind

pub record Place : Type 0 where
  pub place_id : ℕ
  pub city_id : ℕ
  pub name : Text
  pub category : Option ℕ
  pub address : Option Text
  pub locality : Option Text

pub data Source : Type 0 where
  youtube rednote places gemini : Source

pub data Sentiment : Type 0 where
  recommended mixed not_recommended : Sentiment

pub record PlaceMention : Type 0 where
  pub place_id : ℕ
  pub source : Source
  pub category : Option ℕ
  pub why_go : Option Text
  pub sentiment : Sentiment

pub record ItineraryItem : Type 0 where
  pub id : ℕ
  pub trip_id : ℕ
  pub kind : BlockKind
  pub place_id : Option ℕ
  pub block_id : ℕ
  pub title : Option Text
  pub description : Option Text
  pub day_index : ℕ
  pub start_min : ℕ
  pub duration_min : ℕ
  pub reference_url : Option Text

pub record TripDay : Type 0 where
  pub trip_id : ℕ
  pub day_index : ℕ
  pub city_id : ℕ

pub record TripPlace : Type 0 where
  pub trip_id : ℕ
  pub place_id : ℕ

pub record TripDismissal : Type 0 where
  pub trip_id : ℕ
  pub place_id : ℕ

pub record TripCity : Type 0 where
  pub trip_id : ℕ
  pub city_id : ℕ
  pub created_at : ℕ

pub record PlaceQuery : Type 0 where
  pub city_id : ℕ
  pub query_norm : Text
  pub place_id : ℕ
