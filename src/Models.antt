-- ===== src/Models.antt =====
-- tp_backend/libs/db/models.py: the rows that the modelled code reads and writes, and the database
-- as the record of their tables. Ids, dates, times and currencies are numbers: the code only
-- compares and sorts them, so a number stands for each string, in the strings' order. Texts are
-- lists of code points. Columns that no modelled code reads (`updated_at`) are left out.
pub mod People
pub mod Money
pub mod Itinerary
pub mod Ingest
use flight_pricing.Base.{List}
use People.{User, UserTrip, Trip, City}
use Money.{Expense, Settlement}
use Itinerary.{Place, ItineraryItem, TripDay, TripPlace, TripDismissal, TripCity, PlaceQuery}

pub record Db : Type 0 where
  pub users : List User
  pub cities : List City
  pub trips : List Trip
  pub user_trips : List UserTrip
  pub expenses : List Expense
  pub settlements : List Settlement
  pub places : List Place
  pub items : List ItineraryItem
  pub trip_days : List TripDay
  pub trip_places : List TripPlace
  pub trip_dismissals : List TripDismissal
  pub trip_cities : List TripCity
  pub place_queries : List PlaceQuery
