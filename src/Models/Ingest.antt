-- ===== src/Models/Ingest.antt =====
-- tp_backend/libs/db/models.py: the runs and tasks of the ingestion queue, and the cache of resolved
-- names; the vocabularies of libs/db/enums.py. Messages (`error`, `last_error`), `result`, `source`
-- and `created_at` are left out: no modelled code reads them. Times are in microseconds.
use flight_pricing.Base.{ℕ, Option, List}
use flight_pricing.Base.Text.{Text}

pub data RunKind : Type 0 where
  city_ingest trip_planning : RunKind

pub data RunStatus : Type 0 where
  run_pending run_running run_done run_failed needs_credentials : RunStatus

pub data TaskKind : Type 0 where
  youtube_search youtube_extract rednote_search rednote_fetch : TaskKind
  rednote_extract rednote_ocr places_resolve route_plan : TaskKind

pub data TaskStatus : Type 0 where
  pending running done failed skipped blocked : TaskStatus

pub data ErrorCode : Type 0 where
  transient rate_limited credentials quota permanent : ErrorCode

-- The payloads that the modelled code writes, by their entries; any other is its text.
pub data Payload : Type 0 where
  of_videos : ℕ → Text → Text → Option Text → Payload
  of_notes : ℕ → Text → Payload
  of_trip : ℕ → Payload
  other : Text → Payload

pub record IngestRun : Type 0 where
  pub run_id : ℕ
  pub city_id : Option ℕ
  pub kind : RunKind
  pub status : RunStatus
  pub requested_at : ℕ
  pub finished_at : Option ℕ
  pub failed_task_count : ℕ

pub record IngestTask : Type 0 where
  pub task_id : ℕ
  pub run_id : ℕ
  pub kind : TaskKind
  pub payload : Payload
  pub dedupe_key : Text
  pub status : TaskStatus
  pub attempts : ℕ
  pub max_attempts : ℕ
  pub run_after : ℕ
  pub locked_by : Option ℕ
  pub locked_at : Option ℕ
  pub error_code : Option ErrorCode
  pub finished_at : Option ℕ

-- The tables that the queue's code writes, `last_ingested_at` of cities among them.
pub record Tables : Type 0 where
  pub runs : List IngestRun
  pub tasks : List IngestTask
  pub ingested : List (ℕ × Option ℕ)
