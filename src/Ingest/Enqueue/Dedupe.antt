-- ===== src/Ingest/Enqueue/Dedupe.antt =====
-- A task is queued once for each key of a run.
use flight_pricing.Base.{
  ℕ, ◌+◌, ◌≡◌, refl, Bool, true, false, not, ◌&&◌, ◌||◌, List, [], ◌∷◌, ◌++◌, ◌==◌, if◌then◌else◌,
  All, arith, inl, inr, Bool-cases,
}
use flight_pricing.Base.Text.{Text, text_eq, text_eq_refl}
use flight_pricing.Models.Ingest.{IngestTask}
use flight_pricing.Ingest.Enqueue.{NewTask, task_row, has_key, enqueue}

-- No two tasks of a run have one key.
abbrev pub is_deduped : List IngestTask → Bool
is_deduped [] = true
is_deduped (t ∷ ts) = not (has_key t.run_id t.dedupe_key ts) && is_deduped ts

text_eq_comm : (t u : Text) → text_eq t u ≡ text_eq u t
text_eq_comm [] [] = refl
text_eq_comm [] (d ∷ u) = refl
text_eq_comm (c ∷ t) [] = refl
text_eq_comm (c ∷ t) (d ∷ u) = ground (arith, text_eq_comm t u)

has_key-append :
    (run : ℕ) (key : Text) (ts : List IngestTask) (t : IngestTask)
    → has_key run key (ts ++ t ∷ [])
      ≡ (has_key run key ts || (t.run_id == run && text_eq t.dedupe_key key))
has_key-append run key [] t = ground arith
has_key-append run key (s ∷ ts) t = ground (arith, has_key-append run key ts t)

is_deduped-append :
    (ts : List IngestTask) (t : IngestTask)
    → has_key t.run_id t.dedupe_key ts ≡ false
    → is_deduped ts ≡ true
    → is_deduped (ts ++ t ∷ []) ≡ true
is_deduped-append [] t h v = refl
is_deduped-append (s ∷ ts) t h v = ground (
  arith,
  has_key-append s.run_id s.dedupe_key ts t,
  is_deduped-append ts t,
  text_eq_comm s.dedupe_key t.dedupe_key,
)

enqueue-is_deduped :
    (ts : List IngestTask) (rs : List NewTask) (id now : ℕ)
    → is_deduped ts ≡ true
    → is_deduped (enqueue ts rs id now).0 ≡ true
unfolding enqueue
enqueue-is_deduped ts [] id now v = v
enqueue-is_deduped ts (r ∷ rs) id now v = elim (Bool-cases (has_key r.run_id r.dedupe_key ts)) [
  | inl known ↦ rw known (enqueue-is_deduped ts rs (id + 1) now v)
  | inr new ↦ rw new (
      enqueue-is_deduped (ts ++ task_row r id now ∷ []) rs (id + 1) now
        (is_deduped-append ts (task_row r id now) new v))
]

enqueue-keeps :
    (ts : List IngestTask) (rs : List NewTask) (id now run : ℕ) (key : Text)
    → has_key run key ts ≡ true
    → has_key run key (enqueue ts rs id now).0 ≡ true
unfolding enqueue
enqueue-keeps ts [] id now run key h = h
enqueue-keeps ts (r ∷ rs) id now run key h = elim (Bool-cases (has_key r.run_id r.dedupe_key ts)) [
  | inl known ↦ rw known (enqueue-keeps ts rs (id + 1) now run key h)
  | inr new ↦ rw new (
      enqueue-keeps (ts ++ task_row r id now ∷ []) rs (id + 1) now run key
        (ground (arith, has_key-append run key ts (task_row r id now))))
]

enqueue-has_key :
    (ts : List IngestTask) (rs : List NewTask) (id now : ℕ)
    → All (λ r. has_key r.run_id r.dedupe_key (enqueue ts rs id now).0 ≡ true) rs
unfolding enqueue
enqueue-has_key ts [] id now = tt
enqueue-has_key ts (r ∷ rs) id now =
    let ts' = if has_key r.run_id r.dedupe_key ts then ts else ts ++ task_row r id now ∷ [] in
    (
      enqueue-keeps ts' rs (id + 1) now r.run_id r.dedupe_key (
          ground (
            arith,
            has_key-append r.run_id r.dedupe_key ts (task_row r id now),
            text_eq_refl r.dedupe_key,
          )),
      enqueue-has_key ts' rs (id + 1) now,
    )

enqueue-known :
    (ts : List IngestTask) (rs : List NewTask) (id now : ℕ)
    → All (λ r. has_key r.run_id r.dedupe_key ts ≡ true) rs
    → enqueue ts rs id now ≡ (ts, 0)
unfolding enqueue
enqueue-known ts [] id now h = refl
enqueue-known ts (r ∷ rs) id now h = rw (h.0) (rw (enqueue-known ts rs (id + 1) now h.1) refl)

-- Queueing keeps every key of a run to one task, and queueing the same rows again, at whatever time,
-- inserts nothing and leaves the tasks as they are.
pub enqueue_once :
    (ts : List IngestTask) (rs : List NewTask) (id now id' later : ℕ)
    → is_deduped ts ≡ true
    → let ts' = (enqueue ts rs id now).0 in
      (is_deduped ts' ≡ true) × (enqueue ts' rs id' later ≡ (ts', 0))
enqueue_once ts rs id now id' later v = (
  enqueue-is_deduped ts rs id now v,
  enqueue-known (enqueue ts rs id now).0 rs id' later (enqueue-has_key ts rs id now),
)
