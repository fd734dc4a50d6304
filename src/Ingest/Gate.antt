-- ===== src/Ingest/Gate.antt =====
-- tp_backend/tp_ingestions/throttle.py, `take` and `record`, and the two budgets of limits.py, whose
-- settings are arguments.
use flight_pricing.Base.{
  ℕ, zero, suc, ◌+◌, ◌*◌, not, ◌&&◌, List, [], ◌∷◌, ◌++◌, ltb, ◌==◌, if◌then◌else◌, filter,
}
use flight_pricing.Ingest.Throttle.{
  ThrottleCall, Throttler, longest, wait, exhausted, index_error, Jitter, try_spend,
}

-- How a call of `take` ends: with a call, with a `TaskError` for the quota, with `Throttled` and its
-- wait, or with Python's own error. `tired` stands for more rounds than the fuel allows.
pub data Taken : Type 0 where
  taken quota_spent broken tired : Taken
  throttled : ℕ → Taken

-- The loop of `take`, its rounds read from `rounds`: the time, which the sleeps move, and the draws.
unfoldable pub take :
    ℕ → Throttler → List ThrottleCall → (ℕ → ℕ × Jitter) → List ThrottleCall × Taken
take zero t calls rounds = (calls, tired)
take (suc fuel) t calls rounds =
    let (calls₁, answer) = try_spend t calls (rounds 0).0 (rounds 0).1 in
    let again = take fuel t calls₁ (λ n. rounds (n + 1)) in
    elim answer [
      | exhausted ↦ (calls₁, quota_spent)
      | index_error ↦ (calls₁, broken)
      | wait n ↦
          if n == 0
          then (calls₁, taken)
          else if ltb t.max_inline_wait n
          then (calls₁, throttled n)
          else again
    ]

-- `record`, at the time that the row is given, and the time that the delete reads.
unfoldable pub record_call : Throttler → List ThrottleCall → ℕ → ℕ → List ThrottleCall
record_call t calls at now =
    filter (λ c. not (c.domain == t.domain && ltb (c.called_at + longest t) now))
      (calls ++ record { domain = t.domain; called_at = at } ∷ [])

abbrev second : ℕ
second = 1000000

-- The domains are numbered 1 and 2.
abbrev pub rednote : ℕ → ℕ → ℕ → Throttler
rednote min_gap max_per_hour max_per_day = record {
  domain = 1;
  min_gap = min_gap;
  given = (max_per_hour, 3600 * second) ∷ (max_per_day, 86400 * second) ∷ [];
  max_inline_wait = 10 * second;
}

abbrev pub gemini : ℕ → ℕ → ℕ → Throttler
gemini min_gap max_per_minute max_per_day = record {
  domain = 2;
  min_gap = min_gap;
  given = (max_per_minute, 60 * second) ∷ (max_per_day, 86400 * second) ∷ [];
  max_inline_wait = 60 * second;
}
