-- ===== src/Ingest/Policy.antt =====
-- The retry policy: which failures end a task, and how long the others wait.
use flight_pricing.Base.{
  ℕ, zero, suc, ◌-◌, ◌*◌, ◌^◌, ◌≤◌, ◌≡◌, refl, Bool, true, false, Option, none, some, max, arith,
}
use flight_pricing.Models.Ingest.{ErrorCode, transient, rate_limited, credentials, quota, permanent}
use flight_pricing.Ingest.Worker.{seconds, backoff, retry_after}

power_pos : (n : ℕ) → 1 ≤ 2 ^ n
power_pos zero = omega arith
power_pos (suc n) = omega (arith, power_pos n)

-- Nothing but a permanent error or missing credentials ends a task.
abbrev pub is_terminal : ErrorCode → Bool
is_terminal permanent = true
is_terminal credentials = true
is_terminal _ = false

-- What a wait satisfies.
abbrev pub IsWait : ErrorCode → ℕ → Option ℕ → Type 0
IsWait code attempts none = is_terminal code ≡ true
IsWait code attempts (some wait) =
    (is_terminal code ≡ false)
    × (seconds 5 ≤ wait)
    × (wait ≤ max (seconds (6 * 3600)) (seconds (300 * attempts)))

-- After an attempt, with a jitter of at most a quarter of the backoff, the policy gives up exactly on
-- a permanent error or missing credentials, and else waits at least five seconds and at most six
-- hours, or five minutes for each attempt where that is longer.
pub retry_after-IsWait :
    (code : ErrorCode) (attempts jitter : ℕ)
    → 1 ≤ attempts
    → jitter * 4 ≤ seconds (backoff attempts)
    → IsWait code attempts (retry_after code attempts jitter)
unfolding retry_after
retry_after-IsWait permanent attempts jitter h k = refl
retry_after-IsWait credentials attempts jitter h k = refl
retry_after-IsWait quota attempts jitter h k = (refl, omega arith, omega arith)
retry_after-IsWait rate_limited attempts jitter h k = (refl, omega arith, omega arith)
retry_after-IsWait transient attempts jitter h k =
    let p = power_pos (attempts - 1) in (refl, omega (arith, p), omega (arith, p))
