-- ===== src/Ingest/Throttle.antt =====
-- tp_backend/tp_ingestions/throttle.py: one domain's budget of calls, a least gap and sliding windows.
-- Windows, gaps and jitter are in microseconds; the jitter drawn for each limit is an argument.
pub mod Windows
use flight_pricing.Base.{
  ℕ, zero, suc, ◌+◌, ◌-◌, ◌*◌, ◌≡◌, Bool, true, false, not, ◌&&◌, Option, none, some, List, [], ◌∷◌,
  ◌++◌, map, ltb, leb, ◌==◌, if◌then◌else◌, filter, length, max,
}
use flight_pricing.Base.Sort.{sort_by}

-- A row of `throttle_calls`.
pub record ThrottleCall : Type 0 where
  pub domain : ℕ
  pub called_at : ℕ

-- `limits` as it is given: each a number of calls and a window.
pub record Throttler : Type 0 where
  pub domain : ℕ
  pub min_gap : ℕ
  pub given : List (ℕ × ℕ)
  pub max_inline_wait : ℕ

-- `self.limits`
abbrev pub limits : Throttler → List (ℕ × ℕ)
limits t = sort_by (λ a b. leb a.1 b.1) t.given

-- `self.limits[-1][1]`, or a day.
abbrev pub last_window : List (ℕ × ℕ) → ℕ
last_window [] = 86400 * 1000000
last_window (l ∷ []) = l.1
last_window (l ∷ k ∷ ls) = last_window (k ∷ ls)

abbrev pub longest : Throttler → ℕ
longest t = last_window (limits t)

-- A call less than a window ago.
abbrev pub is_recent : ℕ → ℕ → ℕ → Bool
is_recent now window at = ltb now (at + window)

-- `_history`
unfoldable pub history : Throttler → List ThrottleCall → ℕ → List ℕ
history t calls now = sort_by leb (
    map (λ c. c.called_at)
      (filter (λ c. c.domain == t.domain && is_recent now (longest t) c.called_at) calls))

-- `_wait_for` returns the wait, or raises: the budget is spent, or a limit of no calls finds none.
pub data Wait : Type 0 where
  wait : ℕ → Wait
  exhausted index_error : Wait

-- What the draws of the jitter gave: for each limit, and for the gap.
pub record Jitter : Type 0 where
  pub of_limit : ℕ × ℕ → ℕ
  pub of_gap : ℕ

-- `waits.append(...)` of a full window. On integers it is `recent[0] + window + jitter - now`.
abbrev pub window_wait : List ℕ → ℕ × ℕ → Jitter → ℕ → Option ℕ
window_wait [] l jitter now = none
window_wait (first ∷ rest) l jitter now = some (first + l.1 + jitter.of_limit l - now)

abbrev pub at_least : Option ℕ → Wait → Wait
at_least none w = index_error
at_least (some n) (wait m) = wait (max n m)
at_least (some n) exhausted = exhausted
at_least (some n) index_error = index_error

-- The loop over the limits, and after it the gap.
unfoldable pub wait_over : List (ℕ × ℕ) → ℕ → List ℕ → ℕ → Jitter → ℕ → Wait
wait_over [] spent calls now jitter gap = wait gap
wait_over ((count, window) ∷ ls) spent calls now jitter gap =
    let recent = filter (is_recent now window) calls in
    let rest = wait_over ls spent calls now jitter gap in
    if ltb (length recent) count
    then rest
    else if window == spent
    then exhausted
    else at_least (window_wait recent (count, window) jitter now) rest

-- `calls[-1]`
abbrev pub last_call : List ℕ → Option ℕ
last_call [] = none
last_call (c ∷ []) = some c
last_call (c ∷ d ∷ cs) = last_call (d ∷ cs)

-- A wait below zero counts as none, since the waits start with zero.
abbrev pub gap_wait : Throttler → List ℕ → ℕ → Jitter → ℕ
gap_wait t calls now jitter =
    if t.min_gap == 0
    then 0
    else elim (last_call calls) [ none ↦ 0 | some at ↦ at + t.min_gap + jitter.of_gap - now ]

unfoldable pub wait_for : Throttler → List ℕ → ℕ → Jitter → Wait
unfolding wait_over
wait_for t calls now jitter =
    wait_over (limits t) (longest t) calls now jitter (gap_wait t calls now jitter)

abbrev pub spends : Wait → Bool
spends (wait n) = n == 0
spends _ = false

-- `_try_spend`: spend a call, or leave the rows as they are and say how long to wait.
unfoldable pub try_spend : Throttler → List ThrottleCall → ℕ → Jitter → List ThrottleCall × Wait
unfolding wait_for history
try_spend t calls now jitter =
    let w = wait_for t (history t calls now) now jitter in
    (if spends w then calls ++ record { domain = t.domain; called_at = now } ∷ [] else calls, w)
