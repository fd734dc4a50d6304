-- ===== src/Ingest/Throttle/Windows.antt =====
-- The bound on the calls in every window.
use flight_pricing.Base.{
  ℕ, ◌+◌, ◌-◌, ◌≤◌, ◌<◌, ◌≡◌, refl, sym, ◌∙◌, Bool, true, false, ◌&&◌, some, List, [], ◌∷◌, ◌++◌,
  map, ltb, leb, ◌==◌, if◌then◌else◌, filter, length, All, All-mono, arith, inl, inr, Bool-cases,
}
use flight_pricing.Base.Sums.{sum_by}
use flight_pricing.Base.Sort.{sort_by, IsSorted, sort_by-IsSorted, sum_by-sort_by}
use flight_pricing.Ingest.Throttle.{
  ThrottleCall, Throttler, limits, last_window, longest, is_recent, history, Wait, wait, exhausted,
  index_error, Jitter, window_wait, at_least, wait_over, gap_wait, wait_for, spends, try_spend,
}

-- A domain's calls less than a window before a time.
abbrev pub recent_calls : Throttler → List ThrottleCall → ℕ → ℕ → ℕ
recent_calls t calls now window =
    length (filter (λ c. c.domain == t.domain && is_recent now window c.called_at) calls)

-- Every window holds at most its number of calls.
abbrev pub IsWithin : Throttler → List ThrottleCall → ℕ → Type 0
IsWithin t calls now = All (λ l. recent_calls t calls now l.1 ≤ l.0) (limits t)

spends-at_least : (n : ℕ) (w : Wait) → spends (at_least (some n) w) ≡ true → n ≡ 0
spends-at_least n (wait m) h = ground arith
spends-at_least n exhausted h = cc
spends-at_least n index_error h = cc

first_recent :
    (now window : ℕ) (calls : List ℕ) (l : ℕ × ℕ) (jitter : Jitter) (w : Wait)
    → l.1 ≡ window
    → spends (at_least (window_wait (filter (is_recent now window) calls) l jitter now) w) ≡ false
first_recent now window [] l jitter w e = refl
first_recent now window (c ∷ cs) l jitter w e = elim (Bool-cases (is_recent now window c)) [
  | inr old ↦ rw old (first_recent now window cs l jitter w e)
  | inl new ↦
      rw new (elim (Bool-cases (spends (at_least (some (c + l.1 + jitter.of_limit l - now)) w))) [
        | inr held ↦ held
        | inl free ↦
            let none_left = spends-at_least (c + l.1 + jitter.of_limit l - now) w free in
            absurd (ground arith)
      ])
]

-- A call is spent only where every window has room for it.
wait_over-spends :
    (ls : List (ℕ × ℕ)) (spent : ℕ) (calls : List ℕ) (now : ℕ) (jitter : Jitter) (gap : ℕ)
    → spends (wait_over ls spent calls now jitter gap) ≡ true
    → All (λ l. length (filter (is_recent now l.1) calls) < l.0) ls
unfolding wait_over
wait_over-spends [] spent calls now jitter gap h = tt
wait_over-spends ((count, window) ∷ ls) spent calls now jitter gap h =
    elim (Bool-cases (ltb (length (filter (is_recent now window) calls)) count)) [
      | inl room ↦
          (ground arith, wait_over-spends ls spent calls now jitter gap (rw (room, wait_over) at h))
      | inr full ↦ elim (Bool-cases (window == spent)) [
        | inl last ↦ let k : false ≡ true = rw (full, last, wait_over) at h in cc
        | inr short ↦
            let k = rw (full, short, wait_over) at h in
            let no =
              first_recent now window calls (count, window) jitter
                (wait_over ls spent calls now jitter gap) refl in
            cc
      ]
    ]

length-filter :
    (p : ℕ → Bool) (xs : List ℕ) → length (filter p xs) ≡ sum_by (λ x. if p x then 1 else 0) xs
length-filter p [] = refl
length-filter p (x ∷ xs) = ground (arith, length-filter p xs)

filter-sort_by :
    (p : ℕ → Bool) (xs : List ℕ) → length (filter p (sort_by leb xs)) ≡ length (filter p xs)
filter-sort_by p xs =
    length-filter p (sort_by leb xs)
    ∙ sum_by-sort_by leb (λ x. if p x then 1 else 0) xs
    ∙ sym (length-filter p xs)

recent_of_map :
    (domain now window far : ℕ) (calls : List ThrottleCall)
    → window ≤ far
    → length (
        filter (is_recent now window) (
          map
            (λ c. c.called_at)
            (filter (λ c. c.domain == domain && is_recent now far c.called_at) calls)))
      ≡ length (filter (λ c. c.domain == domain && is_recent now window c.called_at) calls)
recent_of_map domain now window far [] h = refl
recent_of_map domain now window far (c ∷ cs) h =
    ground (arith, recent_of_map domain now window far cs)

last-most :
    (ls : List (ℕ × ℕ)) → IsSorted (λ a b. leb a.1 b.1) ls → All (λ l. l.1 ≤ last_window ls) ls
last-most [] h = tt
last-most (l ∷ []) h = (omega arith, tt)
last-most (l ∷ k ∷ ls) h = let rest = last-most (k ∷ ls) h.1 in (ground (arith, rest.0), rest)

count-append :
    (p : ThrottleCall → Bool) (xs : List ThrottleCall) (c : ThrottleCall)
    → length (filter p (xs ++ c ∷ [])) ≤ length (filter p xs) + 1
count-append p [] c = ground arith
count-append p (x ∷ xs) c = ground (arith, count-append p xs c)

recent_calls_fewer :
    (t : Throttler) (calls : List ThrottleCall) (last now window : ℕ)
    → last ≤ now
    → recent_calls t calls now window ≤ recent_calls t calls last window
recent_calls_fewer t [] last now window h = omega arith
recent_calls_fewer t (c ∷ cs) last now window h =
    ground (arith, recent_calls_fewer t cs last now window)

All-× : (P Q : ℕ × ℕ → Type 0) (ls : List (ℕ × ℕ)) → All P ls → All Q ls → All (λ l. P l × Q l) ls
All-× P Q [] h k = tt
All-× P Q (l ∷ ls) h k = ((h.0, k.0), All-× P Q ls h.1 k.1)

try_spend-IsWithin :
    (t : Throttler) (calls : List ThrottleCall) (last now : ℕ) (jitter : Jitter)
    → last ≤ now
    → IsWithin t calls last
    → IsWithin t (try_spend t calls now jitter).0 now
unfolding try_spend wait_for history
try_spend-IsWithin t calls last now jitter h v =
    let past = history t calls now in
    elim (Bool-cases (spends (wait_for t past now jitter))) [
      | inr waits ↦
          rw (waits, try_spend)
            (All-mono (λ l. recent_calls t calls last l.1 ≤ l.0)
              (λ l. recent_calls t calls now l.1 ≤ l.0) (limits t)
              (λ l within. omega (arith, recent_calls_fewer t calls last now l.1 h, within)) v)
      | inl free ↦
          let room =
            wait_over-spends (limits t) (longest t) past now jitter (gap_wait t past now jitter)
              free in
          let shorter =
            last-most (limits t)
              (sort_by-IsSorted (λ a b. leb a.1 b.1) (λ a b e. ground arith) t.given) in
          rw (free, try_spend)
            (All-mono (λ l. (length (filter (is_recent now l.1) past) < l.0) × (l.1 ≤ longest t))
              (λ l.
                recent_calls t (calls ++ record { domain = t.domain; called_at = now } ∷ []) now l.1
                ≤ l.0)
              (limits t)
              (λ l both. omega (
                arith,
                both.0,
                filter-sort_by (is_recent now l.1) (
                    map (λ c. c.called_at)
                      (filter (λ c. c.domain == t.domain && is_recent now (longest t) c.called_at)
                        calls)),
                recent_of_map t.domain now l.1 (longest t) calls both.1,
                count-append (λ c. c.domain == t.domain && is_recent now l.1 c.called_at) calls
                    (record { domain = t.domain; called_at = now }),
              ))
              (All-× _ _ (limits t) room shorter))
    ]

-- The calls after tries at these times, and the time of the last one.
abbrev pub try_all : Throttler → List ThrottleCall → List (ℕ × Jitter) → List ThrottleCall
try_all t calls [] = calls
try_all t calls ((now, jitter) ∷ tries) = try_all t (try_spend t calls now jitter).0 tries

abbrev pub end_of : ℕ → List (ℕ × Jitter) → ℕ
end_of last [] = last
end_of last ((now, jitter) ∷ tries) = end_of now tries

-- The clock does not run backwards.
abbrev pub IsRising : ℕ → List (ℕ × Jitter) → Type 0
IsRising last [] = Unit
IsRising last ((now, jitter) ∷ tries) = (last ≤ now) × IsRising now tries

-- Whatever tries the workers make, one after the other, on a clock that does not run backwards, and
-- whatever the jitter: where every window ending at the start held at most its number of the domain's
-- calls, so does every window ending at the last try.
pub try_all-IsWithin :
    (t : Throttler) (calls : List ThrottleCall) (last : ℕ) (tries : List (ℕ × Jitter))
    → IsRising last tries
    → IsWithin t calls last
    → IsWithin t (try_all t calls tries) (end_of last tries)
try_all-IsWithin t calls last [] rising v = v
try_all-IsWithin t calls last ((now, jitter) ∷ tries) rising v =
    try_all-IsWithin t (try_spend t calls now jitter).0 now tries rising.1
      (try_spend-IsWithin t calls last now jitter rising.0 v)
