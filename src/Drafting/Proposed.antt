-- ===== src/Drafting/Proposed.antt =====
-- What the rounds of `propose` return: the best of the plans that they judged, and always an answer
-- where the model gives one.
use flight_pricing.Base.{
  ℕ, zero, suc, ◌+◌, ◌≤◌, ◌≡◌, refl, sym, ◌∙◌, all, ltb, true, subst, false, not, ◌||◌, Option,
  none, some, List, [], ◌∷◌, ◌++◌, ◌==◌, if◌then◌else◌, length, take, get_elem?, All, All-mono,
  arith, inl, inr, Bool-cases,
}
use flight_pricing.Base.Result.{ok, Result-cases}
use flight_pricing.Base.Text.{Text}
use flight_pricing.Models.People.{Trip}
use flight_pricing.Drafting.Reply.{
  ReplyDay, Candidate, Plan, Chosen, window, has_pair, keep, off_city,
}
use flight_pricing.Drafting.Judged.{Problems, is_indexed, problems, check_plan}
use flight_pricing.Drafting.Picked.{IsFit}
use flight_pricing.Drafting.Kept.{IsFitDay, IsKept, keep-IsKept}
use flight_pricing.Drafting.Rounds.{
  rounds, count, Judgement, has_gained, shut_days, feedback_of, Model, Asked, judge, propose_from,
  propose,
}
use flight_pricing.Drafting.Reached.{trace, propose_from-IsReached}

-- Pairs that are shut stay shut from round to round.
abbrev KeepsShut : List (ℕ × ℕ) → List (ℕ × ℕ) → Type 0
KeepsShut base shut = (d i : ℕ) → has_pair d i shut ≡ false → has_pair d i base ≡ false

has_pair-append :
    (d i : ℕ) (xs ys : List (ℕ × ℕ)) → has_pair d i (xs ++ ys) ≡ false → has_pair d i xs ≡ false
has_pair-append d i [] ys h = refl
has_pair-append d i (x ∷ xs) ys h = ground (arith, h, has_pair-append d i xs ys)

IsFit-covers :
    (w : ℕ × ℕ) (n day : ℕ) (base shut : List (ℕ × ℕ)) (c : Chosen)
    → KeepsShut base shut
    → IsFit w n day shut c
    → IsFit w n day base c
IsFit-covers w n day base shut c more v = record {
  in_range = v.in_range;
  not_shut = more day c.index v.not_shut;
  start_on_grid = v.start_on_grid;
  duration_on_grid = v.duration_on_grid;
  a_slot = v.a_slot;
  after_first = v.after_first;
  before_last = v.before_last;
}

IsKept-covers :
    (trip : Trip) (n : ℕ) (open_days : List ℕ) (base shut : List (ℕ × ℕ)) (plan : Plan)
    → KeepsShut base shut
    → IsKept trip n open_days shut plan
    → IsKept trip n open_days base plan
IsKept-covers trip n open_days base shut plan more v = record {
  days =
      All-mono (IsFitDay trip n open_days shut) (IsFitDay trip n open_days base) plan
        (λ p u. record {
          is_open = u.is_open;
          in_order = u.in_order;
          at_most = u.at_most;
          fits =
              All-mono (IsFit (window trip p.0) n p.0 shut) (IsFit (window trip p.0) n p.0 base) p.1
                (λ c. IsFit-covers (window trip p.0) n p.0 base shut c more) u.fits;
        })
        v.days;
  each_day_once = v.each_day_once;
  each_pick_once = v.each_pick_once;
}

-- A plan that can be kept where `base` is shut, with the day check's verdict on it in some round.
pub record IsDrafted (a : Asked) (base : List (ℕ × ℕ)) (g : Judgement) : Type 0 where
  pub kept : IsKept a.trip (length a.places) a.open_days base g.0
  pub round : ℕ
  pub judged : g.1 ≡ problems a.trip g.0 a.places (a.hours round)

-- Every pick of a plan that is kept has its place, so that the day check looks none up in vain.
all_fit :
    (w : ℕ × ℕ) (places : List Candidate) (day : ℕ) (shut : List (ℕ × ℕ)) (cs : List Chosen)
    → All (IsFit w (length places) day shut) cs
    → all (λ c. ltb c.index (length places)) cs ≡ true
all_fit w places day shut [] h = refl
all_fit w places day shut (c ∷ cs) h =
    let here = h.0.in_range in ground (arith, here, all_fit w places day shut cs h.1)

IsKept-is_indexed :
    (trip : Trip) (places : List Candidate) (open_days : List ℕ) (shut : List (ℕ × ℕ)) (plan : Plan)
    → All (IsFitDay trip (length places) open_days shut) plan
    → is_indexed places plan ≡ true
IsKept-is_indexed trip places open_days shut [] h = refl
IsKept-is_indexed trip places open_days shut (p ∷ plan) h = ground (
  arith,
  all_fit (window trip p.0) places p.0 shut p.1 h.0.fits,
  IsKept-is_indexed trip places open_days shut plan h.1,
)

judge-ok :
    (a : Asked) (r : ℕ) (shut : List (ℕ × ℕ)) (reply : List ReplyDay)
    → let plan = keep a.trip reply (length a.places) a.open_days shut in
      judge a r shut reply ≡ ok (plan, problems a.trip plan a.places (a.hours r))
unfolding judge check_plan
judge-ok a r shut reply =
    let plan = keep a.trip reply (length a.places) a.open_days shut in
    let kept = keep-IsKept a.trip reply (length a.places) a.open_days shut in
    let there = IsKept-is_indexed a.trip a.places a.open_days shut plan kept.days in
    rw (judge, check_plan, there) refl

judge-IsDrafted :
    (a : Asked) (r : ℕ) (base shut : List (ℕ × ℕ)) (reply : List ReplyDay) {got : Judgement}
    → KeepsShut base shut
    → judge a r shut reply ≡ ok got
    → IsDrafted a base got
judge-IsDrafted a r base shut reply {got} more h =
    let plan = keep a.trip reply (length a.places) a.open_days shut in
    let answer : Judgement = (plan, problems a.trip plan a.places (a.hours r)) in
    let both : ok answer ≡ ok got = sym (judge-ok a r shut reply) ∙ h in
    let same : answer ≡ got = cc in
    subst (IsDrafted a base) same (record {
      kept =
          IsKept-covers a.trip (length a.places) a.open_days base shut plan more
            (keep-IsKept a.trip reply (length a.places) a.open_days shut);
      round = r;
      judged = refl;
    })

trace-IsDrafted :
    (a : Asked) (ask : Model) (left r : ℕ) (base shut : List (ℕ × ℕ)) (feedback : Text)
    → KeepsShut base shut
    → All (IsDrafted a base) (trace a ask left r shut feedback)
unfolding trace
trace-IsDrafted a ask zero r base shut feedback more = tt
trace-IsDrafted a ask (suc left) r base shut feedback more = elim (Result-cases (ask r feedback)) [
  | inl (problem, failed) ↦ rw (trace, failed) tt
  | inr (reply, asked) ↦ elim (Result-cases (judge a r shut reply)) [
    | inl (problem, failed) ↦ rw (trace, asked, failed) tt
    | inr (got, judged) ↦
        rw (trace, asked, judged)
          (
            judge-IsDrafted a r base shut reply more judged,
            trace-IsDrafted a ask left (r + 1) base (shut ++ shut_days got.1) (feedback_of got.1)
                (λ d i h. more d i (has_pair-append d i shut (shut_days got.1) h)),
          )
  ]
]

All-get_elem? {ℓ κ} :
    {A : Type ℓ} (P : A → Type κ) (n : ℕ) (xs : List A) (i : ℕ) {x : A}
    → All P xs
    → get_elem? (take n xs) i ≡ some x
    → P x
All-get_elem? P zero xs i h e = cc
All-get_elem? P (suc n) [] i h e = cc
All-get_elem? P (suc n) (y ∷ xs) zero {x} h e = let same : y ≡ x = cc in subst P same h.0
All-get_elem? P (suc n) (y ∷ xs) (suc i) h e = All-get_elem? P n xs i h.1 e

-- The best of the first `done.1` judgements: one of them, with no more lines than any.
pub record IsBest (a : Asked) (ask : Model) (shut : List (ℕ × ℕ)) (done : Plan × ℕ × Problems)
    : Type 0 where
  pub in_budget : done.1 ≤ rounds
  pub least : All (λ g. count done.2 ≤ count g.1) (take done.1 (trace a ask rounds 1 shut []))
  pub position : ℕ
  pub found :
      get_elem? (take done.1 (trace a ask rounds 1 shut [])) position ≡ some (done.0, done.2)
  pub drafted : IsDrafted a shut (done.0, done.2)

-- Where `propose` returns a plan after a number of rounds, they are at most `rounds`, and the plan with
-- its verdict is that of one of these rounds, none of which has fewer lines to fix; the plan keeps all that
-- `keep` promises, puts no place on a day of another city, and the verdict is the day check's on it.
pub propose-IsBest :
    (a : Asked) (named : ℕ → Option Text) (ask : Model) {done : Plan × ℕ × Problems}
    → propose a named ask ≡ ok done
    → IsBest a ask (off_city a.places a.open_days named) done
unfolding propose
propose-IsBest a named ask {done} h =
    let shut = off_city a.places a.open_days named in
    let judged = trace a ask rounds 1 shut [] in
    let v = propose_from-IsReached a ask rounds 1 shut [] ([], []) none refl tt h in
    let steps : v.steps ≡ done.1 = omega (arith, v.counted) in
    let all_drafted = trace-IsDrafted a ask rounds 1 shut shut [] (λ d i e. e) in
    elim v.found [
      | inr (_, impossible) ↦ cc
      | inl (i, at) ↦ record {
        in_budget = omega (arith, v.counted, v.in_budget);
        least = subst (λ n. All (λ g. count done.2 ≤ count g.1) (take n judged)) steps v.least;
        position = i;
        found = subst (λ n. get_elem? (take n judged) i ≡ some (done.0, done.2)) steps at;
        drafted = All-get_elem? (IsDrafted a shut) v.steps judged i all_drafted at;
      }
    ]

-- Every request to the model is answered.
abbrev pub Answers : Model → Type 0
Answers ask = (r : ℕ) (feedback : Text) → (reply : List ReplyDay) × (ask r feedback ≡ ok reply)

propose_from-ok :
    (a : Asked) (ask : Model) (left r : ℕ) (shut : List (ℕ × ℕ)) (feedback : Text)
    (best : Judgement) (fewest : Option ℕ)
    → Answers ask
    → (done : Plan × ℕ × Problems) × (propose_from a ask left r shut feedback best fewest ≡ ok done)
unfolding propose_from
propose_from-ok a ask zero r shut feedback best fewest answers = ((best.0, rounds, best.1), refl)
propose_from-ok a ask (suc left) r shut feedback best fewest answers =
    let (reply, asked) = answers r feedback in
    let plan = keep a.trip reply (length a.places) a.open_days shut in
    let got : Judgement = (plan, problems a.trip plan a.places (a.hours r)) in
    let judged = judge-ok a r shut reply in
    let n = count got.1 in
    let best' = if has_gained fewest n then got else best in
    let fewest' = if has_gained fewest n then some n else fewest in
    let (done, rest) =
      propose_from-ok a ask left (r + 1) (shut ++ shut_days got.1) (feedback_of got.1) best' fewest'
        answers in
    elim (Bool-cases (n == 0 || not (has_gained fewest n))) [
      | inl stop ↦ ((best'.0, r, best'.1), rw (propose_from, asked, judged, stop) refl)
      | inr on ↦ (done, rw (propose_from, asked, judged, on) rest)
    ]

-- Where the model answers every request, `propose` returns a plan: no round raises, since each place that the
-- day check looks up is one of the candidates, for `keep` drops every index past their end.
pub propose-ok :
    (a : Asked) (named : ℕ → Option Text) (ask : Model)
    → Answers ask
    → (done : Plan × ℕ × Problems) × (propose a named ask ≡ ok done)
unfolding propose
propose-ok a named ask answers =
    propose_from-ok a ask rounds 1 (off_city a.places a.open_days named) [] ([], []) none answers
