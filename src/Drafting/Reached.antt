-- ===== src/Drafting/Reached.antt =====
-- What the rounds of `propose` reach, from the best of those before.
use flight_pricing.Base.{
  ℕ, zero, suc, ◌+◌, ◌≤◌, ◌≡◌, refl, sym, ap, subst, Bool, true, false, ◌||◌, Option, none, some,
  List, [], ◌∷◌, ◌++◌, ◌==◌, take, get_elem?, All, arith, inl, inr, ◌⊎◌, Bool-cases,
}
use flight_pricing.Base.Result.{Result, ok, err, Result-cases}
use flight_pricing.Base.Text.{Text}
use flight_pricing.Planning.Itinerary.{is_some}
use flight_pricing.Drafting.Reply.{Plan}
use flight_pricing.Drafting.Judged.{Problems}
use flight_pricing.Drafting.Rounds.{
  rounds, count, Judgement, has_gained, shut_days, feedback_of, Model, Asked, judge, propose_from,
}

-- The judgements that the rounds make, were none of them to stop.
unfoldable pub trace : Asked → Model → ℕ → ℕ → List (ℕ × ℕ) → Text → List Judgement
trace a ask zero r shut feedback = []
trace a ask (suc left) r shut feedback = elim (ask r feedback) [
  | err problem ↦ []
  | ok reply ↦ elim (judge a r shut reply) [
    | err problem ↦ []
    | ok got ↦ got ∷ trace a ask left (r + 1) (shut ++ shut_days got.1) (feedback_of got.1)
  ]
]

abbrev pub AtMost : Option ℕ → ℕ → Type 0
AtMost none n = Unit
AtMost (some f) n = n ≤ f

abbrev pub Holds : Option ℕ → ℕ → Type 0
Holds none n = Unit
Holds (some f) n = n ≡ f

-- What the rounds that are left reach: their number, and the least of what they and the best held.
pub record IsReached (left r : ℕ) (judged : List Judgement) (best : Judgement) (fewest : Option ℕ)
    (done : Plan × ℕ × Problems) : Type 0 where
  pub steps : ℕ
  pub in_budget : steps ≤ left
  pub counted : done.1 + 1 ≡ r + steps
  pub least : All (λ g. count done.2 ≤ count g.1) (take steps judged)
  pub below : AtMost fewest (count done.2)
  pub found :
      ((i : ℕ) × (get_elem? (take steps judged) i ≡ some (done.0, done.2)))
      ⊎ (((done.0, done.2) ≡ best) × (is_some fewest || left == 0 ≡ true))

AtMost-has_gained :
    (fewest : Option ℕ) (n m : ℕ) → has_gained fewest n ≡ true → m ≤ n → AtMost fewest m
AtMost-has_gained none n m h l = tt
AtMost-has_gained (some f) n m h l = ground (arith, h, l)

-- One round, by whether it gains and whether it is the last.
gained_last :
    (left r : ℕ) (got best : Judgement) (fewest : Option ℕ) (later : List Judgement)
    → 1 ≤ left
    → has_gained fewest (count got.1) ≡ true
    → IsReached left r (got ∷ later) best fewest (got.0, r, got.1)
gained_last left r got best none later l h = record {
  steps = 1;
  in_budget = l;
  counted = refl;
  least = (omega arith, tt);
  below = tt;
  found = inl (0, refl);
}
gained_last left r got best (some f) later l h = record {
  steps = 1;
  in_budget = l;
  counted = refl;
  least = (omega arith, tt);
  below = ground (arith, h);
  found = inl (0, refl);
}

beaten :
    (left r : ℕ) (got best : Judgement) (fewest : Option ℕ) (later : List Judgement)
    → 1 ≤ left
    → Holds fewest (count best.1)
    → has_gained fewest (count got.1) ≡ false
    → IsReached left r (got ∷ later) best fewest (best.0, r, best.1)
beaten left r got best none later l v h = cc
beaten left r got best (some f) later l v h = record {
  steps = 1;
  in_budget = l;
  counted = refl;
  least = (ground (arith, h, v), tt);
  below = omega (arith, v);
  found = inr (refl, refl);
}

gained_on :
    (left r : ℕ) (got best : Judgement) (fewest : Option ℕ) (later : List Judgement)
    (done : Plan × ℕ × Problems)
    → has_gained fewest (count got.1) ≡ true
    → IsReached left (r + 1) later got (some (count got.1)) done
    → IsReached (suc left) r (got ∷ later) best fewest done
gained_on left r got best fewest later done h v = record {
  steps = suc v.steps;
  in_budget = omega (arith, v.in_budget);
  counted = omega (arith, v.counted);
  least = (v.below, v.least);
  below = AtMost-has_gained fewest (count got.1) (count done.2) h v.below;
  found = elim v.found [
    | inl (i, at) ↦ inl (suc i, at)
    | inr (same, _) ↦ inl (0, ap some (sym same))
  ];
}

or-true : (b : Bool) → (b || true) ≡ true
or-true true = refl
or-true false = refl

Holds-AtMost : (fewest : Option ℕ) (n : ℕ) → Holds fewest n → AtMost fewest n
Holds-AtMost none n v = tt
Holds-AtMost (some f) n v = omega (arith, v)

pub propose_from-IsReached :
    (a : Asked) (ask : Model) (left r : ℕ) (shut : List (ℕ × ℕ)) (feedback : Text)
    (best : Judgement) (fewest : Option ℕ) {done : Plan × ℕ × Problems}
    → r + left ≡ suc rounds
    → Holds fewest (count best.1)
    → propose_from a ask left r shut feedback best fewest ≡ ok done
    → IsReached left r (trace a ask left r shut feedback) best fewest done
unfolding propose_from trace
propose_from-IsReached a ask zero r shut feedback best fewest {done} budget v h =
    let same : (best.0, rounds, best.1) ≡ done = cc in
    subst (IsReached zero r [] best fewest) same (record {
      steps = 0;
      in_budget = omega arith;
      counted = omega (arith, budget);
      least = tt;
      below = Holds-AtMost fewest (count best.1) v;
      found = inr (refl, ground arith);
    })
propose_from-IsReached a ask (suc left) r shut feedback best fewest {done} budget v h =
    elim (Result-cases (ask r feedback)) [
      | inl (problem, failed) ↦
          let k : ◌≡◌ {A = Result (Plan × ℕ × Problems)} (err problem) (ok done) =
            rw (propose_from, failed) at h in
          cc
      | inr (reply, asked) ↦ elim (Result-cases (judge a r shut reply)) [
        | inl (problem, failed) ↦
            let k : ◌≡◌ {A = Result (Plan × ℕ × Problems)} (err problem) (ok done) =
              rw (propose_from, asked, failed) at h in
            cc
        | inr (got, judged) ↦
            let later = trace a ask left (r + 1) (shut ++ shut_days got.1) (feedback_of got.1) in
            let n = count got.1 in
            rw (trace, asked, judged)
              (elim (Bool-cases (has_gained fewest n)) [
                | inr beat ↦
                    let k : ok (best.0, r, best.1) ≡ ok done =
                      rw (propose_from, asked, judged, beat, or-true (n == 0)) at h in
                    let same : (best.0, r, best.1) ≡ done = cc in
                    subst (IsReached (suc left) r (got ∷ later) best fewest) same
                      (beaten (suc left) r got best fewest later (omega arith) v beat)
                | inl gain ↦ elim (Bool-cases (n == 0)) [
                  | inl clean ↦
                      let k : ok (got.0, r, got.1) ≡ ok done =
                        rw (propose_from, asked, judged, gain, clean) at h in
                      let same : (got.0, r, got.1) ≡ done = cc in
                      subst (IsReached (suc left) r (got ∷ later) best fewest) same
                        (gained_last (suc left) r got best fewest later (omega arith) gain)
                  | inr more ↦ gained_on left r got best fewest later done gain (
                      propose_from-IsReached a ask left (r + 1) (shut ++ shut_days got.1)
                        (feedback_of got.1) got (some n) (omega (arith, budget)) refl
                        (rw (propose_from, asked, judged, gain, more) at h))
                ]
              ])
      ]
    ]
