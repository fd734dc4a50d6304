-- ===== src/Drafting/Rounds.antt =====
-- tp_backend/tp_ingestions/plan/draft.py, `propose`: rounds of a reply and its verdict.
use flight_pricing.Base.{
  ℕ, ◌+◌, ◌/◌, ◌%◌, Bool, true, not, ◌||◌, Option, none, some, List, [], ◌∷◌, ◌++◌, zero, suc, ltb,
  leb, ◌==◌, if◌then◌else◌, length,
}
use flight_pricing.Base.Sums.{sum_by}
use flight_pricing.Base.Result.{Result, ok, ◌>>=◌}
use flight_pricing.Base.Sort.{sort_by}
use flight_pricing.Base.Text.{Text, codes}
use flight_pricing.Models.People.{Trip}
use flight_pricing.Routing.Hours.{Period}
use flight_pricing.Drafting.Reply.{ReplyDay, Plan, Candidate, keep, off_city}
use flight_pricing.Drafting.Judged.{Problem, Problems, check_plan}

abbrev pub rounds : ℕ
rounds = 3

-- `sum(map(len, bad.values()))`
abbrev pub count : Problems → ℕ
count = sum_by (λ p. length p.1)

-- A plan with its verdict.
abbrev pub Judgement : Type 0
Judgement = Plan × Problems

-- `fewest is None or n < fewest`
abbrev pub has_gained : Option ℕ → ℕ → Bool
has_gained none n = true
has_gained (some fewest) n = ltb n fewest

-- What is closed all day, by day and index.
abbrev pub shut_lines : ℕ → List Problem → List (ℕ × ℕ)
shut_lines day [] = []
shut_lines day (l ∷ ls) = (if l.allday then (day, l.index) ∷ [] else []) ++ shut_lines day ls

abbrev pub shut_days : Problems → List (ℕ × ℕ)
shut_days [] = []
shut_days (p ∷ ps) = shut_lines p.0 p.1 ++ shut_days ps

-- The digits of a number; `n` digits are enough for `n`.
abbrev digits_from : ℕ → ℕ → Text
digits_from zero n = []
digits_from (suc fuel) n =
    let more = digits_from fuel (n / 10) in (if leb 10 n then more else []) ++ (48 + n % 10) ∷ []

abbrev pub decimal : ℕ → Text
decimal n = digits_from (n + 1) n

abbrev pub day_lines : ℕ → List Problem → Text
day_lines day [] = []
day_lines day (l ∷ ls) =
    10 ∷ codes "  day " ++ decimal day ++ codes ": " ++ l.text ++ day_lines day ls

-- By index, as `sorted` compares lists that differ there first; a day stands at one entry.
abbrev pub feedback_lines : Problems → Text
feedback_lines [] = []
feedback_lines (p ∷ ps) = day_lines p.0 p.1 ++ feedback_lines ps

unfoldable pub feedback_of : Problems → Text
feedback_of bad =
    (10 ∷ codes "Your last attempt scheduled these outside opening hours. Fix exactly these and ")
    ++ codes "leave every other block where it is."
    ++ feedback_lines (sort_by (λ a b. leb a.0 b.0) bad)

-- What a request to the model with this round's feedback gives, or the error of it or of its budget.
abbrev pub Model : Type 0
Model = ℕ → Text → Result (List ReplyDay)

-- What the rounds read and do not write; `hours` are those that a round loads.
pub record Asked : Type 0 where
  pub trip : Trip
  pub places : List Candidate
  pub open_days : List ℕ
  pub hours : ℕ → ℕ → Option (List Period)

-- A round's plan, and its verdict once every place is there.
unfoldable pub judge : Asked → ℕ → List (ℕ × ℕ) → List ReplyDay → Result Judgement
judge a r shut reply = do
  let chosen = keep a.trip reply (length a.places) a.open_days shut
  bad ← check_plan a.trip chosen a.places (a.hours r)
  ok (chosen, bad)

-- The rounds that are left, from the best plan of those before, with its count.
unfoldable pub propose_from :
    Asked
    → Model
    → ℕ
    → ℕ
    → List (ℕ × ℕ)
    → Text
    → Judgement
    → Option ℕ
    → Result (Plan × ℕ × Problems)
unfolding judge feedback_of
propose_from a ask zero r shut feedback best fewest = ok (best.0, rounds, best.1)
propose_from a ask (suc left) r shut feedback best fewest = do
  reply ← ask r feedback
  got ← judge a r shut reply
  let n = count got.1
  let gained = has_gained fewest n
  let best' = if gained then got else best
  let fewest' = if gained then some n else fewest
  let rest =
      propose_from a ask left (r + 1) (shut ++ shut_days got.1) (feedback_of got.1) best' fewest'
  (if n == 0 || not gained then ok (best'.0, r, best'.1) else rest)

-- `propose`
unfoldable pub propose : Asked → (ℕ → Option Text) → Model → Result (Plan × ℕ × Problems)
unfolding propose_from
propose a named ask =
    propose_from a ask rounds 1 (off_city a.places a.open_days named) [] ([], []) none
