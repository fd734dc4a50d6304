-- ===== src/Expenses/Transfers/Settle.antt =====
-- The suggested transfers settle every debt, and there are few of them.
use flight_pricing.Base.{
  ℕ, zero, suc, ◌+◌, ◌-◌, ◌≤◌, ◌<◌, ◌≡◌, refl, sym, ◌∙◌, true, false, List, [], ◌∷◌, map, length,
  All, ◌==◌, if◌then◌else◌, min, arith, member, distinct,
}
use flight_pricing.Base.Int.{ℤ, pos, negsuc, pos_part, neg_part, ◌+ℤ◌, ◌-ℤ◌, int_laws}
use flight_pricing.Base.Sums.{sum_by, sum_ℤ}
use flight_pricing.Base.Sort.{sort_by, sum_by-sort_by, length-sort_by, All-sort_by}
use flight_pricing.Expenses.Transfers.{
  Transfer, Entry, Net, credits, debts, by_size, advance, settle, transfers,
}

-- What a person pays, and is paid, in a list of transfers.
abbrev pub sent : ℕ → List Transfer → ℕ
sent u = sum_by (λ t. if t.from_user_id == u then t.amount_cents else 0)

abbrev pub received : ℕ → List Transfer → ℕ
received u = sum_by (λ t. if t.to_user_id == u then t.amount_cents else 0)

abbrev total : List Entry → ℕ
total = sum_by (λ e. e.1)

abbrev held : ℕ → List Entry → ℕ
held u = sum_by (λ e. if e.0 == u then e.1 else 0)

abbrev IsOpen : Entry → Type 0
IsOpen e = 0 < e.1

held-le-total : (u : ℕ) (es : List Entry) → held u es ≤ total es
held-le-total u [] = omega arith
held-le-total u (e ∷ es) = ground (arith, held-le-total u es)

-- With as much owed as owing, the loop runs until both sides are paid in full.
settle_pays :
    (fuel u : ℕ) (ds cs : List Entry)
    → length ds + length cs ≤ fuel
    → All IsOpen ds
    → All IsOpen cs
    → total ds ≡ total cs
    → (sent u (settle fuel ds cs) ≡ held u ds) × (received u (settle fuel ds cs) ≡ held u cs)
unfolding settle
settle_pays zero u [] [] n p q e = (refl, refl)
settle_pays zero u (d ∷ ds) cs n p q e = absurd (omega arith)
settle_pays zero u [] (c ∷ cs) n p q e = absurd (omega arith)
settle_pays (suc fuel) u [] cs n p q e = (refl, omega (arith, held-le-total u cs))
settle_pays (suc fuel) u (d ∷ ds) [] n p q e = absurd (omega arith)
settle_pays (suc fuel) u ((debtor, debt) ∷ ds) ((creditor, credit) ∷ cs) n p q e =
    let pay = min debt credit in
    ground (
      arith,
      settle_pays fuel u (advance debtor (debt - pay) ds) (advance creditor (credit - pay) cs),
    )

-- Each round closes an entry, and the last one stands alone on its side.
length-settle :
    (fuel : ℕ) (ds cs : List Entry) → length (settle fuel ds cs) ≤ length ds + length cs - 1
unfolding settle
length-settle zero ds cs = omega arith
length-settle (suc fuel) [] cs = omega arith
length-settle (suc fuel) (d ∷ ds) [] = omega arith
length-settle (suc fuel) ((debtor, debt) ∷ ds) ((creditor, credit) ∷ cs) =
    let pay = min debt credit in
    ground (
      arith,
      length-settle fuel (advance debtor (debt - pay) ds) (advance creditor (credit - pay) cs),
    )

abbrev pub people : Net → List ℕ
people = map (λ e. e.0)

credits-IsOpen : (net : Net) → All IsOpen (credits net)
unfolding credits
credits-IsOpen [] = tt
credits-IsOpen ((u, n) ∷ net) = ground (arith, credits-IsOpen net)

debts-IsOpen : (net : Net) → All IsOpen (debts net)
unfolding debts
debts-IsOpen [] = tt
debts-IsOpen ((u, n) ∷ net) = ground (arith, debts-IsOpen net)

length-credits-debts : (net : Net) → length (debts net) + length (credits net) ≤ length net
unfolding credits debts
length-credits-debts [] = omega arith
length-credits-debts ((u, pos n) ∷ net) = ground (arith, length-credits-debts net)
length-credits-debts ((u, negsuc n) ∷ net) = ground (arith, length-credits-debts net)

total-credits-debts :
    (net : Net) → sum_ℤ (λ e. e.1) net +ℤ pos (total (debts net)) ≡ pos (total (credits net))
unfolding credits debts
total-credits-debts [] = omega int_laws
total-credits-debts ((u, pos zero) ∷ net) = grind (int_laws, total-credits-debts net)
total-credits-debts ((u, pos (suc n)) ∷ net) = grind (int_laws, total-credits-debts net)
total-credits-debts ((u, negsuc n) ∷ net) = grind (int_laws, total-credits-debts net)

held_absent :
    (u : ℕ) (net : Net)
    → member u (people net) ≡ false
    → (held u (debts net) ≡ 0) × (held u (credits net) ≡ 0)
unfolding credits debts
held_absent u [] h = (refl, refl)
held_absent u ((v, n) ∷ net) h = ground (arith, held_absent u net)

-- `net.get(u, 0)`
abbrev pub figure : ℕ → Net → ℤ
figure u [] = pos 0
figure u ((v, n) ∷ net) = if v == u then n else figure u net

-- What a person holds on the two sides is the two parts of their net figure.
held_parts :
    (u : ℕ) (net : Net)
    → distinct (people net) ≡ true
    → (held u (debts net) ≡ neg_part (figure u net))
      × (held u (credits net) ≡ pos_part (figure u net))
unfolding credits debts
held_parts u [] h = (refl, refl)
held_parts u ((v, n) ∷ net) h = ground (arith, held_parts u net, held_absent u net)

even_totals : (net : Net) → sum_ℤ (λ e. e.1) net ≡ pos 0 → total (debts net) ≡ total (credits net)
even_totals net z =
    let sides : pos 0 +ℤ pos (total (debts net)) ≡ pos (total (credits net)) =
      rw (← z) (total-credits-debts net) in
    grind (int_laws, sides)

-- Each debtor pays their debt and is paid nothing, each creditor the other way round.
pub transfers_pay :
    (net : Net) (u : ℕ)
    → distinct (people net) ≡ true
    → sum_ℤ (λ e. e.1) net ≡ pos 0
    → (sent u (transfers net) ≡ neg_part (figure u net))
      × (received u (transfers net) ≡ pos_part (figure u net))
unfolding transfers
transfers_pay net u h z =
    let ds = sort_by by_size (debts net) in
    let cs = sort_by by_size (credits net) in
    let dp = All-sort_by IsOpen by_size (debts net) (debts-IsOpen net) in
    let cp = All-sort_by IsOpen by_size (credits net) (credits-IsOpen net) in
    let dt : total ds ≡ total (debts net) = sum_by-sort_by by_size (λ e. e.1) (debts net) in
    let ct : total cs ≡ total (credits net) = sum_by-sort_by by_size (λ e. e.1) (credits net) in
    let dh : held u ds ≡ held u (debts net) = sum_by-sort_by by_size _ (debts net) in
    let ch : held u cs ≡ held u (credits net) = sum_by-sort_by by_size _ (credits net) in
    let paid =
      settle_pays (length ds + length cs) u ds cs (omega arith) dp cp
        (dt ∙ even_totals net z ∙ sym ct) in
    let parts = held_parts u net h in (paid.0 ∙ dh ∙ parts.0, paid.1 ∙ ch ∙ parts.1)

-- When the net figures of distinct people add up to zero, the suggested transfers leave nobody owing:
-- each person's figure, plus what they pay, minus what they are paid, is zero.
pub transfers_settle :
    (net : Net) (u : ℕ)
    → distinct (people net) ≡ true
    → sum_ℤ (λ e. e.1) net ≡ pos 0
    → figure u net +ℤ pos (sent u (transfers net)) -ℤ pos (received u (transfers net)) ≡ pos 0
transfers_settle net u h z = grind (int_laws, transfers_pay net u h z)

-- There are fewer transfers than people, unless there is nobody.
pub length-transfers : (net : Net) → length (transfers net) ≤ length net - 1
unfolding transfers
length-transfers net = omega (
  arith,
  length-settle _ (sort_by by_size (debts net)) (sort_by by_size (credits net)),
  length-sort_by by_size (debts net),
  length-sort_by by_size (credits net),
  length-credits-debts net,
)
