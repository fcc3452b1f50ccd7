-- ===== src/Split/Payouts.antt =====
-- The payouts of `splitAmountAtomicShares`: each share is paid its floor, the last one what is
-- left, and together they are the amount.
use synxed_solana_protocol.Base.{
  ℕ, suc, ◌+◌, ◌-◌, ◌*◌, ◌/◌, ◌≤◌, ◌<◌, ◌≡◌, refl, ◌↔◌, inl, inr, List, [], ◌∷◌, map, length,
  length-map, arith, ap, ◌∙◌, false,
}
use synxed_solana_protocol.Base.Int.{ℤ, pos, negsuc, ◌+ℤ◌, ◌-ℤ◌, ◌*ℤ◌, ◌/ℤ◌, +ℤ_sub, -ℤ_zero, leb_ℤ}
use synxed_solana_protocol.Types.{JsNumber, int, ok, Result-cases}
use synxed_solana_protocol.Split.{
  big_int, split_loop, split_amount_atomic_shares, assert_bps_shares,
}
use synxed_solana_protocol.Split.Shares.{
  sum, numbers, IsShares, assert_bps_shares-numbers, assert_bps_shares_inv,
}

abbrev pub sum_ℤ : List ℤ → ℤ
sum_ℤ [] = pos 0
sum_ℤ (z ∷ zs) = z +ℤ sum_ℤ zs

-- The loop pays out all that is not allocated yet, one payout for each share.
split_loop_total :
    (amount allocated : ℤ) (share : JsNumber) (bps : List JsNumber) (payouts : List ℤ)
    → split_loop amount allocated (share ∷ bps) ≡ ok payouts
    → (sum_ℤ payouts ≡ amount -ℤ allocated) × (length payouts ≡ suc (length bps))
unfolding split_loop
split_loop_total amount allocated share [] payouts h = ground (arith, +ℤ_sub allocated amount)
split_loop_total amount allocated share (next ∷ bps) payouts h =
    elim (Result-cases (big_int share)) [
      | inr (x, e) ↦ absurd (ground arith)
      | inl (n, e) ↦
          let part = amount *ℤ n /ℤ 10000 in
          elim (Result-cases (split_loop amount (allocated +ℤ part) (next ∷ bps))) [
            | inr (x, f) ↦ absurd (ground arith)
            | inl (rest, f) ↦ ground (
              arith,
              split_loop_total amount (allocated +ℤ part) next bps rest f,
              +ℤ_sub amount part allocated,
            )
          ]
    ]

-- The floor of a share of `amount`.
abbrev pub floor_share : ℕ → ℕ → ℕ
floor_share amount n = amount * n / 10000

-- What is paid for natural shares: `left` is what is not allocated yet.
unfoldable pub floor_payouts : ℕ → ℕ → List ℕ → List ℕ
floor_payouts amount left [] = []
floor_payouts amount left (n ∷ []) = left ∷ []
floor_payouts amount left (n ∷ m ∷ ns) =
    floor_share amount n ∷ floor_payouts amount (left - floor_share amount n) (m ∷ ns)

-- `10000 * left` covers what the shares still to come are worth.
split_loop-numbers :
    (amount allocated : ℕ) (ns : List ℕ)
    → allocated ≤ amount
    → amount * sum ns ≤ 10000 * (amount - allocated)
    → split_loop (pos amount) (pos allocated) (numbers ns)
      ≡ ok (map pos (floor_payouts amount (amount - allocated) ns))
unfolding split_loop big_int floor_payouts
split_loop-numbers amount allocated [] h k = refl
split_loop-numbers amount allocated (n ∷ []) h k = ground arith
split_loop-numbers amount allocated (n ∷ m ∷ ns) h k =
    let part = floor_share amount n in
    let rest : split_loop (pos amount) (pos (allocated + part)) (numbers (m ∷ ns))
        ≡ ok (map pos (floor_payouts amount (amount - (allocated + part)) (m ∷ ns))) =
      split_loop-numbers amount (allocated + part) (m ∷ ns) (omega arith) (omega arith) in
    ground arith

-- What is due: each share but the last is paid its floor; the last is paid its floor at least, and
-- at most one unit more for each share before it. `k` counts the shares before.
abbrev pub IsFair : ℕ → ℕ → List ℕ → List ℕ → Type 0
IsFair amount k (n ∷ []) (p ∷ []) = (floor_share amount n ≤ p) × (p ≤ floor_share amount n + k)
IsFair amount k (n ∷ m ∷ ns) (p ∷ ps) =
    (p ≡ floor_share amount n) × IsFair amount (k + 1) (m ∷ ns) ps
IsFair amount k _ _ = ⊥

floor_payouts-IsFair :
    (amount left k n : ℕ) (ns : List ℕ)
    → amount * sum (n ∷ ns) ≤ 10000 * left
    → 10000 * left ≤ amount * sum (n ∷ ns) + 9999 * k
    → IsFair amount k (n ∷ ns) (floor_payouts amount left (n ∷ ns))
unfolding floor_payouts
floor_payouts-IsFair amount left k n [] h u = (omega arith, omega arith)
floor_payouts-IsFair amount left k n (m ∷ ns) h u = (
  refl,
  floor_payouts-IsFair amount (left - floor_share amount n) (k + 1) m ns (omega arith)
      (omega arith),
)

sum-floor_payouts :
    (amount left n : ℕ) (ns : List ℕ)
    → amount * sum (n ∷ ns) ≤ 10000 * left
    → sum (floor_payouts amount left (n ∷ ns)) ≡ left
unfolding floor_payouts
sum-floor_payouts amount left n [] h = omega arith
sum-floor_payouts amount left n (m ∷ ns) h =
    omega (arith, sum-floor_payouts amount (left - floor_share amount n) m ns (omega arith))

-- The sum and the floors leave one list of payouts.
IsFair-unique :
    (amount left k : ℕ) (ns ps : List ℕ)
    → IsFair amount k ns ps
    → sum ps ≡ left
    → ps ≡ floor_payouts amount left ns
unfolding floor_payouts
IsFair-unique amount left k [] ps h e = elim h [ ]
IsFair-unique amount left k (n ∷ []) [] h e = elim h [ ]
IsFair-unique amount left k (n ∷ []) (p ∷ []) h e = ground arith
IsFair-unique amount left k (n ∷ []) (p ∷ q ∷ ps) h e = elim h [ ]
IsFair-unique amount left k (n ∷ m ∷ ns) [] h e = elim h [ ]
IsFair-unique amount left k (n ∷ m ∷ ns) (p ∷ ps) h e =
    ap (◌∷◌ p) (IsFair-unique amount (left - p) (k + 1) (m ∷ ns) ps h.1 (omega arith)) ∙ rw h.0

-- A split that succeeds, described without the code: a positive amount, shares that are valid, and
-- payouts that are fair and sum to the amount.
pub record IsSplit (amount : ℤ) (bps : List JsNumber) (payouts : List ℤ) (a : ℕ) (ns ps : List ℕ)
    : Type 0 where
  pub amount_eq : amount ≡ pos a
  pub positive : 0 < a
  pub bps_eq : bps ≡ numbers ns
  pub shares : IsShares ns
  pub payouts_eq : payouts ≡ map pos ps
  pub total : sum ps ≡ a
  pub fair : IsFair a 0 ns ps

mul-whole : (a : ℕ) (ns : List ℕ) → IsShares ns → a * sum ns ≡ a * 10000
mul-whole a ns h = ap (λ (t : ℕ). a * t) h.whole

pub split-numbers :
    (a : ℕ) (ns : List ℕ)
    → 0 < a
    → IsShares ns
    → split_amount_atomic_shares (pos a) (numbers ns) ≡ ok (map pos (floor_payouts a a ns))
unfolding split_amount_atomic_shares
split-numbers a ns p h = ground (
  arith,
  length-map (λ (n : ℕ). int (pos n)) ns,
  assert_bps_shares-numbers ns h,
  split_loop-numbers a 0 ns (omega arith) (omega (arith, mul-whole a ns h)),
)

pub split_inv :
    (amount : ℤ) (bps : List JsNumber) (payouts : List ℤ)
    → split_amount_atomic_shares amount bps ≡ ok payouts
    → (leb_ℤ amount (pos 0) ≡ false)
      × (assert_bps_shares bps ≡ ok tt)
      × (split_loop amount (pos 0) bps ≡ ok payouts)
      × (1 ≤ length bps)
unfolding split_amount_atomic_shares
split_inv amount bps payouts h = elim (Result-cases (assert_bps_shares bps)) [
  | inl (u, e) ↦ ground arith
  | inr (x, e) ↦ ground arith
]

IsSplit-of_numbers :
    (a : ℕ) (bps : List JsNumber) (payouts : List ℤ) (n : ℕ) (ns : List ℕ)
    → 0 < a
    → bps ≡ numbers (n ∷ ns)
    → IsShares (n ∷ ns)
    → split_amount_atomic_shares (pos a) bps ≡ ok payouts
    → IsSplit (pos a) bps payouts a (n ∷ ns) (floor_payouts a a (n ∷ ns))
IsSplit-of_numbers a bps payouts n ns p e h r = record {
  amount_eq = refl;
  positive = p;
  bps_eq = e;
  shares = h;
  payouts_eq = cc (split-numbers a (n ∷ ns) p h);
  total = sum-floor_payouts a a n ns (omega (arith, mul-whole a (n ∷ ns) h));
  fair =
      floor_payouts-IsFair a a 0 n ns (omega (arith, mul-whole a (n ∷ ns) h))
        (omega (arith, mul-whole a (n ∷ ns) h));
}

IsSplit-sound_at :
    (a : ℕ) (bps : List JsNumber) (payouts : List ℤ) (ns : List ℕ)
    → 0 < a
    → bps ≡ numbers ns
    → IsShares ns
    → split_amount_atomic_shares (pos a) bps ≡ ok payouts
    → (a' : ℕ) × (ns : List ℕ) × (ps : List ℕ) × IsSplit (pos a) bps payouts a' ns ps
IsSplit-sound_at a bps payouts [] p e h r = absurd (omega arith)
IsSplit-sound_at a bps payouts (n ∷ ns) p e h r =
    (a, n ∷ ns, floor_payouts a a (n ∷ ns), IsSplit-of_numbers a bps payouts n ns p e h r)

IsSplit-sound :
    (amount : ℤ) (bps : List JsNumber) (payouts : List ℤ)
    → split_amount_atomic_shares amount bps ≡ ok payouts
    → (a : ℕ) × (ns : List ℕ) × (ps : List ℕ) × IsSplit amount bps payouts a ns ps
IsSplit-sound (negsuc a) bps payouts h = cc (split_inv (negsuc a) bps payouts h).0
IsSplit-sound (pos a) bps payouts h =
    let (p, v, _, _) = split_inv (pos a) bps payouts h in
    let (ns, eb, shares) = assert_bps_shares_inv bps v in
    IsSplit-sound_at a bps payouts ns (ground arith) eb shares h

split_complete :
    (amount : ℤ) (bps : List JsNumber) (payouts : List ℤ) (a : ℕ) (ns ps : List ℕ)
    → IsSplit amount bps payouts a ns ps
    → split_amount_atomic_shares amount bps ≡ ok payouts
split_complete amount bps payouts a ns ps s = cc (
  s.amount_eq,
  s.bps_eq,
  s.payouts_eq,
  split-numbers a ns s.positive s.shares,
  IsFair-unique a a 0 ns ps s.fair s.total,
)

-- `splitAmountAtomicShares` returns payouts exactly when the amount is positive and the shares are
-- 1 to 8 natural numbers that sum to 10000, and then the payouts are the fair ones: natural
-- numbers, each but the last the floor of its share, the last at least its floor and at most one
-- unit more for each other share, together the amount.
pub IsSplit-iff :
    (amount : ℤ) (bps : List JsNumber) (payouts : List ℤ)
    → (split_amount_atomic_shares amount bps ≡ ok payouts)
      ↔ ((a : ℕ) × (ns : List ℕ) × (ps : List ℕ) × IsSplit amount bps payouts a ns ps)
IsSplit-iff amount bps payouts = (
  IsSplit-sound amount bps payouts,
  λ (a, ns, ps, s). split_complete amount bps payouts a ns ps s,
)

-- Payouts are as many as the shares, and together exactly the amount.
pub split_conserves :
    (amount : ℤ) (bps : List JsNumber) (payouts : List ℤ)
    → split_amount_atomic_shares amount bps ≡ ok payouts
    → (sum_ℤ payouts ≡ amount) × (length payouts ≡ length bps)
split_conserves amount [] payouts h = absurd (omega (arith, (split_inv amount [] payouts h).3))
split_conserves amount (b ∷ bps) payouts h =
    let (total, count) =
      split_loop_total amount (pos 0) b bps payouts (split_inv amount (b ∷ bps) payouts h).2 in
    (total ∙ -ℤ_zero amount, count)
