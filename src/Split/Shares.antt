-- ===== src/Split/Shares.antt =====
-- What `assertBpsShares` accepts: 1 to 8 natural numbers that sum to 10000.
use synxed_solana_protocol.Base.{
  ℕ, ◌+◌, ◌≤◌, ◌≡◌, refl, ◌↔◌, inl, inr, List, [], ◌∷◌, map, length, length-map, arith, ap,
}
use synxed_solana_protocol.Base.Int.{ℤ, pos, negsuc, ◌+ℤ◌}
use synxed_solana_protocol.Types.{JsNumber, int, fraction, ok, >>=-eq-ok, Result-cases}
use synxed_solana_protocol.Split.{assert_bps, sum_bps, assert_bps_shares}

abbrev pub sum : List ℕ → ℕ
sum [] = 0
sum (n ∷ ns) = n + sum ns

abbrev pub numbers : List ℕ → List JsNumber
numbers = map (λ (n : ℕ). int (pos n))

pub record IsShares (ns : List ℕ) : Type 0 where
  pub some_share : 1 ≤ length ns
  pub few_shares : length ns ≤ 8
  pub whole : sum ns ≡ 10000

assert_bps_inv :
    (b : JsNumber) {s : ℤ}
    → assert_bps b ≡ ok s
    → (n : ℕ) × (b ≡ int (pos n)) × (s ≡ pos n) × (n ≤ 10000)
unfolding assert_bps
assert_bps_inv (fraction t) h = cc
assert_bps_inv (int (negsuc n)) h = cc
assert_bps_inv (int (pos n)) h = (n, refl, ground arith, ground arith)

pub sum_bps_inv :
    (a : ℕ) (bps : List JsNumber) {s : ℤ}
    → sum_bps (pos a) bps ≡ ok s
    → (ns : List ℕ) × (bps ≡ numbers ns) × (s ≡ pos (a + sum ns))
unfolding sum_bps
sum_bps_inv a [] h = ([], refl, ground arith)
sum_bps_inv a (b ∷ bps) h =
    let (c, e, rest) = >>=-eq-ok (assert_bps b) (λ c. sum_bps (pos a +ℤ c) bps) h in
    let (n, eb, es, le) = assert_bps_inv b e in
    let (ns, ebs, et) = sum_bps_inv (a + n) bps (rw es at rest) in
    (n ∷ ns, cc, rw et (ap pos (omega arith)))

pub sum_bps-numbers :
    (a : ℕ) (ns : List ℕ) → sum ns ≤ 10000 → sum_bps (pos a) (numbers ns) ≡ ok (pos (a + sum ns))
unfolding sum_bps assert_bps
sum_bps-numbers a [] h = ground arith
sum_bps-numbers a (n ∷ ns) h = ground (arith, sum_bps-numbers (a + n) ns (omega arith))

pub assert_bps_shares-numbers : (ns : List ℕ) → IsShares ns → assert_bps_shares (numbers ns) ≡ ok tt
unfolding assert_bps_shares
assert_bps_shares-numbers ns h =
    ground (arith, sum_bps-numbers 0 ns (omega arith), length-map (λ (n : ℕ). int (pos n)) ns)

numbers_shape :
    (bps : List JsNumber) (ns : List ℕ) (s : ℤ)
    → bps ≡ numbers ns
    → s ≡ pos (0 + sum ns)
    → sum_bps (pos 0) bps ≡ ok s
    → assert_bps_shares bps ≡ ok tt
    → IsShares ns
unfolding assert_bps_shares
numbers_shape bps ns s eb es e h = ground (arith, length-map (λ (n : ℕ). int (pos n)) ns)

pub assert_bps_shares_inv :
    (bps : List JsNumber)
    → assert_bps_shares bps ≡ ok tt
    → (ns : List ℕ) × (bps ≡ numbers ns) × IsShares ns
unfolding assert_bps_shares
assert_bps_shares_inv bps h = elim (Result-cases (sum_bps (pos 0) bps)) [
  | inl (s, e) ↦
      let (ns, eb, es) = sum_bps_inv 0 bps e in (ns, eb, numbers_shape bps ns s eb es e h)
  | inr (x, e) ↦ absurd (ground arith)
]

-- `assertBpsShares` accepts exactly the lists of 1 to 8 natural numbers that sum to 10000.
pub assert_bps_shares_iff :
    (bps : List JsNumber)
    → (assert_bps_shares bps ≡ ok tt) ↔ ((ns : List ℕ) × (bps ≡ numbers ns) × IsShares ns)
assert_bps_shares_iff bps =
    (assert_bps_shares_inv bps, λ (ns, e, h). rw e (assert_bps_shares-numbers ns h))
