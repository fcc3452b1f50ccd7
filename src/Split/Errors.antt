-- ===== src/Split/Errors.antt =====
-- Why a split is refused: the code of the error and its cause.
use synxed_solana_protocol.Base.{
  ℕ, ◌≤◌, ◌<◌, ◌≡◌, ◌≢◌, sym, ap, ◌∙◌, ◌⊎◌, inl, inr, List, [], ◌∷◌, length, length-map, arith, Any,
  true, false, Bool-cases,
}
use synxed_solana_protocol.Base.Int.{ℤ, pos, negsuc, ◌+ℤ◌, leb_ℤ, eqb_ℤ}
use synxed_solana_protocol.Types.{
  JsNumber, int, fraction, ok, err, protocol, Exception, ProtocolErrorCode, Result-cases,
}
use synxed_solana_protocol.Split.{
  assert_bps, sum_bps, assert_bps_shares, split_amount_atomic_shares, bad_share_count,
}
use synxed_solana_protocol.Split.Shares.{sum, numbers, IsShares, sum_bps_inv}
use synxed_solana_protocol.Split.Payouts.{split-numbers}
use mathlib.Core.Path.{subst}

abbrev pub IsFraction : JsNumber → Type 0
IsFraction (fraction _) = Unit
IsFraction (int n) = ⊥

abbrev pub IsOutOfRange : JsNumber → Type 0
IsOutOfRange (fraction _) = ⊥
IsOutOfRange (int (pos n)) = 10000 < n
IsOutOfRange (int (negsuc n)) = Unit

abbrev pub IsPositive : ℤ → Type 0
IsPositive (pos n) = 0 < n
IsPositive (negsuc n) = ⊥

abbrev pub IsCounted : List JsNumber → Type 0
IsCounted bps = (1 ≤ length bps) × (length bps ≤ 8)

-- What each code says of the amount and the shares; no other code, and no runtime error, is met.
abbrev pub Cause : ℤ → List JsNumber → Exception → Type 0
Cause amount bps (protocol ProtocolErrorCode.share_count) = ¬ IsCounted bps
Cause amount bps (protocol ProtocolErrorCode.zero_amount) = IsCounted bps × ¬ IsPositive amount
Cause amount bps (protocol ProtocolErrorCode.bps_integer) =
    IsCounted bps × IsPositive amount × Any IsFraction bps
Cause amount bps (protocol ProtocolErrorCode.bps_range) =
    IsCounted bps × IsPositive amount × Any IsOutOfRange bps
Cause amount bps (protocol ProtocolErrorCode.bps_sum) =
    IsCounted bps × IsPositive amount × ((ns : List ℕ) × (bps ≡ numbers ns) × (sum ns ≢ 10000))
Cause amount bps _ = ⊥

abbrev Refused : List JsNumber → Exception → Type 0
Refused bps e =
    ((e ≡ protocol ProtocolErrorCode.bps_integer) × Any IsFraction bps)
    ⊎ ((e ≡ protocol ProtocolErrorCode.bps_range) × Any IsOutOfRange bps)

assert_bps-Refused :
    (b : JsNumber) (bps : List JsNumber) {e : Exception}
    → assert_bps b ≡ err e
    → Refused (b ∷ bps) e
unfolding assert_bps
assert_bps-Refused (fraction t) bps h = inl (cc, inl tt)
assert_bps-Refused (int (negsuc n)) bps h = inr (cc, inl tt)
assert_bps-Refused (int (pos n)) bps h = inr (ground arith, inl (ground arith))

Refused-cons :
    (b : JsNumber) (bps : List JsNumber) {e : Exception} → Refused bps e → Refused (b ∷ bps) e
Refused-cons b bps (inl (p, a)) = inl (p, inr a)
Refused-cons b bps (inr (p, a)) = inr (p, inr a)

sum_bps-Refused :
    (s : ℤ) (bps : List JsNumber) {e : Exception} → sum_bps s bps ≡ err e → Refused bps e
unfolding sum_bps
sum_bps-Refused s [] h = cc
sum_bps-Refused s (b ∷ bps) {e} h = elim (Result-cases (assert_bps b)) [
  | inl (n, q) ↦ Refused-cons b bps (sum_bps-Refused (s +ℤ n) bps (rw q at h))
  | inr (x, q) ↦ assert_bps-Refused b bps (q ∙ (rw q at h))
]

counted : (bps : List JsNumber) → bad_share_count bps ≡ false → IsCounted bps
counted bps h = ground arith

not-IsCounted : (bps : List JsNumber) → bad_share_count bps ≡ true → ¬ IsCounted bps
not-IsCounted bps h c = ground arith

IsPositive-of : (amount : ℤ) → leb_ℤ amount (pos 0) ≡ false → IsPositive amount
IsPositive-of (pos n) h = ground arith
IsPositive-of (negsuc n) h = cc

not_IsPositive : (amount : ℤ) → leb_ℤ amount (pos 0) ≡ true → ¬ IsPositive amount
not_IsPositive (pos n) h p = ground arith
not_IsPositive (negsuc n) h p = p

-- Natural shares that are refused do not sum to 10000: with that sum the split returns.
bad_sum :
    (a : ℕ) (bps : List JsNumber) (ns : List ℕ) {e : Exception}
    → 0 < a
    → IsCounted bps
    → bps ≡ numbers ns
    → split_amount_atomic_shares (pos a) bps ≡ err e
    → sum ns ≢ 10000
bad_sum a bps ns p c q h whole = ground (arith, split-numbers a ns p shares)
  where
    shares : IsShares ns
    shares = let l = length-map (λ (n : ℕ). int (pos n)) ns in ground arith

module _ (amount : ℤ) (bps : List JsNumber) {e : Exception}
    (h : split_amount_atomic_shares amount bps ≡ err e) where
  count-Cause : bad_share_count bps ≡ true → Cause amount bps e
  unfolding split_amount_atomic_shares
  count-Cause b =
      let q : protocol ProtocolErrorCode.share_count ≡ e = ground arith in
      subst (Cause amount bps) q (not-IsCounted bps b)

  amount-Cause : bad_share_count bps ≡ false → leb_ℤ amount (pos 0) ≡ true → Cause amount bps e
  unfolding split_amount_atomic_shares
  amount-Cause b z =
      let q : protocol ProtocolErrorCode.zero_amount ≡ e = ground arith in
      subst (Cause amount bps) q (counted bps b, not_IsPositive amount z)

  Refused-Cause : IsCounted bps → IsPositive amount → Refused bps e → Cause amount bps e
  Refused-Cause c p (inl (q, a)) = subst (Cause amount bps) (sym q) (c, p, a)
  Refused-Cause c p (inr (q, a)) = subst (Cause amount bps) (sym q) (c, p, a)

  sum_bps_fails :
      {x : Exception}
      → bad_share_count bps ≡ false
      → leb_ℤ amount (pos 0) ≡ false
      → sum_bps (pos 0) bps ≡ err x
      → sum_bps (pos 0) bps ≡ err e
  unfolding split_amount_atomic_shares assert_bps_shares
  sum_bps_fails b z q = ground arith

  sum_not_whole :
      {s : ℤ}
      → bad_share_count bps ≡ false
      → leb_ℤ amount (pos 0) ≡ false
      → sum_bps (pos 0) bps ≡ ok s
      → eqb_ℤ s (pos 10000) ≡ false
      → protocol ProtocolErrorCode.bps_sum ≡ e
  unfolding split_amount_atomic_shares assert_bps_shares
  sum_not_whole b z q w = ground arith

natural_sum :
    (amount : ℤ) (bps : List JsNumber) {e : Exception} {s : ℤ}
    → split_amount_atomic_shares amount bps ≡ err e
    → IsCounted bps
    → IsPositive amount
    → sum_bps (pos 0) bps ≡ ok s
    → (ns : List ℕ) × (bps ≡ numbers ns) × (s ≡ pos (sum ns)) × (sum ns ≢ 10000)
natural_sum (negsuc a) bps h c p q = elim p [ ]
natural_sum (pos a) bps h c p q =
    let (ns, eb, es) = sum_bps_inv 0 bps q in
    (ns, eb, es ∙ ap pos (omega arith), bad_sum a bps ns p c eb h)

sum-Cause :
    (amount : ℤ) (bps : List JsNumber) {e : Exception} {s : ℤ}
    → split_amount_atomic_shares amount bps ≡ err e
    → bad_share_count bps ≡ false
    → leb_ℤ amount (pos 0) ≡ false
    → sum_bps (pos 0) bps ≡ ok s
    → Cause amount bps e
sum-Cause amount bps {s = s} h b z q =
    let c = counted bps b in
    let p = IsPositive-of amount z in
    let (ns, eb, es, ne) = natural_sum amount bps h c p q in
    subst (Cause amount bps) (sum_not_whole amount bps h b z q (ground arith)) (c, p, (ns, eb, ne))

-- A split that throws has one of five codes, and the code tells the cause: the number of shares is
-- not 1 to 8; with that met, the amount is not positive; with that met too, some share is no
-- integer, some share is an integer outside 0 to 10000, or all are natural numbers and their sum is
-- not 10000. No other error is met.
pub split_errors :
    (amount : ℤ) (bps : List JsNumber) {e : Exception}
    → split_amount_atomic_shares amount bps ≡ err e
    → Cause amount bps e
split_errors amount bps h = elim (Bool-cases (bad_share_count bps)) [
  | inl b ↦ count-Cause amount bps h b
  | inr b ↦ elim (Bool-cases (leb_ℤ amount (pos 0))) [
    | inl z ↦ amount-Cause amount bps h b z
    | inr z ↦ elim (Result-cases (sum_bps (pos 0) bps)) [
      | inr (x, q) ↦
          Refused-Cause amount bps h (counted bps b) (IsPositive-of amount z)
            (sum_bps-Refused (pos 0) bps (sum_bps_fails amount bps h b z q))
      | inl (s, q) ↦ sum-Cause amount bps h b z q
    ]
  ]
]
