-- ===== src/Split.antt =====
-- sdk/typescript/src/split.ts: the validation of basis points and labels, and the split of an
-- amount into payouts.
pub mod Shares
pub mod Payouts
pub mod Errors
pub mod Settlement
use synxed_solana_protocol.Base.{
  Bool, true, false, not, ◌||◌, List, [], ◌∷◌, map, length, ltb, ◌==◌,
}
use synxed_solana_protocol.Base.Int.{ℤ, pos, ◌+ℤ◌, ◌-ℤ◌, ◌*ℤ◌, ◌/ℤ◌, ltb_ℤ, leb_ℤ, eqb_ℤ}
use synxed_solana_protocol.Base.Text.{String, trim, has, ◌===◌}
use synxed_solana_protocol.Types.{
  JsNumber, int, fraction, bps_denominator, max_shares, Result, ok, err, ◌>>=◌, ◌>>◌, throw_if,
  Exception, protocol, runtime, ProtocolErrorCode, ShareInput, SettlementRequestN, SplitResultN,
  ComputedPayoutN, SplitShare, SettlementRole, SettlementRequest, SplitResult, ComputedPayout,
}

-- Hands back the integer that it has checked.
unfoldable pub assert_bps : JsNumber → Result ℤ
assert_bps (fraction _) = err (protocol ProtocolErrorCode.bps_integer)
assert_bps (int bps) = do
  throw_if (ltb_ℤ bps (pos 0) || ltb_ℤ (pos bps_denominator) bps)
      (protocol ProtocolErrorCode.bps_range)
  ok bps

-- The loop of `assertBpsShares`, with the sum so far.
unfoldable pub sum_bps : ℤ → List JsNumber → Result ℤ
sum_bps sum [] = ok sum
sum_bps sum (share ∷ bps) = do checked ← assert_bps share; sum_bps (sum +ℤ checked) bps

abbrev pub bad_share_count : List JsNumber → Bool
bad_share_count bps = length bps == 0 || ltb max_shares (length bps)

unfoldable pub assert_bps_shares : List JsNumber → Result (Unit {0})
assert_bps_shares bps = do
  throw_if (bad_share_count bps) (protocol ProtocolErrorCode.share_count)
  sum ← sum_bps (pos 0) bps
  throw_if (not (eqb_ℤ sum (pos bps_denominator))) (protocol ProtocolErrorCode.bps_sum)

-- `BigInt(bps[i])`
unfoldable pub big_int : JsNumber → Result ℤ
big_int (int n) = ok n
big_int (fraction _) = err runtime

-- The loop of `splitAmountAtomicShares`, with what is allocated so far.
unfoldable pub split_loop : ℤ → ℤ → List JsNumber → Result (List ℤ)
split_loop amount allocated [] = ok []
split_loop amount allocated (share ∷ []) = ok ((amount -ℤ allocated) ∷ [])
split_loop amount allocated (share ∷ next ∷ bps) = do
  n ← big_int share
  let part = amount *ℤ n /ℤ bps_denominator
  payouts ← split_loop amount (allocated +ℤ part) (next ∷ bps)
  ok (part ∷ payouts)

unfoldable pub split_amount_atomic_shares : ℤ → List JsNumber → Result (List ℤ)
split_amount_atomic_shares amount bps = do
  throw_if (bad_share_count bps) (protocol ProtocolErrorCode.share_count)
  throw_if (leb_ℤ amount (pos 0)) (protocol ProtocolErrorCode.zero_amount)
  assert_bps_shares bps
  split_loop amount (pos 0) bps

abbrev pub same_role : SettlementRole → SettlementRole → Bool
same_role SettlementRole.artist SettlementRole.artist = true
same_role SettlementRole.studio SettlementRole.studio = true
same_role SettlementRole.synxed SettlementRole.synxed = true
same_role _ _ = false

abbrev pub mismatch : Exception
mismatch = protocol ProtocolErrorCode.role_mismatch

-- `SETTLEMENT_ROLES` is artist, studio, synxed.
unfoldable pub assert_roles : SplitShare × SplitShare × SplitShare → Result (Unit {0})
assert_roles (a, b, c) = do
  throw_if (not (same_role a.role SettlementRole.artist)) mismatch
  throw_if (not (same_role b.role SettlementRole.studio)) mismatch
  throw_if (not (same_role c.role SettlementRole.synxed)) mismatch

-- `[parts[0], parts[1], parts[2]]`
abbrev pub three_parts : List ℤ → Result (ℤ × ℤ × ℤ)
three_parts (a ∷ b ∷ c ∷ _) = ok (a, b, c)
three_parts _ = err runtime

unfoldable pub split_amount_atomic : ℤ → SplitShare × SplitShare × SplitShare → Result (ℤ × ℤ × ℤ)
split_amount_atomic amount (a, b, c) = do
  throw_if (leb_ℤ amount (pos 0)) (protocol ProtocolErrorCode.zero_amount)
  assert_roles (a, b, c)
  parts ← split_amount_atomic_shares amount (a.bps ∷ b.bps ∷ c.bps ∷ [])
  three_parts parts

abbrev pub payout : SplitShare → ℤ → ComputedPayout
payout share amount = record {
  role = share.role;
  recipient = share.recipient;
  bps = share.bps;
  amount_atomic = amount;
}

unfoldable pub compute_settlement : SettlementRequest → Result SplitResult
compute_settlement request = do
  (x, y, z) ← split_amount_atomic request.amount_atomic request.splits
  let (a, b, c) = request.splits
  ok (record {
    request = request;
    payouts = (payout a x, payout b y, payout c z);
    total_atomic = request.amount_atomic;
  })

-- The loop over the labels, with the trimmed labels already seen.
unfoldable pub check_labels : List String → List ShareInput → Result (Unit {0})
check_labels labels [] = ok tt
check_labels labels (share ∷ shares) = do
  let label = trim share.label
  throw_if (label === "") (protocol ProtocolErrorCode.label_empty)
  throw_if (has labels label) (protocol ProtocolErrorCode.label_duplicate)
  check_labels (label ∷ labels) shares

abbrev pub bps_of : List ShareInput → List JsNumber
bps_of = map (λ (s : ShareInput). s.bps)

-- `shares.map((share, i) => ({ …, amountAtomic: amounts[i] }))`; the amounts are as many.
unfoldable pub payouts_n : List ShareInput → List ℤ → List ComputedPayoutN
payouts_n (share ∷ shares) (amount ∷ amounts) =
    record {
      label = share.label;
      recipient = share.recipient;
      bps = share.bps;
      amount_atomic = amount;
    }
    ∷ payouts_n shares amounts
payouts_n _ _ = []

unfoldable pub compute_settlement_n : SettlementRequestN → Result SplitResultN
compute_settlement_n request = do
  check_labels [] request.shares
  amounts ← split_amount_atomic_shares request.amount_atomic (bps_of request.shares)
  ok (record {
    request = request;
    payouts = payouts_n request.shares amounts;
    total_atomic = request.amount_atomic;
  })
