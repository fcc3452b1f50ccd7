-- ===== src/Tests/Splits.antt =====
-- Splits of 1001 and of a settlement between two labels.
use synxed_solana_protocol.Base.{ℕ, ◌≡◌, refl, ◌↔◌, List, [], ◌∷◌}
use synxed_solana_protocol.Base.Int.{pos, negsuc}
use synxed_solana_protocol.Base.Text.{trim}
use synxed_solana_protocol.Types.{
  int, ok, err, protocol, ProtocolErrorCode, ShareInput, SettlementRequestN, SettlementKind,
  SettlementAsset, SplitResultN, SplitShare, SettlementRole,
}
use synxed_solana_protocol.Split.{
  assert_bps, sum_bps, assert_bps_shares, big_int, split_loop, split_amount_atomic_shares,
  split_amount_atomic, payouts_n, check_labels, compute_settlement_n,
}
use synxed_solana_protocol.Split.Shares.{numbers, IsShares, assert_bps_shares_iff}
use synxed_solana_protocol.Split.Payouts.{IsSplit, IsSplit-iff}
use synxed_solana_protocol.Split.Errors.{Cause, split_errors}
use synxed_solana_protocol.Split.Settlement.{
  IsSettled, HasRoles, bps_triple, compute_settlement_n-IsSettled, split_amount_atomic_iff,
}

abbrev pub two_shares : List ℕ
two_shares = 6001 ∷ 3999 ∷ []

abbrev three_shares : SplitShare × SplitShare × SplitShare
three_shares = (
  record { role = SettlementRole.artist; recipient = "a"; bps = int (pos 3500) },
  record { role = SettlementRole.studio; recipient = "b"; bps = int (pos 4000) },
  record { role = SettlementRole.synxed; recipient = "c"; bps = int (pos 2500) },
)

split_1001 :
    split_amount_atomic_shares (pos 1001) (numbers two_shares) ≡ ok (pos 600 ∷ pos 401 ∷ [])
unfolding split_amount_atomic_shares assert_bps_shares sum_bps assert_bps split_loop big_int
split_1001 = refl

refused_sum :
    split_amount_atomic_shares (pos 1001) (numbers (6000 ∷ 3999 ∷ []))
    ≡ err (protocol ProtocolErrorCode.bps_sum)
unfolding split_amount_atomic_shares assert_bps_shares sum_bps assert_bps split_loop big_int
refused_sum = refl

refused_range :
    split_amount_atomic_shares (pos 1001) (int (negsuc 0) ∷ int (pos 10001) ∷ [])
    ≡ err (protocol ProtocolErrorCode.bps_range)
unfolding split_amount_atomic_shares assert_bps_shares sum_bps assert_bps split_loop big_int
refused_range = refl

assert_bps_shares_iff_example :
    (assert_bps_shares (numbers two_shares) ≡ ok tt)
    ↔ ((ns : List ℕ) × (numbers two_shares ≡ numbers ns) × IsShares ns)
assert_bps_shares_iff_example = assert_bps_shares_iff (numbers two_shares)

IsSplit-iff_example :
    (split_amount_atomic_shares (pos 1001) (numbers two_shares) ≡ ok (pos 600 ∷ pos 401 ∷ [])) ↔ (
      (a : ℕ) × (ns : List ℕ) × (ps : List ℕ) × IsSplit
        (pos 1001)
        (numbers two_shares)
        (pos 600 ∷ pos 401 ∷ [])
        a
        ns
        ps)
IsSplit-iff_example = IsSplit-iff (pos 1001) (numbers two_shares) (pos 600 ∷ pos 401 ∷ [])

split_errors_example :
    Cause (pos 1001) (int (negsuc 0) ∷ int (pos 10001) ∷ []) (protocol ProtocolErrorCode.bps_range)
split_errors_example = split_errors (pos 1001) (int (negsuc 0) ∷ int (pos 10001) ∷ []) refused_range

abbrev pub sample_shares : List ShareInput
sample_shares =
    record { label = " artist"; recipient = "1111111111"; bps = int (pos 6001) }
    ∷ record { label = "rewards_pool"; recipient = "11111111111"; bps = int (pos 3999) }
    ∷ []

abbrev pub sample_request : SettlementRequestN
sample_request = record {
  event_id = "e1";
  occurred_at = "2025-01-01T00:00:00.000Z";
  kind = SettlementKind.audio_ad_impression;
  amount_atomic = pos 1001;
  asset = SettlementAsset.sol_lamports_standin;
  shares = sample_shares;
  memo = "";
}

abbrev sample_result : SplitResultN
sample_result = record {
  request = sample_request;
  payouts =
      record {
        label = " artist";
        recipient = "1111111111";
        bps = int (pos 6001);
        amount_atomic = pos 600;
      }
      ∷ record {
        label = "rewards_pool";
        recipient = "11111111111";
        bps = int (pos 3999);
        amount_atomic = pos 401;
      }
      ∷ [];
  total_atomic = pos 1001;
}

computed : compute_settlement_n sample_request ≡ ok sample_result
unfolding compute_settlement_n check_labels payouts_n split_amount_atomic_shares assert_bps_shares
    sum_bps assert_bps split_loop big_int trim
computed = refl

compute_settlement_n-IsSettled_example : IsSettled sample_request sample_result
compute_settlement_n-IsSettled_example =
    compute_settlement_n-IsSettled sample_request sample_result computed

split_amount_atomic_iff_example :
    (split_amount_atomic (pos 20000) three_shares ≡ ok (pos 7000, pos 8000, pos 5000)) ↔ (
      HasRoles three_shares
      × (split_amount_atomic_shares (pos 20000) (bps_triple three_shares)
          ≡ ok (pos 7000 ∷ pos 8000 ∷ pos 5000 ∷ [])))
split_amount_atomic_iff_example =
    split_amount_atomic_iff (pos 20000) three_shares (pos 7000) (pos 8000) (pos 5000)
