-- ===== src/Tests/Clients.antt =====
-- Transactions put together, memos read back, and namespaces opened.
use synxed_solana_protocol.Base.{
  ℕ, ◌*◌, ◌<◌, ◌≡◌, ◌↔◌, ◌⊎◌, refl, false, true, Option, none, some, List, [], ◌++◌, ◌∷◌, length,
  if◌then◌else◌,
}
use synxed_solana_protocol.Base.Int.{ℤ, pos, negsuc}
use synxed_solana_protocol.Base.Text.{String, trim}
use synxed_solana_protocol.Base.Decimal.{show_ℤ}
use synxed_solana_protocol.Types.{int, ok, ProtocolErrorCode}
use synxed_solana_protocol.Json.{Json, property, is_defined}
use synxed_solana_protocol.Bytes.{zeros, slice, of_le}
use synxed_solana_protocol.Split.{
  assert_bps, sum_bps, assert_bps_shares, check_labels, payouts_n, compute_settlement_n,
  split_amount_atomic_shares, split_loop, big_int,
}
use synxed_solana_protocol.Solana.Sample.{sample, pad}
use synxed_solana_protocol.Instruction.Encode.{
  event_id_seed, encode_settle_n_data, assert_seed, assert_amount_u64, find_settlement_record_pda,
  find_namespace_pda, assert_namespace_id, assert_authority, encode_create_namespace_data,
  write_settle_token_n,
}
use synxed_solana_protocol.Instruction.Build.{
  TransactionInstruction, settle_token_n_keys, build_settle_n_instruction,
  build_create_namespace_instruction, assert_no_program_account_recipient,
}
use synxed_solana_protocol.Ledger.Evidence.{Instruction, ParsedTransaction, SettlementMode}
use synxed_solana_protocol.Ledger.Find.{Indexed, from_program, extract_memo}
use synxed_solana_protocol.Ledger.Match.{assert_memo, assert_token_memo}
use synxed_solana_protocol.Client.Library.{Library, Account, sized}
use synxed_solana_protocol.Client.Prepare.{
  memo_json, BuildOptions, Prepared, assert_native_asset, scaled_total,
  refuse_program_options_without_program, memo_instruction, parse_recipient, parse_recipients,
  opening, settle_instruction, payment, build_settlement_n_transaction,
}
use synxed_solana_protocol.Client.Prepared.{
  IsPrepared, IsTransferred, IsSettled, build_settlement_n_transaction-IsPrepared,
}
use synxed_solana_protocol.Client.Scaled.{scaled_total_iff, IsFactor}
use synxed_solana_protocol.Client.Memos.{assert_memo-extract_memo, assert_token_memo-extract_memo}
use synxed_solana_protocol.Client.TokenPrepare.{
  token_memo_json, BuildTokenOptions, PreparedToken, token_memo_instruction,
}
use synxed_solana_protocol.Client.Accounts.{
  SettlementRecordAccount, read_namespace, read_settlement_record,
}
use synxed_solana_protocol.Client.Namespace.{
  is_pinned_elsewhere, EnsureOptions, EnsuredNamespace, Answers, open_namespace, ensure_at,
  ensure_namespace,
}
use synxed_solana_protocol.Client.Opened.{
  IsAbsent, IsRecordOf, read_settlement_record_iff, IsEnsured, ensure_namespace-IsEnsured,
}
use synxed_solana_protocol.Tests.Splits.{sample_request}
use synxed_solana_protocol.Tests.Instructions.{sample_built, sample_token_params}
use synxed_solana_protocol.Tests.Tokens.{token_request}

abbrev number : ℤ → ℕ
number (pos n) = n
number (negsuc n) = 0

-- Every instruction takes 100 bytes, and one key signs.
abbrev pub sample_library : Library ℕ
sample_library = record {
  transfer = λ from to lamports. record {
    program_id = 1;
    keys = [];
    bytes = from ∷ to ∷ number lamports ∷ [];
  };
  create_token_account =
      λ payer account owner mint. record { program_id = 4; keys = []; bytes = account ∷ [] };
  stringify = λ value. if is_defined (property value "tokenAmount") then "token" else "memo";
  message_size = λ payer instructions. sized (100 * length instructions) 1;
}

scaled_total_iff_example : (scaled_total (pos 1001) (some (pos 3)) ≡ ok (pos 3003)) ↔ (
    (f : ℕ) × IsFactor (some (pos 3)) f
    × (0 < f)
    × (pos 3003 ≡ pos (1001 * f))
    × (1001 * f < 18446744073709551616))
scaled_total_iff_example = scaled_total_iff 1001 (some (pos 3)) (pos 3003)

abbrev build_options : BuildOptions ℕ
build_options = record {
  payer = 20;
  request = sample_request;
  lamports_per_atomic_unit = none;
  program_id = some 7;
  namespace = some 22;
  authority = some 21;
  create_namespace_id = none;
}

abbrev prepared : Prepared ℕ
prepared = record {
  instructions =
      memo_instruction sample sample_library sample_request (pos 1001) ∷ sample_built ∷ [];
  mode = SettlementMode.program;
  lamports_total = pos 1001;
  lamports_by_share = pos 600 ∷ pos 401 ∷ [];
}

transaction_built : build_settlement_n_transaction sample sample_library build_options ≡ ok prepared
unfolding build_settlement_n_transaction assert_native_asset scaled_total compute_settlement_n
    check_labels payouts_n split_amount_atomic_shares assert_bps_shares sum_bps assert_bps
    split_loop big_int parse_recipients parse_recipient refuse_program_options_without_program
    opening payment settle_instruction event_id_seed zeros trim build_settle_n_instruction
    encode_settle_n_data assert_seed assert_amount_u64 find_settlement_record_pda
    assert_no_program_account_recipient
transaction_built = refl

build_settlement_n_transaction-IsPrepared_example :
    (recipients : List ℕ) × (first : List (TransactionInstruction ℕ)) × (paid : List
      (TransactionInstruction ℕ))
    × IsPrepared sample sample_library build_options prepared recipients first paid
    × (IsTransferred sample sample_library build_options prepared recipients first paid
        ⊎ IsSettled sample sample_library build_options prepared recipients first paid)
build_settlement_n_transaction-IsPrepared_example =
    build_settlement_n_transaction-IsPrepared sample sample_library build_options prepared
      transaction_built

abbrev memo_at : String → Indexed (Instruction ℕ)
memo_at text = record { index = 0; instruction = Instruction.parsed 3 "spl-memo" (Json.text text) }

abbrev with_memo : String → ParsedTransaction ℕ
with_memo text = record {
  meta = none;
  signatures = [];
  instructions = (memo_at text).instruction ∷ [];
  slot = 7;
  block_time = none;
}

memo_alone : from_program sample 3 0 (with_memo "memo").instructions ≡ memo_at "memo" ∷ []
unfolding from_program
memo_alone = refl

memo_parsed : sample.parse_json "memo" ≡ some (memo_json sample_request (pos 1001))
unfolding show_ℤ
memo_parsed = refl

assert_memo-extract_memo_example :
    (value : Json) × (extract_memo sample (with_memo "memo") ≡ ok value)
    × (assert_memo value sample_request (pos 1001) false ≡ ok tt)
assert_memo-extract_memo_example =
    assert_memo-extract_memo sample sample_library (with_memo "memo") (memo_at "memo")
      sample_request (pos 1001) false memo_alone refl memo_parsed

token_memo_alone : from_program sample 3 0 (with_memo "token").instructions ≡ memo_at "token" ∷ []
unfolding from_program
token_memo_alone = refl

token_memo_parsed :
    sample.parse_json "token" ≡ some (token_memo_json token_request (pos 1001) "1" (int (pos 6)))
unfolding show_ℤ
token_memo_parsed = refl

assert_token_memo-extract_memo_example :
    (value : Json) × (extract_memo sample (with_memo "token") ≡ ok value)
    × (assert_token_memo value token_request (pos 1001) "1" (int (pos 6)) ≡ ok tt)
assert_token_memo-extract_memo_example =
    assert_token_memo-extract_memo sample sample_library (with_memo "token") (memo_at "token")
      token_request (pos 1001) "1" (pos 6) token_memo_alone refl token_memo_parsed

abbrev build_token_options : BuildTokenOptions ℕ
build_token_options = record {
  payer = 20;
  request = token_request;
  mint = 1;
  decimals = int (pos 6);
  program_id = 7;
  namespace = 22;
  authority = some 21;
  token_base_units_per_atomic_unit = none;
  create_recipient_accounts = none;
}

abbrev settle_token_sent : TransactionInstruction ℕ
settle_token_sent = record {
  program_id = 7;
  keys =
      settle_token_n_keys sample
        (record {
          program_id = 7;
          payer = 20;
          authority = 21;
          namespace = 22;
          source_token_account = 120;
          recipient_token_accounts = 110 ∷ 111 ∷ [];
          mint = 1;
          token_program_id = none;
        })
        112 2;
  bytes = write_settle_token_n sample_token_params;
}

abbrev prepared_token : PreparedToken ℕ
prepared_token = record {
  instructions =
      token_memo_instruction sample sample_library token_request (pos 1001) 1 (int (pos 6))
      ∷ sample_library.create_token_account 20 110 10 1
      ∷ sample_library.create_token_account 20 111 11 1
      ∷ settle_token_sent
      ∷ [];
  token_amount_total = pos 1001;
  token_amounts_by_share = pos 600 ∷ pos 401 ∷ [];
  source_token_account = 120;
  recipient_token_accounts = 110 ∷ 111 ∷ [];
}

-- The payer opens the namespace of the id, whose address the sample derives as 113.
abbrev ensure_options : EnsureOptions ℕ
ensure_options = record {
  payer = 20;
  program_id = 7;
  namespace_id = pad 5;
  authority = none;
  create = none;
  creator = none;
  expected_address = some 113;
}

abbrev answers : Answers ℕ
answers = record { account = ok none; sent = λ create. ok "sig"; account_again = ok none }

abbrev ensured : EnsuredNamespace ℕ
ensured = record { address = 113; authority = 20; created = true; signature = some "sig" }

namespace_ensured : ensure_namespace sample ensure_options answers ≡ ok ensured
unfolding ensure_namespace ensure_at open_namespace find_namespace_pda assert_namespace_id
    build_create_namespace_instruction read_namespace zeros assert_authority
    encode_create_namespace_data
namespace_ensured = refl

ensure_namespace-IsEnsured_example :
    ((bump : ℕ) × (find_namespace_pda sample 7 20 (pad 5) ≡ ok (113, bump)))
    × (is_pinned_elsewhere sample (some 113) 113 ≡ false)
    × (ensured.authority ≡ 20)
    × IsEnsured sample ensure_options ensured answers
ensure_namespace-IsEnsured_example =
    ensure_namespace-IsEnsured sample ensure_options answers ensured namespace_ensured

abbrev pub record_account : Account ℕ
record_account = record { owner = 7; bytes = 1 ∷ (pad 150 ++ (233 ∷ 3 ∷ zeros 6)) }

abbrev read_back : Option (SettlementRecordAccount ℕ)
read_back = some (record { address = 112; amount = 1001 })

read_settlement_record_iff_example :
    (read_settlement_record sample 7 112
        (pad 150)
        ProtocolErrorCode.settlement_record
        (some record_account)
      ≡ ok read_back)
    ↔ (((read_back ≡ none) × IsAbsent sample (some record_account))
        ⊎ ((account : Account ℕ) × (some record_account ≡ some account)
            × IsRecordOf sample 7 (pad 150) account
            × (read_back
                ≡ some (record { address = 112; amount = of_le (slice 33 8 account.bytes) }))))
read_settlement_record_iff_example =
    read_settlement_record_iff sample 7 112 (pad 150) ProtocolErrorCode.settlement_record
      (some record_account) read_back
