-- ===== src/Tests/Instructions.antt =====
-- Instructions of one settlement, built and decoded.
use synxed_solana_protocol.Base.{ℕ, ◌≡◌, refl, none, [], ◌∷◌}
use synxed_solana_protocol.Base.Int.{pos}
use synxed_solana_protocol.Types.{int, ok}
use synxed_solana_protocol.Bytes.{zeros}
use synxed_solana_protocol.Split.{assert_bps, sum_bps, assert_bps_shares}
use synxed_solana_protocol.Split.Shares.{numbers}
use synxed_solana_protocol.Solana.Sample.{sample, pad}
use synxed_solana_protocol.Instruction.Encode.{
  SettleNParams, SettleTokenNParams, write_settle_n, write_settle_token_n, encode_settle_n_data,
  encode_settle_token_n_data, assert_seed, assert_amount_u64, find_settlement_record_pda,
}
use synxed_solana_protocol.Instruction.Build.{
  TransactionInstruction, SettleNAccounts, SettleTokenNAccounts, build_settle_n_instruction,
  build_settle_token_n_instruction, settle_n_keys, settle_token_n_keys,
  assert_no_program_account_recipient,
}
use synxed_solana_protocol.Instruction.Accounts.{
  IsBuiltN, IsBuiltTokenN, build_settle_n_instruction-IsBuiltN,
  build_settle_token_n_instruction-IsBuiltTokenN,
}
use synxed_solana_protocol.Ledger.Decode.{
  DecodedSettleN, DecodedSettleTokenN, decode_settle_n_data, decode_settle_token_n_data,
}
use synxed_solana_protocol.Ledger.RoundTrip.{
  IsDecodedN, IsDecodedTokenN, decode_settle_n_data-encode_settle_n_data,
  decode_settle_token_n_data-encode_settle_token_n_data,
}
use synxed_solana_protocol.Tests.Splits.{two_shares}

abbrev pub sample_accounts : SettleNAccounts ℕ
sample_accounts = record {
  program_id = 7;
  payer = 20;
  authority = 21;
  namespace = 22;
  recipients = 10 ∷ 11 ∷ [];
}

-- The event `e1`, whose seed is that of the sample's hash.
abbrev pub sample_params : SettleNParams
sample_params = record { event_seed = pad 150; amount = pos 1001; bps = numbers two_shares }

abbrev pub sample_built : TransactionInstruction ℕ
sample_built = record {
  program_id = 7;
  keys = settle_n_keys sample sample_accounts 112;
  bytes = write_settle_n sample_params;
}

pub encoded : encode_settle_n_data sample_params ≡ ok (write_settle_n sample_params)
unfolding encode_settle_n_data assert_seed assert_amount_u64 assert_bps_shares sum_bps assert_bps
    zeros
encoded = refl

pub built : build_settle_n_instruction sample sample_accounts sample_params ≡ ok sample_built
unfolding build_settle_n_instruction encode_settle_n_data assert_seed assert_amount_u64
    assert_bps_shares sum_bps assert_bps zeros find_settlement_record_pda
    assert_no_program_account_recipient
built = refl

build_settle_n_instruction-IsBuiltN_example :
    (record_key : ℕ) × (bump : ℕ) × IsBuiltN sample sample_accounts sample_params sample_built
      record_key bump
build_settle_n_instruction-IsBuiltN_example =
    build_settle_n_instruction-IsBuiltN sample sample_accounts sample_params sample_built built

decode_settle_n_data-encode_settle_n_data_example :
    (decoded : DecodedSettleN) × (decode_settle_n_data sample
        (sample.encode_base58 (write_settle_n sample_params))
      ≡ ok decoded)
    × IsDecodedN sample_params decoded
decode_settle_n_data-encode_settle_n_data_example =
    decode_settle_n_data-encode_settle_n_data sample sample_params (write_settle_n sample_params)
      encoded

abbrev pub sample_token_accounts : SettleTokenNAccounts ℕ
sample_token_accounts = record {
  program_id = 7;
  payer = 20;
  authority = 21;
  namespace = 22;
  source_token_account = 23;
  recipient_token_accounts = 10 ∷ 11 ∷ [];
  mint = 24;
  token_program_id = none;
}

abbrev pub sample_token_params : SettleTokenNParams
sample_token_params = record { settle = sample_params; decimals = int (pos 6) }

abbrev pub sample_token_built : TransactionInstruction ℕ
sample_token_built = record {
  program_id = 7;
  keys = settle_token_n_keys sample sample_token_accounts 112 2;
  bytes = write_settle_token_n sample_token_params;
}

token_encoded :
    encode_settle_token_n_data sample_token_params ≡ ok (write_settle_token_n sample_token_params)
unfolding encode_settle_token_n_data assert_seed assert_amount_u64 assert_bps_shares sum_bps
    assert_bps zeros
token_encoded = refl

token_built :
    build_settle_token_n_instruction sample sample_token_accounts sample_token_params
    ≡ ok sample_token_built
unfolding build_settle_token_n_instruction encode_settle_token_n_data assert_seed assert_amount_u64
    assert_bps_shares sum_bps assert_bps zeros find_settlement_record_pda
    assert_no_program_account_recipient
token_built = refl

build_settle_token_n_instruction-IsBuiltTokenN_example :
    (record_key : ℕ) × (bump : ℕ) × IsBuiltTokenN sample sample_token_accounts sample_token_params
      sample_token_built record_key bump
build_settle_token_n_instruction-IsBuiltTokenN_example =
    build_settle_token_n_instruction-IsBuiltTokenN sample sample_token_accounts sample_token_params
      sample_token_built token_built

decode_settle_token_n_data-encode_settle_token_n_data_example :
    (decoded : DecodedSettleTokenN) × (decode_settle_token_n_data sample
        (sample.encode_base58 (write_settle_token_n sample_token_params))
      ≡ ok decoded)
    × IsDecodedTokenN sample_token_params decoded
decode_settle_token_n_data-encode_settle_token_n_data_example =
    decode_settle_token_n_data-encode_settle_token_n_data sample sample_token_params
      (write_settle_token_n sample_token_params) token_encoded
