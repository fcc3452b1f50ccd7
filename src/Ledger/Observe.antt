-- ===== src/Ledger/Observe.antt =====
-- sdk/typescript/src/ledger.ts: the evidence that a finalized settlement transaction holds.
use synxed_solana_protocol.Base.{
  ℕ, ◌+◌, ◌/◌, ◌%◌, not, ◌&&◌, ◌||◌, Option, none, some, List, [], ◌∷◌, map, length, get_elem?,
  take, drop, leb, ◌==◌, if◌then◌else◌,
}
use Prim.Native.Char.{Char}
use synxed_solana_protocol.Base.Int.{ℤ, pos}
use synxed_solana_protocol.Base.Text.{String, ◌===◌, has}
use synxed_solana_protocol.Base.Decimal.{read_ℕ}
use synxed_solana_protocol.Types.{
  JsNumber, int, Result, ok, err, ◌>>=◌, ◌>>◌, throw_if, or_throw, Exception, ledger, runtime,
  LedgerErrorCode,
}
use synxed_solana_protocol.Json.{Json, is_record, property, is_text, as_text, as_number}
use synxed_solana_protocol.Bytes.{Bytes}
use synxed_solana_protocol.Solana.{Solana}
use synxed_solana_protocol.Instruction.Encode.{find_settlement_record_pda}
use synxed_solana_protocol.Ledger.Decode.{decode_settle_n_data, decode_settle_token_n_data}
use synxed_solana_protocol.Ledger.Evidence.{
  Instruction, raw, parsed, ParsedTransaction, Meta, InnerInstructions, ObservedTransfer,
  ObservedTokenTransfer, ProgramSettlementObservation, ProgramTokenSettlementObservation,
}
use synxed_solana_protocol.Ledger.Find.{find_settlement_instruction, extract_memo}

abbrev pub bad_transfer : Exception
bad_transfer = ledger LedgerErrorCode.transfer_mismatch

abbrev pub bad_layout : Exception
bad_layout = ledger LedgerErrorCode.account_layout

-- `typeof value === "number" && Number.isSafeInteger(value) && value >= 0`
abbrev pub safe_natural : Option JsNumber → Option ℕ
safe_natural (some (int (pos n))) = if leb n 0x1f_ffff_ffff_ffff then some n else none
safe_natural _ = none

-- `typeof value === "number" && Number.isInteger(value)`
abbrev pub integer : Option JsNumber → Option ℤ
integer (some (int n)) = some n
integer _ = none

abbrev pub decimal : Option String → Option ℕ
decimal none = none
decimal (some s) = read_ℕ s

abbrev pub record_or_throw : Option Json → Exception → Result Json
record_or_throw none e = err e
record_or_throw (some value) e = if is_record value then ok value else err e

-- The info of a system transfer.
unfoldable pub read_system_transfer : Option Json → Result (Option ObservedTransfer)
read_system_transfer value = do
  info ← record_or_throw value bad_transfer
  source ← or_throw (as_text (property info "source")) bad_transfer
  destination ← or_throw (as_text (property info "destination")) bad_transfer
  lamports ← or_throw (safe_natural (as_number (property info "lamports"))) bad_transfer
  ok (some (record { source = source; destination = destination; amount_on_chain = lamports }))

unfoldable pub parse_system_transfer :
    {Key : Type 0} → Instruction Key → Result (Option ObservedTransfer)
parse_system_transfer (raw _) = ok none
parse_system_transfer (parsed _ program content) =
    let transfer = read_system_transfer (property content "info") in
    if program === "system" && is_record content && is_text (property content "type") "transfer"
    then transfer
    else ok none

unfoldable pub read_token_transfer : Option Json → Result (Option ObservedTokenTransfer)
read_token_transfer value = do
  info ← record_or_throw value bad_transfer
  token_amount ← record_or_throw (property info "tokenAmount") bad_transfer
  source ← or_throw (as_text (property info "source")) bad_transfer
  destination ← or_throw (as_text (property info "destination")) bad_transfer
  mint ← or_throw (as_text (property info "mint")) bad_transfer
  amount ← or_throw (decimal (as_text (property token_amount "amount"))) bad_transfer
  decimals ← or_throw (integer (as_number (property token_amount "decimals"))) bad_transfer
  ok (
      some (record {
        source = source;
        destination = destination;
        mint = mint;
        amount_on_chain = amount;
        decimals = decimals;
      }))

abbrev pub with_found {ℓ} : {B : Type ℓ} → Option B → List B → List B
with_found none rest = rest
with_found (some b) rest = b ∷ rest

-- `instructions.flatMap(…)` of a function that gives a transfer, nothing, or an error.
unfoldable pub collect {ℓ κ} :
    {A : Type ℓ} {B : Type κ} → (A → Result (Option B)) → List A → Result (List B)
collect f [] = ok []
collect f (x ∷ xs) = do found ← f x; rest ← collect f xs; ok (with_found found rest)

abbrev hex_digits : List Char
hex_digits =
    "0" ∷ "1" ∷ "2" ∷ "3" ∷ "4" ∷ "5" ∷ "6" ∷ "7" ∷ "8" ∷ "9" ∷ "a" ∷ "b" ∷ "c" ∷ "d" ∷ "e" ∷ "f"
    ∷ []

abbrev pub hex_digit : ℕ → Char
hex_digit n = elim (get_elem? hex_digits n) [ none ↦ "0" | some c ↦ c ]

-- `toHex`
unfoldable pub to_hex : Bytes → String
to_hex [] = ""
to_hex (b ∷ bs) = String.◌∷◌ (hex_digit (b / 16)) (String.◌∷◌ (hex_digit (b % 16)) (to_hex bs))

-- `innerInstructions?.find((group) => group.index === index)`
unfoldable pub find_group :
    {Key : Type 0} → ℕ → List (InnerInstructions Key) → Option (List (Instruction Key))
find_group index [] = none
find_group index (group ∷ groups) =
    let rest = find_group index groups in
    if group.index == index then some group.instructions else rest

abbrev pub inner_of : {Key : Type 0} → Meta Key → ℕ → Option (List (Instruction Key))
inner_of meta index = elim meta.inner_instructions [
  | none ↦ none
  | some groups ↦ find_group index groups
]

-- The tests that come first: the transaction succeeded, carries the signature and has a time.
unfoldable pub check_transaction :
    {Key : Type 0} → ParsedTransaction Key → String → Result (Meta Key × ℤ)
check_transaction transaction signature = do
  meta ← or_throw transaction.meta (ledger LedgerErrorCode.tx_failed)
  throw_if meta.failed (ledger LedgerErrorCode.tx_failed)
  throw_if (not (has transaction.signatures signature)) (ledger LedgerErrorCode.tx_signature)
  time ← or_throw transaction.block_time (ledger LedgerErrorCode.block_time_missing)
  ok (meta, time)

module _ (w : Solana) where
  open w use {PublicKey, equals, to_base58, system_program, token_program_id}

  -- `accounts[i]`, on which a method is called.
  abbrev pub key_at : List PublicKey → ℕ → Result PublicKey
  key_at accounts i = or_throw (get_elem? accounts i) runtime

  -- `accounts.slice(from, from + count).map((key) => key.toBase58())`
  abbrev pub names : List PublicKey → ℕ → ℕ → List String
  names accounts from count = map to_base58 (take count (drop from accounts))

  unfoldable pub observe_program_settlement :
      ParsedTransaction PublicKey → String → PublicKey → Result ProgramSettlementObservation
  observe_program_settlement transaction signature program = do
    (meta, time) ← check_transaction transaction signature
    settlement ← find_settlement_instruction w transaction program
    let accounts = settlement.instruction.accounts
    decoded ← decode_settle_n_data w settlement.instruction.text
    let count = length decoded.bps
    throw_if (not (length accounts == count + 5)) bad_layout
    payer ← key_at accounts 0
    authority ← key_at accounts 1
    namespace ← key_at accounts 2
    record_key ← key_at accounts (3 + count)
    system ← key_at accounts (4 + count)
    (derived, _) ← find_settlement_record_pda w program namespace decoded.event_seed
    throw_if (not (equals record_key derived) || not (equals system system_program)) bad_layout
    memo ← extract_memo w transaction
    inner ← or_throw (inner_of meta settlement.index) bad_transfer
    transfers ← collect parse_system_transfer inner
    ok (record {
      signature = signature;
      slot = transaction.slot;
      block_time = time;
      program_id = to_base58 program;
      payer = to_base58 payer;
      authority = to_base58 authority;
      namespace = to_base58 namespace;
      settlement_record = to_base58 record_key;
      event_seed_hex = to_hex decoded.event_seed;
      amount_on_chain = decoded.amount;
      bps = decoded.bps;
      recipients = names accounts 3 count;
      transfers = transfers;
      memo = memo;
    })

  unfoldable pub parse_token_transfer :
      Instruction PublicKey → Result (Option ObservedTokenTransfer)
  parse_token_transfer (raw i) = do
    throw_if (equals i.program_id token_program_id) bad_transfer
    ok none
  parse_token_transfer (parsed _ program content) =
      let transfer = read_token_transfer (property content "info") in
      if not (program === "spl-token")
      then ok none
      else if not (is_record content) || not (is_text (property content "type") "transferChecked")
      then err bad_transfer
      else transfer

  unfoldable pub observe_program_token_settlement :
      ParsedTransaction PublicKey → String → PublicKey → Result ProgramTokenSettlementObservation
  observe_program_token_settlement transaction signature program = do
    (meta, time) ← check_transaction transaction signature
    settlement ← find_settlement_instruction w transaction program
    let accounts = settlement.instruction.accounts
    decoded ← decode_settle_token_n_data w settlement.instruction.text
    let count = length decoded.bps
    throw_if (not (length accounts == count + 8)) bad_layout
    payer ← key_at accounts 0
    authority ← key_at accounts 1
    namespace ← key_at accounts 2
    source ← key_at accounts 3
    mint ← key_at accounts (4 + count)
    record_key ← key_at accounts (5 + count)
    system ← key_at accounts (6 + count)
    token_program ← key_at accounts (7 + count)
    (derived, _) ← find_settlement_record_pda w program namespace decoded.event_seed
    throw_if
        (not (equals record_key derived)
          || not (equals system system_program)
          || not (equals token_program token_program_id))
        bad_layout
    inner ← or_throw (inner_of meta settlement.index) bad_transfer
    transfers ← collect parse_token_transfer inner
    memo ← extract_memo w transaction
    ok (record {
      signature = signature;
      slot = transaction.slot;
      block_time = time;
      program_id = to_base58 program;
      payer = to_base58 payer;
      authority = to_base58 authority;
      namespace = to_base58 namespace;
      source_token_account = to_base58 source;
      recipient_token_accounts = names accounts 4 count;
      mint = to_base58 mint;
      settlement_record = to_base58 record_key;
      event_seed_hex = to_hex decoded.event_seed;
      amount_on_chain = decoded.amount;
      decimals = decoded.decimals;
      bps = decoded.bps;
      transfers = transfers;
      memo = memo;
    })
