-- ===== src/Client/Prepare.antt =====
-- sdk/typescript/src/client.ts: a native settlement's transaction. A `Transaction` is the list of its
-- instructions; an option left out is none.
use synxed_solana_protocol.Base.{
  Bool, true, false, not, ◌&&◌, ◌||◌, Option, none, some, List, [], ◌∷◌, ◌++◌, if◌then◌else◌,
}
use synxed_solana_protocol.Base.Int.{ℤ, pos, ◌*ℤ◌, leb_ℤ, ltb_ℤ}
use synxed_solana_protocol.Base.Text.{String}
use synxed_solana_protocol.Base.Decimal.{show_ℤ}
use synxed_solana_protocol.Types.{
  Result, ok, ◌>>=◌, ◌>>◌, throw_if, or_throw, protocol, ProtocolErrorCode, SettlementAsset,
  SettlementRequestN, ShareInput,
}
use synxed_solana_protocol.Json.{Json, Fields}
use synxed_solana_protocol.Bytes.{Bytes}
use synxed_solana_protocol.Split.{compute_settlement_n, split_amount_atomic_shares, bps_of}
use synxed_solana_protocol.Solana.{Solana}
use synxed_solana_protocol.Instruction.Encode.{event_id_seed, find_namespace_pda, u64_max}
use synxed_solana_protocol.Instruction.Build.{
  TransactionInstruction, build_create_namespace_instruction, build_settle_n_instruction,
  or_default,
}
use synxed_solana_protocol.Ledger.Evidence.{SettlementMode}
use synxed_solana_protocol.Ledger.Match.{kind_text, asset_text}
use synxed_solana_protocol.Ledger.Reconcile.{is_lamports, given}
use synxed_solana_protocol.Client.Library.{Library}

pub record BuildOptions (Key : Type 0) : Type 0 where
  pub payer : Key
  pub request : SettlementRequestN
  pub lamports_per_atomic_unit : Option ℤ
  pub program_id : Option Key
  pub namespace : Option Key
  pub authority : Option Key
  pub create_namespace_id : Option Bytes

pub record Prepared (Key : Type 0) : Type 0 where
  pub instructions : List (TransactionInstruction Key)
  pub mode : SettlementMode
  pub lamports_total : ℤ
  pub lamports_by_share : List ℤ

unfoldable pub assert_native_asset : SettlementAsset → Result (Unit {0})
assert_native_asset asset =
    throw_if (not (is_lamports asset)) (protocol ProtocolErrorCode.asset_mode)

-- `scaledTotal`, and `scaledTokenTotal`, whose messages alone differ.
unfoldable pub scaled_total : ℤ → Option ℤ → Result ℤ
scaled_total amount scale = do
  let factor = given scale (pos 1)
  throw_if (leb_ℤ factor (pos 0)) (protocol ProtocolErrorCode.scale_range)
  throw_if (ltb_ℤ u64_max (amount *ℤ factor)) (protocol ProtocolErrorCode.amount_u64)
  ok (amount *ℤ factor)

abbrev pub is_given {ℓ} : {A : Type ℓ} → Option A → Bool
is_given none = false
is_given (some _) = true

unfoldable pub refuse_program_options_without_program :
    {Key : Type 0} → Option Key → Option Key → Option Key → Option Bytes → Result (Unit {0})
refuse_program_options_without_program program namespace authority create_id =
    throw_if
      (not (is_given program) && (is_given namespace || is_given authority || is_given create_id))
      (protocol ProtocolErrorCode.program_id_required)

abbrev pub require_namespace : {Key : Type 0} → Option Key → Result Key
require_namespace namespace = or_throw namespace (protocol ProtocolErrorCode.namespace_required)

-- The object whose text a native memo holds.
abbrev pub memo_json : SettlementRequestN → ℤ → Json
memo_json request total = Json.object (
    Fields.field "protocol" (Json.text "synxed-settlement") (
      Fields.field "event" (Json.text request.event_id) (
        Fields.field "occurredAt" (Json.text request.occurred_at) (
          Fields.field "kind" (Json.text (kind_text request.kind)) (
            Fields.field "asset" (Json.text (asset_text request.asset)) (
              Fields.field "lamports" (Json.text (show_ℤ total))
                (Fields.field "memo" (Json.text request.memo) Fields.end)))))))

module _ (w : Solana) (l : Library w.PublicKey) where
  open w use {PublicKey, equals, from_base58, memo_program_id, utf8}
  open l use {transfer, stringify}

  unfoldable pub parse_recipient : String → Result PublicKey
  parse_recipient recipient =
      or_throw (from_base58 recipient) (protocol ProtocolErrorCode.recipient_pubkey)

  unfoldable pub parse_recipients : List ShareInput → Result (List PublicKey)
  parse_recipients [] = ok []
  parse_recipients (share ∷ shares) = do
    key ← parse_recipient share.recipient
    keys ← parse_recipients shares
    ok (key ∷ keys)

  abbrev pub memo_of : Json → TransactionInstruction PublicKey
  memo_of value = record { program_id = memo_program_id; keys = []; bytes = utf8 (stringify value) }

  unfoldable pub memo_instruction : SettlementRequestN → ℤ → TransactionInstruction PublicKey
  memo_instruction request total = memo_of (memo_json request total)

  -- Transfers to the recipients, without those of nothing; the amounts are as many.
  unfoldable pub add_transfers :
      PublicKey → List PublicKey → List ℤ → List (TransactionInstruction PublicKey)
  add_transfers from (to ∷ recipients) (amount ∷ amounts) =
      let rest = add_transfers from recipients amounts in
      if ltb_ℤ (pos 0) amount then transfer from to amount ∷ rest else rest
  add_transfers from _ _ = []

  -- The instruction that opens the namespace first, where its id is given.
  unfoldable pub opening : BuildOptions PublicKey → Result (List (TransactionInstruction PublicKey))
  opening options = elim options.create_namespace_id [
    | none ↦ ok []
    | some id ↦ elim options.program_id [
      | none ↦ ok []
      | some program ↦ do
        (derived, _) ← find_namespace_pda w program options.payer id
        namespace ← or_throw options.namespace (protocol ProtocolErrorCode.namespace_address)
        throw_if (not (equals derived namespace)) (protocol ProtocolErrorCode.namespace_address)
        create ←
            build_create_namespace_instruction w
              (record { program_id = program; payer = options.payer; creator = options.payer }) id
              (or_default options.authority options.payer)
        ok (create ∷ [])
    ]
  ]

  unfoldable pub settle_instruction :
      BuildOptions PublicKey
      → PublicKey
      → ℤ
      → List PublicKey
      → Result (TransactionInstruction PublicKey)
  settle_instruction options program total recipients = do
    namespace ← require_namespace options.namespace
    seed ← event_id_seed w options.request.event_id
    build_settle_n_instruction w
        (record {
          program_id = program;
          payer = options.payer;
          authority = or_default options.authority options.payer;
          namespace = namespace;
          recipients = recipients;
        })
        (record { event_seed = seed; amount = total; bps = bps_of options.request.shares })

  -- What stands behind the memo: the transfers, or the program's instruction.
  unfoldable pub payment :
      BuildOptions PublicKey
      → ℤ
      → List ℤ
      → List PublicKey
      → Result (SettlementMode × List (TransactionInstruction PublicKey))
  payment options total amounts recipients = elim options.program_id [
    | none ↦ ok (SettlementMode.system_transfer, add_transfers options.payer recipients amounts)
    | some program ↦ do
      settle ← settle_instruction options program total recipients
      ok (SettlementMode.program, settle ∷ [])
  ]

  unfoldable pub build_settlement_n_transaction :
      BuildOptions PublicKey → Result (Prepared PublicKey)
  build_settlement_n_transaction options = do
    let request = options.request
    assert_native_asset request.asset
    total ← scaled_total request.amount_atomic options.lamports_per_atomic_unit
    _ ← compute_settlement_n request
    amounts ← split_amount_atomic_shares total (bps_of request.shares)
    recipients ← parse_recipients request.shares
    refuse_program_options_without_program options.program_id options.namespace options.authority
        options.create_namespace_id
    first ← opening options
    (mode, paid) ← payment options total amounts recipients
    ok (record {
      instructions = first ++ (memo_instruction request total ∷ paid);
      mode = mode;
      lamports_total = total;
      lamports_by_share = amounts;
    })
