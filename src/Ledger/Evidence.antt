-- ===== src/Ledger/Evidence.antt =====
-- sdk/typescript/src/ledger.ts: the RPC's transactions, and what is kept of them.
use synxed_solana_protocol.Base.{ℕ, Bool, Option, List}
use synxed_solana_protocol.Base.Int.{ℤ}
use synxed_solana_protocol.Base.Text.{String}
use synxed_solana_protocol.Json.{Json}
use synxed_solana_protocol.Types.{JsNumber, SettlementAsset}

-- A `PartiallyDecodedInstruction`: its `data` is base58 text.
pub record RawInstruction (Key : Type 0) : Type 0 where
  pub program_id : Key
  pub accounts : List Key
  pub text : String

-- `ParsedInstruction | PartiallyDecodedInstruction`
pub data Instruction (Key : Type 0) : Type 0 where
  raw : RawInstruction Key → Instruction Key
  parsed : Key → String → Json → Instruction Key

abbrev pub program_of : {Key : Type 0} → Instruction Key → Key
program_of (raw i) = i.program_id
program_of (parsed program_id _ _) = program_id

pub record InnerInstructions (Key : Type 0) : Type 0 where
  pub index : ℕ
  pub instructions : List (Instruction Key)

-- `failed` tells that `err` is not null.
pub record Meta (Key : Type 0) : Type 0 where
  pub failed : Bool
  pub inner_instructions : Option (List (InnerInstructions Key))

-- `ParsedTransactionWithMeta`
pub record ParsedTransaction (Key : Type 0) : Type 0 where
  pub meta : Option (Meta Key)
  pub signatures : List String
  pub instructions : List (Instruction Key)
  pub slot : ℕ
  pub block_time : Option ℤ

-- `amount_on_chain` is not negative.
pub record ObservedTransfer : Type 0 where
  pub source : String
  pub destination : String
  pub amount_on_chain : ℕ

pub record ObservedTokenTransfer : Type 0 where
  pub source : String
  pub destination : String
  pub mint : String
  pub amount_on_chain : ℕ
  pub decimals : ℤ

pub record ProgramSettlementObservation : Type 0 where
  pub signature : String
  pub slot : ℕ
  pub block_time : ℤ
  pub program_id : String
  pub payer : String
  pub authority : String
  pub namespace : String
  pub settlement_record : String
  pub event_seed_hex : String
  pub amount_on_chain : ℕ
  pub bps : List ℕ
  pub recipients : List String
  pub transfers : List ObservedTransfer
  pub memo : Json

pub record ProgramTokenSettlementObservation : Type 0 where
  pub signature : String
  pub slot : ℕ
  pub block_time : ℤ
  pub program_id : String
  pub payer : String
  pub authority : String
  pub namespace : String
  pub source_token_account : String
  pub recipient_token_accounts : List String
  pub mint : String
  pub settlement_record : String
  pub event_seed_hex : String
  pub amount_on_chain : ℕ
  pub decimals : ℕ
  pub bps : List ℕ
  pub transfers : List ObservedTokenTransfer
  pub memo : Json

pub data LedgerCluster : Type 0 where
  devnet mainnet_beta : LedgerCluster

pub data LedgerEntryState : Type 0 where
  accrued claimable paid : LedgerEntryState

pub record PayoutLine : Type 0 where
  pub role : String
  pub recipient : String
  pub bps : JsNumber
  pub amount_on_chain : String
  pub beneficiary_id : Option String
  pub destination_account : String

pub record LedgerEntry : Type 0 where
  pub entry_id : String
  pub beneficiary_id : String
  pub wallet : Option String
  pub role : String
  pub pool : Option String
  pub amount_on_chain : String
  pub source_signature : String
  pub state : LedgerEntryState
  pub paid_signature : Option String

pub data SettlementMode : Type 0 where
  program program_token system_transfer : SettlementMode

-- `schemaVersion` is always 2.
pub record SettlementRecord : Type 0 where
  pub event_id : String
  pub signature : String
  pub slot : ℕ
  pub cluster : LedgerCluster
  pub program_id : String
  pub namespace : String
  pub authority : String
  pub payer : String
  pub settlement_record : String
  pub mode : SettlementMode
  pub asset : SettlementAsset
  pub mint : Option String
  pub decimals : Option JsNumber
  pub amount_atomic : String
  pub units_per_atomic_unit : String
  pub payouts : List PayoutLine
  pub occurred_at : String
  pub settled_at : String

pub record SettlementReconciliation : Type 0 where
  pub settlement : SettlementRecord
  pub direct_entries : List LedgerEntry
  pub pool_payouts : List PayoutLine
