-- ===== src/Studio/Worker/Network.antt =====
-- examples/studio-backend/src/worker.ts: the worker's options, and what it asks of its two connections,
-- its keys, the clock and its hooks.
use synxed_solana_protocol.Base.{ℕ, Bool, Option, List}
use synxed_solana_protocol.Base.Int.{ℤ}
use synxed_solana_protocol.Base.Text.{String}
use synxed_solana_protocol.Types.{Result, Exception, SettlementRequestN}
use synxed_solana_protocol.Instruction.Build.{TransactionInstruction}
use synxed_solana_protocol.Ledger.Evidence.{LedgerCluster}
use synxed_solana_protocol.Ledger.History.{History}
use synxed_solana_protocol.Ledger.Poll.{Watch, Timing}
use synxed_solana_protocol.Client.Library.{Account}
use synxed_solana_protocol.Studio.Store.{AttemptParams}

pub data Outcome : Type 0 where
  paid waiting retry failed incident unresolved needs_attention : Outcome

-- `connection` and `secondConnection`.
pub data Provider : Type 0 where
  primary second : Provider

-- The public halves of the keys; `max_attempts` is that of the options.
pub record WorkerOptions (Key : Type 0) : Type 0 where
  pub has_second : Bool
  pub payer : Key
  pub authority : Option Key
  pub program_id : Key
  pub namespace : Key
  pub lamports_per_atomic_unit : ℤ
  pub cluster : Option LedgerCluster
  pub max_attempts : Option ℕ
  pub timing : Timing

-- How far the cluster confirms a signature, and the JSON text of the error it landed with.
pub data Confirmation : Type 0 where
  finalized confirmed less : Confirmation

pub record SignatureStatus : Type 0 where
  pub confirmation : Confirmation
  pub error : Option String

-- What comes of sending: sent, refused by the simulation for a reason, or another error.
pub data Sent : Type 0 where
  accepted : Sent
  refused : String → Sent
  unknown : Exception → Sent

pub record Network (Key : Type 0) : Type 1 where
  pub World : Type 0
  pub latest_blockhash : World → Result (String × ℕ) × World
  pub account : Provider → Key → World → Result (Option (Account Key)) × World
  -- The answers to one search of the records' histories, and to one reconciliation of a signature.
  pub history : World → (Key → History Key) × World
  pub watch : Provider → String → World → Watch Key × World
  pub signature_status : String → World → Result (Option SignatureStatus) × World
  pub block_height : World → Result ℕ × World
  pub send : String → World → Sent × World
  -- Sending again without preflight, whose error is ignored.
  pub resend : String → World → Unit {0} × World
  pub before_send : String → String → World → Result (Unit {0}) × World
  -- How often an event is resolved again before the deadline.
  pub rounds : World → ℕ × World
  -- Signing instructions with a blockhash: the signature's text and the transaction's.
  pub sign : List (TransactionInstruction Key) → String → Result (String × String)
  -- `String(error)`, and the key of a stored request.
  pub error_text : Exception → String
  pub request_key : SettlementRequestN → AttemptParams → String
