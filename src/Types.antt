-- ===== src/Types.antt =====
-- sdk/typescript/src/types.ts: the constants, the requests and results, the error codes. Also what
-- a call of the package does, which returns a value or throws, and JavaScript's numbers.
use synxed_solana_protocol.Base.{
  ℕ, ◌≡◌, ◌⊎◌, inl, inr, refl, Bool, true, false, Option, none, some, List,
}
use synxed_solana_protocol.Base.Int.{ℤ}
use synxed_solana_protocol.Base.Text.{String}

abbrev pub bps_denominator : ℕ
bps_denominator = 10000

abbrev pub max_shares : ℕ
max_shares = 8

-- A `number`: an integer, or a value that `Number.isInteger` refuses, with its integral part (0 for
-- NaN and the infinities).
pub data JsNumber : Type 0 where
  int : ℤ → JsNumber
  fraction : ℤ → JsNumber

pub data SettlementRole : Type 0 where
  artist studio synxed : SettlementRole

pub data SettlementKind : Type 0 where
  audio_ad_impression : SettlementKind

pub data SettlementAsset : Type 0 where
  sol_lamports_standin spl_stablecoin usdc : SettlementAsset

pub record SplitShare : Type 0 where
  pub role : SettlementRole
  pub recipient : String
  pub bps : JsNumber

-- The three-way request holds a tuple of three shares.
pub record SettlementRequest : Type 0 where
  pub event_id : String
  pub occurred_at : String
  pub kind : SettlementKind
  pub amount_atomic : ℤ
  pub asset : SettlementAsset
  pub splits : SplitShare × SplitShare × SplitShare
  pub memo : String

pub record ComputedPayout : Type 0 where
  pub role : SettlementRole
  pub recipient : String
  pub bps : JsNumber
  pub amount_atomic : ℤ

pub record SplitResult : Type 0 where
  pub request : SettlementRequest
  pub payouts : ComputedPayout × ComputedPayout × ComputedPayout
  pub total_atomic : ℤ

pub record ShareInput : Type 0 where
  pub label : String
  pub recipient : String
  pub bps : JsNumber

pub record SettlementRequestN : Type 0 where
  pub event_id : String
  pub occurred_at : String
  pub kind : SettlementKind
  pub amount_atomic : ℤ
  pub asset : SettlementAsset
  pub shares : List ShareInput
  pub memo : String

pub record ComputedPayoutN : Type 0 where
  pub label : String
  pub recipient : String
  pub bps : JsNumber
  pub amount_atomic : ℤ

pub record SplitResultN : Type 0 where
  pub request : SettlementRequestN
  pub payouts : List ComputedPayoutN
  pub total_atomic : ℤ

pub data ProtocolErrorCode : Type 0 where
  bps_sum bps_range bps_integer zero_amount role_mismatch share_count : ProtocolErrorCode
  label_empty label_duplicate recipient_count event_id_empty seed_length : ProtocolErrorCode
  amount_u64 scale_range recipient_pubkey recipient_is_record : ProtocolErrorCode
  recipient_is_namespace namespace_id namespace_account namespace_authority : ProtocolErrorCode
  namespace_required namespace_missing program_id_required namespace_address : ProtocolErrorCode
  legacy_record settlement_record token_decimals token_program : ProtocolErrorCode
  token_source_recipient token_asset transaction_too_large asset_mode : ProtocolErrorCode

-- `LedgerErrorCode` of sdk/typescript/src/ledger.ts.
pub data LedgerErrorCode : Type 0 where
  tx_not_found tx_failed tx_signature cluster_mismatch namespace_mismatch : LedgerErrorCode
  block_time_missing program_instruction instruction_data account_layout : LedgerErrorCode
  memo_missing memo_mismatch asset_mismatch event_mismatch amount_mismatch : LedgerErrorCode
  shares_mismatch recipient_mismatch transfer_mismatch scale_range : LedgerErrorCode
  pool_allocation record_history : LedgerErrorCode

-- What is thrown, without its message: a `ProtocolError`, a `LedgerError`, or an error of the
-- runtime or a library.
pub data Exception : Type 0 where
  protocol : ProtocolErrorCode → Exception
  ledger : LedgerErrorCode → Exception
  runtime : Exception

pub data Result {ℓ} (A : Type ℓ) : Type ℓ where
  ok : A → Result A
  err : Exception → Result A

-- `if (test) throw`
abbrev pub throw_if : Bool → Exception → Result (Unit {0})
throw_if true e = err e
throw_if false e = ok tt

-- The value of a library's call, or the error that is thrown where it has none.
abbrev pub or_throw {ℓ} : {A : Type ℓ} → Option A → Exception → Result A
or_throw none e = err e
or_throw (some a) e = ok a

-- The rest of a body runs only where its first step returned.
infixl 5 ◌>>=◌ ◌>>◌
abbrev pub ◌>>=◌ {ℓ κ} :
    {Given : Type ℓ} {Next : Type κ} → Result Given → (Given → Result Next) → Result Next
err x >>= rest = err x
ok given >>= rest = rest given

abbrev pub ◌>>◌ {κ} : {Next : Type κ} → Result (Unit {0}) → Result Next → Result Next
step >> rest = step >>= (λ (u : Unit {0}). rest)

pub Result-cases {ℓ} :
    {A : Type ℓ} (r : Result A) → ((a : A) × (r ≡ ok a)) ⊎ ((e : Exception) × (r ≡ err e))
Result-cases (ok a) = inl (a, refl)
Result-cases (err e) = inr (e, refl)

-- Where two steps return, each did.
pub >>=-eq-ok {ℓ κ} :
    {Given : Type ℓ} {Next : Type κ} (step : Result Given) (rest : Given → Result Next)
    {last : Next}
    → (step >>= rest) ≡ ok last
    → (given : Given) × (step ≡ ok given) × (rest given ≡ ok last)
>>=-eq-ok (err x) rest e = cc
>>=-eq-ok (ok given) rest e = (given, refl, e)

pub throw_if-eq-ok : (b : Bool) (e : Exception) {u : Unit} → throw_if b e ≡ ok u → b ≡ false
throw_if-eq-ok true e h = cc
throw_if-eq-ok false e h = refl
