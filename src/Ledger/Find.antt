-- ===== src/Ledger/Find.antt =====
-- sdk/typescript/src/ledger.ts: the one settlement instruction of a transaction, and its memo.
use synxed_solana_protocol.Base.{
  ℕ, suc, ◌-◌, Bool, true, false, not, ◌&&◌, ◌||◌, Option, none, some, List, [], ◌∷◌, length,
  get_elem?, ltb, ◌==◌, if◌then◌else◌,
}
use synxed_solana_protocol.Base.Text.{String}
use synxed_solana_protocol.Types.{
  Result, ok, err, ◌>>=◌, ◌>>◌, throw_if, or_throw, Exception, ledger, LedgerErrorCode,
}
use synxed_solana_protocol.Json.{Json, is_record}
use synxed_solana_protocol.Solana.{Solana}
use synxed_solana_protocol.Instruction.Encode.{create_namespace_tag}
use synxed_solana_protocol.Ledger.Decode.{instruction_tag}
use synxed_solana_protocol.Ledger.Evidence.{
  RawInstruction, Instruction, raw, parsed, program_of, ParsedTransaction,
}

-- `{ instruction, index }`
pub record Indexed {ℓ} (A : Type ℓ) : Type ℓ where
  pub index : ℕ
  pub instruction : A

abbrev pub bad_instruction : Exception
bad_instruction = ledger LedgerErrorCode.program_instruction

abbrev pub no_memo : Exception
no_memo = ledger LedgerErrorCode.memo_missing

-- `isPartiallyDecoded`
abbrev pub raw_of : {Key : Type 0} → Instruction Key → Result (RawInstruction Key)
raw_of (raw r) = ok r
raw_of (parsed _ _ _) = err bad_instruction

-- `isParsedInstruction`
abbrev pub parsed_of : {Key : Type 0} → Instruction Key → Result Json
parsed_of (raw _) = err no_memo
parsed_of (parsed _ _ content) = ok content

abbrev pub is_tag : Option ℕ → Bool
is_tag none = false
is_tag (some tag) = tag == create_namespace_tag

module _ (w : Solana) where
  open w use {PublicKey, equals, memo_program_id, parse_json}

  -- The instructions of a program with their positions; `i` is the first position.
  unfoldable pub from_program :
      PublicKey → ℕ → List (Instruction PublicKey) → List (Indexed (Instruction PublicKey))
  from_program program i [] = []
  from_program program i (x ∷ xs) =
      let rest = from_program program (suc i) xs in
      if equals (program_of x) program then record { index = i; instruction = x } ∷ rest else rest

  -- Every instruction must be raw.
  unfoldable pub all_raw :
      List (Indexed (Instruction PublicKey)) → Result (List (Indexed (RawInstruction PublicKey)))
  all_raw [] = ok []
  all_raw (x ∷ xs) = do
    r ← raw_of x.instruction
    rest ← all_raw xs
    ok (record { index = x.index; instruction = r } ∷ rest)

  abbrev pub is_create_namespace : Indexed (RawInstruction PublicKey) → Bool
  is_create_namespace x = is_tag (instruction_tag w x.instruction.text)

  -- The instructions that are no `CreateNamespace`.
  unfoldable pub settlements_of :
      List (Indexed (RawInstruction PublicKey)) → List (Indexed (RawInstruction PublicKey))
  settlements_of [] = []
  settlements_of (x ∷ xs) =
      let rest = settlements_of xs in if is_create_namespace x then rest else x ∷ rest

  -- `namespace === undefined || !accounts[2].equals(namespace)`, for four accounts.
  abbrev pub other_namespace : Option PublicKey → Option PublicKey → Bool
  other_namespace (some a) (some b) = not (equals a b)
  other_namespace _ _ = true

  -- What stands beside the settlement must be a `CreateNamespace` of its namespace.
  unfoldable pub check_beside :
      Indexed (RawInstruction PublicKey)
      → List (Indexed (RawInstruction PublicKey))
      → Result (Unit {0})
  check_beside settlement [] = ok tt
  check_beside settlement (x ∷ xs) = do
    throw_if
        (not (x.index == settlement.index)
          && (not (length x.instruction.accounts == 4)
              || other_namespace (get_elem? x.instruction.accounts 2)
                  (get_elem? settlement.instruction.accounts 2)))
        bad_instruction
    check_beside settlement xs

  unfoldable pub the_settlement :
      List (Indexed (RawInstruction PublicKey)) → Result (Indexed (RawInstruction PublicKey))
  the_settlement (settlement ∷ []) = ok settlement
  the_settlement _ = err bad_instruction

  unfoldable pub find_settlement_instruction :
      ParsedTransaction PublicKey → PublicKey → Result (Indexed (RawInstruction PublicKey))
  find_settlement_instruction transaction program = do
    raws ← all_raw (from_program program 0 transaction.instructions)
    let settlements = settlements_of raws
    throw_if (ltb 1 (length raws - length settlements)) bad_instruction
    settlement ← the_settlement settlements
    check_beside settlement raws
    ok settlement

  -- `memos.length !== 1 || !isParsedInstruction(memos[0])`
  abbrev pub the_memo : List (Indexed (Instruction PublicKey)) → Result Json
  the_memo (x ∷ []) = parsed_of x.instruction
  the_memo _ = err no_memo

  abbrev pub memo_text : Json → Result String
  memo_text (Json.text s) = ok s
  memo_text _ = err no_memo

  unfoldable pub extract_memo : ParsedTransaction PublicKey → Result Json
  extract_memo transaction = do
    content ← the_memo (from_program memo_program_id 0 transaction.instructions)
    s ← memo_text content
    value ← or_throw (parse_json s) no_memo
    throw_if (not (is_record value)) no_memo
    ok value
