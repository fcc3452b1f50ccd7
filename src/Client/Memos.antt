-- ===== src/Client/Memos.antt =====
-- The memos that the client writes are those that the ledger accepts.
use synxed_solana_protocol.Base.{◌≡◌, refl, Bool, true, false, some, [], ◌∷◌}
use synxed_solana_protocol.Base.Int.{ℤ, eqb_ℤ, eqb_ℤ_iff}
use synxed_solana_protocol.Base.Text.{String}
use synxed_solana_protocol.Base.Decimal.{show_ℤ}
use synxed_solana_protocol.Types.{int, ok, SettlementRequestN}
use synxed_solana_protocol.Json.{Json, is_record}
use synxed_solana_protocol.Solana.{Solana}
use synxed_solana_protocol.Ledger.Evidence.{Instruction, ParsedTransaction}
use synxed_solana_protocol.Ledger.Find.{Indexed, from_program, extract_memo, parsed_of}
use synxed_solana_protocol.Ledger.Match.{assert_memo, assert_token_memo, kind_text, asset_text}
use synxed_solana_protocol.Client.Library.{Library}
use synxed_solana_protocol.Client.Prepare.{memo_json}
use synxed_solana_protocol.Client.TokenPrepare.{token_memo_json}
use synxed_solana_protocol.Studio.Store.Rows.{===_refl}

eqb_ℤ_refl : (n : ℤ) → eqb_ℤ n n ≡ true
eqb_ℤ_refl n = (eqb_ℤ_iff n n).1 refl

-- Each comparison of a text with itself holds.
assert_memo-memo_json :
    (request : SettlementRequestN) (total : ℤ) (allow : Bool)
    → assert_memo (memo_json request total) request total allow ≡ ok tt
unfolding assert_memo
assert_memo-memo_json request total true =
    rw
      (
        ===_refl request.event_id,
        ===_refl (kind_text request.kind),
        ===_refl (show_ℤ total),
        ===_refl request.memo,
        ===_refl request.occurred_at,
        ===_refl (asset_text request.asset),
      )
      refl
assert_memo-memo_json request total false =
    rw
      (
        ===_refl request.event_id,
        ===_refl (kind_text request.kind),
        ===_refl (show_ℤ total),
        ===_refl request.memo,
        ===_refl request.occurred_at,
        ===_refl (asset_text request.asset),
      )
      refl

assert_token_memo-token_memo_json :
    (request : SettlementRequestN) (total : ℤ) (mint : String) (decimals : ℤ)
    → assert_token_memo
        (token_memo_json request total mint (int decimals))
        request
        total
        mint
        (int decimals)
      ≡ ok tt
unfolding assert_token_memo
assert_token_memo-token_memo_json request total mint decimals =
    rw
      (
        ===_refl request.event_id,
        ===_refl request.occurred_at,
        ===_refl (kind_text request.kind),
        ===_refl (asset_text request.asset),
        ===_refl (show_ℤ total),
        ===_refl mint,
        eqb_ℤ_refl decimals,
        ===_refl request.memo,
      )
      refl

module _ (w : Solana) (l : Library w.PublicKey) where
  open w use {PublicKey, memo_program_id, parse_json}
  open l use {stringify}

  extract_memo-parsed :
      (transaction : ParsedTransaction PublicKey) (memo : Indexed (Instruction PublicKey))
      (value : Json) {text : String}
      → from_program w memo_program_id 0 transaction.instructions ≡ memo ∷ []
      → parsed_of memo.instruction ≡ ok (Json.text text)
      → parse_json text ≡ some value
      → is_record value ≡ true
      → extract_memo w transaction ≡ ok value
  unfolding extract_memo
  extract_memo-parsed transaction memo value alone holds back object =
      rw (alone, holds, back, object) refl

  -- Of a transaction in which one instruction alone is the memo program's, and holds the text of
  -- the client's memo, whose JSON reads back: the ledger extracts that memo and accepts it for the
  -- request and total that it was written for, whether legacy memos are allowed or not.
  pub assert_memo-extract_memo :
      (transaction : ParsedTransaction PublicKey) (memo : Indexed (Instruction PublicKey))
      (request : SettlementRequestN) (total : ℤ) (allow : Bool)
      → from_program w memo_program_id 0 transaction.instructions ≡ memo ∷ []
      → parsed_of memo.instruction ≡ ok (Json.text (stringify (memo_json request total)))
      → parse_json (stringify (memo_json request total)) ≡ some (memo_json request total)
      → (value : Json) × (extract_memo w transaction ≡ ok value)
        × (assert_memo value request total allow ≡ ok tt)
  assert_memo-extract_memo transaction memo request total allow alone holds back = (
    memo_json request total,
    extract_memo-parsed transaction memo (memo_json request total) alone holds back refl,
    assert_memo-memo_json request total allow,
  )

  -- Of a transaction in which one instruction alone is the memo program's, and holds the text of
  -- the client's token memo for a whole number of decimals, whose JSON reads back: the ledger
  -- extracts that memo and accepts it for the request, total, mint and decimals it was written for.
  pub assert_token_memo-extract_memo :
      (transaction : ParsedTransaction PublicKey) (memo : Indexed (Instruction PublicKey))
      (request : SettlementRequestN) (total : ℤ) (mint : String) (decimals : ℤ)
      → from_program w memo_program_id 0 transaction.instructions ≡ memo ∷ []
      → parsed_of memo.instruction
        ≡ ok (Json.text (stringify (token_memo_json request total mint (int decimals))))
      → parse_json (stringify (token_memo_json request total mint (int decimals)))
        ≡ some (token_memo_json request total mint (int decimals))
      → (value : Json) × (extract_memo w transaction ≡ ok value)
        × (assert_token_memo value request total mint (int decimals) ≡ ok tt)
  assert_token_memo-extract_memo transaction memo request total mint decimals alone holds back = (
    token_memo_json request total mint (int decimals),
    extract_memo-parsed transaction memo _ alone holds back refl,
    assert_token_memo-token_memo_json request total mint decimals,
  )
