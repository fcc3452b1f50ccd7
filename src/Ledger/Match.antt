-- ===== src/Ledger/Match.antt =====
-- sdk/typescript/src/ledger.ts: comparing what was asked with what was observed.
use synxed_solana_protocol.Base.{
  ℕ, Bool, true, false, not, ◌&&◌, ◌||◌, List, [], ◌∷◌, if◌then◌else◌,
}
use synxed_solana_protocol.Base.Int.{ℤ, pos, eqb_ℤ}
use synxed_solana_protocol.Base.Text.{String, ◌===◌}
use synxed_solana_protocol.Base.Decimal.{show_ℤ}
use synxed_solana_protocol.Types.{
  JsNumber, int, fraction, Result, ◌>>◌, throw_if, Exception, ledger, LedgerErrorCode,
  SettlementKind, SettlementAsset, SettlementRequestN,
}
use synxed_solana_protocol.Json.{Json, property, is_text, is_number, is_defined}
use Prim.Native.Char.{nul}
use Prim.Native.String.{compare, ◌++◌}
use Prim.Native.Nat.{Ordering}

-- The parts of a key stand apart by U+0000.
abbrev pub part : String → String → String
part s rest = s ++ String.◌∷◌ nul rest

abbrev pub transfer_key : String → String → ℤ → String
transfer_key source destination amount = part source (part destination (show_ℤ amount))

abbrev pub token_transfer_key : String → String → String → ℤ → ℤ → String
token_transfer_key source destination mint amount decimals =
    part source (part destination (part mint (part (show_ℤ amount) (show_ℤ decimals))))

-- `===` of an observed number and a requested one.
abbrev pub same_number : ℕ → JsNumber → Bool
same_number n (int m) = eqb_ℤ (pos n) m
same_number n (fraction _) = false

unfoldable pub same_numbers : List ℕ → List JsNumber → Bool
same_numbers [] [] = true
same_numbers (n ∷ ns) (m ∷ ms) = same_number n m && same_numbers ns ms
same_numbers _ _ = false

unfoldable pub same_strings : List String → List String → Bool
same_strings [] [] = true
same_strings (s ∷ ss) (t ∷ ts) = s === t && same_strings ss ts
same_strings _ _ = false

abbrev pub precedes : String → String → Bool
precedes s t = elim (compare s t) [ Ordering.gt ↦ false | _ ↦ true ]

unfoldable pub insert_sorted : String → List String → List String
insert_sorted s [] = s ∷ []
insert_sorted s (t ∷ ts) =
    let later = t ∷ insert_sorted s ts in if precedes s t then s ∷ t ∷ ts else later

-- `[...values].sort()`, which the package only compares with another sorted list.
unfoldable pub sorted : List String → List String
sorted [] = []
sorted (s ∷ ss) = insert_sorted s (sorted ss)

abbrev pub kind_text : SettlementKind → String
kind_text SettlementKind.audio_ad_impression = "audio_ad_impression"

abbrev pub asset_text : SettlementAsset → String
asset_text SettlementAsset.sol_lamports_standin = "SOL_LAMPORTS_STANDIN"
asset_text SettlementAsset.spl_stablecoin = "SPL_STABLECOIN"
asset_text SettlementAsset.usdc = "USDC"

abbrev pub bad_memo : Exception
bad_memo = ledger LedgerErrorCode.memo_mismatch

-- The memo's property is this text.
abbrev pub says : Json → String → String → Bool
says memo key value = is_text (property memo key) value

-- `(!allowLegacyMemo || memo[key] !== undefined) && memo[key] !== value`
abbrev pub contradicts : Bool → Json → String → String → Bool
contradicts allow_legacy memo key value =
    (not allow_legacy || is_defined (property memo key)) && not (says memo key value)

unfoldable pub assert_memo : Json → SettlementRequestN → ℤ → Bool → Result (Unit {0})
assert_memo memo request total allow_legacy = do
  throw_if
      (not (says memo "protocol" "synxed-settlement")
        || not (says memo "event" request.event_id)
        || not (says memo "kind" (kind_text request.kind))
        || not (says memo "lamports" (show_ℤ total))
        || not (says memo "memo" request.memo))
      bad_memo
  throw_if (contradicts allow_legacy memo "occurredAt" request.occurred_at) bad_memo
  throw_if (contradicts allow_legacy memo "asset" (asset_text request.asset)) bad_memo

-- `mint` is the mint's base58 text.
unfoldable pub assert_token_memo :
    Json → SettlementRequestN → ℤ → String → JsNumber → Result (Unit {0})
assert_token_memo memo request total mint decimals =
    throw_if
      (not (says memo "protocol" "synxed-settlement")
        || not (says memo "event" request.event_id)
        || not (says memo "occurredAt" request.occurred_at)
        || not (says memo "kind" (kind_text request.kind))
        || not (says memo "asset" (asset_text request.asset))
        || not (says memo "tokenAmount" (show_ℤ total))
        || not (says memo "mint" mint)
        || not (is_number (property memo "decimals") decimals)
        || not (says memo "memo" request.memo))
      bad_memo

abbrev pub canonical_role : String → String
canonical_role label = if label === "synxed" then "platform" else label
