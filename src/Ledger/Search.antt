-- ===== src/Ledger/Search.antt =====
-- sdk/typescript/src/ledger.ts: the search through a record's history for the one transaction that
-- settled its event.
use synxed_solana_protocol.Base.{
  ℕ, zero, suc, ◌+◌, ◌-◌, Bool, true, false, ◌&&◌, ◌||◌, Option, none, some, List, [], ◌∷◌, ◌++◌,
  length, get_elem?, take, drop, ltb, leb, if◌then◌else◌,
}
use synxed_solana_protocol.Base.Int.{pos}
use synxed_solana_protocol.Base.Text.{String}
use synxed_solana_protocol.Types.{Result, ok, err, ◌>>=◌, or_throw, runtime, JsNumber, int}
use synxed_solana_protocol.Bytes.{Bytes}
use synxed_solana_protocol.Solana.{Solana}
use synxed_solana_protocol.Instruction.Encode.{
  settle_n_tag, settle_token_n_tag, event_id_seed, find_settlement_record_pda,
  find_legacy_settlement_record_pda,
}
use synxed_solana_protocol.Instruction.Build.{some_equals}
use synxed_solana_protocol.Ledger.Decode.{decode_data, has_event_seed}
use Prim.Native.Nat.{min}
use mathlib.Core.Option
use synxed_solana_protocol.Ledger.Reconcile.{given}
use synxed_solana_protocol.Ledger.Evidence.{
  Instruction, raw, parsed, InnerInstructions, ParsedTransaction,
}
use synxed_solana_protocol.Ledger.History.{
  SettlementTransaction, History, bad_history, SettlesEvent, any, Found, get, answered,
  fetch_finalized, succeeded, has_failed, last_signature, positive_safe, is_first, is_retired,
  with_more,
}

module _ (w : Solana) where
  open w use {PublicKey, equals}

  abbrev pub matches : PublicKey → SettlesEvent PublicKey → Instruction PublicKey → Bool
  matches program settles (raw i) = equals i.program_id program && settles i (decode_data w i.text)
  matches program settles (parsed _ _ _) = false

  -- The instructions that other programs invoked.
  abbrev pub inner_groups : ParsedTransaction PublicKey → List (InnerInstructions PublicKey)
  inner_groups transaction = elim transaction.meta [
    | none ↦ []
    | some meta ↦ answered meta.inner_instructions
  ]

  -- Whether the settling instruction stands at the top level; none where there is none.
  unfoldable pub settlement_in :
      ParsedTransaction PublicKey → PublicKey → SettlesEvent PublicKey → Option Bool
  settlement_in transaction program settles =
      if any (matches program settles) transaction.instructions
      then some true
      else if any
          (λ (g : InnerInstructions PublicKey). any (matches program settles) g.instructions)
          (inner_groups transaction)
      then some false
      else none

  -- The successful transactions of a batch that settle the event.
  unfoldable pub matches_of :
      PublicKey
      → SettlesEvent PublicKey
      → Found PublicKey
      → List String
      → Result (List SettlementTransaction)
  matches_of program settles found [] = ok []
  matches_of program settles found (signature ∷ signatures) = do
    transaction ← or_throw (get found signature) bad_history
    rest ← matches_of program settles found signatures
    ok (
        if has_failed transaction then rest else elim (settlement_in transaction program settles) [
          | none ↦ rest
          | some top_level ↦
              record { signature = signature; slot = transaction.slot; top_level = top_level }
              ∷ rest
        ])

  -- A page's transactions, fetched 100 at a time; as much fuel as signatures is enough.
  unfoldable pub read_batches :
      History PublicKey
      → PublicKey
      → SettlesEvent PublicKey
      → ℕ
      → List String
      → Result (List SettlementTransaction)
  read_batches history program settles fuel [] = ok []
  read_batches history program settles zero (s ∷ signatures) = ok []
  read_batches history program settles (suc fuel) (s ∷ signatures) = do
    found ← fetch_finalized history (take 100 (s ∷ signatures))
    matched ← matches_of program settles found (take 100 (s ∷ signatures))
    rest ← read_batches history program settles fuel (drop 100 (s ∷ signatures))
    ok (matched ++ rest)

  -- What follows a page: the history ends, is too long, or goes on.
  unfoldable pub read_pages :
      History PublicKey
      → PublicKey
      → SettlesEvent PublicKey
      → ℕ
      → ℕ
      → ℕ
      → Option String
      → Option (Result (List SettlementTransaction))
  read_pages history program settles max_signatures zero read before = none
  read_pages history program settles max_signatures (suc fuel) read before =
      let limit = min 1000 (max_signatures - read) in
      elim (history.page before limit) [
        | none ↦ some (err runtime)
        | some page ↦
            let matched = read_batches history program settles (length page) (succeeded page) in
            let read' = read + length page in
            let more =
              read_pages history program settles max_signatures fuel read' (last_signature page) in
            if ltb (length page) limit
            then some matched
            else if leb max_signatures read'
            then some (matched >>= λ _. err bad_history)
            else with_more matched more
      ]

  abbrev pub the_match : List SettlementTransaction → Result SettlementTransaction
  the_match (found ∷ []) = ok found
  the_match _ = err bad_history

  -- None where the fuel ran out.
  unfoldable pub find_creating_transaction :
      History PublicKey
      → PublicKey
      → Option JsNumber
      → SettlesEvent PublicKey
      → Option (Result SettlementTransaction)
  find_creating_transaction history program max_signatures settles =
      elim (positive_safe (given max_signatures (int (pos 5000)))) [
        | none ↦ some (err bad_history)
        | some max ↦
            Option.map (λ r. r >>= the_match)
              (read_pages history program settles max (suc max) 0 none)
      ]

  -- `accounts.length > 2 && accounts[2].equals(key)`
  abbrev pub is_key : Option PublicKey → PublicKey → Bool
  is_key none key = false
  is_key (some a) key = equals a key

  abbrev pub settles_in : PublicKey → Bytes → SettlesEvent PublicKey
  settles_in namespace event_seed i bytes =
      (is_first bytes settle_n_tag || is_first bytes settle_token_n_tag)
      && is_key (get_elem? i.accounts 2) namespace
      && has_event_seed bytes event_seed

  abbrev pub settles_legacy : PublicKey → Bytes → SettlesEvent PublicKey
  settles_legacy record_key event_seed i bytes =
      is_retired bytes && some_equals w i.accounts record_key && has_event_seed bytes event_seed

  -- The record's address and the event's seed.
  abbrev pub record_of_event : PublicKey → PublicKey → String → Result (PublicKey × Bytes)
  record_of_event program namespace event_id = do
    seed ← event_id_seed w event_id
    (record_key, _) ← find_settlement_record_pda w program namespace seed
    ok (record_key, seed)

  abbrev pub legacy_record_of_event : PublicKey → String → Result (PublicKey × Bytes)
  legacy_record_of_event program event_id = do
    seed ← event_id_seed w event_id
    (record_key, _) ← find_legacy_settlement_record_pda w program seed
    ok (record_key, seed)

  -- A connection answers for each record address.
  unfoldable pub find_settlement_transaction :
      (PublicKey → History PublicKey)
      → PublicKey
      → PublicKey
      → String
      → Option JsNumber
      → Option (Result SettlementTransaction)
  find_settlement_transaction connection program namespace event_id max_signatures =
      elim (record_of_event program namespace event_id) [
        | err e ↦ some (err e)
        | ok (record_key, event_seed) ↦
            find_creating_transaction (connection record_key) program max_signatures
              (settles_in namespace event_seed)
      ]

  unfoldable pub find_legacy_settlement_transaction :
      (PublicKey → History PublicKey)
      → PublicKey
      → String
      → Option JsNumber
      → Option (Result SettlementTransaction)
  find_legacy_settlement_transaction connection program event_id max_signatures =
      elim (legacy_record_of_event program event_id) [
        | err e ↦ some (err e)
        | ok (record_key, event_seed) ↦
            find_creating_transaction (connection record_key) program max_signatures
              (settles_legacy record_key event_seed)
      ]
