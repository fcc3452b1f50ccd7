-- ===== src/Ledger/Observed.antt =====
-- A transaction that carries a built `SettleN` instruction is observed as what was built.
use synxed_solana_protocol.Base.{
  ℕ, zero, suc, ◌+◌, ◌≡◌, refl, ◌∙◌, ap, sym, Option, some, true, false, List, [], ◌∷◌, ◌++◌, map,
  length, length-map, length-append, get_elem?, arith,
}
use synxed_solana_protocol.Base.Int.{ℤ, pos}
use synxed_solana_protocol.Base.Text.{String}
use synxed_solana_protocol.Types.{int, ok}
use synxed_solana_protocol.Json.{Json}
use Prim.Native.Nat.add
use synxed_solana_protocol.Bytes.Layout.{take-append}
use synxed_solana_protocol.Split.Shares.{numbers}
use synxed_solana_protocol.Solana.{Solana}
use synxed_solana_protocol.Instruction.Encode.{SettleNParams, find_settlement_record_pda}
use synxed_solana_protocol.Instruction.Build.{
  AccountMeta, TransactionInstruction, SettleNAccounts, build_settle_n_instruction, settle_n_keys,
  recipient_meta, meta,
}
use synxed_solana_protocol.Instruction.Accounts.{build_settle_n_instruction-IsBuiltN, IsBuiltN}
use synxed_solana_protocol.Ledger.Evidence.{
  RawInstruction, Instruction, ParsedTransaction, Meta, ObservedTransfer,
  ProgramSettlementObservation,
}
use synxed_solana_protocol.Ledger.Find.{Indexed, find_settlement_instruction, extract_memo}
use synxed_solana_protocol.Ledger.Decode.{decode_settle_n_data, DecodedSettleN}
use synxed_solana_protocol.Ledger.RoundTrip.{decode_settle_n_data-encode_settle_n_data, IsDecodedN}
use synxed_solana_protocol.Ledger.Observe.{
  observe_program_settlement, check_transaction, inner_of, collect, parse_system_transfer, to_hex,
  names,
}

abbrev pub pubkeys : {Key : Type 0} → List (AccountMeta Key) → List Key
pubkeys = map (λ (m : AccountMeta _). m.pubkey)

pub get_elem?-append :
    {A : Type 0} (xs ys : List A) (n k : ℕ)
    → length xs ≡ n
    → get_elem? (xs ++ ys) (n + k) ≡ get_elem? ys k
get_elem?-append [] ys zero k h = ap (get_elem? ys) (add.zero k)
get_elem?-append [] ys (suc n) k h = absurd (omega arith)
get_elem?-append (x ∷ xs) ys zero k h = absurd (omega arith)
get_elem?-append (x ∷ xs) ys (suc n) k h =
    ap (get_elem? (x ∷ (xs ++ ys))) (add.suc n k) ∙ get_elem?-append xs ys n k (omega arith)

module _ (w : Solana) where
  open w use {PublicKey, equals, equals_iff, to_base58, encode_base58, system_program}

  -- The raw form in which the RPC returns an instruction that was sent.
  abbrev pub sent : TransactionInstruction PublicKey → RawInstruction PublicKey
  sent built = record {
    program_id = built.program_id;
    accounts = pubkeys built.keys;
    text = encode_base58 built.bytes;
  }

  pubkeys-recipients :
      (recipients : List PublicKey) (rest : List (AccountMeta PublicKey))
      → pubkeys (map recipient_meta recipients ++ rest) ≡ recipients ++ pubkeys rest
  pubkeys-recipients [] rest = refl
  pubkeys-recipients (r ∷ recipients) rest = ap (◌∷◌ r) (pubkeys-recipients recipients rest)

  abbrev account_list : SettleNAccounts PublicKey → PublicKey → List PublicKey
  account_list accounts key =
      accounts.payer
      ∷ accounts.authority
      ∷ accounts.namespace
      ∷ (accounts.recipients ++ (key ∷ system_program ∷ []))

  pubkeys-settle_n_keys :
      (accounts : SettleNAccounts PublicKey) (key : PublicKey)
      → pubkeys (settle_n_keys w accounts key) ≡ account_list accounts key
  pubkeys-settle_n_keys accounts key =
      ap (λ (l : List PublicKey). accounts.payer ∷ accounts.authority ∷ accounts.namespace ∷ l)
        (pubkeys-recipients accounts.recipients
          (meta key false true ∷ meta system_program false false ∷ []))

  account_at :
      (accounts : SettleNAccounts PublicKey) (key : PublicKey) (n k : ℕ)
      → length accounts.recipients ≡ n
      → get_elem? (account_list accounts key) (3 + n + k) ≡ get_elem? (key ∷ system_program ∷ []) k
  account_at accounts key n k h =
      ap (get_elem? (account_list accounts key))
        (let e : 3 + n + k ≡ suc (suc (suc (n + k))) = omega arith in e)
      ∙ get_elem?-append accounts.recipients (key ∷ system_program ∷ []) n k h

  -- The observation from the answers of each step.
  observe_steps :
      (transaction : ParsedTransaction PublicKey) (signature : String) (program : PublicKey)
      (meta : Meta PublicKey) (time : ℤ) (settlement : Indexed (RawInstruction PublicKey))
      (decoded : DecodedSettleN) (payer authority namespace key : PublicKey) (bump : ℕ)
      (memo : Json) (inner : List (Instruction PublicKey)) (transfers : List ObservedTransfer)
      → check_transaction transaction signature ≡ ok (meta, time)
      → find_settlement_instruction w transaction program ≡ ok settlement
      → decode_settle_n_data w settlement.instruction.text ≡ ok decoded
      → length settlement.instruction.accounts ≡ length decoded.bps + 5
      → get_elem? settlement.instruction.accounts 0 ≡ some payer
      → get_elem? settlement.instruction.accounts 1 ≡ some authority
      → get_elem? settlement.instruction.accounts 2 ≡ some namespace
      → get_elem? settlement.instruction.accounts (3 + length decoded.bps) ≡ some key
      → get_elem? settlement.instruction.accounts (4 + length decoded.bps) ≡ some system_program
      → find_settlement_record_pda w program namespace decoded.event_seed ≡ ok (key, bump)
      → equals key key ≡ true
      → equals system_program system_program ≡ true
      → extract_memo w transaction ≡ ok memo
      → inner_of meta settlement.index ≡ some inner
      → collect parse_system_transfer inner ≡ ok transfers
      → observe_program_settlement w transaction signature program
        ≡ ok (record {
          signature = signature;
          slot = transaction.slot;
          block_time = time;
          program_id = to_base58 program;
          payer = to_base58 payer;
          authority = to_base58 authority;
          namespace = to_base58 namespace;
          settlement_record = to_base58 key;
          event_seed_hex = to_hex decoded.event_seed;
          amount_on_chain = decoded.amount;
          bps = decoded.bps;
          recipients = names w settlement.instruction.accounts 3 (length decoded.bps);
          transfers = transfers;
          memo = memo;
        })
  unfolding observe_program_settlement
  observe_steps transaction signature program meta time settlement decoded payer authority namespace
        key bump memo inner transfers a b c d e f g h i j k l m n o =
      ground arith

  -- An observation of a settlement: the accounts, amount, shares and event of what was built.
  pub record IsObservedAs (accounts : SettleNAccounts PublicKey) (params : SettleNParams)
      (observed : ProgramSettlementObservation) : Type 0 where
    pub program_seen : observed.program_id ≡ to_base58 accounts.program_id
    pub payer_seen : observed.payer ≡ to_base58 accounts.payer
    pub authority_seen : observed.authority ≡ to_base58 accounts.authority
    pub namespace_seen : observed.namespace ≡ to_base58 accounts.namespace
    pub recipients_seen : observed.recipients ≡ map to_base58 accounts.recipients
    pub event_seen : observed.event_seed_hex ≡ to_hex params.event_seed
    pub amount_seen : pos observed.amount_on_chain ≡ params.amount
    pub bps_seen : numbers observed.bps ≡ params.bps

  recipient_names :
      (accounts : SettleNAccounts PublicKey) (key : PublicKey) (n : ℕ)
      → length accounts.recipients ≡ n
      → names w (account_list accounts key) 3 n ≡ map to_base58 accounts.recipients
  recipient_names accounts key n h =
      ap (map to_base58) (take-append accounts.recipients (key ∷ system_program ∷ []) n h)

  module _ (accounts : SettleNAccounts PublicKey) (params : SettleNParams)
      (built : TransactionInstruction PublicKey) (key : PublicKey) (bump : ℕ)
      (is_built : IsBuiltN w accounts params built key bump) (decoded : DecodedSettleN)
      (read : decode_settle_n_data w (encode_base58 built.bytes) ≡ ok decoded)
      (is_decoded : IsDecodedN params decoded) where
    keys_sent : pubkeys built.keys ≡ account_list accounts key
    keys_sent = ap pubkeys is_built.in_order ∙ pubkeys-settle_n_keys accounts key

    recipient_count : length accounts.recipients ≡ length decoded.bps
    recipient_count =
        is_built.counted
        ∙ sym (ap length is_decoded.same_bps)
        ∙ length-map (λ (n : ℕ). int (pos n)) decoded.bps

    key_count : length (pubkeys built.keys) ≡ length decoded.bps + 5
    key_count =
        ap length keys_sent
        ∙ omega
            (arith, recipient_count, length-append accounts.recipients (key ∷ system_program ∷ []))

    sent_at :
        (i : ℕ) {k : Option PublicKey}
        → get_elem? (account_list accounts key) i ≡ k
        → get_elem? (pubkeys built.keys) i ≡ k
    sent_at i e = ap (λ (l : List PublicKey). get_elem? l i) keys_sent ∙ e

    same_pda :
        find_settlement_record_pda w accounts.program_id accounts.namespace decoded.event_seed
        ≡ ok (key, bump)
    same_pda =
        ap (find_settlement_record_pda w accounts.program_id accounts.namespace)
          is_decoded.same_seed
        ∙ is_built.derived

    seen_at :
        (transaction : ParsedTransaction PublicKey) (signature : String) (meta : Meta PublicKey)
        (time : ℤ) (index : ℕ) (memo : Json) (inner : List (Instruction PublicKey))
        (transfers : List ObservedTransfer)
        → check_transaction transaction signature ≡ ok (meta, time)
        → find_settlement_instruction w transaction accounts.program_id
          ≡ ok (record { index = index; instruction = sent built })
        → extract_memo w transaction ≡ ok memo
        → inner_of meta index ≡ some inner
        → collect parse_system_transfer inner ≡ ok transfers
        → (observed : ProgramSettlementObservation) × (observe_program_settlement w transaction
              signature accounts.program_id
            ≡ ok observed)
          × IsObservedAs accounts params observed
    seen_at transaction signature meta time index memo inner transfers c f m i t =
        let n = length decoded.bps in
        let found : Indexed (RawInstruction PublicKey) = record {
          index = index;
          instruction = sent built;
        } in
        (
          _,
          observe_steps transaction signature accounts.program_id meta time found decoded
              accounts.payer accounts.authority accounts.namespace key bump memo inner transfers c f
              read key_count (sent_at 0 refl) (sent_at 1 refl) (sent_at 2 refl)
              (ap (get_elem? (pubkeys built.keys)) (let e : 3 + n ≡ 3 + n + 0 = omega arith in e)
                ∙ sent_at (3 + n + 0) (account_at accounts key n 0 recipient_count))
              (ap (get_elem? (pubkeys built.keys)) (let e : 4 + n ≡ 3 + n + 1 = omega arith in e)
                ∙ sent_at (3 + n + 1) (account_at accounts key n 1 recipient_count))
              same_pda ((equals_iff key key).1 refl)
              ((equals_iff system_program system_program).1 refl) m i t,
          record {
            program_seen = refl;
            payer_seen = refl;
            authority_seen = refl;
            namespace_seen = refl;
            recipients_seen =
                ap (λ (l : List PublicKey). names w l 3 n) keys_sent
                ∙ recipient_names accounts key n recipient_count;
            event_seen = ap to_hex is_decoded.same_seed;
            amount_seen = is_decoded.same_amount;
            bps_seen = is_decoded.same_bps;
          },
        )

  -- The observation of a transaction whose settlement instruction is one that the client built,
  -- which succeeded, carries the signature, and has a time, a memo and readable inner transfers,
  -- is returned and shows the accounts, the event, the amount and the shares that it was built from.
  pub observe_program_settlement-build :
      (accounts : SettleNAccounts PublicKey) (params : SettleNParams)
      (built : TransactionInstruction PublicKey) (transaction : ParsedTransaction PublicKey)
      (signature : String) (meta : Meta PublicKey) (time : ℤ) (index : ℕ) (memo : Json)
      (inner : List (Instruction PublicKey)) (transfers : List ObservedTransfer)
      → build_settle_n_instruction w accounts params ≡ ok built
      → check_transaction transaction signature ≡ ok (meta, time)
      → find_settlement_instruction w transaction accounts.program_id
        ≡ ok (record { index = index; instruction = sent built })
      → extract_memo w transaction ≡ ok memo
      → inner_of meta index ≡ some inner
      → collect parse_system_transfer inner ≡ ok transfers
      → (observed : ProgramSettlementObservation) × (observe_program_settlement w transaction
            signature accounts.program_id
          ≡ ok observed)
        × IsObservedAs accounts params observed
  observe_program_settlement-build accounts params built transaction signature meta time index memo
        inner transfers b c f m i t =
      let (key, bump, is_built) = build_settle_n_instruction-IsBuiltN w accounts params built b in
      let (decoded, read, is_decoded) =
        decode_settle_n_data-encode_settle_n_data w params built.bytes is_built.encoded in
      seen_at accounts params built key bump is_built decoded read is_decoded transaction signature
        meta time index memo inner transfers c f m i t
