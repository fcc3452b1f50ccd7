-- ===== src/Ledger/Matched.antt =====
-- What the comparisons of a reconciliation establish.
use synxed_solana_protocol.Base.{
  ℕ, ◌+◌, ◌≡◌, refl, ◌∙◌, ap, sym, inl, inr, true, false, List, [], ◌∷◌, arith, if◌then◌else◌,
}
use synxed_solana_protocol.Base.Int.{ℤ, pos, ◌*ℤ◌, leb_ℤ, eqb_ℤ_iff}
use synxed_solana_protocol.Base.Text.{String, ◌===◌, ===_iff}
use synxed_solana_protocol.Types.{JsNumber, int, fraction, SplitResultN, ok, Result-cases}
use synxed_solana_protocol.Bytes.{Bytes}
use synxed_solana_protocol.Split.{compute_settlement_n, split_amount_atomic_shares, bps_of}
use synxed_solana_protocol.Split.Shares.{numbers}
use synxed_solana_protocol.Solana.{Solana}
use synxed_solana_protocol.Instruction.Encode.{event_id_seed}
use synxed_solana_protocol.Ledger.Observe.{to_hex}
use synxed_solana_protocol.Ledger.Match.{
  same_number, same_numbers, same_strings, sorted, insert_sorted, assert_memo,
}
use synxed_solana_protocol.Ledger.Reconcile.{
  ReconcileOptions, check_observed, assert_namespace, expected_transfers, observed_transfers,
  recipients_of, given, is_lamports,
}

-- How often a text stands in a list.
abbrev pub count : String → List String → ℕ
count k [] = 0
count k (s ∷ ss) = (if s === k then 1 else 0) + count k ss

count-insert_sorted :
    (k s : String) (ss : List String) → count k (insert_sorted s ss) ≡ count k (s ∷ ss)
unfolding insert_sorted
count-insert_sorted k s [] = refl
count-insert_sorted k s (t ∷ ts) = ground (arith, count-insert_sorted k s ts)

pub count-sorted : (k : String) (ss : List String) → count k (sorted ss) ≡ count k ss
unfolding sorted
count-sorted k [] = refl
count-sorted k (s ∷ ss) = omega (arith, count-insert_sorted k s (sorted ss), count-sorted k ss)

pub same_strings→eq : (ss ts : List String) → same_strings ss ts ≡ true → ss ≡ ts
unfolding same_strings
same_strings→eq [] [] h = refl
same_strings→eq [] (t ∷ ts) h = cc
same_strings→eq (s ∷ ss) [] h = cc
same_strings→eq (s ∷ ss) (t ∷ ts) h =
    let e : (s === t) ≡ true = ground arith in
    let f : same_strings ss ts ≡ true = ground arith in
    cc ((===_iff s t).0 e, same_strings→eq ss ts f)

pub same_number→eq : (n : ℕ) (m : JsNumber) → same_number n m ≡ true → int (pos n) ≡ m
same_number→eq n (int m) h = ap int ((eqb_ℤ_iff (pos n) m).0 h)
same_number→eq n (fraction m) h = cc

pub same_numbers→eq :
    (ns : List ℕ) (ms : List JsNumber) → same_numbers ns ms ≡ true → numbers ns ≡ ms
unfolding same_numbers
same_numbers→eq [] [] h = refl
same_numbers→eq [] (m ∷ ms) h = cc
same_numbers→eq (n ∷ ns) [] h = cc
same_numbers→eq (n ∷ ns) (m ∷ ms) h =
    let e : same_number n m ≡ true = ground arith in
    let f : same_numbers ns ms ≡ true = ground arith in
    cc (same_number→eq n m e, same_numbers→eq ns ms f)

-- Two lists whose sorted forms are the same hold the same texts, each as often.
pub same_sorted :
    (ss ts : List String)
    → same_strings (sorted ss) (sorted ts) ≡ true
    → (k : String) → count k ss ≡ count k ts
same_sorted ss ts h k =
    sym (count-sorted k ss)
    ∙ ap (count k) (same_strings→eq (sorted ss) (sorted ts) h)
    ∙ count-sorted k ts

module _ (w : Solana) where
  open w use {PublicKey, to_base58}

  abbrev pub total_of : ReconcileOptions PublicKey → ℤ
  total_of options = options.request.amount_atomic *ℤ options.units_per_atomic_unit

  -- The evidence agrees with the request.
  pub record IsMatched (options : ReconcileOptions PublicKey) (amounts : List ℤ)
      (result : SplitResultN) (seed : Bytes) : Type 0 where
    pub computed : compute_settlement_n options.request ≡ ok result
    pub scale : leb_ℤ options.units_per_atomic_unit (pos 0) ≡ false
    pub same_namespace : options.observation.namespace ≡ to_base58 options.namespace
    pub event_seed : event_id_seed w options.request.event_id ≡ ok seed
    pub same_event : options.observation.event_seed_hex ≡ to_hex seed
    pub same_amount : pos options.observation.amount_on_chain ≡ total_of options
    pub native : is_lamports options.request.asset ≡ true
    pub same_bps : numbers options.observation.bps ≡ bps_of options.request.shares
    pub same_recipients : options.observation.recipients ≡ recipients_of options.request.shares
    pub same_memo :
        assert_memo options.observation.memo options.request
          (total_of options)
          (given options.allow_legacy_memo false)
        ≡ ok tt
    pub split :
        split_amount_atomic_shares (total_of options) (bps_of options.request.shares) ≡ ok amounts
    pub same_keys :
        (k : String)
        → count k (expected_transfers options.observation.payer options.request.shares amounts)
          ≡ count k (
              observed_transfers options.observation.settlement_record
                options.observation.transfers)

  pub check_observed-IsMatched :
      (options : ReconcileOptions PublicKey) (amounts : List ℤ)
      → check_observed w options ≡ ok amounts
      → (result : SplitResultN) × (seed : Bytes) × IsMatched options amounts result seed
  unfolding check_observed assert_namespace
  check_observed-IsMatched options amounts h =
      elim (Result-cases (compute_settlement_n options.request)) [
        | inr (x, e) ↦ absurd (ground arith)
        | inl (result, e) ↦ elim (Result-cases (event_id_seed w options.request.event_id)) [
          | inr (x, f) ↦ absurd (ground arith)
          | inl (seed, f) ↦ (
            result,
            seed,
            record {
              computed = e;
              scale = ground arith;
              same_namespace = (===_iff _ _).0 (ground arith);
              event_seed = f;
              same_event = (===_iff _ _).0 (ground arith);
              same_amount = (eqb_ℤ_iff _ _).0 (ground arith);
              native = ground arith;
              same_bps = same_numbers→eq _ _ (ground arith);
              same_recipients = same_strings→eq _ _ (ground arith);
              same_memo = ground arith;
              split = ground arith;
              same_keys = same_sorted _ _ (ground arith);
            },
          )
        ]
      ]
