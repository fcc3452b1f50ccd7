-- ===== src/Ledger/Transfers.antt =====
-- sdk/typescript/src/ledger.ts: the transfers that a settlement is due and those that were observed,
-- as transfers and not as keys.
use synxed_solana_protocol.Base.{
  ℕ, ◌≡◌, refl, ap, ◌∙◌, sym, inl, inr, Bool, true, false, ◌&&◌, List, [], ◌∷◌, map, arith,
  Bool-cases, ◌==◌, if◌then◌else◌,
}
use synxed_solana_protocol.Base.Int.{pos}
use synxed_solana_protocol.Base.Text.{String, ◌===◌, ===_iff}
use synxed_solana_protocol.Types.{ShareInput}
use synxed_solana_protocol.Ledger.Evidence.{ObservedTransfer}
use synxed_solana_protocol.Ledger.Match.{transfer_key}
use synxed_solana_protocol.Ledger.Matched.{count}
use synxed_solana_protocol.Ledger.Reconcile.{expected_transfers, observed_transfers}
use synxed_solana_protocol.Ledger.Keys.{is_plain, part_inj, show_ℤ_inj, times, every, times-key}
use mathlib.Core.Path.{subst}

-- The same source, destination and amount.
abbrev pub same_transfer : ObservedTransfer → ObservedTransfer → Bool
same_transfer a b =
    a.source === b.source
    && a.destination === b.destination
    && a.amount_on_chain == b.amount_on_chain

abbrev pub is_plain_transfer : ObservedTransfer → Bool
is_plain_transfer t = is_plain t.source && is_plain t.destination

abbrev key_of : ObservedTransfer → String
key_of t = transfer_key t.source t.destination (pos t.amount_on_chain)

-- The payer's transfers to the recipients of the shares, of their amounts, where these are positive.
abbrev pub due : String → List ShareInput → List ℕ → List ObservedTransfer
due payer (share ∷ shares) (p ∷ ps) =
    if p == 0
    then due payer shares ps
    else record { source = payer; destination = share.recipient; amount_on_chain = p }
      ∷ due payer shares ps
due payer _ _ = []

-- The observed transfers that do not go to the record.
abbrev pub others : String → List ObservedTransfer → List ObservedTransfer
others settlement_record [] = []
others settlement_record (t ∷ ts) =
    if t.destination === settlement_record
    then others settlement_record ts
    else t ∷ others settlement_record ts

-- No text of the payer, a share or an observed transfer holds U+0000.
abbrev pub are_plain : String → List ShareInput → List ObservedTransfer → Bool
are_plain payer shares transfers =
    is_plain payer
    && every (λ (s : ShareInput). is_plain s.recipient) shares
    && every is_plain_transfer transfers

-- Two tests of one thing.
pub bool-eq : (a b : Bool) → (a ≡ true → b ≡ true) → (b ≡ true → a ≡ true) → a ≡ b
bool-eq true b f g = sym (f refl)
bool-eq false true f g = g refl
bool-eq false false f g = refl

same_transfer-eq : (a b : ObservedTransfer) → same_transfer a b ≡ true → a ≡ b
same_transfer-eq a b h =
    let s = (===_iff a.source b.source).0 (ground arith) in
    let d = (===_iff a.destination b.destination).0 (ground arith) in
    let n : a.amount_on_chain ≡ b.amount_on_chain = ground arith in cc (s, d, n)

key_of-eq :
    (a b : ObservedTransfer)
    → is_plain_transfer a ≡ true
    → is_plain_transfer b ≡ true
    → key_of a ≡ key_of b
    → a ≡ b
key_of-eq a b p q h =
    let (s, h1) = part_inj a.source b.source _ _ (ground arith) (ground arith) h in
    let (d, h2) = part_inj a.destination b.destination _ _ (ground arith) (ground arith) h1 in
    let n : a.amount_on_chain ≡ b.amount_on_chain =
      ground (arith, show_ℤ_inj (pos a.amount_on_chain) (pos b.amount_on_chain) h2) in
    cc (s, d, n)

same_transfer_refl : (a : ObservedTransfer) → same_transfer a a ≡ true
same_transfer_refl a =
    ground (arith, (===_iff a.source a.source).1 refl, (===_iff a.destination a.destination).1 refl)

key_of-same :
    (a b : ObservedTransfer)
    → is_plain_transfer a ≡ true
    → is_plain_transfer b ≡ true
    → (key_of a === key_of b) ≡ same_transfer a b
key_of-same a b p q =
    bool-eq (key_of a === key_of b) (same_transfer a b)
      (λ h.
        subst (λ (x : ObservedTransfer). same_transfer a x ≡ true)
          (key_of-eq a b p q ((===_iff (key_of a) (key_of b)).0 h)) (same_transfer_refl a))
      (λ h. (===_iff (key_of a) (key_of b)).1 (ap key_of (same_transfer-eq a b h)))

expected_transfers-due :
    (payer : String) (shares : List ShareInput) (ps : List ℕ)
    → expected_transfers payer shares (map pos ps) ≡ map key_of (due payer shares ps)
unfolding expected_transfers
expected_transfers-due payer [] ps = refl
expected_transfers-due payer (share ∷ shares) [] = refl
expected_transfers-due payer (share ∷ shares) (p ∷ ps) = elim (Bool-cases (p == 0)) [
  | inl q ↦ rw q (expected_transfers-due payer shares ps)
  | inr q ↦ rw q (
      ap (◌∷◌ (transfer_key payer share.recipient (pos p)))
        (expected_transfers-due payer shares ps))
]

observed_transfers-others :
    (settlement_record : String) (ts : List ObservedTransfer)
    → observed_transfers settlement_record ts ≡ map key_of (others settlement_record ts)
unfolding observed_transfers
observed_transfers-others settlement_record [] = refl
observed_transfers-others settlement_record (t ∷ ts) =
    elim (Bool-cases (t.destination === settlement_record)) [
      | inl q ↦ rw q (observed_transfers-others settlement_record ts)
      | inr q ↦ rw q (ap (◌∷◌ (key_of t)) (observed_transfers-others settlement_record ts))
    ]

every-due :
    (payer : String) (shares : List ShareInput) (ps : List ℕ)
    → is_plain payer ≡ true
    → every (λ (s : ShareInput). is_plain s.recipient) shares ≡ true
    → every is_plain_transfer (due payer shares ps) ≡ true
every-due payer [] ps p h = refl
every-due payer (share ∷ shares) [] p h = refl
every-due payer (share ∷ shares) (n ∷ ps) p h =
    let rest = every-due payer shares ps p (ground arith) in
    elim (Bool-cases (n == 0)) [ inl q ↦ rw q rest | inr q ↦ rw q (ground arith) ]

every-others :
    (settlement_record : String) (ts : List ObservedTransfer)
    → every is_plain_transfer ts ≡ true
    → every is_plain_transfer (others settlement_record ts) ≡ true
every-others settlement_record [] h = refl
every-others settlement_record (t ∷ ts) h =
    let rest = every-others settlement_record ts (ground arith) in
    elim (Bool-cases (t.destination === settlement_record)) [
      | inl q ↦ rw q rest
      | inr q ↦ rw q (ground arith)
    ]

-- Where the keys agree, the transfers do.
pub times-due :
    (payer settlement_record : String) (shares : List ShareInput) (ps : List ℕ)
    (ts : List ObservedTransfer)
    → ((k : String)
        → count k (expected_transfers payer shares (map pos ps))
          ≡ count k (observed_transfers settlement_record ts))
    → are_plain payer shares ts ≡ true
    → (t : ObservedTransfer)
    → times same_transfer t (due payer shares ps)
      ≡ times same_transfer t (others settlement_record ts)
times-due payer settlement_record shares ps ts h p =
    times-key key_of same_transfer is_plain_transfer key_of-same
      (λ a b e. ap is_plain_transfer (same_transfer-eq a b e)) (due payer shares ps)
      (others settlement_record ts) (every-due payer shares ps (ground arith) (ground arith))
      (every-others settlement_record ts (ground arith))
      (λ k.
        ap (count k) (sym (expected_transfers-due payer shares ps))
        ∙ h k
        ∙ ap (count k) (observed_transfers-others settlement_record ts))
