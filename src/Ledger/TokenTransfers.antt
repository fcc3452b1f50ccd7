-- ===== src/Ledger/TokenTransfers.antt =====
-- sdk/typescript/src/ledger.ts: the token transfers that a settlement is due and those that were
-- observed, as transfers and not as keys.
use synxed_solana_protocol.Base.{
  ℕ, ◌≡◌, refl, ap, ◌∙◌, sym, inl, inr, Bool, true, ◌&&◌, List, [], ◌∷◌, map, arith, Bool-cases,
  ◌==◌, if◌then◌else◌,
}
use synxed_solana_protocol.Base.Int.{ℤ, pos, eqb_ℤ, eqb_ℤ_iff}
use synxed_solana_protocol.Base.Text.{String, ◌===◌, ===_iff}
use synxed_solana_protocol.Base.Decimal.{show_ℤ}
use synxed_solana_protocol.Ledger.Evidence.{ObservedTokenTransfer}
use synxed_solana_protocol.Ledger.Match.{token_transfer_key}
use synxed_solana_protocol.Ledger.Matched.{count}
use synxed_solana_protocol.Ledger.TokenReconcile.{
  expected_token_transfers, observed_token_transfers,
}
use synxed_solana_protocol.Ledger.Keys.{
  is_plain, part_inj, show_ℕ-is_plain, show_ℤ_inj, times, every, times-key,
}
use synxed_solana_protocol.Ledger.Transfers.{bool-eq}
use mathlib.Core.Path.{subst}

-- The same source, destination, mint, amount and decimals.
abbrev pub same_token_transfer : ObservedTokenTransfer → ObservedTokenTransfer → Bool
same_token_transfer a b =
    a.source === b.source
    && a.destination === b.destination
    && a.mint === b.mint
    && a.amount_on_chain == b.amount_on_chain
    && eqb_ℤ a.decimals b.decimals

abbrev pub is_plain_token_transfer : ObservedTokenTransfer → Bool
is_plain_token_transfer t = is_plain t.source && is_plain t.destination && is_plain t.mint

abbrev key_of : ObservedTokenTransfer → String
key_of t = token_transfer_key t.source t.destination t.mint (pos t.amount_on_chain) t.decimals

-- The transfers of the mint from the source to the accounts, of their amounts, where these are
-- positive.
abbrev pub due_tokens : String → String → ℤ → List String → List ℕ → List ObservedTokenTransfer
due_tokens source mint decimals (account ∷ accounts) (p ∷ ps) =
    if p == 0
    then due_tokens source mint decimals accounts ps
    else record {
      source = source;
      destination = account;
      mint = mint;
      amount_on_chain = p;
      decimals = decimals;
    }
      ∷ due_tokens source mint decimals accounts ps
due_tokens source mint decimals _ _ = []

-- No text of the source, the mint, an account or an observed transfer holds U+0000.
abbrev pub are_plain_tokens : String → String → List String → List ObservedTokenTransfer → Bool
are_plain_tokens source mint accounts transfers =
    is_plain source
    && is_plain mint
    && every is_plain accounts
    && every is_plain_token_transfer transfers

same_token_transfer-eq : (a b : ObservedTokenTransfer) → same_token_transfer a b ≡ true → a ≡ b
same_token_transfer-eq a b h =
    let s = (===_iff a.source b.source).0 (ground arith) in
    let d = (===_iff a.destination b.destination).0 (ground arith) in
    let m = (===_iff a.mint b.mint).0 (ground arith) in
    let n : a.amount_on_chain ≡ b.amount_on_chain = ground arith in
    let z = (eqb_ℤ_iff a.decimals b.decimals).0 (ground arith) in cc (s, d, m, n, z)

shown_is_plain : (n : ℕ) → is_plain (show_ℤ (pos n)) ≡ true
unfolding show_ℤ
shown_is_plain n = show_ℕ-is_plain n

key_of-eq :
    (a b : ObservedTokenTransfer)
    → is_plain_token_transfer a ≡ true
    → is_plain_token_transfer b ≡ true
    → key_of a ≡ key_of b
    → a ≡ b
key_of-eq a b p q h =
    let (s, h1) = part_inj a.source b.source _ _ (ground arith) (ground arith) h in
    let (d, h2) = part_inj a.destination b.destination _ _ (ground arith) (ground arith) h1 in
    let (m, h3) = part_inj a.mint b.mint _ _ (ground arith) (ground arith) h2 in
    let (x, h4) =
      part_inj (show_ℤ (pos a.amount_on_chain)) (show_ℤ (pos b.amount_on_chain)) _ _
        (shown_is_plain a.amount_on_chain) (shown_is_plain b.amount_on_chain) h3 in
    let n : a.amount_on_chain ≡ b.amount_on_chain =
      ground (arith, show_ℤ_inj (pos a.amount_on_chain) (pos b.amount_on_chain) x) in
    cc (s, d, m, n, show_ℤ_inj a.decimals b.decimals h4)

same_token_transfer_refl : (a : ObservedTokenTransfer) → same_token_transfer a a ≡ true
same_token_transfer_refl a = ground (
  arith,
  (===_iff a.source a.source).1 refl,
  (===_iff a.destination a.destination).1 refl,
  (===_iff a.mint a.mint).1 refl,
  (eqb_ℤ_iff a.decimals a.decimals).1 refl,
)

key_of-same :
    (a b : ObservedTokenTransfer)
    → is_plain_token_transfer a ≡ true
    → is_plain_token_transfer b ≡ true
    → (key_of a === key_of b) ≡ same_token_transfer a b
key_of-same a b p q =
    bool-eq (key_of a === key_of b) (same_token_transfer a b)
      (λ h.
        subst (λ (x : ObservedTokenTransfer). same_token_transfer a x ≡ true)
          (key_of-eq a b p q ((===_iff (key_of a) (key_of b)).0 h)) (same_token_transfer_refl a))
      (λ h. (===_iff (key_of a) (key_of b)).1 (ap key_of (same_token_transfer-eq a b h)))

expected_token_transfers-due :
    (source mint : String) (decimals : ℤ) (accounts : List String) (ps : List ℕ)
    → expected_token_transfers source mint decimals accounts (map pos ps)
      ≡ map key_of (due_tokens source mint decimals accounts ps)
unfolding expected_token_transfers
expected_token_transfers-due source mint decimals [] ps = refl
expected_token_transfers-due source mint decimals (account ∷ accounts) [] = refl
expected_token_transfers-due source mint decimals (account ∷ accounts) (p ∷ ps) =
    elim (Bool-cases (p == 0)) [
      | inl q ↦ rw q (expected_token_transfers-due source mint decimals accounts ps)
      | inr q ↦ rw q (
          ap (◌∷◌ (token_transfer_key source account mint (pos p) decimals))
            (expected_token_transfers-due source mint decimals accounts ps))
    ]

every-due :
    (source mint : String) (decimals : ℤ) (accounts : List String) (ps : List ℕ)
    → is_plain source ≡ true
    → is_plain mint ≡ true
    → every is_plain accounts ≡ true
    → every is_plain_token_transfer (due_tokens source mint decimals accounts ps) ≡ true
every-due source mint decimals [] ps p m h = refl
every-due source mint decimals (account ∷ accounts) [] p m h = refl
every-due source mint decimals (account ∷ accounts) (n ∷ ps) p m h =
    let rest = every-due source mint decimals accounts ps p m (ground arith) in
    elim (Bool-cases (n == 0)) [ inl q ↦ rw q rest | inr q ↦ rw q (ground arith) ]

-- Where the keys agree, the transfers do.
pub times-due_tokens :
    (source mint : String) (decimals : ℤ) (accounts : List String) (ps : List ℕ)
    (ts : List ObservedTokenTransfer)
    → ((k : String)
        → count k (expected_token_transfers source mint decimals accounts (map pos ps))
          ≡ count k (observed_token_transfers ts))
    → are_plain_tokens source mint accounts ts ≡ true
    → (t : ObservedTokenTransfer)
    → times same_token_transfer t (due_tokens source mint decimals accounts ps)
      ≡ times same_token_transfer t ts
times-due_tokens source mint decimals accounts ps ts h p =
    times-key key_of same_token_transfer is_plain_token_transfer key_of-same
      (λ a b e. ap is_plain_token_transfer (same_token_transfer-eq a b e))
      (due_tokens source mint decimals accounts ps) ts
      (every-due source mint decimals accounts ps (ground arith) (ground arith) (ground arith))
      (ground arith)
      (λ k.
        ap (count k) (sym (expected_token_transfers-due source mint decimals accounts ps)) ∙ h k)
