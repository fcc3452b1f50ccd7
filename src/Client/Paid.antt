-- ===== src/Client/Paid.antt =====
-- The transfers that pay the shares, and the keys that their recipients spell.
use synxed_solana_protocol.Base.{
  ℕ, zero, suc, ◌<◌, ◌≡◌, ap, ◌∙◌, inl, inr, true, some, List, [], ◌∷◌, map, length, arith,
  Option-cases,
}
use synxed_solana_protocol.Base.Int.{pos, ltb_ℤ}
use synxed_solana_protocol.Types.{>>=-eq-ok, ok, ShareInput}
use synxed_solana_protocol.Base.Text.{String}
use synxed_solana_protocol.Solana.{Solana}
use synxed_solana_protocol.Instruction.Build.{TransactionInstruction}
use synxed_solana_protocol.Client.Library.{Library}
use mathlib.Core.Path.{subst}
use synxed_solana_protocol.Client.Prepare.{parse_recipients, parse_recipient, add_transfers}

module _ (w : Solana) (l : Library w.PublicKey) where
  open w use {PublicKey, equals, equals_iff, from_base58, memo_program_id, utf8}
  open l use {transfer, stringify}

  -- One transfer to each recipient whose amount is positive, in order, and no other.
  pub data ArePaid (from : PublicKey)
      : List PublicKey → List ℕ → List (TransactionInstruction PublicKey) → Type 0 where
    nothing : ArePaid from [] [] []
    one_skipped :
        {k : PublicKey} {recipients : List PublicKey} {ps : List ℕ}
        {instructions : List (TransactionInstruction PublicKey)}
        → ArePaid from recipients ps instructions
        → ArePaid from (k ∷ recipients) (0 ∷ ps) instructions
    one_paid :
        {k : PublicKey} {recipients : List PublicKey} {p : ℕ} {ps : List ℕ}
        {instructions : List (TransactionInstruction PublicKey)}
        → 0 < p
        → ArePaid from recipients ps instructions
        → ArePaid from (k ∷ recipients) (p ∷ ps) (transfer from k (pos p) ∷ instructions)

  pub add_transfers-ArePaid :
      (from : PublicKey) (recipients : List PublicKey) (ps : List ℕ)
      → length ps ≡ length recipients
      → ArePaid from recipients ps (add_transfers w l from recipients (map pos ps))
  unfolding add_transfers
  add_transfers-ArePaid from [] [] h = ArePaid.nothing
  add_transfers-ArePaid from [] (p ∷ ps) h = absurd (omega arith)
  add_transfers-ArePaid from (k ∷ recipients) [] h = absurd (omega arith)
  add_transfers-ArePaid from (k ∷ recipients) (zero ∷ ps) h =
      ArePaid.one_skipped (add_transfers-ArePaid from recipients ps (omega arith))
  add_transfers-ArePaid from (k ∷ recipients) (suc p ∷ ps) h =
      let positive : ltb_ℤ (pos 0) (pos (suc p)) ≡ true = ground arith in
      rw positive
        (ArePaid.one_paid (omega arith) (add_transfers-ArePaid from recipients ps (omega arith)))

  -- The keys that the shares' recipients spell, in order.
  abbrev pub AreNamed : List ShareInput → List PublicKey → Type 0
  AreNamed (share ∷ shares) (key ∷ keys) =
      (from_base58 share.recipient ≡ some key) × AreNamed shares keys
  AreNamed [] [] = Unit
  AreNamed _ _ = ⊥

  parse_recipient-eq :
      (recipient : String) (key : PublicKey)
      → parse_recipient w l recipient ≡ ok key
      → from_base58 recipient ≡ some key
  unfolding parse_recipient
  parse_recipient-eq recipient key h = elim (Option-cases (from_base58 recipient)) [
    | inl q ↦ absurd (ground arith)
    | inr (k, q) ↦ let same : k ≡ key = ground arith in q ∙ ap some same
  ]

  pub parse_recipients-AreNamed :
      (shares : List ShareInput) (recipients : List PublicKey)
      → parse_recipients w l shares ≡ ok recipients
      → AreNamed shares recipients
  unfolding parse_recipients
  parse_recipients-AreNamed [] recipients h =
      let same : [] ≡ recipients = ground arith in subst (AreNamed []) same tt
  parse_recipients-AreNamed (share ∷ shares) recipients h =
      let (key, q, h1) = >>=-eq-ok (parse_recipient w l share.recipient) _ h in
      let (keys, p, h2) = >>=-eq-ok (parse_recipients w l shares) _ h1 in
      let same : key ∷ keys ≡ recipients = ground arith in
      subst (AreNamed (share ∷ shares)) same
        (parse_recipient-eq share.recipient key q, parse_recipients-AreNamed shares keys p)
