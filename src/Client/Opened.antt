-- ===== src/Client/Opened.antt =====
-- What a namespace that was ensured, and a record that was read, guarantee.
use synxed_solana_protocol.Base.{
  ℕ, ◌≡◌, refl, sym, ap, ◌∙◌, ◌↔◌, inl, inr, ◌⊎◌, true, false, not, Option, none, some, [], ◌∷◌,
  length, arith, Bool-cases, ◌==◌,
}
use synxed_solana_protocol.Base.Text.{String}
use synxed_solana_protocol.Types.{
  Result, ok, err, ◌>>=◌, >>=-eq-ok, throw_if-eq-ok, throw_if, Exception, ProtocolErrorCode,
  Result-cases,
}
use synxed_solana_protocol.Bytes.{Bytes, slice, byte_at, of_le, same_bytes}
use synxed_solana_protocol.Solana.{Solana}
use synxed_solana_protocol.Instruction.Encode.{find_namespace_pda, settlement_record_discriminator}
use synxed_solana_protocol.Instruction.Build.{
  TransactionInstruction, build_create_namespace_instruction, or_default,
}
use synxed_solana_protocol.Ledger.Reconcile.{given}
use synxed_solana_protocol.Client.Library.{Account}
use synxed_solana_protocol.Client.Accounts.{
  FetchedNamespace, SettlementRecordAccount, is_plain_system_account, is_record_of,
  read_settlement_record,
}
use synxed_solana_protocol.Client.Namespace.{
  EnsureOptions, EnsuredNamespace, Answers, fetched, expect_authority, found_at, raced,
  is_pinned_elsewhere, open_namespace, ensure_at, ensure_namespace,
}
use mathlib.Core.Path.{subst}

same_bytes_sound : (a b : Bytes) → same_bytes a b ≡ true → a ≡ b
same_bytes_sound [] [] h = refl
same_bytes_sound [] (c ∷ cs) h = absurd (ground arith)
same_bytes_sound (b ∷ bs) [] h = absurd (ground arith)
same_bytes_sound (b ∷ bs) (c ∷ cs) h =
    let tail = same_bytes_sound bs cs (ground arith) in let head : b ≡ c = ground arith in cc

same_bytes_refl : (a : Bytes) → same_bytes a a ≡ true
same_bytes_refl [] = refl
same_bytes_refl (b ∷ bs) = ground (arith, same_bytes_refl bs)

length-zero : (bs : Bytes) → (length bs == 0) ≡ true → bs ≡ []
length-zero [] h = refl
length-zero (b ∷ bs) h = absurd (ground arith)

module _ (w : Solana) where
  open w use {PublicKey, equals, equals_iff, system_program}

  -- A namespace read at the address, with the authority that was asked for.
  abbrev pub IsFound :
      EnsureOptions PublicKey
      → EnsuredNamespace PublicKey
      → Result (Option (Account PublicKey))
      → Type 0
  IsFound options ensured answer =
      (ensured.created ≡ false)
      × (ensured.signature ≡ none)
      × ((found : FetchedNamespace PublicKey) × (fetched w options.program_id ensured.address answer
            ≡ ok (some found))
          × (found.account.authority ≡ ensured.authority))

  -- No namespace was read, none forbade to open one, and the transaction that opens it was sent.
  abbrev pub IsOpened :
      EnsureOptions PublicKey → EnsuredNamespace PublicKey → Answers PublicKey → Type 0
  IsOpened options ensured answers =
      (ensured.created ≡ true)
      × ((create : TransactionInstruction PublicKey) × (signature : String)
          × (build_create_namespace_instruction w
                (record {
                  program_id = options.program_id;
                  payer = options.payer;
                  creator = options.payer;
                })
                options.namespace_id ensured.authority
              ≡ ok create)
          × (answers.sent create ≡ ok signature)
          × (ensured.signature ≡ some signature))

  -- None was read, the transaction that opens one failed, and then the namespace was read.
  abbrev pub IsRaced :
      EnsureOptions PublicKey → EnsuredNamespace PublicKey → Answers PublicKey → Type 0
  IsRaced options ensured answers =
      ((create : TransactionInstruction PublicKey) × (error : Exception)
        × (build_create_namespace_instruction w
              (record {
                program_id = options.program_id;
                payer = options.payer;
                creator = options.payer;
              })
              options.namespace_id ensured.authority
            ≡ ok create)
        × (answers.sent create ≡ err error))
      × IsFound options ensured answers.account_again

  -- Found at once, or opened, or found when it could not be opened: the last two only where no
  -- namespace was read at first, opening is allowed and the payer is the creator.
  abbrev pub IsEnsured :
      EnsureOptions PublicKey → EnsuredNamespace PublicKey → Answers PublicKey → Type 0
  IsEnsured options ensured answers =
      IsFound options ensured answers.account
      ⊎ ((fetched w options.program_id ensured.address answers.account ≡ ok none)
          × (given options.create true ≡ true)
          × (or_default options.creator options.payer ≡ options.payer)
          × (IsOpened options ensured answers ⊎ IsRaced options ensured answers))

  -- No account, or one of the system program without bytes.
  abbrev pub IsAbsent : Option (Account PublicKey) → Type 0
  IsAbsent answer =
      (answer ≡ none)
      ⊎ ((account : Account PublicKey) × (answer ≡ some account)
          × (account.owner ≡ system_program)
          × (account.bytes ≡ []))

  abbrev pub IsRecordOf : PublicKey → Bytes → Account PublicKey → Type 0
  IsRecordOf program event_seed account =
      (account.owner ≡ program)
      × (length account.bytes ≡ 41)
      × (byte_at account.bytes 0 ≡ settlement_record_discriminator)
      × (slice 1 32 account.bytes ≡ event_seed)

  expect_authority-eq :
      (authority result : PublicKey) (found : FetchedNamespace PublicKey)
      → expect_authority w authority found ≡ ok result
      → (found.account.authority ≡ authority) × (result ≡ found.account.authority)
  unfolding expect_authority
  expect_authority-eq authority result found h =
      let (_, checked, rest) =
        >>=-eq-ok (throw_if (not (equals found.account.authority authority)) _) _ h in
      (
        (equals_iff found.account.authority authority).0
            (ground (arith, throw_if-eq-ok _ _ checked)),
        ground arith,
      )

  expect_authority-IsFound :
      (options : EnsureOptions PublicKey) (address authority : PublicKey)
      (found : FetchedNamespace PublicKey) (ensured : EnsuredNamespace PublicKey)
      (answer : Result (Option (Account PublicKey)))
      → fetched w options.program_id address answer ≡ ok (some found)
      → (expect_authority w authority found >>= found_at w address) ≡ ok ensured
      → (ensured.address ≡ address)
        × (ensured.authority ≡ authority)
        × IsFound options ensured answer
  expect_authority-IsFound options address authority found ensured answer q h =
      let (result, expected, rest) = >>=-eq-ok (expect_authority w authority found) _ h in
      let (same, there) = expect_authority-eq authority result found expected in
      let made : EnsuredNamespace PublicKey = record {
        address = address;
        authority = result;
        created = false;
        signature = none;
      } in
      let is : made ≡ ensured = ground arith in
      subst
        (λ (e : EnsuredNamespace PublicKey).
          (e.address ≡ address) × (e.authority ≡ authority) × IsFound options e answer)
        is (refl, there ∙ same, (refl, refl, (found, q, sym there)))

  raced-IsFound :
      (options : EnsureOptions PublicKey) (answers : Answers PublicKey)
      (address authority : PublicKey) (error : Exception) (ensured : EnsuredNamespace PublicKey)
      → raced w address authority error (fetched w options.program_id address answers.account_again)
        ≡ ok ensured
      → (ensured.address ≡ address)
        × (ensured.authority ≡ authority)
        × IsFound options ensured answers.account_again
  unfolding raced
  raced-IsFound options answers address authority error ensured h =
      elim (Result-cases (fetched w options.program_id address answers.account_again)) [
        | inr (x, q) ↦ absurd (ground arith)
        | inl (none, q) ↦ absurd (ground arith)
        | inl (some found, q) ↦
            expect_authority-IsFound options address authority found ensured answers.account_again q
              (ground arith)
      ]

  open_namespace-IsOpened :
      (options : EnsureOptions PublicKey) (answers : Answers PublicKey)
      (address authority : PublicKey) (ensured : EnsuredNamespace PublicKey)
      → open_namespace w options answers address authority ≡ ok ensured
      → (ensured.address ≡ address)
        × (ensured.authority ≡ authority)
        × (IsOpened options ensured answers ⊎ IsRaced options ensured answers)
  unfolding open_namespace
  open_namespace-IsOpened options answers address authority ensured h =
      let (create, built, rest) =
        >>=-eq-ok (build_create_namespace_instruction w _ options.namespace_id authority) _ h in
      elim (Result-cases (answers.sent create)) [
        | inr (x, q) ↦
            let (a, b, c) =
              raced-IsFound options answers address authority x ensured (ground arith) in
            (
              a,
              b,
              inr (
                (
                  create,
                  x,
                  subst
                      (λ (k : PublicKey).
                        build_create_namespace_instruction w
                          (record {
                            program_id = options.program_id;
                            payer = options.payer;
                            creator = options.payer;
                          })
                          options.namespace_id k
                        ≡ ok create)
                      (sym b) built,
                  q,
                ),
                c,
              ),
            )
        | inl (signature, q) ↦
            let made : EnsuredNamespace PublicKey = record {
              address = address;
              authority = authority;
              created = true;
              signature = some signature;
            } in
            let is : made ≡ ensured = ground arith in
            subst
              (λ (e : EnsuredNamespace PublicKey).
                (e.address ≡ address)
                × (e.authority ≡ authority)
                × (IsOpened options e answers ⊎ IsRaced options e answers))
              is (refl, refl, inl (refl, (create, signature, built, q, refl)))
      ]

  ensure_at-IsEnsured :
      (options : EnsureOptions PublicKey) (answers : Answers PublicKey)
      (address authority : PublicKey) (existing : Option (FetchedNamespace PublicKey))
      (ensured : EnsuredNamespace PublicKey)
      → fetched w options.program_id address answers.account ≡ ok existing
      → ensure_at w options answers address authority
          (or_default options.creator options.payer)
          existing
        ≡ ok ensured
      → (ensured.address ≡ address)
        × (ensured.authority ≡ authority)
        × IsEnsured options ensured answers
  unfolding ensure_at
  ensure_at-IsEnsured options answers address authority (some existing) ensured q h =
      let (a, b, c) =
        expect_authority-IsFound options address authority existing ensured answers.account q h in
      (a, b, inl c)
  ensure_at-IsEnsured options answers address authority none ensured q h =
      let (_, allowed, h1) = >>=-eq-ok (throw_if (not (given options.create true)) _) _ h in
      let (_, creates, h2) =
        >>=-eq-ok
          (throw_if (not (equals (or_default options.creator options.payer) options.payer)) _) _
          h1 in
      let (a, b, c) = open_namespace-IsOpened options answers address authority ensured h2 in
      let none_read : fetched w options.program_id ensured.address answers.account ≡ ok none =
        subst (λ (k : PublicKey). fetched w options.program_id k answers.account ≡ ok none) (sym a)
          q in
      (
        a,
        b,
        inr (
          none_read,
          ground (arith, throw_if-eq-ok _ _ allowed),
          (equals_iff (or_default options.creator options.payer) options.payer).0
              (ground (arith, throw_if-eq-ok _ _ creates)),
          c,
        ),
      )

  -- A namespace that is ensured lies at the address derived from the creator, the payer where none
  -- is given, and its id, which is the expected address where one is given; its authority is the
  -- one asked for, the payer where none is. Either it was read there with that authority; or none
  -- was read, opening is allowed, the payer is the creator, and either the transaction that opens it
  -- was sent, or it failed and a second read found the namespace with that authority.
  pub ensure_namespace-IsEnsured :
      (options : EnsureOptions PublicKey) (answers : Answers PublicKey)
      (ensured : EnsuredNamespace PublicKey)
      → ensure_namespace w options answers ≡ ok ensured
      → ((bump : ℕ) × (find_namespace_pda w options.program_id
              (or_default options.creator options.payer)
              options.namespace_id
            ≡ ok (ensured.address, bump)))
        × (is_pinned_elsewhere w options.expected_address ensured.address ≡ false)
        × (ensured.authority ≡ or_default options.authority options.payer)
        × IsEnsured options ensured answers
  unfolding ensure_namespace
  ensure_namespace-IsEnsured options answers ensured h =
      let creator = or_default options.creator options.payer in
      let authority = or_default options.authority options.payer in
      let ((address, bump), derived, h1) =
        >>=-eq-ok (find_namespace_pda w options.program_id creator options.namespace_id) _ h in
      let (_, pinned, h2) =
        >>=-eq-ok (throw_if (is_pinned_elsewhere w options.expected_address address) _) _ h1 in
      let (existing, read, h3) =
        >>=-eq-ok (fetched w options.program_id address answers.account) _ h2 in
      let (a, b, c) =
        ensure_at-IsEnsured options answers address authority existing ensured read h3 in
      (
        (bump, derived ∙ ap (λ (k : PublicKey). ok (k, bump)) (sym a)),
        ap (is_pinned_elsewhere w options.expected_address) a ∙ throw_if-eq-ok _ _ pinned,
        b,
        c,
      )

  is_record_of_iff :
      (program : PublicKey) (event_seed : Bytes) (account : Account PublicKey)
      → (is_record_of w program event_seed account ≡ true) ↔ IsRecordOf program event_seed account
  is_record_of_iff program event_seed account = (
    λ h. (
      (equals_iff account.owner program).0 (ground arith),
      ground arith,
      ground arith,
      same_bytes_sound (slice 1 32 account.bytes) event_seed (ground arith),
    ),
    λ (a, b, c, d).
        let owned = (equals_iff account.owner program).1 a in
        let seeded : same_bytes (slice 1 32 account.bytes) event_seed ≡ true =
          ap (same_bytes (slice 1 32 account.bytes)) (sym d)
          ∙ same_bytes_refl (slice 1 32 account.bytes) in
        ground arith,
  )

  is_plain_system_account_iff :
      (account : Account PublicKey)
      → (is_plain_system_account w account ≡ true)
        ↔ ((account.owner ≡ system_program) × (account.bytes ≡ []))
  is_plain_system_account_iff account = (
    λ h. (
      (equals_iff account.owner system_program).0 (ground arith),
      length-zero account.bytes (ground arith),
    ),
    λ (a, b).
        let owned = (equals_iff account.owner system_program).1 a in
        let none_there : length account.bytes ≡ 0 = ap length b in ground arith,
  )

  -- Where a settlement record's account is read: a record is returned just where an account stands
  -- that is the program's, has 41 bytes, the record's discriminator and the event's seed, and its
  -- amount is the little-endian number that follows; none is returned just where no account stands
  -- or one of the system program without bytes does.
  pub read_settlement_record_iff :
      (program address : PublicKey) (event_seed : Bytes) (code : ProtocolErrorCode)
      (answer : Option (Account PublicKey)) (result : Option (SettlementRecordAccount PublicKey))
      → (read_settlement_record w program address event_seed code answer ≡ ok result) ↔ (
          ((result ≡ none) × IsAbsent answer)
          ⊎ ((account : Account PublicKey) × (answer ≡ some account)
              × IsRecordOf program event_seed account
              × (result
                  ≡ some
                      (record { address = address; amount = of_le (slice 33 8 account.bytes) }))))
  unfolding read_settlement_record
  read_settlement_record_iff program address event_seed code none result = (
    (λ (h : ok none ≡ ok result). inl (ground arith, inl refl)),
    (λ h. elim h [ inl (q, _) ↦ ap ok (sym q) | inr (a, q, _, _) ↦ absurd (ground arith) ]),
  )
  read_settlement_record_iff program address event_seed code (some account) result =
      elim (Bool-cases (is_plain_system_account w account)) [
        | inl plain ↦ (
          λ h. inl (
            ground arith,
            let (owned, empty) = (is_plain_system_account_iff account).0 plain in
                inr (account, refl, owned, empty),
          ),
          λ h. elim h [
            | inl (q, _) ↦ ground arith
            | inr (a, q, (_, size, _, _), _) ↦
                let same : account ≡ a = ground arith in
                let long : length account.bytes ≡ 41 =
                  ap (λ (x : Account PublicKey). length x.bytes) same ∙ size in
                let empty = ap length ((is_plain_system_account_iff account).0 plain).1 in
                absurd (omega (arith, long, empty))
          ],
        )
        | inr other ↦ (
          λ h. elim (Bool-cases (is_record_of w program event_seed account)) [
            | inl r ↦
                inr (account, refl, (is_record_of_iff program event_seed account).0 r, ground arith)
            | inr r ↦ absurd (ground arith)
          ],
          λ h. elim h [
            | inl (q, inl a) ↦ absurd (ground arith)
            | inl (q, inr (a, e, owned, empty)) ↦
                let same : account ≡ a = ground arith in
                let there = (is_plain_system_account_iff a).1 (owned, empty) in
                absurd (ground (arith, ap (is_plain_system_account w) same))
            | inr (a, q, r, e) ↦
                let same : a ≡ account = ground arith in
                let is_its : is_record_of w program event_seed account ≡ true =
                  ap (is_record_of w program event_seed) (sym same)
                  ∙ (is_record_of_iff program event_seed a).1 r in
                let amount : of_le (slice 33 8 a.bytes) ≡ of_le (slice 33 8 account.bytes) =
                  ap (λ (x : Account PublicKey). of_le (slice 33 8 x.bytes)) same in
                let read : read_settlement_record w program address event_seed code (some account)
                    ≡ ok (
                        some (record {
                          address = address;
                          amount = of_le (slice 33 8 account.bytes);
                        })) =
                  ground arith in
                read
                ∙ ap (λ (n : ℕ). ok (some (record { address = address; amount = n }))) (sym amount)
                ∙ ap ok (sym e)
          ],
        )
      ]
