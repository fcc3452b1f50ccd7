-- ===== src/Lib.antt =====
-- Verification library of the Synxed settlement protocol's TypeScript code: the SDK under
-- sdk/typescript/src, which splits an amount among recipients, encodes the program's instructions,
-- and reads finalized transactions back as evidence of payment, and the studio backend under
-- examples/studio-backend/src, whose worker settles stored events and decides from the chain what
-- became of each attempt.
--
-- The parts, and the files that model them:
--   - Base: the names that every module shares, integers (bigint) over the native numbers, texts and
--     decimal texts.
--   - Types: sdk/typescript/src/types.ts. A call returns a `Result`: a value, or an `Exception` with
--     the code that the error carries and without its message. A JavaScript `number` is a `JsNumber`,
--     an integer or a fraction.
--   - Split: sdk/typescript/src/split.ts, from assertBpsShares to computeSettlementN.
--   - Bytes, Json: byte arrays with DataView's little-endian reads and writes; JSON values.
--   - Solana: what the SDK uses of @solana/web3.js, @solana/spl-token, @noble/hashes, bs58 and the
--     platform, as the fields of a record with the laws their documentation states. Definitions that
--     use them take the record as their argument `w`. Solana/Sample is a concrete instance.
--   - Instruction: sdk/typescript/src/instruction.ts: Encode for the data, the derived addresses and
--     the namespace account, Build for the instructions.
--   - Ledger: sdk/typescript/src/ledger.ts: Decode for instruction data, Evidence for its types, Find
--     for the settlement instruction and the memo, Observe for the observations, Match, Reconcile
--     and TokenReconcile for reconciling, Pool for pooled payouts, History and Search for
--     the record's creating transaction.
--   - Client: sdk/typescript/src/client.ts. Library and Solana hold what it uses of web3.js and
--     spl-token; Prepare and TokenPrepare build transactions, each the list of its instructions;
--     Accounts reads accounts back, and Namespace is ensureNamespace over what the connection answers.
--   - Studio: examples/studio-backend/src. Studio/Store is store.ts: the worker's durable state as a
--     record of tables, Write its operations that write, Balances what beneficiaries were paid.
--     Studio/Worker is worker.ts: Action is a method as a function of the store and the world, which
--     returns or throws and leaves both; Network what the worker asks of its two connections, its
--     keys, the clock and its hooks, for any world; Evidence reconciling, Resolve deciding an
--     event from the chain, Settle an attempt and a run over all events.
--   - Tests: runs on concrete inputs, and each theorem applied to one.
-- The other files of a component hold its theorems and their lemmas. A computed settlement is encoded
-- by Instruction, its transaction observed by Ledger, and reconciled with Split's computation; the
-- store records the reconciled settlement, its entries and its pooled lines.
--
-- Loops are structural recursion on the list they read. The one loop that is not, over the pages of a
-- record's history (`read_pages`), has fuel: one more than the most signatures to be read, of which
-- each page but the last reads one at least. The batches of a page have the page's length as fuel.
--
-- Waiting is counted by the environment: a `Watch` holds the answers that a reconciliation reads
-- before its deadline, and `rounds` how often the worker resolves an event again.
--
-- Not modelled: the client's submissions, which sign and send what is built; the messages of errors
-- and logging; the worker's dry run; the studio's command line, configuration and events. In the
-- store, a database that fails is not modelled, and the event that `recordPaid` names is taken to be
-- stored, as the foreign keys require of the rows that it inserts. `Promise.all` runs one after the
-- other. Numbers larger than 2^53 are exact where JavaScript's `number` is used for slots and times.
-- A record of texts by label is the list of its own entries.
pub mod Base
pub mod Types
pub mod Split
pub mod Json
pub mod Bytes
pub mod Solana
pub mod Instruction
pub mod Ledger
pub mod Client
pub mod Studio
pub mod Tests
