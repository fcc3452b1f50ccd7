-- ===== src/Instruction.antt =====
-- sdk/typescript/src/instruction.ts: the client-side codec of the settlement program.
pub mod Encode
pub mod Build
pub mod Accounts
