-- ===== src/Lib.antt =====
-- A model of the exira program (programs/exira), an Anchor program for the Solana chain. It sells
-- tokens of energy-efficiency projects and of pools of projects, distributes repayments to the
-- holders, and keeps a registry of measured savings (MRV).
--
-- The parts of the program, in programs/exira/src, and their files here:
--   Constants   constants.rs; the seeds as byte lists, the bounds and the field lengths.
--   Errors      error.rs, with the errors of the framework and the token program that steps end in.
--   Accounts    state/*.rs: one record per account type; `Account` is their sum, told apart as the
--               discriminator does. Accounts/Evolve says how each may change.
--   Admin       instructions/admin: Admin/Platforms (initialize_platform), Admin/Projects
--               (create_project, activate_project, close_project), Admin/Funds
--               (distribute_repayment, withdraw_project_funds), Admin/Pools (create_pool,
--               add_project_to_pool, distribute_pool_returns).
--   Investor    instructions/investor: Investor/Projects (buy_project_tokens,
--               claim_project_returns, withdraw_investment), Investor/Pools (buy_pool_tokens,
--               claim_pool_returns).
--   Mrv         instructions/mrv: Mrv/Registry (register_project, add_auditor), Mrv/Reports
--               (submit_baseline, submit_verification, attest), Mrv/Text (pad_into).
--   Program     lib.rs: `Instruction` and `execute`, and the chains of instructions (`Reach`).
--
-- An instruction is a function from a state to an error or a new state. The state is the accounts
-- that the program owns (an association list from keys to accounts), the state of the token
-- program, and the clock. A failed instruction is undone as a whole, so that no state comes with an
-- error. The account constraints of `#[derive(Accounts)]` come first, in the order of the fields,
-- then the handler's text; a loaded account is written back at the end of the instruction. Two
-- fields of one instruction that name the same account are written in the order of the model.
--
-- Code outside of the repository is a parameter: Runtime/Machine has the record `Runtime` with the
-- derivation of addresses and the operations of the token program, and `RuntimeLaws` with what is
-- relied on: addresses of positions are collision free in the target, and the address that is found
-- is the one that the found bump creates. Nothing is assumed of token transfers. The results on error
-- codes rely on `ForeignErrors` of Runtime/Raises: the token program ends in errors of its own.
--
-- Integers are natural numbers. The checked and saturating operations have their widths written
-- out (Base/Words), and so has the cast of the fee to u64. There are no loops, and no fuel.
--
-- Runtime/Rules and Runtime/Steps are rules for what holds at the successful ends of an
-- instruction, along its text; Runtime/Progress has the rules for running it to its end,
-- Runtime/Raises and Runtime/Avoids those for the errors it can end in. Shares is the abstract
-- view: projects and pools are funds, positions hold their shares, and an instruction makes moves
-- (Shares/Move), which are set against an invariant (Shares/Invariant, Shares/Preserve), the rules
-- of the books (Shares/Rules), the evolution of each account (Shares/Persist), the addresses
-- (Shares/Home, Shares/Homes), what further purchases of pool tokens may claim (Shares/Excess,
-- Shares/Preserve/Cover), and the links of pools (Shares/Preserve/Links). Refine compares each
-- instruction with the moves. Safety has the results; `documented` in Safety/Errors is the table
-- of errors of docs/INSTRUCTIONS.md. Tests runs the program on a small runtime.
--
-- Not modelled: rent, lamports and account sizes; signatures other than as the keys of the signers;
-- log messages; the client code, scripts and tests.
pub mod Base
pub mod Constants
pub mod Errors
pub mod Accounts
pub mod Runtime
pub mod Admin
pub mod Investor
pub mod Mrv
pub mod Shares
pub mod Refine
pub mod Program
pub mod Safety
pub mod Tests
