-- ===== src/Runtime.antt =====
-- What the program runs on: the Solana runtime, the Anchor framework and the SPL token program.
-- None of it is in this repository, so addresses and token operations are fields of a parameter
-- (`Runtime`), and the laws that proofs need of them are a second record (`RuntimeLaws`). An
-- instruction is a function from the state before it to an error or the state after it: an error
-- undoes the whole transaction, so no state comes with it.
mod Machine
mod Rules
mod Steps
mod Progress
pub mod Raises
pub mod Avoids
unfoldable pub use Machine.*
pub use Rules.{
  Ensures, ensures-ok, ensures_known, NewOrOld, IsAssociated, Creates, on_pure, on_bind,
}
pub use Steps.*
pub use Progress.*
