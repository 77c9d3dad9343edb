-- ===== src/Program.antt =====
-- programs/exira/src/lib.rs: the instructions of the program, and what a chain of transactions
-- reaches.
use ascertainty_contracts.Base.{ℕ, List, ◌≡◌, []}
use ascertainty_contracts.Base.Int.{ℤ}
use ascertainty_contracts.Errors.{ok}
use ascertainty_contracts.Runtime.{Runtime, State, M}
use ascertainty_contracts.Admin
use ascertainty_contracts.Admin.Platforms.{InitializePlatform}
use ascertainty_contracts.Admin.Projects.{CreateProject, ActivateProject, CloseProject}
use ascertainty_contracts.Admin.Funds.{DistributeRepayment, WithdrawProjectFunds}
use ascertainty_contracts.Admin.Pools.{CreatePool, AddProjectToPool, DistributePoolReturns}
use ascertainty_contracts.Investor
use ascertainty_contracts.Investor.Projects.{
  BuyProjectTokens, ClaimProjectReturns, WithdrawInvestment,
}
use ascertainty_contracts.Investor.Pools.{BuyPoolTokens, ClaimPoolReturns}
use ascertainty_contracts.Mrv
use ascertainty_contracts.Mrv.Registry.{RegisterMrvProject, AddAuditor}
use ascertainty_contracts.Mrv.Reports.{
  SubmitBaseline, BaselineReport, SubmitVerification, SavingsReport, AttestVerification,
}

-- An instruction with its accounts and arguments.
pub data Instruction : Type 0 where
  initialize_platform : InitializePlatform → ℕ → ℕ → ℕ → Instruction
  create_project : CreateProject → ℕ → ℕ → ℕ → Instruction
  activate_project : ActivateProject → Instruction
  distribute_repayment : DistributeRepayment → ℕ → Instruction
  close_project : CloseProject → Instruction
  create_pool : CreatePool → ℕ → ℕ → Instruction
  add_project_to_pool : AddProjectToPool → Instruction
  distribute_pool_returns : DistributePoolReturns → ℕ → Instruction
  withdraw_project_funds : WithdrawProjectFunds → ℕ → Instruction
  buy_project_tokens : BuyProjectTokens → ℕ → Instruction
  claim_project_returns : ClaimProjectReturns → Instruction
  withdraw_investment : WithdrawInvestment → Instruction
  buy_pool_tokens : BuyPoolTokens → ℕ → Instruction
  claim_pool_returns : ClaimPoolReturns → Instruction
  register_mrv_project : RegisterMrvProject → ℕ → List ℕ → List ℕ → List ℕ → List ℕ → Instruction
  add_auditor : AddAuditor → List ℕ → List ℕ → Instruction
  submit_baseline : SubmitBaseline → BaselineReport → Instruction
  submit_verification : SubmitVerification → ℕ → SavingsReport → Instruction
  attest_verification : AttestVerification → Instruction

module _ {L : Type 0} (rt : Runtime L) where
  unfoldable pub execute : Instruction → M L (Unit {0})
  execute (initialize_platform ctx o p h) = Admin.Platforms.initialize_platform rt ctx o p h
  execute (create_project ctx id target term) = Admin.Projects.create_project rt ctx id target term
  execute (activate_project ctx) = Admin.Projects.activate_project rt ctx
  execute (distribute_repayment ctx amount) = Admin.Funds.distribute_repayment rt ctx amount
  execute (close_project ctx) = Admin.Projects.close_project rt ctx
  execute (create_pool ctx id target) = Admin.Pools.create_pool rt ctx id target
  execute (add_project_to_pool ctx) = Admin.Pools.add_project_to_pool rt ctx
  execute (distribute_pool_returns ctx amount) = Admin.Pools.distribute_pool_returns rt ctx amount
  execute (withdraw_project_funds ctx amount) = Admin.Funds.withdraw_project_funds rt ctx amount
  execute (buy_project_tokens ctx amount) = Investor.Projects.buy_project_tokens rt ctx amount
  execute (claim_project_returns ctx) = Investor.Projects.claim_project_returns rt ctx
  execute (withdraw_investment ctx) = Investor.Projects.withdraw_investment rt ctx
  execute (buy_pool_tokens ctx amount) = Investor.Pools.buy_pool_tokens rt ctx amount
  execute (claim_pool_returns ctx) = Investor.Pools.claim_pool_returns rt ctx
  execute (register_mrv_project ctx id name sector location upgrade) =
      Mrv.Registry.register_mrv_project rt ctx id name sector location upgrade
  execute (add_auditor ctx name certification) = Mrv.Registry.add_auditor rt ctx name certification
  execute (submit_baseline ctx report) = Mrv.Reports.submit_baseline rt ctx report
  execute (submit_verification ctx index report) =
      Mrv.Reports.submit_verification rt ctx index report
  execute (attest_verification ctx) = Mrv.Reports.attest_verification rt ctx

  -- One step of the chain: an instruction that succeeds, or something else that moves tokens and
  -- lets time pass, which leaves the program's accounts alone. A failed instruction is no step.
  pub data Step (s s' : State L) : Type 0 where
    runs : (i : Instruction) → execute i s ≡ ok (tt, s') → Step s s'
    elsewhere :
        (tokens : L) (now : ℤ) → s' ≡ record s { tokens = tokens; unix_timestamp = now } → Step s s'

  pub data Reach (s : State L) : State L → Type 0 where
    here : Reach s s
    next : {t u : State L} → Reach s t → Step t u → Reach s u

  pub Reach-trans : {s t u : State L} → Reach s t → Reach t u → Reach s u
  Reach-trans r here = r
  Reach-trans r (next r' st) = next (Reach-trans r r') st

  -- Before the program's first instruction it owns no account.
  abbrev pub IsFresh : State L → Type 0
  IsFresh s = s.accounts ≡ []
