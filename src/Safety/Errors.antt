-- ===== src/Safety/Errors.antt =====
-- The errors of the program that each instruction can end in, against the lists of docs/INSTRUCTIONS.md.
use ascertainty_contracts.Base.{ℕ, ◌≡◌, subst, Bool, true, false}
use ascertainty_contracts.Errors.{
  ExiraError, exira, err, already_attested, attestation_auditor_mismatch, auditor_inactive,
  baseline_already_submitted, cannot_withdraw, insufficient_vault_balance, invalid_fee_bps,
  invalid_target_amount, invalid_term_months, invalid_usdc_mint, invalid_verification_period,
  math_overflow, math_underflow, mrv_baseline_missing, no_tokens_sold, not_active_or_repaying,
  not_fully_funded, not_funding, nothing_to_claim, pool_full, pool_too_many_projects,
  string_too_long, unauthorized, wrong_mint, wrong_platform, wrong_vault, zero_amount,
}
use ascertainty_contracts.Accounts.{Pubkey}
use ascertainty_contracts.Runtime.{Runtime, State}
use ascertainty_contracts.Runtime.Raises.{
  ForeignErrors, FailsIn, Raises, Raises-bind, Raises-pure, Raises-transfer, raises_rules,
}
use ascertainty_contracts.Admin
use ascertainty_contracts.Investor
use ascertainty_contracts.Mrv
use ascertainty_contracts.Program.{
  Instruction, initialize_platform, create_project, activate_project, close_project,
  distribute_repayment, withdraw_project_funds, create_pool, add_project_to_pool,
  distribute_pool_returns, buy_project_tokens, claim_project_returns, withdraw_investment,
  buy_pool_tokens, claim_pool_returns, register_mrv_project, add_auditor, submit_baseline,
  submit_verification, attest_verification, execute,
}

-- The lists under "Errors" in docs/INSTRUCTIONS.md. withdraw_project_funds has no entry there: its
-- list is read off programs/exira/src/instructions/admin/withdraw_project_funds.rs.
abbrev pub documented : Instruction → ExiraError → Bool
documented (initialize_platform ctx o p h) invalid_fee_bps = true
documented (create_project ctx id target term) unauthorized = true
documented (create_project ctx id target term) invalid_usdc_mint = true
documented (create_project ctx id target term) invalid_target_amount = true
documented (create_project ctx id target term) invalid_term_months = true
documented (create_project ctx id target term) mrv_baseline_missing = true
documented (activate_project ctx) unauthorized = true
documented (activate_project ctx) invalid_usdc_mint = true
documented (activate_project ctx) wrong_vault = true
documented (activate_project ctx) not_funding = true
documented (activate_project ctx) not_fully_funded = true
documented (activate_project ctx) math_overflow = true
documented (create_pool ctx id target) unauthorized = true
documented (create_pool ctx id target) invalid_usdc_mint = true
documented (create_pool ctx id target) invalid_target_amount = true
documented (add_project_to_pool ctx) unauthorized = true
documented (add_project_to_pool ctx) pool_too_many_projects = true
documented (distribute_repayment ctx n) unauthorized = true
documented (distribute_repayment ctx n) invalid_usdc_mint = true
documented (distribute_repayment ctx n) wrong_vault = true
documented (distribute_repayment ctx n) zero_amount = true
documented (distribute_repayment ctx n) not_active_or_repaying = true
documented (distribute_repayment ctx n) no_tokens_sold = true
documented (distribute_repayment ctx n) math_overflow = true
documented (distribute_repayment ctx n) math_underflow = true
documented (distribute_pool_returns ctx n) unauthorized = true
documented (distribute_pool_returns ctx n) invalid_usdc_mint = true
documented (distribute_pool_returns ctx n) wrong_vault = true
documented (distribute_pool_returns ctx n) zero_amount = true
documented (distribute_pool_returns ctx n) no_tokens_sold = true
documented (distribute_pool_returns ctx n) math_overflow = true
documented (distribute_pool_returns ctx n) math_underflow = true
documented (close_project ctx) unauthorized = true
documented (close_project ctx) not_active_or_repaying = true
documented (withdraw_project_funds ctx n) unauthorized = true
documented (withdraw_project_funds ctx n) invalid_usdc_mint = true
documented (withdraw_project_funds ctx n) wrong_vault = true
documented (withdraw_project_funds ctx n) zero_amount = true
documented (withdraw_project_funds ctx n) insufficient_vault_balance = true
documented (buy_project_tokens ctx n) wrong_mint = true
documented (buy_project_tokens ctx n) wrong_vault = true
documented (buy_project_tokens ctx n) zero_amount = true
documented (buy_project_tokens ctx n) not_funding = true
documented (buy_project_tokens ctx n) pool_full = true
documented (buy_project_tokens ctx n) math_overflow = true
documented (buy_project_tokens ctx n) math_underflow = true
documented (buy_pool_tokens ctx n) wrong_mint = true
documented (buy_pool_tokens ctx n) wrong_vault = true
documented (buy_pool_tokens ctx n) zero_amount = true
documented (buy_pool_tokens ctx n) not_funding = true
documented (buy_pool_tokens ctx n) pool_full = true
documented (buy_pool_tokens ctx n) math_overflow = true
documented (buy_pool_tokens ctx n) math_underflow = true
documented (claim_project_returns ctx) wrong_vault = true
documented (claim_project_returns ctx) unauthorized = true
documented (claim_project_returns ctx) wrong_platform = true
documented (claim_project_returns ctx) math_overflow = true
documented (claim_project_returns ctx) math_underflow = true
documented (claim_project_returns ctx) nothing_to_claim = true
documented (claim_project_returns ctx) insufficient_vault_balance = true
documented (claim_pool_returns ctx) wrong_vault = true
documented (claim_pool_returns ctx) unauthorized = true
documented (claim_pool_returns ctx) wrong_platform = true
documented (claim_pool_returns ctx) math_overflow = true
documented (claim_pool_returns ctx) math_underflow = true
documented (claim_pool_returns ctx) nothing_to_claim = true
documented (claim_pool_returns ctx) insufficient_vault_balance = true
documented (withdraw_investment ctx) wrong_mint = true
documented (withdraw_investment ctx) wrong_vault = true
documented (withdraw_investment ctx) unauthorized = true
documented (withdraw_investment ctx) cannot_withdraw = true
documented (withdraw_investment ctx) nothing_to_claim = true
documented (withdraw_investment ctx) math_underflow = true
documented (register_mrv_project ctx id a b c d) unauthorized = true
documented (register_mrv_project ctx id a b c d) string_too_long = true
documented (add_auditor ctx a b) unauthorized = true
documented (add_auditor ctx a b) string_too_long = true
documented (submit_baseline ctx report) auditor_inactive = true
documented (submit_baseline ctx report) unauthorized = true
documented (submit_baseline ctx report) baseline_already_submitted = true
documented (submit_baseline ctx report) string_too_long = true
documented (submit_verification ctx index report) auditor_inactive = true
documented (submit_verification ctx index report) unauthorized = true
documented (submit_verification ctx index report) mrv_baseline_missing = true
documented (submit_verification ctx index report) invalid_verification_period = true
documented (attest_verification ctx) auditor_inactive = true
documented (attest_verification ctx) unauthorized = true
documented (attest_verification ctx) already_attested = true
documented (attest_verification ctx) attestation_auditor_mismatch = true
documented _ _ = false

module _ {L : Type 0} {rt : Runtime L} (foreign_errors : ForeignErrors rt) where
  Raises-pay_fee :
      {E : ExiraError → Type 0} (b : Bool) (from to authority : Pubkey) (fee : ℕ)
      → Raises E (Admin.Projects.pay_fee rt b from to authority fee)
  unfolding Admin.Projects.pay_fee
  Raises-pay_fee true from to authority fee = Raises-transfer foreign_errors from to authority fee
  Raises-pay_fee false from to authority fee = Raises-pure tt

  execute-Raises : (i : Instruction) → Raises (λ e. documented i e ≡ true) (execute rt i)
  unfolding execute Admin.Platforms.initialize_platform Admin.Projects.create_project
      Admin.Projects.activate_project Admin.Projects.close_project Admin.Funds.distribute_repayment
      Admin.Funds.withdraw_project_funds Admin.Pools.create_pool Admin.Pools.add_project_to_pool
      Admin.Pools.distribute_pool_returns Investor.Projects.buy_project_tokens
      Investor.Projects.claim_project_returns Investor.Projects.withdraw_investment
      Investor.Pools.buy_pool_tokens Investor.Pools.claim_pool_returns
      Mrv.Registry.register_mrv_project Mrv.Registry.add_auditor Mrv.Reports.submit_baseline
      Mrv.Reports.submit_verification Mrv.Reports.attest_verification
      Admin.Platforms.load_platform_of Admin.Platforms.load_platform_usdc
      Mrv.Reports.load_auditor_of
  execute-Raises (activate_project ctx) = search (raises_rules, Raises-pay_fee) depth 60 fits 50000
  execute-Raises (buy_project_tokens ctx n) = Raises-bind _ _ (search raises_rules) λ _.
      Raises-bind _ _ (search raises_rules) λ _.
        Raises-bind _ _ (search raises_rules)
          λ _. Raises-bind _ _ (search raises_rules) λ _. search raises_rules depth 60 fits 50000
  execute-Raises (buy_pool_tokens ctx n) = Raises-bind _ _ (search raises_rules) λ _.
      Raises-bind _ _ (search raises_rules) λ _.
        Raises-bind _ _ (search raises_rules)
          λ _. Raises-bind _ _ (search raises_rules) λ _. search raises_rules depth 60 fits 50000
  execute-Raises (withdraw_investment ctx) = Raises-bind _ _ (search raises_rules) λ _.
      Raises-bind _ _ (search raises_rules) λ _. Raises-bind _ _ (search raises_rules) λ _.
        Raises-bind _ _ (search raises_rules) λ _.
          Raises-bind _ _ (search raises_rules)
            λ _. Raises-bind _ _ (search raises_rules) λ _. search raises_rules depth 60 fits 50000
  execute-Raises _ = search raises_rules depth 60 fits 50000

  -- Where an instruction ends in an error of the program, it is one that docs/INSTRUCTIONS.md lists for
  -- the instruction (for withdraw_project_funds, one that its source names). The token program ends in
  -- no error of this program.
  pub errors-documented :
      (i : Instruction) (s : State L) (e : ExiraError)
      → execute rt i s ≡ err (exira e)
      → documented i e ≡ true
  errors-documented i s e fails =
      subst (FailsIn (λ x. documented i x ≡ true)) fails ((execute-Raises i).at s)
