-- ===== src/Admin/Funds.antt =====
-- programs/exira/src/instructions/admin: distribute_repayment.rs, withdraw_project_funds.rs.
use ascertainty_contracts.Base.{
  ℕ, ◌==◌, ◌||◌, ltb, leb, if◌then◌else◌, checked_add, checked_mul, checked_div, u64_size,
  u128_size,
}
use ascertainty_contracts.Constants.{precision}
use ascertainty_contracts.Errors.{
  wrong_vault, zero_amount, not_active_or_repaying, no_tokens_sold, math_overflow, math_underflow,
  insufficient_vault_balance, constraint_token_mint,
}
use ascertainty_contracts.Accounts.{Pubkey, ProjectStatus, project_status_eq, project_account}
use ascertainty_contracts.Runtime.{
  Runtime, M, ◌>>=◌, ◌>>◌, require, constrain, ok_or, invoke, save, load, as_project, check_address,
  load_token, load_token_of, load_mint,
}
use ascertainty_contracts.Admin.Platforms.{load_platform_usdc}
use ascertainty_contracts.Admin.Projects.{project_seeds}

pub record DistributeRepayment : Type 0 where
  pub platform : Pubkey
  pub admin : Pubkey
  pub project : Pubkey
  pub admin_usdc_ata : Pubkey
  pub usdc_vault : Pubkey
  pub usdc_mint : Pubkey

pub record WithdrawProjectFunds : Type 0 where
  pub platform : Pubkey
  pub admin : Pubkey
  pub project : Pubkey
  pub usdc_vault : Pubkey
  pub destination : Pubkey
  pub usdc_mint : Pubkey

module _ {L : Type 0} (rt : Runtime L) where
  unfoldable pub distribute_repayment : DistributeRepayment → ℕ → M L (Unit {0})
  distribute_repayment ctx amount = do
    platform ← load_platform_usdc rt ctx.platform ctx.admin ctx.usdc_mint
    project ← load as_project ctx.project
    check_address rt ctx.project (project_seeds project.project_id) project.bump
    require (project.usdc_vault == ctx.usdc_vault) wrong_vault
    ata ← load_token_of rt ctx.admin_usdc_ata ctx.usdc_mint ctx.admin
    vault ← load_token rt ctx.usdc_vault
    load_mint rt ctx.usdc_mint
    require (ltb 0 amount) zero_amount
    require
        (project_status_eq project.status ProjectStatus.active
          || project_status_eq project.status ProjectStatus.repaying)
        not_active_or_repaying
    require (ltb 0 project.tokens_sold) no_tokens_sold
    invoke (rt.transfer ctx.admin_usdc_ata ctx.usdc_vault ctx.admin amount)
    amount_scaled ← ok_or (checked_mul u128_size amount precision) math_overflow
    delta_per_token ← ok_or (checked_div amount_scaled project.tokens_sold) math_underflow
    cumulative ←
        ok_or (checked_add u128_size project.cumulative_usdc_per_token delta_per_token)
          math_overflow
    distributed ← ok_or (checked_add u64_size project.total_distributed amount) math_overflow
    save ctx.project (
        project_account (record project {
          cumulative_usdc_per_token = cumulative;
          total_distributed = distributed;
          status =
              if project_status_eq project.status ProjectStatus.active
              then ProjectStatus.repaying
              else project.status;
        }))

  unfoldable pub withdraw_project_funds : WithdrawProjectFunds → ℕ → M L (Unit {0})
  withdraw_project_funds ctx amount = do
    platform ← load_platform_usdc rt ctx.platform ctx.admin ctx.usdc_mint
    project ← load as_project ctx.project
    check_address rt ctx.project (project_seeds project.project_id) project.bump
    require (project.usdc_vault == ctx.usdc_vault) wrong_vault
    vault ← load_token rt ctx.usdc_vault
    destination ← load_token rt ctx.destination
    constrain (destination.mint == ctx.usdc_mint) constraint_token_mint
    load_mint rt ctx.usdc_mint
    require (ltb 0 amount) zero_amount
    require (leb amount vault.amount) insufficient_vault_balance
    invoke (rt.transfer ctx.usdc_vault ctx.destination ctx.project amount)
    save ctx.project (project_account project)
