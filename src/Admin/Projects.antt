-- ===== src/Admin/Projects.antt =====
-- programs/exira/src/instructions/admin: create_project.rs, activate_project.rs, close_project.rs.
use ascertainty_contracts.Base.{
  ℕ, ◌/◌, ◌%◌, ◌==◌, ◌&&◌, ◌||◌, Bool, true, false, ltb, leb, List, [], ◌∷◌, checked_mul,
  saturating_add, u64_size, u128_size,
}
use ascertainty_contracts.Base.Int.{pos}
use ascertainty_contracts.Constants.{
  project_seed, exira_token_decimals, min_term_months, max_term_months,
}
use ascertainty_contracts.Errors.{
  invalid_usdc_mint, unauthorized, mrv_baseline_missing, invalid_target_amount, invalid_term_months,
  wrong_vault, not_funding, not_fully_funded, not_active_or_repaying, math_overflow,
}
use ascertainty_contracts.Accounts.{
  Pubkey, ProjectStatus, project_status_eq, platform_account, project_account,
}
use ascertainty_contracts.Runtime.{
  Seed, tag, le_bytes, Runtime, M, ◌>>=◌, ◌>>◌, pure, require, ok_or, clock, invoke, save, load,
  as_project, as_mrv_project, check_address, init, load_token, load_token_of, load_mint,
  init_associated,
}
use ascertainty_contracts.Admin.Platforms.{load_platform_of, load_platform_usdc}

abbrev pub project_seeds : ℕ → List Seed
project_seeds id = tag project_seed ∷ le_bytes id ∷ []

pub record CreateProject : Type 0 where
  pub platform : Pubkey
  pub admin : Pubkey
  pub mrv_project : Pubkey
  pub project : Pubkey
  pub token_mint : Pubkey
  pub usdc_vault : Pubkey
  pub usdc_mint : Pubkey

pub record ActivateProject : Type 0 where
  pub platform : Pubkey
  pub admin : Pubkey
  pub project : Pubkey
  pub usdc_vault : Pubkey
  pub treasury_usdc_ata : Pubkey
  pub treasury : Pubkey
  pub usdc_mint : Pubkey

pub record CloseProject : Type 0 where
  pub platform : Pubkey
  pub admin : Pubkey
  pub project : Pubkey

module _ {L : Type 0} (rt : Runtime L) where
  unfoldable pub create_project : CreateProject → ℕ → ℕ → ℕ → M L (Unit {0})
  create_project ctx project_id target_amount term_months = do
    platform ← load_platform_usdc rt ctx.platform ctx.admin ctx.usdc_mint
    mrv_project ← load as_mrv_project ctx.mrv_project
    require mrv_project.baseline_submitted mrv_baseline_missing
    bump ← init rt ctx.project (project_seeds project_id)
    invoke (rt.init_mint ctx.token_mint exira_token_decimals ctx.project ctx.project)
    init_associated rt ctx.usdc_vault ctx.usdc_mint ctx.project
    load_mint rt ctx.usdc_mint
    require (ltb 0 target_amount) invalid_target_amount
    require (leb min_term_months term_months && leb term_months max_term_months) invalid_term_months
    now ← clock
    save ctx.platform (
        platform_account
          (record platform { project_count = saturating_add u64_size platform.project_count 1 }))
    save ctx.project (
        project_account (record {
          project_id = project_id;
          mrv_project = ctx.mrv_project;
          token_mint = ctx.token_mint;
          usdc_vault = ctx.usdc_vault;
          target_amount = target_amount;
          tokens_sold = 0;
          total_distributed = 0;
          cumulative_usdc_per_token = 0;
          term_months = term_months;
          status = ProjectStatus.funding;
          activated_at = pos 0;
          created_at = now;
          origination_fee_collected = 0;
          bump = bump;
        }))

  -- `if fee_amount > 0 { token::transfer(...)?; }`
  unfoldable pub pay_fee : Bool → Pubkey → Pubkey → Pubkey → ℕ → M L (Unit {0})
  pay_fee true from to authority fee_amount = invoke (rt.transfer from to authority fee_amount)
  pay_fee false from to authority fee_amount = pure tt

  unfoldable pub activate_project : ActivateProject → M L (Unit {0})
  activate_project ctx = do
    platform ← load_platform_of rt ctx.platform ctx.admin
    require (platform.treasury == ctx.treasury) unauthorized
    require (platform.usdc_mint == ctx.usdc_mint) invalid_usdc_mint
    project ← load as_project ctx.project
    check_address rt ctx.project (project_seeds project.project_id) project.bump
    require (project.usdc_vault == ctx.usdc_vault) wrong_vault
    vault ← load_token rt ctx.usdc_vault
    ata ← load_token_of rt ctx.treasury_usdc_ata ctx.usdc_mint ctx.treasury
    load_mint rt ctx.usdc_mint
    require (project_status_eq project.status ProjectStatus.funding) not_funding
    require (project.tokens_sold == project.target_amount) not_fully_funded
    scaled ←
        ok_or (checked_mul u128_size project.target_amount platform.origination_fee_bps)
          math_overflow
    let fee_amount = (scaled / 10_000) % u64_size
    pay_fee (ltb 0 fee_amount) ctx.usdc_vault ctx.treasury_usdc_ata ctx.project fee_amount
    now ← clock
    save ctx.project (
        project_account (record project {
          status = ProjectStatus.active;
          activated_at = now;
          origination_fee_collected = fee_amount;
        }))

  unfoldable pub close_project : CloseProject → M L (Unit {0})
  close_project ctx = do
    platform ← load_platform_of rt ctx.platform ctx.admin
    project ← load as_project ctx.project
    check_address rt ctx.project (project_seeds project.project_id) project.bump
    require
        (project_status_eq project.status ProjectStatus.repaying
          || project_status_eq project.status ProjectStatus.active)
        not_active_or_repaying
    save ctx.project (project_account (record project { status = ProjectStatus.completed }))
