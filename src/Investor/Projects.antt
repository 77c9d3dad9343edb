-- ===== src/Investor/Projects.antt =====
-- programs/exira/src/instructions/investor: buy_project_tokens.rs, claim_project_returns.rs,
-- withdraw_investment.rs.
use ascertainty_contracts.Base.{
  ℕ, ◌/◌, ◌==◌, ◌||◌, ltb, leb, if◌then◌else◌, checked_add, checked_sub, checked_mul, try_from,
  u64_size, u128_size,
}
use ascertainty_contracts.Constants.{precision}
use ascertainty_contracts.Errors.{
  unauthorized, wrong_vault, wrong_mint, wrong_platform, zero_amount, not_funding, pool_full,
  cannot_withdraw, nothing_to_claim, insufficient_vault_balance, math_overflow, math_underflow,
}
use ascertainty_contracts.Accounts.{
  Pubkey, default_key, ProjectStatus, project_status_eq, InvestorPosition, project_account,
  position_account,
}
use ascertainty_contracts.Runtime.{
  Runtime, M, ◌>>=◌, ◌>>◌, require, ok_or, invoke, save, load, as_project, as_position,
  position_seeds, check_address, init_position_if_needed, load_token, load_token_of, load_mint,
  init_associated_if_needed,
}
use ascertainty_contracts.Admin.Projects.{project_seeds}

pub record BuyProjectTokens : Type 0 where
  pub project : Pubkey
  pub token_mint : Pubkey
  pub usdc_vault : Pubkey
  pub investor : Pubkey
  pub investor_usdc_ata : Pubkey
  pub investor_token_ata : Pubkey
  pub position : Pubkey
  pub usdc_mint : Pubkey

pub record ClaimProjectReturns : Type 0 where
  pub project : Pubkey
  pub usdc_vault : Pubkey
  pub investor : Pubkey
  pub position : Pubkey
  pub investor_usdc_ata : Pubkey
  pub usdc_mint : Pubkey

pub record WithdrawInvestment : Type 0 where
  pub project : Pubkey
  pub token_mint : Pubkey
  pub usdc_vault : Pubkey
  pub investor : Pubkey
  pub position : Pubkey
  pub investor_token_ata : Pubkey
  pub investor_usdc_ata : Pubkey
  pub usdc_mint : Pubkey

-- A new position takes its owner, its target and the accumulator as its baseline.
abbrev pub opened_position : InvestorPosition → Pubkey → Pubkey → ℕ → ℕ → InvestorPosition
opened_position position investor target cumulative bump =
    if position.owner == default_key
    then record position {
      owner = investor;
      target = target;
      last_claimed_per_token = cumulative;
      total_claimed = 0;
      bump = bump;
    }
    else position

module _ {L : Type 0} (rt : Runtime L) where
  unfoldable pub buy_project_tokens : BuyProjectTokens → ℕ → M L (Unit {0})
  buy_project_tokens ctx amount = do
    project ← load as_project ctx.project
    check_address rt ctx.project (project_seeds project.project_id) project.bump
    require (project.token_mint == ctx.token_mint) wrong_mint
    require (project.usdc_vault == ctx.usdc_vault) wrong_vault
    load_mint rt ctx.token_mint
    vault ← load_token rt ctx.usdc_vault
    usdc_ata ← load_token_of rt ctx.investor_usdc_ata ctx.usdc_mint ctx.investor
    init_associated_if_needed rt ctx.investor_token_ata ctx.token_mint ctx.investor
    opened ← init_position_if_needed rt ctx.position (position_seeds ctx.project ctx.investor)
    load_mint rt ctx.usdc_mint
    require (ltb 0 amount) zero_amount
    require (project_status_eq project.status ProjectStatus.funding) not_funding
    remaining ← ok_or (checked_sub project.target_amount project.tokens_sold) math_underflow
    require (leb amount remaining) pool_full
    invoke (rt.transfer ctx.investor_usdc_ata ctx.usdc_vault ctx.investor amount)
    invoke (rt.mint_to ctx.token_mint ctx.investor_token_ata ctx.project amount)
    let position =
        opened_position opened.0 ctx.investor ctx.project project.cumulative_usdc_per_token opened.1
    held ← ok_or (checked_add u64_size position.tokens_held amount) math_overflow
    sold ← ok_or (checked_add u64_size project.tokens_sold amount) math_overflow
    save ctx.project (project_account (record project { tokens_sold = sold }))
    save ctx.position (position_account (record position { tokens_held = held }))

  unfoldable pub claim_project_returns : ClaimProjectReturns → M L (Unit {0})
  claim_project_returns ctx = do
    project ← load as_project ctx.project
    check_address rt ctx.project (project_seeds project.project_id) project.bump
    require (project.usdc_vault == ctx.usdc_vault) wrong_vault
    position ← load as_position ctx.position
    check_address rt ctx.position (position_seeds ctx.project ctx.investor) position.bump
    require (position.owner == ctx.investor) unauthorized
    require (position.target == ctx.project) wrong_platform
    init_associated_if_needed rt ctx.investor_usdc_ata ctx.usdc_mint ctx.investor
    vault ← load_token rt ctx.usdc_vault
    load_mint rt ctx.usdc_mint
    delta ←
        ok_or (checked_sub project.cumulative_usdc_per_token position.last_claimed_per_token)
          math_underflow
    owed_scaled ← ok_or (checked_mul u128_size position.tokens_held delta) math_overflow
    owed ← ok_or (try_from u64_size (owed_scaled / precision)) math_overflow
    require (ltb 0 owed) nothing_to_claim
    require (leb owed vault.amount) insufficient_vault_balance
    invoke (rt.transfer ctx.usdc_vault ctx.investor_usdc_ata ctx.project owed)
    claimed ← ok_or (checked_add u64_size position.total_claimed owed) math_overflow
    save ctx.position (
        position_account (record position {
          last_claimed_per_token = project.cumulative_usdc_per_token;
          total_claimed = claimed;
        }))

  unfoldable pub withdraw_investment : WithdrawInvestment → M L (Unit {0})
  withdraw_investment ctx = do
    project ← load as_project ctx.project
    check_address rt ctx.project (project_seeds project.project_id) project.bump
    require (project.token_mint == ctx.token_mint) wrong_mint
    require (project.usdc_vault == ctx.usdc_vault) wrong_vault
    load_mint rt ctx.token_mint
    vault ← load_token rt ctx.usdc_vault
    position ← load as_position ctx.position
    check_address rt ctx.position (position_seeds ctx.project ctx.investor) position.bump
    require (position.owner == ctx.investor) unauthorized
    token_ata ← load_token_of rt ctx.investor_token_ata ctx.token_mint ctx.investor
    usdc_ata ← load_token_of rt ctx.investor_usdc_ata ctx.usdc_mint ctx.investor
    load_mint rt ctx.usdc_mint
    require
        (project_status_eq project.status ProjectStatus.funding
          || project_status_eq project.status ProjectStatus.cancelled)
        cannot_withdraw
    let amount = position.tokens_held
    require (ltb 0 amount) nothing_to_claim
    invoke (rt.burn ctx.token_mint ctx.investor_token_ata ctx.investor amount)
    invoke (rt.transfer ctx.usdc_vault ctx.investor_usdc_ata ctx.project amount)
    sold ← ok_or (checked_sub project.tokens_sold amount) math_underflow
    save ctx.project (project_account (record project { tokens_sold = sold }))
    save ctx.position (position_account (record position { tokens_held = 0 }))
