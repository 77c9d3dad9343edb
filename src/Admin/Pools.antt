-- ===== src/Admin/Pools.antt =====
-- programs/exira/src/instructions/admin: create_pool.rs, add_project_to_pool.rs,
-- distribute_pool_returns.rs.
use ascertainty_contracts.Base.{
  ℕ, ◌==◌, ltb, List, [], ◌∷◌, checked_add, checked_mul, checked_div, saturating_add, u16_size,
  u64_size, u128_size,
}
use ascertainty_contracts.Constants.{
  pool_seed, pool_link_seed, exira_token_decimals, max_pool_projects_v1, precision,
}
use ascertainty_contracts.Errors.{
  invalid_target_amount, pool_too_many_projects, wrong_vault, zero_amount, no_tokens_sold,
  math_overflow, math_underflow,
}
use ascertainty_contracts.Accounts.{
  Pubkey, PoolStatus, platform_account, pool_account, link_account,
}
use ascertainty_contracts.Runtime.{
  Seed, tag, le_bytes, key, Runtime, M, ◌>>=◌, ◌>>◌, require, ok_or, clock, invoke, save, load,
  as_project, as_pool, check_address, init, load_token, load_token_of, load_mint, init_associated,
}
use ascertainty_contracts.Admin.Platforms.{load_platform_of, load_platform_usdc}
use ascertainty_contracts.Admin.Projects.{project_seeds}

abbrev pub pool_seeds : ℕ → List Seed
pool_seeds id = tag pool_seed ∷ le_bytes id ∷ []

abbrev pub pool_link_seeds : Pubkey → Pubkey → List Seed
pool_link_seeds pool project = tag pool_link_seed ∷ key pool ∷ key project ∷ []

pub record CreatePool : Type 0 where
  pub platform : Pubkey
  pub admin : Pubkey
  pub pool : Pubkey
  pub pool_token_mint : Pubkey
  pub usdc_vault : Pubkey
  pub usdc_mint : Pubkey

pub record AddProjectToPool : Type 0 where
  pub platform : Pubkey
  pub admin : Pubkey
  pub pool : Pubkey
  pub project : Pubkey
  pub pool_project_link : Pubkey

pub record DistributePoolReturns : Type 0 where
  pub platform : Pubkey
  pub admin : Pubkey
  pub pool : Pubkey
  pub admin_usdc_ata : Pubkey
  pub usdc_vault : Pubkey
  pub usdc_mint : Pubkey

module _ {L : Type 0} (rt : Runtime L) where
  unfoldable pub create_pool : CreatePool → ℕ → ℕ → M L (Unit {0})
  create_pool ctx pool_id target_amount = do
    platform ← load_platform_usdc rt ctx.platform ctx.admin ctx.usdc_mint
    bump ← init rt ctx.pool (pool_seeds pool_id)
    invoke (rt.init_mint ctx.pool_token_mint exira_token_decimals ctx.pool ctx.pool)
    init_associated rt ctx.usdc_vault ctx.usdc_mint ctx.pool
    load_mint rt ctx.usdc_mint
    require (ltb 0 target_amount) invalid_target_amount
    now ← clock
    save ctx.platform (
        platform_account
          (record platform { pool_count = saturating_add u64_size platform.pool_count 1 }))
    save ctx.pool (
        pool_account (record {
          pool_id = pool_id;
          pool_token_mint = ctx.pool_token_mint;
          usdc_vault = ctx.usdc_vault;
          target_amount = target_amount;
          tokens_sold = 0;
          total_distributed = 0;
          cumulative_usdc_per_token = 0;
          underlying_project_count = 0;
          status = PoolStatus.funding;
          created_at = now;
          bump = bump;
        }))

  unfoldable pub add_project_to_pool : AddProjectToPool → M L (Unit {0})
  add_project_to_pool ctx = do
    platform ← load_platform_of rt ctx.platform ctx.admin
    pool ← load as_pool ctx.pool
    check_address rt ctx.pool (pool_seeds pool.pool_id) pool.bump
    project ← load as_project ctx.project
    check_address rt ctx.project (project_seeds project.project_id) project.bump
    bump ← init rt ctx.pool_project_link (pool_link_seeds ctx.pool ctx.project)
    require (ltb pool.underlying_project_count max_pool_projects_v1) pool_too_many_projects
    save ctx.pool (
        pool_account (record pool {
          underlying_project_count = saturating_add u16_size pool.underlying_project_count 1;
        }))
    save ctx.pool_project_link (
        link_account
          (record { pool = ctx.pool; project = ctx.project; project_tokens_held = 0; bump = bump }))

  unfoldable pub distribute_pool_returns : DistributePoolReturns → ℕ → M L (Unit {0})
  distribute_pool_returns ctx amount = do
    platform ← load_platform_usdc rt ctx.platform ctx.admin ctx.usdc_mint
    pool ← load as_pool ctx.pool
    check_address rt ctx.pool (pool_seeds pool.pool_id) pool.bump
    require (pool.usdc_vault == ctx.usdc_vault) wrong_vault
    ata ← load_token_of rt ctx.admin_usdc_ata ctx.usdc_mint ctx.admin
    vault ← load_token rt ctx.usdc_vault
    load_mint rt ctx.usdc_mint
    require (ltb 0 amount) zero_amount
    require (ltb 0 pool.tokens_sold) no_tokens_sold
    invoke (rt.transfer ctx.admin_usdc_ata ctx.usdc_vault ctx.admin amount)
    amount_scaled ← ok_or (checked_mul u128_size amount precision) math_overflow
    delta_per_token ← ok_or (checked_div amount_scaled pool.tokens_sold) math_underflow
    cumulative ←
        ok_or (checked_add u128_size pool.cumulative_usdc_per_token delta_per_token) math_overflow
    distributed ← ok_or (checked_add u64_size pool.total_distributed amount) math_overflow
    save ctx.pool (
        pool_account
          (record pool { cumulative_usdc_per_token = cumulative; total_distributed = distributed }))
