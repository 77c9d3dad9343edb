-- ===== src/Investor/Pools.antt =====
-- programs/exira/src/instructions/investor: buy_pool_tokens.rs, claim_pool_returns.rs.
use ascertainty_contracts.Base.{
  ℕ, ◌/◌, ◌==◌, ltb, leb, checked_add, checked_sub, checked_mul, try_from, u64_size, u128_size,
}
use ascertainty_contracts.Constants.{precision}
use ascertainty_contracts.Errors.{
  unauthorized, wrong_vault, wrong_mint, wrong_platform, zero_amount, not_funding, pool_full,
  nothing_to_claim, insufficient_vault_balance, math_overflow, math_underflow,
}
use ascertainty_contracts.Accounts.{
  Pubkey, PoolStatus, pool_status_eq, pool_account, position_account,
}
use ascertainty_contracts.Runtime.{
  Runtime, M, ◌>>=◌, ◌>>◌, require, ok_or, invoke, save, load, as_pool, as_position, position_seeds,
  check_address, init_position_if_needed, load_token, load_token_of, load_mint,
  init_associated_if_needed,
}
use ascertainty_contracts.Admin.Pools.{pool_seeds}
use ascertainty_contracts.Investor.Projects.{opened_position}

pub record BuyPoolTokens : Type 0 where
  pub pool : Pubkey
  pub pool_token_mint : Pubkey
  pub usdc_vault : Pubkey
  pub investor : Pubkey
  pub investor_usdc_ata : Pubkey
  pub investor_pool_token_ata : Pubkey
  pub position : Pubkey
  pub usdc_mint : Pubkey

pub record ClaimPoolReturns : Type 0 where
  pub pool : Pubkey
  pub usdc_vault : Pubkey
  pub investor : Pubkey
  pub position : Pubkey
  pub investor_usdc_ata : Pubkey
  pub usdc_mint : Pubkey

module _ {L : Type 0} (rt : Runtime L) where
  unfoldable pub buy_pool_tokens : BuyPoolTokens → ℕ → M L (Unit {0})
  buy_pool_tokens ctx amount = do
    pool ← load as_pool ctx.pool
    check_address rt ctx.pool (pool_seeds pool.pool_id) pool.bump
    require (pool.pool_token_mint == ctx.pool_token_mint) wrong_mint
    require (pool.usdc_vault == ctx.usdc_vault) wrong_vault
    load_mint rt ctx.pool_token_mint
    vault ← load_token rt ctx.usdc_vault
    usdc_ata ← load_token_of rt ctx.investor_usdc_ata ctx.usdc_mint ctx.investor
    init_associated_if_needed rt ctx.investor_pool_token_ata ctx.pool_token_mint ctx.investor
    opened ← init_position_if_needed rt ctx.position (position_seeds ctx.pool ctx.investor)
    load_mint rt ctx.usdc_mint
    require (ltb 0 amount) zero_amount
    require (pool_status_eq pool.status PoolStatus.funding) not_funding
    remaining ← ok_or (checked_sub pool.target_amount pool.tokens_sold) math_underflow
    require (leb amount remaining) pool_full
    invoke (rt.transfer ctx.investor_usdc_ata ctx.usdc_vault ctx.investor amount)
    invoke (rt.mint_to ctx.pool_token_mint ctx.investor_pool_token_ata ctx.pool amount)
    let position =
        opened_position opened.0 ctx.investor ctx.pool pool.cumulative_usdc_per_token opened.1
    held ← ok_or (checked_add u64_size position.tokens_held amount) math_overflow
    sold ← ok_or (checked_add u64_size pool.tokens_sold amount) math_overflow
    save ctx.pool (pool_account (record pool { tokens_sold = sold }))
    save ctx.position (position_account (record position { tokens_held = held }))

  unfoldable pub claim_pool_returns : ClaimPoolReturns → M L (Unit {0})
  claim_pool_returns ctx = do
    pool ← load as_pool ctx.pool
    check_address rt ctx.pool (pool_seeds pool.pool_id) pool.bump
    require (pool.usdc_vault == ctx.usdc_vault) wrong_vault
    position ← load as_position ctx.position
    check_address rt ctx.position (position_seeds ctx.pool ctx.investor) position.bump
    require (position.owner == ctx.investor) unauthorized
    require (position.target == ctx.pool) wrong_platform
    init_associated_if_needed rt ctx.investor_usdc_ata ctx.usdc_mint ctx.investor
    vault ← load_token rt ctx.usdc_vault
    load_mint rt ctx.usdc_mint
    delta ←
        ok_or (checked_sub pool.cumulative_usdc_per_token position.last_claimed_per_token)
          math_underflow
    owed_scaled ← ok_or (checked_mul u128_size position.tokens_held delta) math_overflow
    owed ← ok_or (try_from u64_size (owed_scaled / precision)) math_overflow
    require (ltb 0 owed) nothing_to_claim
    require (leb owed vault.amount) insufficient_vault_balance
    invoke (rt.transfer ctx.usdc_vault ctx.investor_usdc_ata ctx.pool owed)
    claimed ← ok_or (checked_add u64_size position.total_claimed owed) math_overflow
    save ctx.position (
        position_account (record position {
          last_claimed_per_token = pool.cumulative_usdc_per_token;
          total_claimed = claimed;
        }))
