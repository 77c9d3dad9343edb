-- ===== src/Admin/Platforms.antt =====
-- programs/exira/src/instructions/admin/initialize_platform.rs, and the test that every admin
-- instruction makes of the platform account.
use ascertainty_contracts.Base.{ℕ, ◌==◌, ◌&&◌, leb, List, [], ◌∷◌}
use ascertainty_contracts.Constants.{platform_seed, max_fee_bps}
use ascertainty_contracts.Errors.{unauthorized, invalid_usdc_mint, invalid_fee_bps}
use ascertainty_contracts.Accounts.{Pubkey, Platform, platform_account}
use ascertainty_contracts.Runtime.{
  Seed, tag, Runtime, M, ◌>>=◌, ◌>>◌, pure, require, save, load, as_platform, check_address, init,
  load_mint,
}

abbrev pub platform_seeds : List Seed
platform_seeds = tag platform_seed ∷ []

-- `struct InitializePlatform`; a `Signer` is a key that signed the transaction.
pub record InitializePlatform : Type 0 where
  pub platform : Pubkey
  pub admin : Pubkey
  pub treasury : Pubkey
  pub usdc_mint : Pubkey

module _ {L : Type 0} (rt : Runtime L) where
  unfoldable pub initialize_platform : InitializePlatform → ℕ → ℕ → ℕ → M L (Unit {0})
  initialize_platform ctx origination_fee_bps performance_fee_bps hurdle_rate_bps = do
    bump ← init rt ctx.platform platform_seeds
    load_mint rt ctx.usdc_mint
    require
        (leb origination_fee_bps max_fee_bps
          && (leb performance_fee_bps max_fee_bps && leb hurdle_rate_bps max_fee_bps))
        invalid_fee_bps
    save ctx.platform (
        platform_account (record {
          admin = ctx.admin;
          treasury = ctx.treasury;
          usdc_mint = ctx.usdc_mint;
          origination_fee_bps = origination_fee_bps;
          performance_fee_bps = performance_fee_bps;
          hurdle_rate_bps = hurdle_rate_bps;
          project_count = 0;
          pool_count = 0;
          bump = bump;
        }))

  -- `platform` with its seeds and `has_one = admin`.
  unfoldable pub load_platform_of : Pubkey → Pubkey → M L Platform
  load_platform_of k admin = do
    platform ← load as_platform k
    check_address rt k platform_seeds platform.bump
    require (platform.admin == admin) unauthorized
    pure platform

  -- The same with `has_one = usdc_mint`.
  unfoldable pub load_platform_usdc : Pubkey → Pubkey → Pubkey → M L Platform
  load_platform_usdc k admin usdc_mint = do
    platform ← load_platform_of k admin
    require (platform.usdc_mint == usdc_mint) invalid_usdc_mint
    pure platform
