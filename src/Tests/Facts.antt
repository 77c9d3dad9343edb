-- ===== src/Tests/Facts.antt =====
-- What stands at the keys of the run in Tests/Chain.antt, by computation.
use ascertainty_contracts.Base.{◌≡◌, refl, none, some, [], ◌∷◌}
use ascertainty_contracts.Base.Store.{lookup, insert}
use ascertainty_contracts.Errors.{ok, err, exira, cannot_withdraw, nothing_to_claim}
use ascertainty_contracts.Accounts.{
  platform_account, project_account, pool_account, position_account, mrv_account,
  verification_account, auditor_account,
}
use ascertainty_contracts.Runtime.{
  ◌>>=◌, pure, require_or, ok_or, get_accounts, get_tokens, clock, invoke, save, load, init_vacant,
  init, load_position_if_any, init_position_if_needed, load_token, load_mint, load_token_of,
  init_associated, create_associated_if_needed, init_associated_if_needed,
}
use ascertainty_contracts.Base.{
  checked_add, checked_sub, checked_mul, checked_div, try_from, saturating_add,
}
use ascertainty_contracts.Admin
use ascertainty_contracts.Investor
use ascertainty_contracts.Mrv
use ascertainty_contracts.Mrv.Text.{copy_from_slice, pad_into}
use ascertainty_contracts.Program.{
  add_project_to_pool, withdraw_project_funds, withdraw_investment, distribute_repayment, execute,
  claim_project_returns, buy_pool_tokens, activate_project, attest_verification, buy_project_tokens,
}
use ascertainty_contracts.Tests.Small.{small_runtime}
use ascertainty_contracts.Tests.Chain.{
  linking, opening, auditor_key, buying, tokens_of, drawing, withdrawal, repayment, ata,
  project_key, pool_key, mrv_key, verification_key, project_position, pool_position, claim_accounts,
  start, funding, running, ending, run_all, state_of, activation, attesting, pool_purchase, holder,
}
use ascertainty_contracts.Tests.States.{
  linked, opened, sold_out, returned, burned, drained, refunded, distributed, attested, funded,
  repaid, ended, claimed, topped_up, pool_bought, activated,
}
use ascertainty_contracts.Tests.Samples.{
  project_activated, pool_topped_up, project_funded, project_repaid, project_ended, position_bought,
  position_in_pool, pool_funded, pool_ended, mrv_funded, platform_funded, verification_repaid,
  auditor_funded,
}

-- The run, by computation.
pub record Computed : Type 0 where
  pub opening_runs : run_all opening start ≡ ok opened
  pub funding_runs : run_all funding start ≡ ok funded
  pub running_runs : run_all running funded ≡ ok repaid
  pub ending_runs : run_all ending repaid ≡ ok ended
  pub project_at_funded : lookup project_key funded.accounts ≡ some (project_account project_funded)
  pub project_at_repaid : lookup project_key repaid.accounts ≡ some (project_account project_repaid)
  pub project_at_attested :
      lookup project_key attested.accounts ≡ some (project_account project_repaid)
  pub project_at_ended : lookup project_key ended.accounts ≡ some (project_account project_ended)
  pub position_at_repaid :
      lookup project_position repaid.accounts ≡ some (position_account position_bought)
  pub position_in_pool_at_ended :
      lookup pool_position ended.accounts ≡ some (position_account position_in_pool)
  pub pool_at_funded : lookup pool_key funded.accounts ≡ some (pool_account pool_funded)
  pub pool_at_ended : lookup pool_key ended.accounts ≡ some (pool_account pool_ended)
  pub mrv_at_funded : lookup mrv_key funded.accounts ≡ some (mrv_account mrv_funded)
  pub platform_at_funded : lookup 100 funded.accounts ≡ some (platform_account platform_funded)
  pub verification_at_repaid :
      lookup verification_key repaid.accounts ≡ some (verification_account verification_repaid)
  pub project_at_pool_bought :
      lookup project_key pool_bought.accounts ≡ some (project_account project_funded)
  pub pool_position_free : lookup pool_position funded.accounts ≡ none
  pub claim_executes :
      execute small_runtime (claim_project_returns claim_accounts) repaid ≡ ok (tt, claimed)
  pub top_up_executes :
      execute small_runtime (buy_pool_tokens pool_purchase 4) ended ≡ ok (tt, topped_up)
  pub purchase_executes :
      execute small_runtime (buy_pool_tokens pool_purchase 10) funded ≡ ok (tt, pool_bought)
  pub activation_executes :
      execute small_runtime (activate_project activation) pool_bought ≡ ok (tt, activated)
  pub attestation_executes :
      execute small_runtime (attest_verification attesting) claimed ≡ ok (tt, attested)
  pub purchase_alone : run_all (buy_pool_tokens pool_purchase 10 ∷ []) funded ≡ ok pool_bought
  pub ata_at_repaid : lookup (ata 11 50) repaid.tokens ≡ some (holder 11 890)
  pub vault_at_repaid : lookup (ata project_key 50) repaid.tokens ≡ some (holder project_key 129)
  pub claim_transfers :
      small_runtime.transfer (ata project_key 50) (ata 11 50) project_key 30 repaid.tokens
      ≡ ok claimed.tokens
  pub withdrawal_executes :
      execute small_runtime (withdraw_investment withdrawal) funded ≡ ok (tt, refunded)
  pub repayment_executes :
      execute small_runtime (distribute_repayment repayment 30) activated ≡ ok (tt, distributed)
  pub drawing_executes :
      execute small_runtime (withdraw_project_funds drawing 128) repaid ≡ ok (tt, drained)
  pub withdrawal_fails :
      execute small_runtime (withdraw_investment withdrawal) repaid ≡ err (exira cannot_withdraw)
  pub claim_fails :
      execute small_runtime (claim_project_returns claim_accounts) claimed
      ≡ err (exira nothing_to_claim)
  pub auditor_at_funded : lookup auditor_key funded.accounts ≡ some (auditor_account auditor_funded)
  pub position_free : lookup project_position opened.accounts ≡ none
  pub sale_executes :
      execute small_runtime (buy_project_tokens buying 100) opened ≡ ok (tt, sold_out)
  pub return_executes :
      execute small_runtime (withdraw_investment withdrawal) sold_out ≡ ok (tt, returned)
  pub position_at_funded :
      lookup project_position funded.accounts ≡ some (position_account position_bought)
  pub token_ata_at_funded :
      lookup (ata 11 60) funded.tokens ≡ some (record { mint = 60; owner = 11; amount = 100 })
  pub usdc_ata_at_funded : lookup (ata 11 50) funded.tokens ≡ some (holder 11 900)
  pub vault_at_funded : lookup (ata project_key 50) funded.tokens ≡ some (holder project_key 100)
  pub tokens_burned : small_runtime.burn 60 (ata 11 60) 11 100 funded.tokens ≡ ok burned
  pub tokens_refunded :
      small_runtime.transfer (ata project_key 50) (ata 11 50) project_key 100 burned
      ≡ ok refunded.tokens
  pub project_at_activated :
      lookup project_key activated.accounts ≡ some (project_account project_activated)
  pub pool_at_topped_up : lookup pool_key topped_up.accounts ≡ some (pool_account pool_topped_up)
  pub linking_executes :
      execute small_runtime (add_project_to_pool linking) funded ≡ ok (tt, linked)

pub computed : Computed
unfolding linked Admin.Pools.add_project_to_pool opened sold_out returned burned tokens_of drained
    Admin.Funds.withdraw_project_funds refunded distributed attested run_all state_of funded repaid
    ended claimed topped_up pool_bought activated execute lookup insert checked_add checked_sub
    checked_mul checked_div try_from saturating_add copy_from_slice pad_into ◌>>=◌ pure require_or
    ok_or get_accounts get_tokens clock invoke save load init_vacant init load_position_if_any
    init_position_if_needed load_token load_mint load_token_of init_associated
    create_associated_if_needed init_associated_if_needed Admin.Platforms.initialize_platform
    Admin.Platforms.load_platform_of Admin.Platforms.load_platform_usdc
    Admin.Projects.create_project Admin.Projects.activate_project Admin.Projects.pay_fee
    Admin.Projects.close_project Admin.Funds.distribute_repayment Admin.Pools.create_pool
    Admin.Pools.distribute_pool_returns Investor.Projects.buy_project_tokens
    Investor.Projects.claim_project_returns Investor.Projects.withdraw_investment
    Investor.Pools.buy_pool_tokens Mrv.Registry.register_mrv_project Mrv.Registry.add_auditor
    Mrv.Reports.load_auditor_of Mrv.Reports.submit_baseline Mrv.Reports.submit_verification
    Mrv.Reports.attest_verification
computed = record {
  opening_runs = refl;
  funding_runs = refl;
  running_runs = refl;
  ending_runs = refl;
  project_at_funded = refl;
  project_at_repaid = refl;
  project_at_attested = refl;
  project_at_ended = refl;
  position_at_repaid = refl;
  position_in_pool_at_ended = refl;
  pool_at_funded = refl;
  pool_at_ended = refl;
  mrv_at_funded = refl;
  platform_at_funded = refl;
  verification_at_repaid = refl;
  project_at_pool_bought = refl;
  pool_position_free = refl;
  claim_executes = refl;
  top_up_executes = refl;
  purchase_executes = refl;
  activation_executes = refl;
  attestation_executes = refl;
  purchase_alone = refl;
  ata_at_repaid = refl;
  vault_at_repaid = refl;
  claim_transfers = refl;
  withdrawal_executes = refl;
  repayment_executes = refl;
  drawing_executes = refl;
  withdrawal_fails = refl;
  claim_fails = refl;
  auditor_at_funded = refl;
  position_free = refl;
  sale_executes = refl;
  return_executes = refl;
  position_at_funded = refl;
  token_ata_at_funded = refl;
  usdc_ata_at_funded = refl;
  vault_at_funded = refl;
  tokens_burned = refl;
  tokens_refunded = refl;
  project_at_activated = refl;
  pool_at_topped_up = refl;
  linking_executes = refl;
}
