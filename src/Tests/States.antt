-- ===== src/Tests/States.antt =====
-- The states of the run in Tests/Chain.antt.
use ascertainty_contracts.Base.{[], ◌∷◌}
use ascertainty_contracts.Base.Int.{pos}
use ascertainty_contracts.Runtime.{State}
use ascertainty_contracts.Mrv.Reports.{baseline_seeds}
use ascertainty_contracts.Program.{
  add_project_to_pool, withdraw_project_funds, withdraw_investment, activate_project,
  distribute_repayment, buy_project_tokens, claim_project_returns, buy_pool_tokens,
  attest_verification,
}
use ascertainty_contracts.Accounts.{
  platform_account, project_account, pool_account, position_account, mrv_account, baseline_account,
  verification_account, auditor_account,
}
use ascertainty_contracts.Tests.Small.{Tokens, address, small_runtime}
use ascertainty_contracts.Tests.Chain.{
  linking, ata, project_key, pool_key, mrv_key, auditor_key, verification_key, project_position,
  pool_position, claim_accounts, pool_purchase, activation, attesting, withdrawal, repayment,
  drawing, buying, ending, run_all, state_of, tokens_of, holder,
}
use ascertainty_contracts.Tests.Samples.{
  platform_funded, mrv_funded, mrv_ended, auditor_funded, baseline_funded, project_opened,
  project_funded, project_repaid, position_bought, position_in_pool, pool_funded, pool_ended,
  verification_repaid,
}

-- After `opening`, after `funding`, after `running` and after single instructions.
unfoldable pub opened : State Tokens
opened = record {
  accounts =
      (100, platform_account (record platform_funded { pool_count = 0 }))
      ∷ (mrv_key, mrv_account mrv_funded)
      ∷ (auditor_key, auditor_account auditor_funded)
      ∷ (address (baseline_seeds mrv_key) 255, baseline_account baseline_funded)
      ∷ (project_key, project_account project_opened)
      ∷ [];
  tokens =
      (ata 1 50, holder 1 1_000)
      ∷ (ata 2 50, holder 2 0)
      ∷ (ata 11 50, holder 11 1_000)
      ∷ (ata project_key 50, holder project_key 0)
      ∷ [];
  unix_timestamp = pos 5;
}

unfoldable pub funded : State Tokens
funded = record {
  accounts =
      (100, platform_account platform_funded)
      ∷ (mrv_key, mrv_account mrv_funded)
      ∷ (auditor_key, auditor_account auditor_funded)
      ∷ (address (baseline_seeds mrv_key) 255, baseline_account baseline_funded)
      ∷ (project_key, project_account project_funded)
      ∷ (project_position, position_account position_bought)
      ∷ (pool_key, pool_account pool_funded)
      ∷ [];
  tokens =
      (ata 1 50, holder 1 1_000)
      ∷ (ata 2 50, holder 2 0)
      ∷ (ata 11 50, holder 11 900)
      ∷ (ata project_key 50, holder project_key 100)
      ∷ (ata 11 60, record { mint = 60; owner = 11; amount = 100 })
      ∷ (ata pool_key 50, holder pool_key 0)
      ∷ [];
  unix_timestamp = pos 5;
}

unfoldable pub repaid : State Tokens
repaid = record {
  accounts =
      (100, platform_account platform_funded)
      ∷ (mrv_key, mrv_account mrv_ended)
      ∷ (auditor_key, auditor_account auditor_funded)
      ∷ (address (baseline_seeds mrv_key) 255, baseline_account baseline_funded)
      ∷ (project_key, project_account project_repaid)
      ∷ (project_position, position_account position_bought)
      ∷ (pool_key, pool_account pool_ended)
      ∷ (pool_position, position_account position_in_pool)
      ∷ (verification_key, verification_account verification_repaid)
      ∷ [];
  tokens =
      (ata 1 50, holder 1 965)
      ∷ (ata 2 50, holder 2 1)
      ∷ (ata 11 50, holder 11 890)
      ∷ (ata project_key 50, holder project_key 129)
      ∷ (ata 11 60, record { mint = 60; owner = 11; amount = 100 })
      ∷ (ata pool_key 50, holder pool_key 15)
      ∷ (ata 11 61, record { mint = 61; owner = 11; amount = 10 })
      ∷ [];
  unix_timestamp = pos 5;
}

unfoldable pub ended : State Tokens
ended = state_of (run_all ending repaid)

unfoldable pub claimed : State Tokens
claimed = state_of (run_all (claim_project_returns claim_accounts ∷ []) repaid)

-- A second purchase of pool tokens, after the distribution.
unfoldable pub topped_up : State Tokens
topped_up = state_of (run_all (buy_pool_tokens pool_purchase 4 ∷ []) ended)

unfoldable pub pool_bought : State Tokens
pool_bought = state_of (run_all (buy_pool_tokens pool_purchase 10 ∷ []) funded)

unfoldable pub activated : State Tokens
activated = state_of (run_all (activate_project activation ∷ []) pool_bought)

unfoldable pub refunded : State Tokens
refunded = state_of (run_all (withdraw_investment withdrawal ∷ []) funded)

unfoldable pub distributed : State Tokens
distributed = state_of (run_all (distribute_repayment repayment 30 ∷ []) activated)

unfoldable pub attested : State Tokens
attested = state_of (run_all (attest_verification attesting ∷ []) claimed)

unfoldable pub drained : State Tokens
drained = state_of (run_all (withdraw_project_funds drawing 128 ∷ []) repaid)

-- Around the purchase of the project's tokens, and its withdrawal.
unfoldable pub sold_out : State Tokens
sold_out = state_of (run_all (buy_project_tokens buying 100 ∷ []) opened)

unfoldable pub returned : State Tokens
returned = state_of (run_all (withdraw_investment withdrawal ∷ []) sold_out)

unfoldable pub burned : Tokens
burned = tokens_of (small_runtime.burn 60 (ata 11 60) 11 100 funded.tokens)

-- After the project is linked to the pool.
unfoldable pub linked : State Tokens
linked = state_of (run_all (add_project_to_pool linking ∷ []) funded)
