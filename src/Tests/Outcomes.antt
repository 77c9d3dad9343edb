-- ===== src/Tests/Outcomes.antt =====
-- The theorems on errors, addresses and refunds at the run of Tests/Chain.antt.
use ascertainty_contracts.Base.{
  ℕ, ◌+◌, ◌*◌, ◌/◌, ◌≤◌, ◌<◌, ◌-◌, ◌≡◌, inl, refl, arith, true, false, some,
}
use ascertainty_contracts.Base.Store.{lookup, insert}
use ascertainty_contracts.Errors.{ok, cannot_withdraw, nothing_to_claim}
use ascertainty_contracts.Accounts.{
  Project, InvestorPosition, project_account, position_account, auditor_account,
  verification_account,
}
use ascertainty_contracts.Investor.Projects.{withdraw_investment}
use ascertainty_contracts.Program
use ascertainty_contracts.Program.{execute, Reach, here, next, runs}
use ascertainty_contracts.Shares.Home.{seeds_of}
use ascertainty_contracts.Safety.Errors.{documented, errors-documented}
use ascertainty_contracts.Safety.Arithmetic.{is_math, ways_out-no_math}
use ascertainty_contracts.Safety.Addresses.{Reach-unique, Reach-one_admin, Reach-seeded}
use ascertainty_contracts.Constants.{precision, max_pool_projects_v1}
use ascertainty_contracts.Shares.Fund.{entitlements}
use ascertainty_contracts.Shares.Excess.{total_excess}
use ascertainty_contracts.Safety.Solvency.{claims}
use ascertainty_contracts.Safety.Overdraft.{Reach-covered}
use ascertainty_contracts.Safety.Accrual.{distribution-shares}
use ascertainty_contracts.Shares.Preserve.Links.{links, count_at}
use ascertainty_contracts.Safety.Links.{Reach-pool_links}
use ascertainty_contracts.Safety.Lifecycle.{Reach-written_once}
use ascertainty_contracts.Safety.Refunds.{IsRepaid, purchase-withdrawal}
use ascertainty_contracts.Safety.Withdrawals.{IsEntitled, withdrawal-succeeds}
use ascertainty_contracts.Tests.Small.{small_runtime, small_runtime_laws, small_runtime_foreign}
use ascertainty_contracts.Tests.Chain.{
  linking, project_key, auditor_key, verification_key, project_position, withdrawal, buying,
  claim_accounts, activation, repayment, holder, start, pool_key,
}
use ascertainty_contracts.Tests.States.{
  linked, topped_up, opened, sold_out, returned, burned, funded, pool_bought, activated,
  distributed, repaid, claimed, refunded, ended,
}
use ascertainty_contracts.Tests.Samples.{
  project_activated, pool_topped_up, project_funded, project_repaid, position_bought,
  auditor_funded, verification_repaid,
}
use ascertainty_contracts.Tests.Facts.{computed}
use ascertainty_contracts.Tests.Histories.{
  Reach-funded, Reach-from_funded, Reach-repaid, Reach-ended, Reach-bought,
}

errors-documented_example :
    documented (Program.withdraw_investment withdrawal) cannot_withdraw ≡ true
errors-documented_example =
    errors-documented small_runtime_foreign (Program.withdraw_investment withdrawal) repaid
      cannot_withdraw computed.withdrawal_fails

ways_out-no_math_example : is_math nothing_to_claim ≡ false
ways_out-no_math_example =
    ways_out-no_math small_runtime_laws small_runtime_foreign
      (Program.claim_project_returns claim_accounts) start claimed nothing_to_claim refl
      (next Reach-repaid (runs _ computed.claim_executes)) refl computed.claim_fails

Reach-unique_example :
    (project_key ≡ project_key) × (project_account project_repaid ≡ project_account project_repaid)
Reach-unique_example =
    Reach-unique small_runtime start repaid project_key project_key (project_account project_repaid)
      (project_account project_repaid) refl Reach-repaid refl refl computed.project_at_repaid
      computed.project_at_repaid refl

Reach-one_admin_example : ◌≡◌ {A = ℕ} 100 100 × ◌≡◌ {A = ℕ} 1 1
Reach-one_admin_example =
    Reach-one_admin small_runtime start pool_bought activated activated distributed
      (Program.activate_project activation) (Program.distribute_repayment repayment 30) 100 100 1 1
      refl Reach-bought (next here (runs _ computed.activation_executes)) refl
      computed.activation_executes refl computed.repayment_executes

Reach-seeded_example :
    verification_key
    ≡ small_runtime.create_program_address (seeds_of (verification_account verification_repaid)) 255
Reach-seeded_example =
    Reach-seeded small_runtime_laws start repaid verification_key
      (verification_account verification_repaid) refl Reach-repaid computed.verification_at_repaid

Reach-written_once_example :
    lookup auditor_key ended.accounts ≡ some (auditor_account auditor_funded)
Reach-written_once_example =
    Reach-written_once funded ended auditor_key (auditor_account auditor_funded) Reach-from_funded
      refl computed.auditor_at_funded

purchase-withdrawal_example :
    (lookup project_key returned.accounts ≡ lookup project_key opened.accounts)
    × ((q : InvestorPosition) × (lookup project_position returned.accounts
          ≡ some (position_account q))
        × (q.owner ≡ 11)
        × (q.tokens_held ≡ 0))
    × IsRepaid small_runtime buying withdrawal 100 opened sold_out returned
unfolding execute
purchase-withdrawal_example =
    purchase-withdrawal small_runtime buying withdrawal 100 opened sold_out returned project_key
      computed.sale_executes computed.position_free refl refl computed.return_executes
      (λ e. omega (arith, e))

entitled :
    IsEntitled small_runtime withdrawal funded project_funded position_bought
      (holder project_key 100)
      (record { mint = 60; owner = 11; amount = 100 })
      (holder 11 900)
entitled = record {
  project = computed.project_at_funded;
  project_at = refl;
  project_mint = refl;
  project_vault = refl;
  token_mint = refl;
  vault_there = computed.vault_at_funded;
  position = computed.position_at_funded;
  position_at = refl;
  owner = refl;
  token_there = computed.token_ata_at_funded;
  token_of = refl;
  token_owner = refl;
  usdc_there = computed.usdc_ata_at_funded;
  usdc_of = refl;
  usdc_owner = refl;
  usdc_mint = refl;
}

withdrawal-succeeds_example :
    withdraw_investment small_runtime withdrawal funded
    ≡ ok (
      tt,
      record funded {
        tokens = refunded.tokens;
        accounts =
            insert project_position
              (position_account (record position_bought { tokens_held = 0 }))
              (insert project_key
                (project_account (record project_funded { tokens_sold = 100 - 100 }))
                funded.accounts);
      },
    )
withdrawal-succeeds_example =
    withdrawal-succeeds small_runtime_laws withdrawal start funded project_funded position_bought
      (holder project_key 100) (record { mint = 60; owner = 11; amount = 100 }) (holder 11 900)
      burned refunded.tokens refl Reach-funded entitled (inl refl) (omega arith)
      computed.tokens_burned computed.tokens_refunded

Reach-topped_up : Reach small_runtime start topped_up
Reach-topped_up = next Reach-ended (runs _ computed.top_up_executes)

Reach-covered_example :
    (entitlements pool_key 500_000_000_000 topped_up.accounts
      ≤ 5 * precision + total_excess small_runtime Reach-topped_up pool_key)
    × (claims pool_key topped_up.accounts * precision
        ≤ 5 * precision + total_excess small_runtime Reach-topped_up pool_key)
Reach-covered_example =
    Reach-covered small_runtime_laws start topped_up pool_key pool_topped_up Reach-topped_up refl
      computed.pool_at_topped_up

distribution-shares_example :
    (p : Project) × (lookup project_key distributed.accounts ≡ some (project_account p))
    × (entitlements project_key p.cumulative_usdc_per_token distributed.accounts
        ≡ entitlements project_key 0 activated.accounts + 100 * (30 * precision / 100))
    × (30 * precision < 100 * (30 * precision / 100) + 100)
unfolding execute
distribution-shares_example =
    distribution-shares small_runtime_laws repayment 30 start activated distributed
      project_activated refl
      (next Reach-bought (runs (Program.activate_project activation) computed.activation_executes))
      computed.project_at_activated computed.repayment_executes

Reach-pool_links_example :
    (links pool_key linked.accounts ≡ count_at (lookup pool_key linked.accounts))
    × (links pool_key linked.accounts ≤ max_pool_projects_v1)
Reach-pool_links_example =
    Reach-pool_links start linked pool_key refl
      (next Reach-funded (runs (Program.add_project_to_pool linking) computed.linking_executes))
