-- ===== src/Tests/Witnesses.antt =====
-- The theorems at the run of Tests/Chain.antt.
use ascertainty_contracts.Base.{
  false, ℕ, ◌+◌, ◌-◌, ◌*◌, ◌/◌, ◌≤◌, ◌<◌, ◌≡◌, ◌≢◌, ◌⊎◌, refl, arith, true, none, some, List, ◌∷◌,
  [], ◌++◌, length, replicate,
}
use ascertainty_contracts.Base.Store.{lookup, insert}
use ascertainty_contracts.Constants.{precision, max_fee_bps, min_term_months, max_term_months}
use ascertainty_contracts.Errors.{ok}
use ascertainty_contracts.Accounts.{
  Platform, ProjectStatus, Project, PoolStatus, Pool, InvestorPosition, MrvProject, Verification,
  platform_account, project_account, pool_account, position_account, mrv_account,
  verification_account,
}
use ascertainty_contracts.Accounts.Evolve.{
  ProjectEvolves, PoolEvolves, PlatformEvolves, PositionEvolves, MrvEvolves, VerificationEvolves,
}
use ascertainty_contracts.Runtime.{TokenAccount}
use ascertainty_contracts.Investor.Projects.{claim_project_returns}
use ascertainty_contracts.Mrv.Text.{pad_into}
use ascertainty_contracts.Program
use ascertainty_contracts.Program.{execute, Reach, here, next, runs}
use ascertainty_contracts.Shares.Fund.{project_fund, shares, entitlements}
use ascertainty_contracts.Shares.Move.{Moves, nothing}
use ascertainty_contracts.Refine.Program.{execute-refines}
use ascertainty_contracts.Safety.Solvency.{claims, Reach-solvent, Reach-claims, Reach-supply}
use ascertainty_contracts.Safety.Lifecycle.{
  Reach-ProjectEvolves, Reach-completed, Reach-PoolEvolves, Reach-PlatformEvolves,
  Reach-PositionEvolves, Reach-MrvEvolves, Reach-VerificationEvolves,
}
use ascertainty_contracts.Safety.Books.{Reach-gated, Reach-terms, Reach-pool_raising, Reach-fees}
use ascertainty_contracts.Safety.Authority.{
  IsAdmin, IsAuditor, IsOwner, execute-IsAdmin, execute-IsAuditor, execute-IsOwner,
}
use ascertainty_contracts.Safety.Claims.{IsPaid, claim-pays, claim-once}
use ascertainty_contracts.Safety.Payout.{IsReady, claimed_from, claim-succeeds}
use ascertainty_contracts.Safety.Purchases.{top_up-entitles, first_purchase-settled}
use ascertainty_contracts.Safety.Fees.{activated_project, activation-fee}
use ascertainty_contracts.Safety.Texts.{pad_into-pads}
use ascertainty_contracts.Safety.Effects.{
  IsRefunded, IsDistributed, withdrawal-refunds, distribution-accrues, attestation-marks,
}
use ascertainty_contracts.Safety.Vaults.{IsDrawn, drawing-leaves}
use ascertainty_contracts.Tests.Small.{small_runtime, small_runtime_laws}
use ascertainty_contracts.Tests.Chain.{
  drawing, withdrawal, repayment, project_key, pool_key, mrv_key, auditor_key, verification_key,
  project_position, pool_position, claim_accounts, pool_purchase, activation, attesting, holder,
  start, ending, run_all-Reach,
}
use ascertainty_contracts.Tests.States.{
  drained, refunded, distributed, attested, funded, repaid, ended, claimed, topped_up, pool_bought,
  activated,
}
use ascertainty_contracts.Tests.Facts.{computed}
use ascertainty_contracts.Tests.Samples.{
  project_funded, project_repaid, project_ended, position_bought, position_in_pool, pool_funded,
  pool_ended, mrv_funded, platform_funded, verification_repaid,
}
use ascertainty_contracts.Tests.Histories.{
  Reach-funded, Reach-from_funded, Reach-repaid, Reach-ended, Reach-bought,
}

Reach-solvent_example : entitlements project_key 300_000_000_000 repaid.accounts ≤ 30 * precision
Reach-solvent_example =
    Reach-solvent small_runtime_laws start repaid project_key project_repaid refl Reach-repaid
      computed.project_at_repaid

Reach-claims_example : claims project_key ended.accounts ≤ 30
Reach-claims_example =
    Reach-claims small_runtime_laws start ended project_key project_ended refl Reach-ended
      computed.project_at_ended

Reach-supply_example : (shares project_key repaid.accounts ≡ 100) × (100 ≤ 100)
Reach-supply_example =
    Reach-supply small_runtime_laws start repaid project_key (project_account project_repaid)
      (project_fund project_repaid) refl Reach-repaid computed.project_at_repaid refl

ready :
    IsReady small_runtime claim_accounts repaid project_repaid position_bought
      (holder project_key 129)
      (holder 11 890)
ready = record {
  project = computed.project_at_repaid;
  project_at = refl;
  project_vault = refl;
  position = computed.position_at_repaid;
  position_at = refl;
  owner = refl;
  ata_at = refl;
  ata_there = computed.ata_at_repaid;
  ata_mint = refl;
  ata_owner = refl;
  vault_there = computed.vault_at_repaid;
  mint = refl;
}

claim-succeeds_example :
    claim_project_returns small_runtime claim_accounts repaid
    ≡ ok (
      tt,
      record repaid {
        tokens = claimed.tokens;
        accounts =
            insert project_position
              (position_account (claimed_from project_repaid position_bought 30))
              repaid.accounts;
      },
    )
claim-succeeds_example =
    claim-succeeds small_runtime_laws claim_accounts start repaid project_repaid position_bought
      (holder project_key 129) (holder 11 890) claimed.tokens refl Reach-repaid ready (omega arith)
      (omega arith) computed.claim_transfers

claim-pays_example :
    (p : Project) × (q : InvestorPosition) × (owed : ℕ) × IsPaid small_runtime claim_accounts repaid
      claimed p q owed
unfolding execute
claim-pays_example = claim-pays small_runtime claim_accounts repaid claimed computed.claim_executes

claim-once_example : claim_project_returns small_runtime claim_accounts attested ≢ ok (tt, attested)
unfolding execute
claim-once_example =
    claim-once small_runtime claim_accounts claim_accounts repaid claimed attested attested
      project_repaid project_repaid (omega arith) computed.claim_executes
      (next here (runs (Program.attest_verification attesting) computed.attestation_executes))
      computed.project_at_repaid computed.project_at_attested refl refl

activation-fee_example :
    (platform : Platform) × (lookup 100 pool_bought.accounts ≡ some (platform_account platform))
    × (ProjectStatus.funding ≡ ProjectStatus.funding)
    × (project_funded.tokens_sold ≡ project_funded.target_amount)
    × (lookup project_key activated.accounts
        ≡ some (
            project_account (
              activated_project project_funded pool_bought.unix_timestamp
                (100 * platform.origination_fee_bps / 10_000))))
    × (100 * platform.origination_fee_bps / 10_000 ≤ 100)
unfolding execute
activation-fee_example =
    activation-fee activation start pool_bought activated project_funded refl Reach-bought
      computed.activation_executes computed.project_at_pool_bought (omega arith)

Reach-ProjectEvolves_example :
    (p : Project) × (lookup project_key ended.accounts ≡ some (project_account p))
    × ProjectEvolves project_funded p
Reach-ProjectEvolves_example =
    Reach-ProjectEvolves funded ended project_key project_funded Reach-from_funded
      computed.project_at_funded

Reach-completed_example :
    (p : Project) × (lookup project_key topped_up.accounts ≡ some (project_account p))
    × (p.status ≡ ProjectStatus.completed)
Reach-completed_example =
    Reach-completed ended topped_up project_key project_ended
      (next here (runs _ computed.top_up_executes)) computed.project_at_ended refl

Reach-PoolEvolves_example :
    (p : Pool) × (lookup pool_key ended.accounts ≡ some (pool_account p))
    × PoolEvolves pool_funded p
Reach-PoolEvolves_example =
    Reach-PoolEvolves funded ended pool_key pool_funded Reach-from_funded computed.pool_at_funded

Reach-PlatformEvolves_example :
    (p : Platform) × (lookup 100 ended.accounts ≡ some (platform_account p))
    × PlatformEvolves platform_funded p
Reach-PlatformEvolves_example =
    Reach-PlatformEvolves funded ended 100 platform_funded Reach-from_funded
      computed.platform_at_funded

Reach-PositionEvolves_example :
    (q : InvestorPosition) × (lookup project_position claimed.accounts ≡ some (position_account q))
    × PositionEvolves position_bought q
Reach-PositionEvolves_example =
    Reach-PositionEvolves repaid claimed project_position position_bought
      (next here (runs _ computed.claim_executes)) computed.position_at_repaid

Reach-MrvEvolves_example :
    (m : MrvProject) × (lookup mrv_key ended.accounts ≡ some (mrv_account m))
    × MrvEvolves mrv_funded m
Reach-MrvEvolves_example =
    Reach-MrvEvolves funded ended mrv_key mrv_funded Reach-from_funded computed.mrv_at_funded

Reach-VerificationEvolves_example :
    (v : Verification) × (lookup verification_key ended.accounts ≡ some (verification_account v))
    × VerificationEvolves verification_repaid v
Reach-VerificationEvolves_example =
    Reach-VerificationEvolves repaid ended verification_key verification_repaid
      (run_all-Reach ending repaid repaid ended here computed.ending_runs)
      computed.verification_at_repaid

-- Four tokens bought after a distribution of half a unit per token entitle to two units at once.
top_up-entitles_example :
    (q : InvestorPosition) × (lookup pool_position topped_up.accounts ≡ some (position_account q))
    × (q.tokens_held * (500_000_000_000 - q.last_claimed_per_token)
        ≡ 10 * (500_000_000_000 - 0) + 4 * (500_000_000_000 - 0))
unfolding execute
top_up-entitles_example =
    top_up-entitles small_runtime pool_purchase 4 ended topped_up pool_ended position_in_pool
      computed.top_up_executes computed.pool_at_ended computed.position_in_pool_at_ended (λ e. cc e)

first_purchase-settled_example :
    (q : InvestorPosition) × (lookup pool_position pool_bought.accounts ≡ some (position_account q))
    × (q.owner ≡ 11)
    × (q.target ≡ pool_key)
    × (q.tokens_held ≡ 10)
    × (q.last_claimed_per_token ≡ 0)
    × (q.total_claimed ≡ 0)
unfolding execute
first_purchase-settled_example =
    first_purchase-settled small_runtime pool_purchase 10 funded pool_bought pool_funded
      computed.purchase_executes computed.pool_at_funded computed.pool_position_free

pad_into-pads_example :
    ((4 < 2) × (pad_into 4 (7 ∷ 8 ∷ []) ≡ none))
    ⊎ ((out : List ℕ) × (pad_into 4 (7 ∷ 8 ∷ []) ≡ some out)
        × (out ≡ (7 ∷ 8 ∷ []) ++ replicate 2 0)
        × (length out ≡ 4))
pad_into-pads_example = pad_into-pads 4 (7 ∷ 8 ∷ [])

Reach-gated_example :
    (m : MrvProject) × (lookup mrv_key repaid.accounts ≡ some (mrv_account m))
    × (m.baseline_submitted ≡ true)
Reach-gated_example =
    Reach-gated start repaid project_key project_repaid refl Reach-repaid computed.project_at_repaid

Reach-terms_example :
    (0 < 100)
    × (min_term_months ≤ 24)
    × (24 ≤ max_term_months)
    × (ProjectStatus.repaying ≢ ProjectStatus.cancelled)
Reach-terms_example =
    Reach-terms start repaid project_key project_repaid refl Reach-repaid computed.project_at_repaid

Reach-pool_raising_example : (0 < 200) × (PoolStatus.funding ≡ PoolStatus.funding)
Reach-pool_raising_example =
    Reach-pool_raising start ended pool_key pool_ended refl Reach-ended computed.pool_at_ended

Reach-fees_example : (150 ≤ max_fee_bps) × (3_000 ≤ max_fee_bps) × (800 ≤ max_fee_bps)
Reach-fees_example =
    Reach-fees start funded 100 platform_funded refl Reach-funded computed.platform_at_funded

execute-refines_example : Moves small_runtime repaid.accounts nothing claimed.accounts
execute-refines_example =
    execute-refines small_runtime (Program.claim_project_returns claim_accounts) repaid claimed
      computed.claim_executes

execute-IsAdmin_example : IsAdmin small_runtime 100 1 pool_bought.accounts
execute-IsAdmin_example =
    execute-IsAdmin small_runtime (Program.activate_project activation) pool_bought activated 100 1
      refl computed.activation_executes

execute-IsAuditor_example : IsAuditor small_runtime auditor_key 21 claimed.accounts
execute-IsAuditor_example =
    execute-IsAuditor small_runtime (Program.attest_verification attesting) claimed attested
      auditor_key 21 refl computed.attestation_executes

execute-IsOwner_example : IsOwner small_runtime project_position project_key 11 repaid.accounts
execute-IsOwner_example =
    execute-IsOwner small_runtime (Program.claim_project_returns claim_accounts) repaid claimed
      project_position project_key 11 refl computed.claim_executes

withdrawal-refunds_example :
    (p : Project) × (q : InvestorPosition) × IsRefunded small_runtime withdrawal funded refunded p q
unfolding execute
withdrawal-refunds_example =
    withdrawal-refunds small_runtime withdrawal funded refunded computed.withdrawal_executes

distribution-accrues_example :
    (p : Project) × IsDistributed small_runtime repayment 30 activated distributed p
unfolding execute
distribution-accrues_example =
    distribution-accrues small_runtime repayment 30 activated distributed
      computed.repayment_executes

attestation-marks_example :
    (v : Verification) × (lookup verification_key claimed.accounts ≡ some (verification_account v))
    × (v.attested ≡ false)
    × (v.auditor ≡ 21)
    × (attested.tokens ≡ claimed.tokens)
    × (attested.accounts
        ≡ insert verification_key
            (verification_account (record v { attested = true }))
            claimed.accounts)
unfolding execute
attestation-marks_example =
    attestation-marks small_runtime attesting claimed attested computed.attestation_executes

drawing-leaves_example :
    (p : Project) × (vault : TokenAccount) × (destination : TokenAccount) × IsDrawn small_runtime
      drawing 128 repaid drained p vault destination
unfolding execute
drawing-leaves_example =
    drawing-leaves small_runtime drawing 128 repaid drained computed.drawing_executes
