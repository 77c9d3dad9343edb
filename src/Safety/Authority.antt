-- ===== src/Safety/Authority.antt =====
-- Who may run what: the accounts that each instruction's constraints tie to its signer.
use ascertainty_contracts.Base.{subst, ◌≡◌, true, Option, none, some}
use ascertainty_contracts.Base.Store.{lookup}
use ascertainty_contracts.Errors.{ok}
use ascertainty_contracts.Accounts.{
  Pubkey, Platform, InvestorPosition, Auditor, Accounts, platform_account, position_account,
  auditor_account,
}
use ascertainty_contracts.Runtime.{
  Runtime, State, M, ◌>>=◌, position_seeds, Ensures, ensures-ok, ensures_known, on_pure, on_bind,
  on_key, on_require, on_platform, on_auditor, on_project, on_pool, on_position, on_load_mint,
  on_load_token,
}
use ascertainty_contracts.Admin
use ascertainty_contracts.Investor
use ascertainty_contracts.Mrv
use ascertainty_contracts.Admin.Platforms.{platform_seeds, load_platform_of, load_platform_usdc}
use ascertainty_contracts.Mrv.Registry.{auditor_seeds}
use ascertainty_contracts.Mrv.Reports.{load_auditor_of}
use ascertainty_contracts.Program.{
  Instruction, create_project, activate_project, distribute_repayment, close_project, create_pool,
  add_project_to_pool, distribute_pool_returns, withdraw_project_funds, claim_project_returns,
  withdraw_investment, claim_pool_returns, register_mrv_project, add_auditor, submit_baseline,
  submit_verification, attest_verification, execute,
}

-- The platform account and the signer of an instruction that only the admin may run.
abbrev pub admin_call : Instruction → Option (Pubkey × Pubkey)
admin_call (create_project ctx id target term) = some (ctx.platform, ctx.admin)
admin_call (activate_project ctx) = some (ctx.platform, ctx.admin)
admin_call (distribute_repayment ctx n) = some (ctx.platform, ctx.admin)
admin_call (close_project ctx) = some (ctx.platform, ctx.admin)
admin_call (create_pool ctx id target) = some (ctx.platform, ctx.admin)
admin_call (add_project_to_pool ctx) = some (ctx.platform, ctx.admin)
admin_call (distribute_pool_returns ctx n) = some (ctx.platform, ctx.admin)
admin_call (withdraw_project_funds ctx n) = some (ctx.platform, ctx.admin)
admin_call (register_mrv_project ctx id a b c d) = some (ctx.platform, ctx.admin)
admin_call (add_auditor ctx a b) = some (ctx.platform, ctx.admin)
admin_call _ = none

-- The auditor account and the signer of an instruction that only an auditor may run.
abbrev pub auditor_call : Instruction → Option (Pubkey × Pubkey)
auditor_call (submit_baseline ctx report) = some (ctx.auditor, ctx.auditor_signer)
auditor_call (submit_verification ctx index report) = some (ctx.auditor, ctx.auditor_signer)
auditor_call (attest_verification ctx) = some (ctx.auditor, ctx.auditor_signer)
auditor_call _ = none

-- The position, the fund and the signer of an instruction that only the position's owner may run.
abbrev pub owner_call : Instruction → Option (Pubkey × Pubkey × Pubkey)
owner_call (claim_project_returns ctx) = some (ctx.position, ctx.project, ctx.investor)
owner_call (withdraw_investment ctx) = some (ctx.position, ctx.project, ctx.investor)
owner_call (claim_pool_returns ctx) = some (ctx.position, ctx.pool, ctx.investor)
owner_call _ = none

module _ {L : Type 0} (rt : Runtime L) where
  abbrev pub IsAdmin : Pubkey → Pubkey → Accounts → Type 0
  IsAdmin k admin d =
      (t : Platform) × (lookup k d ≡ some (platform_account t))
      × (k ≡ rt.create_program_address platform_seeds t.bump)
      × (t.admin ≡ admin)

  abbrev pub IsAuditor : Pubkey → Pubkey → Accounts → Type 0
  IsAuditor k signer d =
      (t : Auditor) × (lookup k d ≡ some (auditor_account t))
      × (k ≡ rt.create_program_address (auditor_seeds signer) t.bump)
      × (t.is_active ≡ true)
      × (t.wallet ≡ signer)

  abbrev pub IsOwner : Pubkey → Pubkey → Pubkey → Accounts → Type 0
  IsOwner k fund investor d =
      (q : InvestorPosition) × (lookup k d ≡ some (position_account q))
      × (k ≡ rt.create_program_address (position_seeds fund investor) q.bump)
      × (q.owner ≡ investor)

  load-IsAdmin :
      {B : Type 0} (k admin : Pubkey) (f : Platform → M L B) (s : State L)
      → Ensures (λ _ _. IsAdmin k admin s.accounts) (load_platform_of rt k admin >>= f) s
  unfolding load_platform_of
  load-IsAdmin k admin f s = on_bind (load_platform_of rt k admin) (
      on_platform k λ t there.
        on_key _ λ _ at. on_key _ λ _ signed. on_pure t (ensures_known _ _ (t, there, at, signed)))

  load_usdc-IsAdmin :
      {B : Type 0} (k admin usdc_mint : Pubkey) (f : Platform → M L B) (s : State L)
      → Ensures
          (λ _ _. IsAdmin k admin s.accounts)
          (load_platform_usdc rt k admin usdc_mint >>= f)
          s
  unfolding load_platform_usdc load_platform_of
  load_usdc-IsAdmin k admin usdc_mint f s = on_bind (load_platform_usdc rt k admin usdc_mint) (
      on_bind (load_platform_of rt k admin) (
        on_platform k λ t there. on_key _ λ _ at. on_key _ λ _ signed.
          on_pure t (on_key _ λ _ usdc. on_pure t (ensures_known _ _ (t, there, at, signed)))))

  load-IsAuditor :
      {B : Type 0} (k signer : Pubkey) (f : Auditor → M L B) (s : State L)
      → Ensures (λ _ _. IsAuditor k signer s.accounts) (load_auditor_of rt k signer >>= f) s
  unfolding load_auditor_of
  load-IsAuditor k signer f s = on_bind (load_auditor_of rt k signer) (
      on_auditor k λ t there. on_key _ λ _ at.
        on_require _
          λ _ live. on_key _ λ _ signed. on_pure t (ensures_known _ _ (t, there, at, live, signed)))

  abbrev Admitted : Accounts → Option (Pubkey × Pubkey) → Type 0
  Admitted d (some (k, admin)) = IsAdmin k admin d
  Admitted d none = Unit

  abbrev Audited : Accounts → Option (Pubkey × Pubkey) → Type 0
  Audited d (some (k, signer)) = IsAuditor k signer d
  Audited d none = Unit

  abbrev Owned : Accounts → Option (Pubkey × Pubkey × Pubkey) → Type 0
  Owned d (some (k, fund, investor)) = IsOwner k fund investor d
  Owned d none = Unit

  execute-Admitted :
      (i : Instruction) (s : State L)
      → Ensures (λ _ _. Admitted s.accounts (admin_call i)) (execute rt i) s
  unfolding execute Admin.Projects.create_project Admin.Projects.activate_project
      Admin.Projects.close_project Admin.Funds.distribute_repayment
      Admin.Funds.withdraw_project_funds Admin.Pools.create_pool Admin.Pools.add_project_to_pool
      Admin.Pools.distribute_pool_returns Mrv.Registry.register_mrv_project Mrv.Registry.add_auditor
  execute-Admitted (create_project ctx id target term) s = load_usdc-IsAdmin _ _ _ _ s
  execute-Admitted (activate_project ctx) s = load-IsAdmin _ _ _ s
  execute-Admitted (distribute_repayment ctx n) s = load_usdc-IsAdmin _ _ _ _ s
  execute-Admitted (close_project ctx) s = load-IsAdmin _ _ _ s
  execute-Admitted (create_pool ctx id target) s = load_usdc-IsAdmin _ _ _ _ s
  execute-Admitted (add_project_to_pool ctx) s = load-IsAdmin _ _ _ s
  execute-Admitted (distribute_pool_returns ctx n) s = load_usdc-IsAdmin _ _ _ _ s
  execute-Admitted (withdraw_project_funds ctx n) s = load_usdc-IsAdmin _ _ _ _ s
  execute-Admitted (register_mrv_project ctx id a b c d) s = load-IsAdmin _ _ _ s
  execute-Admitted (add_auditor ctx a b) s = load-IsAdmin _ _ _ s
  execute-Admitted i s = ensures_known (execute rt i) s tt

  execute-Audited :
      (i : Instruction) (s : State L)
      → Ensures (λ _ _. Audited s.accounts (auditor_call i)) (execute rt i) s
  unfolding execute Mrv.Reports.submit_baseline Mrv.Reports.submit_verification
      Mrv.Reports.attest_verification
  execute-Audited (submit_baseline ctx report) s = load-IsAuditor _ _ _ s
  execute-Audited (submit_verification ctx index report) s = load-IsAuditor _ _ _ s
  execute-Audited (attest_verification ctx) s = load-IsAuditor _ _ _ s
  execute-Audited i s = ensures_known (execute rt i) s tt

  execute-Owned :
      (i : Instruction) (s : State L)
      → Ensures (λ _ _. Owned s.accounts (owner_call i)) (execute rt i) s
  unfolding execute Investor.Projects.claim_project_returns Investor.Projects.withdraw_investment
      Investor.Pools.claim_pool_returns
  execute-Owned (claim_project_returns ctx) s = on_project _ λ project _. on_key _ λ _ _.
      on_key _ λ _ _.
        on_position _
          λ q held. on_key _ λ _ at. on_key _ λ _ owner. ensures_known _ _ (q, held, at, owner)
  execute-Owned (claim_pool_returns ctx) s = on_pool _ λ pool _. on_key _ λ _ _. on_key _ λ _ _.
      on_position _
        λ q held. on_key _ λ _ at. on_key _ λ _ owner. ensures_known _ _ (q, held, at, owner)
  execute-Owned (withdraw_investment ctx) s = on_project _ λ project _. on_key _ λ _ _.
      on_key _ λ _ _. on_key _ λ _ _. on_load_mint rt _ λ _ _. on_load_token rt _ λ _ _.
        on_position _
          λ q held. on_key _ λ _ at. on_key _ λ _ owner. ensures_known _ _ (q, held, at, owner)
  execute-Owned i s = ensures_known (execute rt i) s tt

  -- Each of the ten instructions of `admin_call` that succeeds names a platform account at the
  -- platform's own address, and was signed by the admin that this account records.
  pub execute-IsAdmin :
      (i : Instruction) (s s' : State L) (k admin : Pubkey)
      → admin_call i ≡ some (k, admin)
      → execute rt i s ≡ ok (tt, s')
      → IsAdmin k admin s.accounts
  execute-IsAdmin i s s' k admin e run =
      subst (Admitted s.accounts) e (ensures-ok tt s' (execute-Admitted i s) run)

  -- Each of the three instructions of `auditor_call` that succeeds names an active auditor account at
  -- the address of its signer, and was signed by the wallet that this account records.
  pub execute-IsAuditor :
      (i : Instruction) (s s' : State L) (k signer : Pubkey)
      → auditor_call i ≡ some (k, signer)
      → execute rt i s ≡ ok (tt, s')
      → IsAuditor k signer s.accounts
  execute-IsAuditor i s s' k signer e run =
      subst (Audited s.accounts) e (ensures-ok tt s' (execute-Audited i s) run)

  -- A claim or a withdrawal that succeeds was signed by the owner of the position, which stands at the
  -- address of the fund and the signer.
  pub execute-IsOwner :
      (i : Instruction) (s s' : State L) (k fund investor : Pubkey)
      → owner_call i ≡ some (k, fund, investor)
      → execute rt i s ≡ ok (tt, s')
      → IsOwner k fund investor s.accounts
  execute-IsOwner i s s' k fund investor e run =
      subst (Owned s.accounts) e (ensures-ok tt s' (execute-Owned i s) run)
