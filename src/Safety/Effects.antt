-- ===== src/Safety/Effects.antt =====
-- What a withdrawal, a distribution and an attestation do (withdraw_investment.rs,
-- distribute_repayment.rs, attest.rs).
use ascertainty_contracts.Base.{
  ℕ, ◌+◌, ◌-◌, ◌*◌, ◌/◌, ◌<◌, ◌≤◌, ◌≡◌, ◌⊎◌, inl, inr, refl, Bool, true, false, not, ◌||◌, some,
  arith, ltb→lt, if◌then◌else◌, checked_sub-eq-some,
}
use ascertainty_contracts.Base.Store.{lookup, insert}
use ascertainty_contracts.Constants.{precision}
use ascertainty_contracts.Errors.{ok}
use ascertainty_contracts.Accounts.{
  ProjectStatus, project_status_eq, Project, InvestorPosition, Verification, project_account,
  position_account, verification_account,
}
use ascertainty_contracts.Runtime.{
  TokenAccount, Runtime, State, Ensures, ensures-ok, on_key, on_require, on_ok_or, on_invoke,
  on_save, on_project, on_position, on_mrv_project, on_verification, on_load_token, on_load_mint,
  on_load_token_of, on_last_save,
}
use ascertainty_contracts.Admin.Funds.{DistributeRepayment, distribute_repayment}
use ascertainty_contracts.Investor.Projects.{WithdrawInvestment, withdraw_investment}
use ascertainty_contracts.Mrv.Reports.{AttestVerification, attest_verification}
use ascertainty_contracts.Refine.Constraints.{on_platform_usdc, on_auditor_of, accrual}

-- A withdrawal by the position `q` of the project `p`, from the state `s` to `s'`.
pub record IsRefunded {L : Type 0} (rt : Runtime L) (ctx : WithdrawInvestment) (s s' : State L)
    (p : Project) (q : InvestorPosition) : Type 0 where
  pub project : lookup ctx.project s.accounts ≡ some (project_account p)
  pub position : lookup ctx.position s.accounts ≡ some (position_account q)
  pub mint : p.token_mint ≡ ctx.token_mint
  pub vault : p.usdc_vault ≡ ctx.usdc_vault
  pub owner : q.owner ≡ ctx.investor
  pub holder :
      (a : TokenAccount) × (rt.token_account s.tokens ctx.investor_token_ata ≡ some a)
      × (a.mint ≡ ctx.token_mint)
      × (a.owner ≡ ctx.investor)
  pub payee :
      (a : TokenAccount) × (rt.token_account s.tokens ctx.investor_usdc_ata ≡ some a)
      × (a.mint ≡ ctx.usdc_mint)
      × (a.owner ≡ ctx.investor)
  pub status : (p.status ≡ ProjectStatus.funding) ⊎ (p.status ≡ ProjectStatus.cancelled)
  pub positive : 0 < q.tokens_held
  pub burned :
      (l : L) × (rt.burn ctx.token_mint ctx.investor_token_ata ctx.investor q.tokens_held s.tokens
        ≡ ok l)
      × (rt.transfer ctx.usdc_vault ctx.investor_usdc_ata ctx.project q.tokens_held l
          ≡ ok s'.tokens)
  pub covered : q.tokens_held ≤ p.tokens_sold
  pub written :
      s'.accounts
      ≡ insert ctx.position (position_account (record q { tokens_held = 0 })) (
          insert ctx.project
            (project_account (record p { tokens_sold = p.tokens_sold - q.tokens_held }))
            s.accounts)

-- A distribution of `amount` to the project `p`, from the state `s` to `s'`.
pub record IsDistributed {L : Type 0} (rt : Runtime L) (ctx : DistributeRepayment) (amount : ℕ)
    (s s' : State L) (p : Project) : Type 0 where
  pub project : lookup ctx.project s.accounts ≡ some (project_account p)
  pub vault : p.usdc_vault ≡ ctx.usdc_vault
  pub status : (p.status ≡ ProjectStatus.active) ⊎ (p.status ≡ ProjectStatus.repaying)
  pub positive : 0 < amount
  pub sold : 0 < p.tokens_sold
  pub transferred :
      rt.transfer ctx.admin_usdc_ata ctx.usdc_vault ctx.admin amount s.tokens ≡ ok s'.tokens
  pub written :
      s'.accounts
      ≡ insert ctx.project
          (project_account (record p {
            status = ProjectStatus.repaying;
            total_distributed = p.total_distributed + amount;
            cumulative_usdc_per_token =
                p.cumulative_usdc_per_token + amount * precision / p.tokens_sold;
          }))
          s.accounts

refundable :
    (a : ProjectStatus)
    → (project_status_eq a ProjectStatus.funding || project_status_eq a ProjectStatus.cancelled)
      ≡ true
    → (a ≡ ProjectStatus.funding) ⊎ (a ≡ ProjectStatus.cancelled)
refundable ProjectStatus.funding e = inl refl
refundable ProjectStatus.cancelled e = inr refl
refundable _ e = cc

repayable :
    (a : ProjectStatus)
    → (project_status_eq a ProjectStatus.active || project_status_eq a ProjectStatus.repaying)
      ≡ true
    → (a ≡ ProjectStatus.active) ⊎ (a ≡ ProjectStatus.repaying)
repayable ProjectStatus.active e = inl refl
repayable ProjectStatus.repaying e = inr refl
repayable _ e = cc

module _ {L : Type 0} (rt : Runtime L) where
  refunded :
      (ctx : WithdrawInvestment) (s : State L)
      → Ensures
          (λ _ s'. (p : Project) × (q : InvestorPosition) × IsRefunded rt ctx s s' p q)
          (withdraw_investment rt ctx)
          s
  unfolding withdraw_investment
  refunded ctx s = on_project _ λ project there. on_key _ λ _ at. on_key _ λ _ mint.
      on_key _ λ _ vault. on_load_mint rt _ λ _ _. on_load_token rt _ λ balance _.
        on_position _ λ position held. on_key _ λ _ spot. on_key _ λ _ owner.
          on_load_token_of rt _ _ _ λ ata its its_mint its_owner.
            on_load_token_of rt _ _ _ λ ata' there' of_mint of_owner. on_load_mint rt _ λ _ _.
              on_require _ λ _ open_to. on_require _ λ _ nonzero. on_invoke _ λ _ l burned.
                on_invoke _ λ _ l' paid. on_ok_or _ λ sold sd.
                  let left = checked_sub-eq-some _ _ _ sd in
                  on_save _ _ λ _. on_last_save _ _ (
                    project,
                    position,
                    record {
                      project = there;
                      position = held;
                      mint = mint;
                      vault = vault;
                      owner = owner;
                      holder = (ata, its, its_mint, its_owner);
                      payee = (ata', there', of_mint, of_owner);
                      status = refundable project.status open_to;
                      positive = ltb→lt _ _ nonzero;
                      burned = (l, burned, paid);
                      covered = left.1;
                      written = rw left.0 refl;
                    },
                  )

  -- A withdrawal that succeeds happens while the project is in status `Funding` or `Cancelled`: it
  -- burns exactly the tokens that the position holds, out of its owner's token account, of which
  -- there are some, pays back as much from the vault of the project to an account of the position's
  -- owner, empties the position, takes the tokens off what the project sold, and changes no other
  -- account.
  pub withdrawal-refunds :
      (ctx : WithdrawInvestment) (s s' : State L)
      → withdraw_investment rt ctx s ≡ ok (tt, s')
      → (p : Project) × (q : InvestorPosition) × IsRefunded rt ctx s s' p q
  withdrawal-refunds ctx s s' run = ensures-ok tt s' (refunded ctx s) run

  distributed :
      (ctx : DistributeRepayment) (amount : ℕ) (s : State L)
      → Ensures
          (λ _ s'. (p : Project) × IsDistributed rt ctx amount s s' p)
          (distribute_repayment rt ctx amount)
          s
  unfolding distribute_repayment
  distributed ctx amount s = on_platform_usdc rt _ _ _ λ platform _ _ _.
      on_project _ λ project there. on_key _ λ _ at. on_key _ λ _ vault.
        on_load_token_of rt _ _ _ λ ata _ _ _. on_load_token rt _ λ balance _.
          on_load_mint rt _ λ _ _. on_require _ λ _ nonzero. on_require _ λ _ status.
            on_require _ λ _ sold. on_invoke _ λ _ l moved. on_ok_or _ λ scaled sc.
              on_ok_or _ λ delta dl. on_ok_or _ λ cumulative cm. on_ok_or _ λ total ds.
                let grown = accrual amount project.tokens_sold _ _ _ _ _ _ sc dl cm ds in
                on_last_save _ _ (
                  project,
                  record {
                    project = there;
                    vault = vault;
                    status = repayable project.status status;
                    positive = ltb→lt _ _ nonzero;
                    sold = ltb→lt _ _ sold;
                    transferred = moved;
                    written = rw (grown.0, grown.1, repaying project.status status) refl;
                  },
                )
    where
      repaying :
          (a : ProjectStatus)
          → (project_status_eq a ProjectStatus.active || project_status_eq a ProjectStatus.repaying)
            ≡ true
          → (if project_status_eq a ProjectStatus.active then ProjectStatus.repaying else a)
            ≡ ProjectStatus.repaying
      repaying ProjectStatus.active e = refl
      repaying ProjectStatus.repaying e = refl
      repaying _ e = cc

  -- A distribution that succeeds happens while the project is in status `Active` or `Repaying` and
  -- has sold tokens: it moves a positive `amount` from the admin to the vault of the project, raises
  -- the accumulator by `amount * precision / tokens_sold` and the total by `amount`, leaves the
  -- project in status `Repaying`, and changes no other account.
  pub distribution-accrues :
      (ctx : DistributeRepayment) (amount : ℕ) (s s' : State L)
      → distribute_repayment rt ctx amount s ≡ ok (tt, s')
      → (p : Project) × IsDistributed rt ctx amount s s' p
  distribution-accrues ctx amount s s' run = ensures-ok tt s' (distributed ctx amount s) run

  attested :
      (ctx : AttestVerification) (s : State L)
      → Ensures
          (λ _ s'.
            (v : Verification) × (lookup ctx.verification s.accounts
              ≡ some (verification_account v))
            × (v.attested ≡ false)
            × (v.auditor ≡ ctx.auditor_signer)
            × (s'.tokens ≡ s.tokens)
            × (s'.accounts
                ≡ insert ctx.verification
                    (verification_account (record v { attested = true }))
                    s.accounts))
          (attest_verification rt ctx)
          s
  unfolding attest_verification
  attested ctx s = on_auditor_of rt _ _ λ auditor _ _ _. on_mrv_project _ λ mrv _. on_key _ λ _ at.
      on_verification _ λ verification there. on_key _ λ _ at'. on_require _ λ _ fresh.
        on_key _ λ _ own.
          on_last_save _ _
            (verification, there, is_false verification.attested fresh, own, refl, refl)
    where
      is_false : (b : Bool) → not b ≡ true → b ≡ false
      is_false b e = ground arith

  -- An attestation that succeeds finds a verification that is not attested yet and that its signer
  -- submitted, marks it as attested, and changes no other account and no tokens.
  pub attestation-marks :
      (ctx : AttestVerification) (s s' : State L)
      → attest_verification rt ctx s ≡ ok (tt, s')
      → (v : Verification) × (lookup ctx.verification s.accounts ≡ some (verification_account v))
        × (v.attested ≡ false)
        × (v.auditor ≡ ctx.auditor_signer)
        × (s'.tokens ≡ s.tokens)
        × (s'.accounts
            ≡ insert ctx.verification
                (verification_account (record v { attested = true }))
                s.accounts)
  attestation-marks ctx s s' run = ensures-ok tt s' (attested ctx s) run
