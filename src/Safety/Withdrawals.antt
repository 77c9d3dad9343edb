-- ===== src/Safety/Withdrawals.antt =====
-- The success of a withdrawal of an investment (withdraw_investment.rs): which accounts it needs, and
-- its arithmetic.
use ascertainty_contracts.Base.{
  ◌-◌, ◌<◌, ◌≤◌, ◌≡◌, ◌⊎◌, inl, inr, refl, true, arith, ◌||◌, some, lt→ltb, checked_sub_fits,
}
use ascertainty_contracts.Base.Store.{lookup, insert, sum_by-lookup}
use ascertainty_contracts.Errors.{ok}
use ascertainty_contracts.Accounts.{
  Pubkey, Accounts, ProjectStatus, project_status_eq, Project, InvestorPosition, project_account,
  position_account,
}
use ascertainty_contracts.Runtime.{
  Runtime, RuntimeLaws, State, TokenAccount, position_seeds, as_project, as_position, Runs,
  run_require, run_key, run_ok_or, run_invoke, run_load, run_load_token, run_load_mint,
  run_token_of, run_save, run_last_save,
}
use ascertainty_contracts.Admin.Projects.{project_seeds}
use ascertainty_contracts.Investor.Projects.{WithdrawInvestment, withdraw_investment}
use ascertainty_contracts.Program.{Reach, IsFresh}
use ascertainty_contracts.Refine.Program.{Reach-Inv}
use ascertainty_contracts.Shares.Fund.{project_fund, held}
use ascertainty_contracts.Shares.Invariant.{Inv}
use ascertainty_contracts.Shares.Preserve.Positions.{held_here}
use ascertainty_contracts.Shares.Preserve.Purchases.{target_of_address}

-- The accounts of a withdrawal are the right ones: the project with its address, its mint and its
-- vault, the position of the signer at its address, and the signer's two token accounts.
pub record IsEntitled {L : Type 0} (rt : Runtime L) (ctx : WithdrawInvestment) (s : State L)
    (p : Project) (q : InvestorPosition) (vault token_ata usdc_ata : TokenAccount) : Type 0 where
  pub project : lookup ctx.project s.accounts ≡ some (project_account p)
  pub project_at : ctx.project ≡ rt.create_program_address (project_seeds p.project_id) p.bump
  pub project_mint : p.token_mint ≡ ctx.token_mint
  pub project_vault : p.usdc_vault ≡ ctx.usdc_vault
  pub token_mint : rt.is_mint s.tokens ctx.token_mint ≡ true
  pub vault_there : rt.token_account s.tokens ctx.usdc_vault ≡ some vault
  pub position : lookup ctx.position s.accounts ≡ some (position_account q)
  pub position_at :
      ctx.position ≡ rt.create_program_address (position_seeds ctx.project ctx.investor) q.bump
  pub owner : q.owner ≡ ctx.investor
  pub token_there : rt.token_account s.tokens ctx.investor_token_ata ≡ some token_ata
  pub token_of : token_ata.mint ≡ ctx.token_mint
  pub token_owner : token_ata.owner ≡ ctx.investor
  pub usdc_there : rt.token_account s.tokens ctx.investor_usdc_ata ≡ some usdc_ata
  pub usdc_of : usdc_ata.mint ≡ ctx.usdc_mint
  pub usdc_owner : usdc_ata.owner ≡ ctx.investor
  pub usdc_mint : rt.is_mint s.tokens ctx.usdc_mint ≡ true

is_open :
    (a : ProjectStatus)
    → (a ≡ ProjectStatus.funding) ⊎ (a ≡ ProjectStatus.cancelled)
    → (project_status_eq a ProjectStatus.funding || project_status_eq a ProjectStatus.cancelled)
      ≡ true
is_open a (inl e) = rw e refl
is_open a (inr e) = rw e refl

module _ {L : Type 0} {rt : Runtime L} (laws : RuntimeLaws rt) where
  -- A position of a project holds no more than the project sold.
  pub enough_sold :
      (d : Accounts) (k at investor : Pubkey) (p : Project) (q : InvestorPosition)
      → Inv rt d
      → lookup k d ≡ some (project_account p)
      → lookup at d ≡ some (position_account q)
      → at ≡ rt.create_program_address (position_seeds k investor) q.bump
      → q.tokens_held ≤ p.tokens_sold
  enough_sold d k at investor p q inv there mine spot =
      let target = target_of_address laws d k at investor q.bump q inv mine spot in
      omega (
        arith,
        held_here k q target,
        sum_by-lookup (held k) at (position_account q) d mine,
        (inv.supply k (project_account p) (project_fund p) there refl).0,
      )

  withdrawal-Runs :
      (ctx : WithdrawInvestment) (s : State L) (p : Project) (q : InvestorPosition)
      → (vault token_ata usdc_ata : TokenAccount) (l l' : L)
      → IsEntitled rt ctx s p q vault token_ata usdc_ata
      → (p.status ≡ ProjectStatus.funding) ⊎ (p.status ≡ ProjectStatus.cancelled)
      → 0 < q.tokens_held
      → q.tokens_held ≤ p.tokens_sold
      → rt.burn ctx.token_mint ctx.investor_token_ata ctx.investor q.tokens_held s.tokens ≡ ok l
      → rt.transfer ctx.usdc_vault ctx.investor_usdc_ata ctx.project q.tokens_held l ≡ ok l'
      → Runs (withdraw_investment rt ctx) s tt (record s {
        tokens = l';
        accounts = insert ctx.position (position_account (record q { tokens_held = 0 })) (
            insert ctx.project
              (project_account (record p { tokens_sold = p.tokens_sold - q.tokens_held }))
              s.accounts);
      })
  unfolding withdraw_investment
  withdrawal-Runs ctx s p q vault token_ata usdc_ata l l' ready status held enough burned paid =
      run_load as_project _ (project_account p) p _ ready.project refl (
        run_key _ _ ready.project_at (
          run_key _ _ ready.project_mint (
            run_key _ _ ready.project_vault (
              run_load_mint rt _ _ ready.token_mint (
                run_load_token rt _ vault _ ready.vault_there (
                  run_load as_position _ (position_account q) q _ ready.position refl (
                    run_key _ _ ready.position_at (
                      run_key _ _ ready.owner (
                        run_token_of rt _ _ _ token_ata _ ready.token_there ready.token_of
                          ready.token_owner
                          (run_token_of rt _ _ _ usdc_ata _ ready.usdc_there ready.usdc_of
                            ready.usdc_owner
                            (run_load_mint rt _ _ ready.usdc_mint (
                              run_require _ _ (is_open p.status status) (
                                run_require _ _ (lt→ltb _ _ held) (
                                  run_invoke _ l _ burned (
                                    run_invoke _ l' _ paid (
                                      run_ok_or _ _ _ (checked_sub_fits _ _ enough)
                                        (run_save _ _ _ (run_last_save _ _ _))))))))))))))))))

  -- In every state that is reached from one without accounts: where the accounts of a withdrawal are
  -- the right ones, the project is in status `Funding` or `Cancelled`, the position holds tokens and
  -- the token program burns them and makes the transfer, the withdrawal succeeds, in the state with
  -- the position empty and its tokens off what the project sold. The addresses of positions are
  -- collision free.
  pub withdrawal-succeeds :
      (ctx : WithdrawInvestment) (s t : State L) (p : Project) (q : InvestorPosition)
      → (vault token_ata usdc_ata : TokenAccount) (l l' : L) → IsFresh rt s
      → Reach rt s t
      → IsEntitled rt ctx t p q vault token_ata usdc_ata
      → (p.status ≡ ProjectStatus.funding) ⊎ (p.status ≡ ProjectStatus.cancelled)
      → 0 < q.tokens_held
      → rt.burn ctx.token_mint ctx.investor_token_ata ctx.investor q.tokens_held t.tokens ≡ ok l
      → rt.transfer ctx.usdc_vault ctx.investor_usdc_ata ctx.project q.tokens_held l ≡ ok l'
      → withdraw_investment rt ctx t
        ≡ ok (
          tt,
          record t {
            tokens = l';
            accounts = insert ctx.position (position_account (record q { tokens_held = 0 })) (
                insert ctx.project
                  (project_account (record p { tokens_sold = p.tokens_sold - q.tokens_held }))
                  t.accounts);
          },
        )
  withdrawal-succeeds ctx s t p q vault token_ata usdc_ata l l' fresh r ready status held burned
        paid =
      let enough =
        enough_sold t.accounts ctx.project ctx.position ctx.investor p q
          (Reach-Inv laws s t fresh r) ready.project ready.position ready.position_at in
      (withdrawal-Runs ctx t p q vault token_ata usdc_ata l l' ready status held enough burned
        paid).runs
