-- ===== src/Refine/Admin.antt =====
-- The moves of the admin's instructions that touch projects (instructions/admin).
use ascertainty_contracts.Base.{ℕ, Bool, inl, inr, ap, refl, ◌∙◌, true, false, arith, ltb→lt}
use ascertainty_contracts.Base.Store.{lookup, lookup-insert_ne}
use ascertainty_contracts.Accounts.{Pubkey, platform_account, project_account}
use ascertainty_contracts.Runtime.{
  Runtime, State, M, pure, ◌>>=◌, Ensures, on_pure, on_bind, on_key, on_require, on_ok_or, on_clock,
  on_invoke, on_save, on_project, on_mrv_project, on_init, on_load_token, on_load_mint,
  on_load_token_of, on_init_associated, on_last_save,
}
use ascertainty_contracts.Admin.Platforms.{InitializePlatform, initialize_platform}
use ascertainty_contracts.Admin.Projects.{
  CreateProject, create_project, ActivateProject, activate_project, pay_fee, CloseProject,
  close_project,
}
use ascertainty_contracts.Admin.Funds.{
  DistributeRepayment, distribute_repayment, WithdrawProjectFunds, withdraw_project_funds,
}
use ascertainty_contracts.Shares.Fund.{project_fund}
use ascertainty_contracts.Shares.Move.{
  nothing, put, create, govern, distribute, Moves, then_move, one-Move,
}
use ascertainty_contracts.Refine.Follow.{
  terms_kept, counted, activated, closed, repaid, caps, term_bounds,
}
use ascertainty_contracts.Accounts.Evolve.{stays}
use ascertainty_contracts.Refine.Constraints.{plain_at, plain_free}
use ascertainty_contracts.Shares.Kept.{still_free}
use ascertainty_contracts.Refine.Constraints.{on_platform_of, on_platform_usdc, accrual}

module _ {L : Type 0} (rt : Runtime L) where
  pub initialize_platform-Moves :
      (ctx : InitializePlatform) (o p h : ℕ) (s : State L)
      → Ensures (λ _ e. Moves rt s.accounts nothing e.accounts) (initialize_platform rt ctx o p h) s
  unfolding initialize_platform
  initialize_platform-Moves ctx o p h s = on_init rt _ _ λ bump at found free.
      on_load_mint rt _ λ _ _. on_require _ λ _ fees. on_last_save _ _ (
        one-Move rt
          (put _ _ refl refl (plain_free _ _ _ free) (inl (caps o p h fees, (at, found))) refl))

  pub close_project-Moves :
      (ctx : CloseProject) (s : State L)
      → Ensures (λ _ e. Moves rt s.accounts nothing e.accounts) (close_project rt ctx) s
  unfolding close_project
  close_project-Moves ctx s = on_platform_of rt _ _ λ platform _ _. on_project _ λ project there.
      on_key _ λ _ at. on_require _ λ _ status. on_last_save _ _ (
        one-Move rt (
          govern _ (project_account project) _ (project_fund project) there refl refl refl
            (terms_kept project (closed project.status status) (omega arith) (omega arith))
            (λ r. cc) refl))

  pub distribute_repayment-Moves :
      (ctx : DistributeRepayment) (amount : ℕ) (s : State L)
      → Ensures
          (λ _ e. Moves rt s.accounts nothing e.accounts)
          (distribute_repayment rt ctx amount)
          s
  unfolding distribute_repayment
  distribute_repayment-Moves ctx amount s = on_platform_usdc rt _ _ _ λ platform _ _ _.
      on_project _ λ project there. on_key _ λ _ at. on_key _ λ _ vault.
        on_load_token_of rt _ _ _ λ ata _ _ _. on_load_token rt _ λ balance _.
          on_load_mint rt _ λ _ _. on_require _ λ _ nonzero. on_require _ λ _ status.
            on_require _ λ _ sold. on_invoke _ λ _ l _. on_ok_or _ λ scaled sc.
              on_ok_or _ λ delta dl. on_ok_or _ λ cumulative cm. on_ok_or _ λ distributed ds.
                let grown = accrual amount project.tokens_sold _ _ _ _ _ _ sc dl cm ds in
                on_last_save _ _ (
                  one-Move rt (
                    distribute _ (project_account project) _ (project_fund project) amount there
                      refl (rw (grown.0, grown.1)) refl
                      (terms_kept project (repaid project.status status) (omega (arith, grown.1))
                        (omega (arith, grown.0)))
                      (ground arith) (ltb→lt _ _ sold) grown.2 refl))

  pub withdraw_project_funds-Moves :
      (ctx : WithdrawProjectFunds) (amount : ℕ) (s : State L)
      → Ensures
          (λ _ e. Moves rt s.accounts nothing e.accounts)
          (withdraw_project_funds rt ctx amount)
          s
  unfolding withdraw_project_funds
  withdraw_project_funds-Moves ctx amount s = on_platform_usdc rt _ _ _ λ platform _ _ _.
      on_project _ λ project there. on_key _ λ _ at. on_key _ λ _ vault.
        on_load_token rt _ λ balance _. on_load_token rt _ λ destination _. on_key _ λ _ mint.
          on_load_mint rt _ λ _ _. on_require _ λ _ nonzero. on_require _ λ _ covered.
            on_invoke _ λ _ l _. on_last_save _ _ (
              one-Move rt (
                govern _ (project_account project) _ (project_fund project) there refl refl refl
                  (terms_kept project stays (omega arith) (omega arith)) (λ r. r) refl))

  pub create_project-Moves :
      (ctx : CreateProject) (id target term : ℕ) (s : State L)
      → Ensures
          (λ _ e. Moves rt s.accounts nothing e.accounts)
          (create_project rt ctx id target term)
          s
  unfolding create_project
  create_project-Moves ctx id target term s = on_platform_usdc rt _ _ _ λ platform there _ _.
      on_mrv_project _ λ mrv registered. on_require _ λ _ baseline.
        on_init rt _ _ λ bump at found free. on_invoke _ λ _ l _.
          on_init_associated rt _ _ _ λ _ l' _. on_load_mint rt _ λ _ _. on_require _ λ _ positive.
            on_require _ λ _ in_term. on_clock λ now _. on_save _ _ λ _. on_last_save _ _ (
              then_move
                (one-Move rt (
                  put _ _ refl refl
                    (plain_at _ (platform_account platform) _ _ there refl refl (counted platform))
                    (inr (_, there)) refl))
                (create _ _ target (still_free _ _ _ _ free there) refl
                  (
                    (
                      (
                        mrv,
                        lookup-insert_ne _ _ _ _
                              (λ e. cc (ap (λ t. lookup t s.accounts) e, registered, there))
                            ∙ registered,
                        baseline,
                      ),
                      ltb→lt _ _ positive,
                      (term_bounds term in_term).0,
                      (term_bounds term in_term).1,
                      λ e. cc e,
                    ),
                    (at, found),
                    tt,
                  )
                  refl))

  pub on_pay_fee :
      {Q : Unit {0} → State L → Type 0} (b : Bool) (from to authority : Pubkey) (fee : ℕ)
      → {f : Unit {0} → M L (Unit {0})} {s : State L}
      → ((u : Unit {0}) (l : L) → Ensures Q (f u) (record s { tokens = l }))
      → Ensures Q (pay_fee rt b from to authority fee >>= f) s
  unfolding pay_fee
  on_pay_fee true from to authority fee h = on_invoke _ λ u l _. h u l
  on_pay_fee false from to authority fee {s = s} h = on_bind (pure tt) (on_pure tt (h tt s.tokens))

  pub activate_project-Moves :
      (ctx : ActivateProject) (s : State L)
      → Ensures (λ _ e. Moves rt s.accounts nothing e.accounts) (activate_project rt ctx) s
  unfolding activate_project
  activate_project-Moves ctx s = on_platform_of rt _ _ λ platform _ _. on_key _ λ _ treasury.
      on_key _ λ _ usdc. on_project _ λ project there. on_key _ λ _ at. on_key _ λ _ vault.
        on_load_token rt _ λ balance _. on_load_token_of rt _ _ _ λ ata _ _ _.
          on_load_mint rt _ λ _ _. on_require _ λ _ raising. on_key _ λ _ full.
            on_ok_or _ λ scaled sc. on_pay_fee _ _ _ _ _ λ _ l. on_clock λ now _. on_last_save _ _ (
              one-Move rt (
                govern _ (project_account project) _ (project_fund project) there refl refl refl
                  (terms_kept project (activated project.status raising) (omega arith)
                    (omega arith))
                  (λ r. cc) refl))
