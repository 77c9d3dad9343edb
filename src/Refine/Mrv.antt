-- ===== src/Refine/Mrv.antt =====
-- The moves of programs/exira/src/instructions/mrv.
use ascertainty_contracts.Base.{ℕ, refl, inl, inr, List}
use ascertainty_contracts.Accounts.{mrv_account, verification_account}
use ascertainty_contracts.Runtime.{
  Runtime, State, Ensures, on_key, on_require, on_ok_or, on_clock, on_save, on_mrv_project,
  on_verification, on_init, on_last_save,
}
use ascertainty_contracts.Mrv.Registry.{
  RegisterMrvProject, register_mrv_project, AddAuditor, add_auditor,
}
use ascertainty_contracts.Mrv.Reports.{
  SubmitBaseline, BaselineReport, submit_baseline, SubmitVerification, SavingsReport,
  submit_verification, AttestVerification, attest_verification,
}
use ascertainty_contracts.Shares.Move.{nothing, put, Moves, then_move, one-Move}
use ascertainty_contracts.Refine.Follow.{mrv_kept, mrv_baselined}
use ascertainty_contracts.Refine.Constraints.{plain_at, plain_free}
use ascertainty_contracts.Shares.Kept.{still_free}
use ascertainty_contracts.Refine.Constraints.{on_platform_of, on_auditor_of}

module _ {L : Type 0} (rt : Runtime L) where
  pub register_mrv_project-Moves :
      (ctx : RegisterMrvProject) (id : ℕ) (name sector location upgrade : List ℕ) (s : State L)
      → Ensures
          (λ _ e. Moves rt s.accounts nothing e.accounts)
          (register_mrv_project rt ctx id name sector location upgrade)
          s
  unfolding register_mrv_project
  register_mrv_project-Moves ctx id name sector location upgrade s =
      on_platform_of rt _ _ λ platform _ _. on_init rt _ _ λ bump at found free. on_clock λ now _.
        on_ok_or _ λ a _. on_ok_or _ λ b _. on_ok_or _ λ c _. on_ok_or _ λ d _.
          on_last_save _ _
            (one-Move rt (put _ _ refl refl (plain_free _ _ _ free) (inl (tt, (at, found))) refl))

  pub add_auditor-Moves :
      (ctx : AddAuditor) (name certification : List ℕ) (s : State L)
      → Ensures
          (λ _ e. Moves rt s.accounts nothing e.accounts)
          (add_auditor rt ctx name certification)
          s
  unfolding add_auditor
  add_auditor-Moves ctx name certification s = on_platform_of rt _ _ λ platform _ _.
      on_init rt _ _ λ bump at found free. on_clock λ now _. on_ok_or _ λ a _. on_ok_or _ λ b _.
        on_last_save _ _
          (one-Move rt (put _ _ refl refl (plain_free _ _ _ free) (inl (tt, (at, found))) refl))

  pub submit_baseline-Moves :
      (ctx : SubmitBaseline) (report : BaselineReport) (s : State L)
      → Ensures (λ _ e. Moves rt s.accounts nothing e.accounts) (submit_baseline rt ctx report) s
  unfolding submit_baseline
  submit_baseline-Moves ctx report s = on_auditor_of rt _ _ λ auditor _ _ _.
      on_mrv_project _ λ mrv there. on_key _ λ _ at. on_require _ λ _ first.
        on_init rt _ _ λ bump at' found free. on_clock λ now _. on_ok_or _ λ fuel _.
          on_save _ _ λ _. on_last_save _ _ (
            then_move
              (one-Move rt (
                put _ _ refl refl
                  (plain_at _ (mrv_account mrv) _ _ there refl refl (mrv_baselined mrv))
                  (inr (_, there)) refl))
              (put _ _ refl refl (plain_free _ _ _ (still_free _ _ _ _ free there))
                (inl (tt, (at', found))) refl))

  pub submit_verification-Moves :
      (ctx : SubmitVerification) (index : ℕ) (report : SavingsReport) (s : State L)
      → Ensures
          (λ _ e. Moves rt s.accounts nothing e.accounts)
          (submit_verification rt ctx index report)
          s
  unfolding submit_verification
  submit_verification-Moves ctx index report s = on_auditor_of rt _ _ λ auditor _ _ _.
      on_mrv_project _ λ mrv there. on_key _ λ _ at. on_require _ λ _ baseline.
        on_init rt _ _ λ bump at' found free. on_require _ λ _ period. on_clock λ now _.
          on_save _ _ λ _. on_last_save _ _ (
            then_move
              (one-Move rt (
                put _ _ refl refl
                  (plain_at _ (mrv_account mrv) _ _ there refl refl (mrv_kept mrv baseline))
                  (inr (_, there)) refl))
              (put _ _ refl refl (plain_free _ _ _ (still_free _ _ _ _ free there))
                (inl (tt, (at', found))) refl))

  pub attest_verification-Moves :
      (ctx : AttestVerification) (s : State L)
      → Ensures (λ _ e. Moves rt s.accounts nothing e.accounts) (attest_verification rt ctx) s
  unfolding attest_verification
  attest_verification-Moves ctx s = on_auditor_of rt _ _ λ auditor _ _ _. on_mrv_project _ λ mrv _.
      on_key _ λ _ at. on_verification _ λ verification there. on_key _ λ _ at'.
        on_require _ λ _ fresh. on_key _ λ _ own. on_last_save _ _ (
          one-Move rt (
            put _ _ refl refl
              (plain_at _ (verification_account verification) _ _ there refl refl
                (record { report = refl; attested = λ e. refl }))
              (inr (_, there)) refl))
