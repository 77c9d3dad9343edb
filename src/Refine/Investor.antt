-- ===== src/Refine/Investor.antt =====
-- The moves of the instructions of programs/exira/src/instructions/investor that touch projects.
use ascertainty_contracts.Base.{
  ℕ, refl, inl, arith, ltb→lt, checked_add-eq-some, checked_sub-eq-some, u64_size,
}
use ascertainty_contracts.Accounts.{project_account}
use ascertainty_contracts.Runtime.{
  Runtime, State, Ensures, on_key, on_require, on_ok_or, on_invoke, on_save, on_project,
  on_position, on_init_position, on_load_token, on_load_mint, on_load_token_of,
  on_init_associated_if_needed, on_last_save,
}
use ascertainty_contracts.Investor.Projects.{
  opened_position, BuyProjectTokens, buy_project_tokens, ClaimProjectReturns, claim_project_returns,
  WithdrawInvestment, withdraw_investment,
}
use ascertainty_contracts.Shares.Fund.{project_fund}
use ascertainty_contracts.Shares.Move.{nothing, buy, claim, withdraw, Moves, one-Move}
use ascertainty_contracts.Refine.Follow.{terms_kept}
use ascertainty_contracts.Accounts.Evolve.{stays}
use ascertainty_contracts.Refine.Constraints.{room_of, owed_of}

module _ {L : Type 0} (rt : Runtime L) where
  pub buy_project_tokens-Moves :
      (ctx : BuyProjectTokens) (amount : ℕ) (s : State L)
      → Ensures (λ _ e. Moves rt s.accounts nothing e.accounts) (buy_project_tokens rt ctx amount) s
  unfolding buy_project_tokens
  buy_project_tokens-Moves ctx amount s = on_project _ λ project there. on_key _ λ _ at.
      on_key _ λ _ mint. on_key _ λ _ vault. on_load_mint rt _ λ _ _.
        on_load_token rt _ λ balance _. on_load_token_of rt _ _ _ λ ata _ _ _.
          on_init_associated_if_needed rt _ _ _ λ _ l _.
            on_init_position rt _ _ λ opened spot found old. on_load_mint rt _ λ _ _.
              on_require _ λ _ nonzero. on_require _ λ _ raising. on_ok_or _ λ remaining rm.
                on_require _ λ _ fits. on_invoke _ λ _ l' _. on_invoke _ λ _ l'' _.
                  on_ok_or _ λ held hd. on_ok_or _ λ sold sd.
                    let q =
                      opened_position opened.0 ctx.investor ctx.project
                        project.cumulative_usdc_per_token opened.1 in
                    let more = checked_add-eq-some u64_size q.tokens_held amount held hd in
                    let grown = checked_add-eq-some u64_size project.tokens_sold amount sold sd in
                    on_save _ _ λ _. on_last_save _ _ (
                      one-Move rt (
                        buy _ (project_account project)
                          (project_account (record project { tokens_sold = sold }))
                          (project_fund project) _ opened.0 ctx.investor amount there refl
                          (rw grown.0) refl (terms_kept project stays (omega arith) (omega arith))
                          refl (inl raising) (room_of _ _ _ _ rm fits) spot old
                          (rw (more.0, found))))

  pub claim_project_returns-Moves :
      (ctx : ClaimProjectReturns) (s : State L)
      → Ensures (λ _ e. Moves rt s.accounts nothing e.accounts) (claim_project_returns rt ctx) s
  unfolding claim_project_returns
  claim_project_returns-Moves ctx s = on_project _ λ project there. on_key _ λ _ at.
      on_key _ λ _ vault. on_position _ λ position held. on_key _ λ _ spot. on_key _ λ _ owner.
        on_key _ λ _ mine. on_init_associated_if_needed rt _ _ _ λ _ l _.
          on_load_token rt _ λ balance _. on_load_mint rt _ λ _ _. on_ok_or _ λ delta dl.
            on_ok_or _ λ scaled sc. on_ok_or _ λ owed ow. on_require _ λ _ due.
              on_require _ λ _ covered. on_invoke _ λ _ l' _. on_ok_or _ λ claimed cl.
                let o = owed_of _ _ _ _ _ _ _ _ dl sc ow cl in
                on_last_save _ _ (
                  rw o.1 (
                    one-Move rt (
                      claim _ (project_account project) (project_fund project) _ position owed there
                        refl held mine o.2 o.0 (ltb→lt _ _ due) refl)))

  pub withdraw_investment-Moves :
      (ctx : WithdrawInvestment) (s : State L)
      → Ensures (λ _ e. Moves rt s.accounts nothing e.accounts) (withdraw_investment rt ctx) s
  unfolding withdraw_investment
  withdraw_investment-Moves ctx s = on_project _ λ project there. on_key _ λ _ at.
      on_key _ λ _ mint. on_key _ λ _ vault. on_load_mint rt _ λ _ _.
        on_load_token rt _ λ balance _. on_position _ λ position held. on_key _ λ _ spot.
          on_key _ λ _ owner. on_load_token_of rt _ _ _ λ ata _ _ _.
            on_load_token_of rt _ _ _ λ ata' _ _ _. on_load_mint rt _ λ _ _.
              on_require _ λ _ open_to. on_require _ λ _ nonzero. on_invoke _ λ _ l _.
                on_invoke _ λ _ l' _. on_ok_or _ λ sold sd.
                  let left = checked_sub-eq-some _ _ _ sd in
                  on_save _ _ λ _. on_last_save _ _ (
                    one-Move rt (
                      withdraw _ (project_account project) _ (project_fund project) _ position there
                        refl (rw left.0) refl (terms_kept project stays (omega arith) (omega arith))
                        refl held (rw owner spot) left.1 (ltb→lt _ _ nonzero) refl))
