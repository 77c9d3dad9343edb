-- ===== src/Safety/Sales.antt =====
-- Buying project tokens (buy_project_tokens.rs).
use ascertainty_contracts.Base.{
  ℕ, ◌+◌, ◌<◌, ◌≤◌, ◌≡◌, refl, some, ltb→lt, u64_size, checked_add-eq-some,
}
use ascertainty_contracts.Base.Store.{lookup, insert}
use ascertainty_contracts.Errors.{ok}
use ascertainty_contracts.Accounts.{
  ProjectStatus, Project, InvestorPosition, project_account, position_account,
}
use ascertainty_contracts.Runtime.{
  TokenAccount, Runtime, State, NewOrOld, IsAssociated, position_seeds, Ensures, ensures-ok, on_key,
  on_require, on_ok_or, on_invoke, on_save, on_project, on_init_position, on_load_token,
  on_load_mint, on_load_token_of, on_init_associated_if_needed, on_last_save,
}
use ascertainty_contracts.Investor.Projects.{BuyProjectTokens, buy_project_tokens, opened_position}
use ascertainty_contracts.Shares.Move.{bought}
use ascertainty_contracts.Refine.Constraints.{room_of}
use ascertainty_contracts.Refine.Follow.{status_is}

-- A purchase of `amount` tokens of the project `p` with the position `q`, from the state `s` to `s'`.
pub record IsPurchase {L : Type 0} (rt : Runtime L) (ctx : BuyProjectTokens) (amount : ℕ)
    (s s' : State L) (p : Project) (q : InvestorPosition) : Type 0 where
  pub project : lookup ctx.project s.accounts ≡ some (project_account p)
  pub mint : p.token_mint ≡ ctx.token_mint
  pub vault : p.usdc_vault ≡ ctx.usdc_vault
  pub payer :
      (a : TokenAccount) × (rt.token_account s.tokens ctx.investor_usdc_ata ≡ some a)
      × (a.mint ≡ ctx.usdc_mint)
      × (a.owner ≡ ctx.investor)
  pub position : NewOrOld ctx.position q s.accounts
  pub status : p.status ≡ ProjectStatus.funding
  pub positive : 0 < amount
  pub room : p.tokens_sold + amount ≤ p.target_amount
  pub paid :
      (l : L) × (l' : L) × IsAssociated rt ctx.investor_token_ata ctx.token_mint ctx.investor
        s.tokens l
      × (rt.transfer ctx.investor_usdc_ata ctx.usdc_vault ctx.investor amount l ≡ ok l')
      × (rt.mint_to ctx.token_mint ctx.investor_token_ata ctx.project amount l' ≡ ok s'.tokens)
  pub written :
      s'.accounts
      ≡ insert ctx.position
          (position_account (
            bought q ctx.investor ctx.project p.cumulative_usdc_per_token
              (rt.find_program_address (position_seeds ctx.project ctx.investor)).1
              amount))
          (insert ctx.project
            (project_account (record p { tokens_sold = p.tokens_sold + amount }))
            s.accounts)

module _ {L : Type 0} (rt : Runtime L) where
  purchased :
      (ctx : BuyProjectTokens) (amount : ℕ) (s : State L)
      → Ensures
          (λ _ s'. (p : Project) × (q : InvestorPosition) × IsPurchase rt ctx amount s s' p q)
          (buy_project_tokens rt ctx amount)
          s
  unfolding buy_project_tokens
  purchased ctx amount s = on_project _ λ project there. on_key _ λ _ at. on_key _ λ _ mint.
      on_key _ λ _ vault. on_load_mint rt _ λ _ _. on_load_token rt _ λ balance _.
        on_load_token_of rt _ _ _ λ ata its its_mint its_owner.
          on_init_associated_if_needed rt _ _ _ λ _ l made.
            on_init_position rt _ _ λ opened spot found old. on_load_mint rt _ λ _ _.
              on_require _ λ _ nonzero. on_require _ λ _ raising. on_ok_or _ λ remaining rm.
                on_require _ λ _ fits. on_invoke _ λ _ l' moved. on_invoke _ λ _ l'' minted.
                  on_ok_or _ λ held hd. on_ok_or _ λ sold sd.
                    let q =
                      opened_position opened.0 ctx.investor ctx.project
                        project.cumulative_usdc_per_token opened.1 in
                    let more = checked_add-eq-some u64_size q.tokens_held amount held hd in
                    let grown = checked_add-eq-some u64_size project.tokens_sold amount sold sd in
                    on_save _ _ λ _. on_last_save _ _ (
                      project,
                      opened.0,
                      record {
                        project = there;
                        mint = mint;
                        vault = vault;
                        payer = (ata, its, its_mint, its_owner);
                        position = old;
                        status = status_is project.status ProjectStatus.funding raising;
                        positive = ltb→lt _ _ nonzero;
                        room = room_of _ _ _ _ rm fits;
                        paid = (l, l', made, moved, minted);
                        written = rw (more.0, found, grown.0) refl;
                      },
                    )

  -- A purchase of project tokens that succeeds happens while the project is in status `Funding` and
  -- has room for the tokens: it moves a positive `amount` from an account of the investor to the vault
  -- of the project, mints as many tokens to the investor, adds them to the position (which it opens,
  -- settled, where there was none) and to what the project sold, and changes no other account.
  pub buy_project_tokens-IsPurchase :
      (ctx : BuyProjectTokens) (amount : ℕ) (s s' : State L)
      → buy_project_tokens rt ctx amount s ≡ ok (tt, s')
      → (p : Project) × (q : InvestorPosition) × IsPurchase rt ctx amount s s' p q
  buy_project_tokens-IsPurchase ctx amount s s' run = ensures-ok tt s' (purchased ctx amount s) run
