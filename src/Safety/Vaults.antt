-- ===== src/Safety/Vaults.antt =====
-- The admin's withdrawal from a project's vault (withdraw_project_funds.rs).
use ascertainty_contracts.Base.{
  ℕ, ◌≤◌, ◌<◌, ◌≡◌, ap, sym, ◌∙◌, ◌==◌, inl, inr, some, Bool-cases, ==→eq, leb→le, ltb→lt, arith,
}
use ascertainty_contracts.Base.Store.{lookup, insert, lookup-insert_self, lookup-insert_ne}
use ascertainty_contracts.Errors.{ok}
use ascertainty_contracts.Accounts.{Pubkey, Project, Account, Accounts, project_account}
use ascertainty_contracts.Runtime.{
  Runtime, State, TokenAccount, Ensures, ensures-ok, on_key, on_require, on_invoke, on_project,
  on_load_token, on_load_mint, on_last_save,
}
use ascertainty_contracts.Admin.Funds.{WithdrawProjectFunds, withdraw_project_funds}
use ascertainty_contracts.Refine.Constraints.{on_platform_usdc}

-- A key that is written with what it holds.
lookup-rewrite :
    (j k : Pubkey) (v : Account) (d : Accounts)
    → lookup k d ≡ some v
    → lookup j (insert k v d) ≡ lookup j d
lookup-rewrite j k v d there = elim (Bool-cases (j == k)) [
  | inl e ↦
      let same : j ≡ k = ==→eq j k e in
      ap (λ i. lookup i (insert k v d)) same
      ∙ (lookup-insert_self k v d ∙ (sym there ∙ ap (λ i. lookup i d) (sym same)))
  | inr e ↦ lookup-insert_ne j k v d (ground arith)
]

-- A withdrawal of `amount` by the admin, from the state `s` to `s'`.
pub record IsDrawn {L : Type 0} (rt : Runtime L) (ctx : WithdrawProjectFunds) (amount : ℕ)
    (s s' : State L) (p : Project) (vault destination : TokenAccount) : Type 0 where
  pub project : lookup ctx.project s.accounts ≡ some (project_account p)
  pub vault_of : p.usdc_vault ≡ ctx.usdc_vault
  pub vault_there : rt.token_account s.tokens ctx.usdc_vault ≡ some vault
  pub destination_there : rt.token_account s.tokens ctx.destination ≡ some destination
  pub destination_mint : destination.mint ≡ ctx.usdc_mint
  pub positive : 0 < amount
  pub covered : amount ≤ vault.amount
  pub transferred :
      rt.transfer ctx.usdc_vault ctx.destination ctx.project amount s.tokens ≡ ok s'.tokens
  pub unchanged : (k : Pubkey) → lookup k s'.accounts ≡ lookup k s.accounts

module _ {L : Type 0} (rt : Runtime L) where
  drawn :
      (ctx : WithdrawProjectFunds) (amount : ℕ) (s : State L)
      → Ensures
          (λ _ s'.
            (p : Project) × (vault : TokenAccount) × (destination : TokenAccount) × IsDrawn rt ctx
              amount s s' p vault destination)
          (withdraw_project_funds rt ctx amount)
          s
  unfolding withdraw_project_funds
  drawn ctx amount s = on_platform_usdc rt _ _ _ λ platform _ _ _. on_project _ λ project there.
      on_key _ λ _ at. on_key _ λ _ vault. on_load_token rt _ λ balance from.
        on_load_token rt _ λ destination to. on_key _ λ _ mint. on_load_mint rt _ λ _ _.
          on_require _ λ _ nonzero. on_require _ λ _ covered. on_invoke _ λ _ l moved.
            on_last_save _ _ (
              project,
              balance,
              destination,
              record {
                project = there;
                vault_of = vault;
                vault_there = from;
                destination_there = to;
                destination_mint = mint;
                positive = ltb→lt _ _ nonzero;
                covered = leb→le _ _ covered;
                transferred = moved;
                unchanged = λ k. lookup-rewrite k ctx.project _ s.accounts there;
              },
            )

  -- A withdrawal by the admin that succeeds takes a positive `amount` that the vault covers to a token
  -- account of the USDC mint, whoever owns it, and leaves every account of the program as it was.
  pub drawing-leaves :
      (ctx : WithdrawProjectFunds) (amount : ℕ) (s s' : State L)
      → withdraw_project_funds rt ctx amount s ≡ ok (tt, s')
      → (p : Project) × (vault : TokenAccount) × (destination : TokenAccount) × IsDrawn rt ctx
          amount s s' p vault destination
  drawing-leaves ctx amount s s' run = ensures-ok tt s' (drawn ctx amount s) run
