-- ===== src/Safety/Refunds.antt =====
-- Taking an investment back (withdraw_investment.rs) after a first purchase (Safety/Sales.antt).
use ascertainty_contracts.Base.{
  ℕ, ◌+◌, ◌-◌, ◌≡◌, ◌≢◌, ◌∙◌, sym, ap, refl, arith, ◌==◌, ==→eq, Bool-cases, none, some, inl, inr,
}
use ascertainty_contracts.Base.Store.{lookup, insert, lookup-insert_self, lookup-insert_ne}
use ascertainty_contracts.Errors.{ok}
use ascertainty_contracts.Accounts.{
  Pubkey, Project, InvestorPosition, Account, Accounts, project_account, position_account,
}
use ascertainty_contracts.Runtime.{
  TokenAccount, Runtime, State, IsAssociated, blank_position, position_seeds,
}
use ascertainty_contracts.Investor.Projects.{
  BuyProjectTokens, buy_project_tokens, WithdrawInvestment, withdraw_investment,
}
use ascertainty_contracts.Shares.Move.{bought}
use ascertainty_contracts.Safety.Effects.{IsRefunded, withdrawal-refunds}
use ascertainty_contracts.Safety.Sales.{IsPurchase, buy_project_tokens-IsPurchase}

-- The tokens of a purchase of `amount` tokens, from the state `s` to `t`, and of the withdrawal of
-- them, from `t` to `u`: each side of the one is undone by the other.
pub record IsRepaid {L : Type 0} (rt : Runtime L) (ctx : BuyProjectTokens)
    (back : WithdrawInvestment) (amount : ℕ) (s t u : State L) : Type 0 where
  pub investor : back.investor ≡ ctx.investor
  pub payer :
      (a : TokenAccount) × (rt.token_account s.tokens ctx.investor_usdc_ata ≡ some a)
      × (a.mint ≡ ctx.usdc_mint)
      × (a.owner ≡ ctx.investor)
  pub holder :
      (a : TokenAccount) × (rt.token_account t.tokens back.investor_token_ata ≡ some a)
      × (a.mint ≡ ctx.token_mint)
      × (a.owner ≡ ctx.investor)
  pub payee :
      (a : TokenAccount) × (rt.token_account t.tokens back.investor_usdc_ata ≡ some a)
      × (a.mint ≡ back.usdc_mint)
      × (a.owner ≡ ctx.investor)
  pub paid :
      (l : L) × (l' : L) × IsAssociated rt ctx.investor_token_ata ctx.token_mint ctx.investor
        s.tokens l
      × (rt.transfer ctx.investor_usdc_ata ctx.usdc_vault ctx.investor amount l ≡ ok l')
      × (rt.mint_to ctx.token_mint ctx.investor_token_ata ctx.project amount l' ≡ ok t.tokens)
  pub repaid :
      (l : L) × (rt.burn ctx.token_mint back.investor_token_ata ctx.investor amount t.tokens ≡ ok l)
      × (rt.transfer ctx.usdc_vault back.investor_usdc_ata ctx.project amount l ≡ ok u.tokens)

module _ {L : Type 0} (rt : Runtime L) where
  -- What stands at a key after two writes at other keys.
  untouched :
      (d : Accounts) (j at k : Pubkey) (v w : Account)
      → j ≢ at
      → j ≢ k
      → lookup j (insert at v (insert k w d)) ≡ lookup j d
  untouched d j at k v w ja jk =
      lookup-insert_ne j at v (insert k w d) ja ∙ lookup-insert_ne j k w d jk

  -- What stands at the inner key.
  inner :
      (d : Accounts) (at k : Pubkey) (v w : Account)
      → at ≢ k
      → lookup k (insert at v (insert k w d)) ≡ some w
  inner d at k v w apart =
      lookup-insert_ne k at v (insert k w d) (λ e. apart (sym e)) ∙ lookup-insert_self k w d

  -- The tokens sold, put back.
  restored :
      (p p' : Project) (n m : ℕ)
      → p' ≡ record p { tokens_sold = p.tokens_sold + n }
      → m ≡ n
      → record p' { tokens_sold = p'.tokens_sold - m } ≡ p
  restored p p' n m e mn =
      rw (e, mn)
        (let same : p.tokens_sold + n - n ≡ p.tokens_sold = omega arith in
          ap (λ (x : ℕ). record p { tokens_sold = x }) same)

  -- The two instructions, with what each found and wrote.
  module _ (ctx : BuyProjectTokens) (back : WithdrawInvestment) (amount : ℕ) (s t u : State L)
      (p p' : Project) (q q' : InvestorPosition) (b : IsPurchase rt ctx amount s t p q)
      (r : IsRefunded rt back t u p' q') (vacant : lookup ctx.position s.accounts ≡ none)
      (same_project : back.project ≡ ctx.project)
      (same_position : back.position ≡ ctx.position) where
    position_apart : ctx.position ≢ ctx.project
    position_apart e = cc (ap (λ x. lookup x s.accounts) e, vacant, b.project)

    opened :
        q'
        ≡ bought blank_position ctx.investor ctx.project p.cumulative_usdc_per_token
            (rt.find_program_address (position_seeds ctx.project ctx.investor)).1
            amount
    opened =
        let blank : q ≡ blank_position = elim b.position [
          | inl (_, e) ↦ e
          | inr there ↦ cc (there, vacant)
        ] in
        let wrote =
          ap (λ (d : Accounts). lookup ctx.position d) b.written
          ∙ lookup-insert_self ctx.position _ _ in
        let found = ap (λ x. lookup x t.accounts) (sym same_position) ∙ r.position in
        cc (wrote, found, blank)

    sold : p' ≡ record p { tokens_sold = p.tokens_sold + amount }
    sold =
        let wrote =
          ap (λ (d : Accounts). lookup ctx.project d) b.written
          ∙ inner s.accounts ctx.position ctx.project _ _ position_apart in
        let found = ap (λ x. lookup x t.accounts) (sym same_project) ∙ r.project in
        cc (wrote, found)

    held : q'.tokens_held ≡ amount
    held = ap (λ (x : InvestorPosition). x.tokens_held) opened ∙ omega arith

    undone :
        u.accounts
        ≡ insert ctx.position
            (position_account (record q' { tokens_held = 0 }))
            (insert ctx.project (project_account p) t.accounts)
    undone =
        r.written
        ∙ rw (same_project, same_position, restored p p' amount q'.tokens_held sold held) refl

    others : (k : Pubkey) → k ≢ ctx.position → lookup k u.accounts ≡ lookup k s.accounts
    others k other = rw undone (elim (Bool-cases (k == ctx.project)) [
      | inl e ↦
          let same : k ≡ ctx.project = ==→eq k ctx.project e in
          rw same (
            inner t.accounts ctx.position ctx.project _ (project_account p) position_apart
            ∙ sym b.project)
      | inr e ↦
          let apart : k ≢ ctx.project = ground arith in
          untouched t.accounts k ctx.position ctx.project _ _ other apart
          ∙ (ap (λ d. lookup k d) b.written
              ∙ untouched s.accounts k ctx.position ctx.project _ _ other apart)
    ])

    emptied :
        (q : InvestorPosition) × (lookup ctx.position u.accounts ≡ some (position_account q))
        × (q.owner ≡ ctx.investor)
        × (q.tokens_held ≡ 0)
    emptied = (
      record q' { tokens_held = 0 },
      ap (λ d. lookup ctx.position d) undone ∙ lookup-insert_self ctx.position _ _,
      ap (λ (x : InvestorPosition). x.owner) opened,
      refl,
    )

    repaid : IsRepaid rt ctx back amount s t u
    repaid =
        let same_investor : back.investor ≡ ctx.investor =
          sym r.owner ∙ ap (λ (x : InvestorPosition). x.owner) opened in
        let same_vault : back.usdc_vault ≡ ctx.usdc_vault =
          sym r.vault ∙ (ap (λ (x : Project). x.usdc_vault) sold ∙ b.vault) in
        let same_mint : back.token_mint ≡ ctx.token_mint =
          sym r.mint ∙ (ap (λ (x : Project). x.token_mint) sold ∙ b.mint) in
        record {
          investor = same_investor;
          payer = b.payer;
          holder = rw (same_mint, same_investor) at r.holder;
          payee = rw same_investor at r.payee;
          paid = b.paid;
          repaid = rw (same_project, held, same_vault, same_mint, same_investor) at r.burned;
        }

  -- A purchase of project tokens that opens a position, and then a withdrawal by this position, undo
  -- each other. The purchase moved exactly `amount` from an account of the investor to the vault of
  -- the project and minted as many tokens; the withdrawal, which the same investor signed, burns as
  -- many of the investor's tokens and moves exactly `amount` from the same vault to an account of the
  -- investor; but for the creation of the investor's token account no other tokens move. Every account
  -- but the position is as it was, the project among them, and the position holds nothing.
  pub purchase-withdrawal :
      (ctx : BuyProjectTokens) (back : WithdrawInvestment) (amount : ℕ) (s t u : State L)
      (k : Pubkey)
      → buy_project_tokens rt ctx amount s ≡ ok (tt, t)
      → lookup ctx.position s.accounts ≡ none
      → back.project ≡ ctx.project
      → back.position ≡ ctx.position
      → withdraw_investment rt back t ≡ ok (tt, u)
      → k ≢ ctx.position
      → (lookup k u.accounts ≡ lookup k s.accounts)
        × ((q : InvestorPosition) × (lookup ctx.position u.accounts ≡ some (position_account q))
            × (q.owner ≡ ctx.investor)
            × (q.tokens_held ≡ 0))
        × IsRepaid rt ctx back amount s t u
  purchase-withdrawal ctx back amount s t u k run vacant same_project same_position run' other =
      let (p, q, b) = buy_project_tokens-IsPurchase rt ctx amount s t run in
      let (p', q', r) = withdrawal-refunds rt back t u run' in
      (
        others ctx back amount s t u p p' q q' b r vacant same_project same_position k other,
        emptied ctx back amount s t u p p' q q' b r vacant same_project same_position,
        repaid ctx back amount s t u p p' q q' b r vacant same_project same_position,
      )
