-- ===== src/Safety/Accrual.antt =====
-- Who gets a distribution (distribute_repayment.rs): the division by the tokens sold, and its rest.
use ascertainty_contracts.Base.{
  ℕ, ◌+◌, ◌-◌, ◌*◌, ◌/◌, ◌<◌, ◌≤◌, ◌≡◌, refl, ap, ◌∙◌, ◌==◌, ==→eq, inl, inr, some, arith,
  Bool-cases,
}
use ascertainty_contracts.Base.Store.{lookup, lookup-insert_self, All-mono, sum_by-linear}
use ascertainty_contracts.Constants.{precision}
use ascertainty_contracts.Errors.{ok}
use ascertainty_contracts.Accounts.{
  Pubkey, ProjectStatus, Project, Account, Accounts, project_account, position_account,
}
use ascertainty_contracts.Runtime.{Runtime, RuntimeLaws, State}
use ascertainty_contracts.Admin.Funds.{DistributeRepayment, distribute_repayment}
use ascertainty_contracts.Program.{Reach, IsFresh}
use ascertainty_contracts.Shares.Fund.{project_fund, held, entitled, entitlements}
use ascertainty_contracts.Shares.Invariant.{IsPlaced}
use ascertainty_contracts.Shares.Rewrite.{entitlements-insert_fund}
use ascertainty_contracts.Refine.Program.{Reach-Inv}
use ascertainty_contracts.Safety.Effects.{distribution-accrues}

spread : (h c l n : ℕ) → l ≤ c → h * (c + n - l) ≡ h * (c - l) + h * n
spread h c l n le = let e : c + n - l ≡ c - l + n = omega arith in rw e (grind arith)

rest : (x s : ℕ) → 0 < s → x < s * (x / s) + s
rest x s h = grind arith

module _ {L : Type 0} (rt : Runtime L) where
  -- A settled position of fund `k` gets `n` for each of its tokens.
  entitled-grows :
      (d : Accounts) (k : Pubkey) (p : Project) (n : ℕ)
      → lookup k d ≡ some (project_account p)
      → (at : Pubkey) (v : Account) → IsPlaced rt d at v
      → entitled k (p.cumulative_usdc_per_token + n) v
        ≡ entitled k p.cumulative_usdc_per_token v + held k v * n
  entitled-grows d k p n there at (position_account q) (_, fund) =
      elim (Bool-cases (q.target == k)) [
        | inl e ↦
            let same_fund : fund.fund ≡ project_fund p =
              cc (fund.found, ap (λ x. lookup x d) (==→eq q.target k e), there, fund.is_fund) in
            let settled : q.last_claimed_per_token ≤ p.cumulative_usdc_per_token =
              rw same_fund at fund.settled in
            rw e (
              omega (
                arith,
                spread q.tokens_held p.cumulative_usdc_per_token q.last_claimed_per_token n settled,
              ))
        | inr e ↦ rw e (omega arith)
      ]
  entitled-grows d k p n there at _ placed = omega arith

module _ {L : Type 0} {rt : Runtime L} (laws : RuntimeLaws rt) where
  -- In every state reached from one without accounts: a distribution of `amount` that succeeds leaves
  -- the project with an accumulator at which what its positions have claimed and can claim, in units
  -- of 1 / precision, is more than at the accumulator before it, by exactly
  -- `amount * precision / tokens_sold` for each token sold, and what the rounding leaves undistributed
  -- of `amount * precision` is less than the tokens sold. The addresses of positions are collision free.
  pub distribution-shares :
      (ctx : DistributeRepayment) (amount : ℕ) (s t u : State L) (p : Project)
      → IsFresh rt s
      → Reach rt s t
      → lookup ctx.project t.accounts ≡ some (project_account p)
      → distribute_repayment rt ctx amount t ≡ ok (tt, u)
      → (p' : Project) × (lookup ctx.project u.accounts ≡ some (project_account p'))
        × (entitlements ctx.project p'.cumulative_usdc_per_token u.accounts
            ≡ entitlements ctx.project p.cumulative_usdc_per_token t.accounts
              + p.tokens_sold * (amount * precision / p.tokens_sold))
        × (amount * precision
            < p.tokens_sold * (amount * precision / p.tokens_sold) + p.tokens_sold)
  distribution-shares ctx amount s t u p fresh r there run =
      let inv = Reach-Inv laws s t fresh r in
      let (p0, done) = distribution-accrues rt ctx amount t u run in
      let same : p0 ≡ p = cc (done.project, there) in
      let g = amount * precision / p.tokens_sold in
      let c = p.cumulative_usdc_per_token in
      let off =
        ap (λ d. entitlements ctx.project (c + g) d) done.written
        ∙ entitlements-insert_fund ctx.project (project_account p) _ t.accounts ctx.project (c + g)
            there refl refl in
      let grown =
        sum_by-linear (entitled ctx.project (c + g)) (entitled ctx.project c) (held ctx.project) g
          t.accounts
          (All-mono (IsPlaced rt t.accounts) _ t.accounts
            (entitled-grows rt t.accounts ctx.project p g there) inv.placed) in
      let supply = (inv.supply ctx.project (project_account p) (project_fund p) there refl).0 in
      let stored =
        ap (lookup ctx.project) done.written ∙ lookup-insert_self ctx.project _ t.accounts in
      (
        record p0 {
          status = ProjectStatus.repaying;
          total_distributed = p0.total_distributed + amount;
          cumulative_usdc_per_token =
              p0.cumulative_usdc_per_token + amount * precision / p0.tokens_sold;
        },
        stored,
        rw (same) off
            ∙ (grown ∙ ap (λ (x : ℕ). entitlements ctx.project c t.accounts + x * g) supply),
        rest (amount * precision) p.tokens_sold (rw same at done.sold),
      )
