-- ===== src/Safety/Claims.antt =====
-- A claim of a project's returns (claim_project_returns.rs), and another claim of the same position.
use ascertainty_contracts.Base.{
  ℕ, ◌-◌, ◌*◌, ◌/◌, ◌+◌, ◌<◌, ◌≤◌, ◌≡◌, ◌≢◌, refl, sym, ap, ◌∙◌, some, arith, ltb→lt,
}
use ascertainty_contracts.Base.Store.{lookup, insert, lookup-insert_self}
use ascertainty_contracts.Constants.{precision}
use ascertainty_contracts.Errors.{ok}
use ascertainty_contracts.Accounts.{
  Pubkey, default_key, Project, InvestorPosition, project_account, position_account,
}
use ascertainty_contracts.Runtime.{
  Runtime, State, Ensures, IsAssociated, position_seeds, ensures-ok, on_key, on_require, on_ok_or,
  on_invoke, on_project, on_position, on_load_token, on_load_mint, on_init_associated_if_needed,
  on_last_save,
}
use ascertainty_contracts.Investor.Projects.{ClaimProjectReturns, claim_project_returns}
use ascertainty_contracts.Admin.Projects.{project_seeds}
use ascertainty_contracts.Program.{Reach}
use ascertainty_contracts.Refine.Constraints.{owed_of}
use ascertainty_contracts.Safety.Lifecycle.{Reach-PositionEvolves}

-- A claim of `owed` by the position `q` of the project `p`, from the state `s` to `s'`.
pub record IsPaid {L : Type 0} (rt : Runtime L) (ctx : ClaimProjectReturns) (s s' : State L)
    (p : Project) (q : InvestorPosition) (owed : ℕ) : Type 0 where
  pub project : lookup ctx.project s.accounts ≡ some (project_account p)
  pub position : lookup ctx.position s.accounts ≡ some (position_account q)
  pub project_at : ctx.project ≡ rt.create_program_address (project_seeds p.project_id) p.bump
  pub vault : p.usdc_vault ≡ ctx.usdc_vault
  pub position_at :
      ctx.position ≡ rt.create_program_address (position_seeds ctx.project ctx.investor) q.bump
  pub owner : q.owner ≡ ctx.investor
  pub target : q.target ≡ ctx.project
  pub amount :
      owed ≡ q.tokens_held * (p.cumulative_usdc_per_token - q.last_claimed_per_token) / precision
  pub positive : 0 < owed
  pub transferred :
      (l : L) × IsAssociated rt ctx.investor_usdc_ata ctx.usdc_mint ctx.investor s.tokens l
      × (rt.transfer ctx.usdc_vault ctx.investor_usdc_ata ctx.project owed l ≡ ok s'.tokens)
  pub written :
      s'.accounts
      ≡ insert ctx.position
          (position_account (record q {
            last_claimed_per_token = p.cumulative_usdc_per_token;
            total_claimed = q.total_claimed + owed;
          }))
          s.accounts

module _ {L : Type 0} (rt : Runtime L) where
  paid :
      (ctx : ClaimProjectReturns) (s : State L)
      → Ensures
          (λ _ s'.
            (p : Project) × (q : InvestorPosition) × (owed : ℕ) × IsPaid rt ctx s s' p q owed)
          (claim_project_returns rt ctx)
          s
  unfolding claim_project_returns
  paid ctx s = on_project _ λ project there. on_key _ λ _ at. on_key _ λ _ vault.
      on_position _ λ position held. on_key _ λ _ spot. on_key _ λ _ owner. on_key _ λ _ mine.
        on_init_associated_if_needed rt _ _ _ λ _ l made. on_load_token rt _ λ balance _.
          on_load_mint rt _ λ _ _. on_ok_or _ λ delta dl. on_ok_or _ λ scaled sc.
            on_ok_or _ λ owed ow. on_require _ λ _ due. on_require _ λ _ covered.
              on_invoke _ λ _ l' moved. on_ok_or _ λ claimed cl.
                let o = owed_of _ _ _ _ _ _ _ _ dl sc ow cl in
                on_last_save _ _ (
                  project,
                  position,
                  owed,
                  record {
                    project = there;
                    position = held;
                    project_at = at;
                    vault = vault;
                    position_at = spot;
                    owner = owner;
                    target = mine;
                    amount = o.0;
                    positive = ltb→lt _ _ due;
                    transferred = (l, made, moved);
                    written = rw o.1 refl;
                  },
                )

  -- A claim that succeeds pays the owner of the position, once and out of the vault of the project,
  -- exactly `tokens_held * (cumulative - last_claimed) / precision`, which is positive. The payment
  -- goes to the owner's associated token account, which is created first where there is none, and no
  -- other tokens move. It changes no account but the position, which belongs to the project: its
  -- baseline becomes the project's accumulator, and its total grows by what was paid.
  pub claim-pays :
      (ctx : ClaimProjectReturns) (s s' : State L)
      → claim_project_returns rt ctx s ≡ ok (tt, s')
      → (p : Project) × (q : InvestorPosition) × (owed : ℕ) × IsPaid rt ctx s s' p q owed
  claim-pays ctx s s' run = ensures-ok tt s' (paid ctx s) run

  -- Where the baseline of the position has reached the accumulator of its project, no claim of it
  -- succeeds.
  settled-fails :
      (ctx : ClaimProjectReturns) (s : State L) (k : Pubkey) (p : Project) (q : InvestorPosition)
      → lookup k s.accounts ≡ some (project_account p)
      → lookup ctx.position s.accounts ≡ some (position_account q)
      → q.target ≡ k
      → p.cumulative_usdc_per_token ≤ q.last_claimed_per_token
      → (s' : State L) → claim_project_returns rt ctx s ≢ ok (tt, s')
  settled-fails ctx s k p q there held target even s' run =
      let (p', q', owed, is_paid) = claim-pays ctx s s' run in
      let same_q : q' ≡ q = cc (is_paid.position, held) in
      let same_key : ctx.project ≡ k = cc (same_q, is_paid.target, target) in
      let same_p : p' ≡ p = cc (is_paid.project, there, ap (λ x. lookup x s.accounts) same_key) in
      nothing q'.tokens_held p'.cumulative_usdc_per_token q'.last_claimed_per_token owed
        (rw (same_p, same_q) even) is_paid.amount is_paid.positive
    where
      nothing : (t c l n : ℕ) → c ≤ l → n ≡ t * (c - l) / precision → 0 < n → ⊥
      nothing t c l n lc e pos =
          let zero_gap : c - l ≡ 0 = omega arith in
          let no_product : t * (c - l) ≡ 0 = rw zero_gap (omega arith) in omega (arith, no_product)

  -- After a claim that succeeds, by an investor other than the default key, and any further chain of
  -- instructions that leaves the accumulator of the project where it was, no claim of the same
  -- position succeeds, whoever signs it and with whatever accounts.
  pub claim-once :
      (ctx again : ClaimProjectReturns) (s s' t t' : State L) (p p' : Project)
      → ctx.investor ≢ default_key
      → claim_project_returns rt ctx s ≡ ok (tt, s')
      → Reach rt s' t
      → lookup ctx.project s.accounts ≡ some (project_account p)
      → lookup ctx.project t.accounts ≡ some (project_account p')
      → p'.cumulative_usdc_per_token ≡ p.cumulative_usdc_per_token
      → again.position ≡ ctx.position
      → claim_project_returns rt again t ≢ ok (tt, t')
  claim-once ctx again s s' t t' p p' signs run r before after unmoved same =
      let (p0, q, owed, is_paid) = claim-pays ctx s s' run in
      let same_p : p0 ≡ p = cc (is_paid.project, before) in
      let claimed =
        ap (lookup ctx.position) is_paid.written ∙ lookup-insert_self ctx.position _ s.accounts in
      let owned : q.owner ≢ default_key = λ e. signs (sym is_paid.owner ∙ e) in
      let (q', held, ev) = Reach-PositionEvolves s' t ctx.position _ r claimed in
      let last : p0.cumulative_usdc_per_token ≤ q'.last_claimed_per_token =
        ev.last_claimed_per_token owned in
      let even : p'.cumulative_usdc_per_token ≤ q'.last_claimed_per_token =
        rw (unmoved, sym (ap (λ (x : Project). x.cumulative_usdc_per_token) same_p)) last in
      settled-fails again t ctx.project p' q' after (ap (λ x. lookup x t.accounts) same ∙ held)
        (ev.target owned ∙ is_paid.target) even t'
