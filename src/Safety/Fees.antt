-- ===== src/Safety/Fees.antt =====
-- The activation of a project (activate_project.rs): when it may happen, and its fee.
use ascertainty_contracts.Base.{
  ℕ, ◌*◌, ◌/◌, ◌%◌, ◌<◌, ◌≤◌, ◌≡◌, refl, ap, ◌∙◌, some, arith, u64_size, u128_size,
  checked_mul-eq-some,
}
use ascertainty_contracts.Base.Int.{ℤ}
use ascertainty_contracts.Base.Store.{lookup, insert, lookup-insert_self}
use ascertainty_contracts.Constants.{max_fee_bps}
use ascertainty_contracts.Errors.{ok}
use ascertainty_contracts.Accounts.{
  Platform, ProjectStatus, Project, platform_account, project_account,
}
use ascertainty_contracts.Runtime.{
  Runtime, State, Ensures, ensures-ok, on_key, on_require, on_ok_or, on_clock, on_project,
  on_load_token, on_load_mint, on_load_token_of, on_last_save,
}
use ascertainty_contracts.Admin.Projects.{ActivateProject, activate_project}
use ascertainty_contracts.Program.{Reach, IsFresh}
use ascertainty_contracts.Refine.Constraints.{on_platform_of}
use ascertainty_contracts.Refine.Follow.{status_is}
use ascertainty_contracts.Refine.Admin.{on_pay_fee}
use ascertainty_contracts.Safety.Books.{Reach-fees}

-- The project `p` after its activation at `now` for the fee `fee`.
abbrev pub activated_project : Project → ℤ → ℕ → Project
activated_project p now fee = record p {
  status = ProjectStatus.active;
  activated_at = now;
  origination_fee_collected = fee;
}

record IsActivated {L : Type 0} (ctx : ActivateProject) (s s' : State L) (t : Platform)
    (p : Project) : Type 0 where
  platform : lookup ctx.platform s.accounts ≡ some (platform_account t)
  project : lookup ctx.project s.accounts ≡ some (project_account p)
  raising : p.status ≡ ProjectStatus.funding
  full : p.tokens_sold ≡ p.target_amount
  written :
      s'.accounts
      ≡ insert ctx.project
          (project_account (
            activated_project p s.unix_timestamp
              ((p.target_amount * t.origination_fee_bps / 10_000) % u64_size)))
          s.accounts

module _ {L : Type 0} (rt : Runtime L) where
  activated :
      (ctx : ActivateProject) (s : State L)
      → Ensures
          (λ _ s'. (t : Platform) × (p : Project) × IsActivated ctx s s' t p)
          (activate_project rt ctx)
          s
  unfolding activate_project
  activated ctx s = on_platform_of rt _ _ λ platform known _. on_key _ λ _ treasury.
      on_key _ λ _ usdc. on_project _ λ project there. on_key _ λ _ at. on_key _ λ _ vault.
        on_load_token rt _ λ balance _. on_load_token_of rt _ _ _ λ ata _ _ _.
          on_load_mint rt _ λ _ _. on_require _ λ _ raising. on_key _ λ _ full.
            on_ok_or _ λ scaled sc. on_pay_fee rt _ _ _ _ _ λ _ l. on_clock λ now at_now.
              let m =
                checked_mul-eq-some u128_size project.target_amount platform.origination_fee_bps
                  scaled sc in
              on_last_save _ _ (
                platform,
                project,
                record {
                  platform = known;
                  project = there;
                  raising = status_is project.status _ raising;
                  full = full;
                  written = rw (m.0, at_now) refl;
                },
              )

product_le : (a b c : ℕ) → b ≤ c → a * b ≤ a * c
product_le a b c h = grind arith

fee_exact :
    (target bps : ℕ)
    → target < u64_size
    → bps ≤ max_fee_bps
    → ((target * bps / 10_000) % u64_size ≡ target * bps / 10_000)
      × (target * bps / 10_000 ≤ target)
fee_exact target bps small cap =
    let bound = product_le target bps max_fee_bps cap in
    let fee : target * bps / 10_000 ≤ target = omega (arith, bound) in (omega (arith, fee), fee)

module _ {L : Type 0} {rt : Runtime L} where
  -- In every state reached from one without accounts, an activation that succeeds finds a project in
  -- status `Funding` that has sold its whole target, makes it `Active` at the current time, and records
  -- a fee of exactly `target * bps / 10000`, which the cast to u64 does not cut and which is at most
  -- the target. The target is a u64.
  pub activation-fee :
      (ctx : ActivateProject) (s t t' : State L) (p : Project)
      → IsFresh rt s
      → Reach rt s t
      → activate_project rt ctx t ≡ ok (tt, t')
      → lookup ctx.project t.accounts ≡ some (project_account p)
      → p.target_amount < u64_size
      → (platform : Platform) × (lookup ctx.platform t.accounts ≡ some (platform_account platform))
        × (p.status ≡ ProjectStatus.funding)
        × (p.tokens_sold ≡ p.target_amount)
        × (lookup ctx.project t'.accounts
            ≡ some (
                project_account (
                  activated_project p t.unix_timestamp
                    (p.target_amount * platform.origination_fee_bps / 10_000))))
        × (p.target_amount * platform.origination_fee_bps / 10_000 ≤ p.target_amount)
  activation-fee ctx s t t' p fresh r run there small =
      let (platform, p', done) = ensures-ok tt t' (activated rt ctx t) run in
      let same : p' ≡ p = cc (done.project, there) in
      let (cap, _, _) = Reach-fees s t ctx.platform platform fresh r done.platform in
      let (exact, bounded) = fee_exact p.target_amount platform.origination_fee_bps small cap in
      (
        platform,
        done.platform,
        rw same at done.raising,
        rw same at done.full,
        ap (lookup ctx.project) done.written
            ∙ (lookup-insert_self ctx.project _ t.accounts ∙ rw (same, exact) refl),
        bounded,
      )
