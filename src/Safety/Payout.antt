-- ===== src/Safety/Payout.antt =====
-- The success of a claim of a project's returns (claim_project_returns.rs): which accounts it needs,
-- and its arithmetic.
use ascertainty_contracts.Base.{
  ℕ, ◌+◌, ◌-◌, ◌*◌, ◌/◌, ◌<◌, ◌≤◌, ◌≡◌, refl, ap, true, some, arith, lt→ltb, le→leb,
  checked_sub_fits, checked_mul_fits, checked_add_fits, try_from_fits, u64_size, u128_size,
}
use ascertainty_contracts.Base.Store.{lookup, insert, sum_by-lookup}
use ascertainty_contracts.Constants.{precision}
use ascertainty_contracts.Errors.{ok}
use ascertainty_contracts.Accounts.{
  Pubkey, Accounts, Project, InvestorPosition, project_account, position_account,
}
use ascertainty_contracts.Runtime.{
  Runtime, RuntimeLaws, State, TokenAccount, position_seeds, as_project, as_position, Runs,
  run_require, run_key, run_ok_or, run_invoke, run_load, run_load_token, run_load_mint,
  run_associated, run_last_save,
}
use ascertainty_contracts.Admin.Projects.{project_seeds}
use ascertainty_contracts.Investor.Projects.{ClaimProjectReturns, claim_project_returns}
use ascertainty_contracts.Program.{Reach, IsFresh}
use ascertainty_contracts.Shares.Fund.{project_fund, entitled}
use ascertainty_contracts.Shares.Invariant.{Inv}
use ascertainty_contracts.Shares.Preserve.Positions.{entitled_here, position-IsPlaced}
use ascertainty_contracts.Shares.Preserve.Purchases.{target_of_address}
use ascertainty_contracts.Shares.Rules.{Rules}
use ascertainty_contracts.Refine.Program.{Reach-Inv, Reach-Rules}

-- The accounts of a claim are the right ones: the project with its address and its vault, the position
-- of the signer at its address, and the signer's own token account.
pub record IsReady {L : Type 0} (rt : Runtime L) (ctx : ClaimProjectReturns) (s : State L)
    (p : Project) (q : InvestorPosition) (vault ata : TokenAccount) : Type 0 where
  pub project : lookup ctx.project s.accounts ≡ some (project_account p)
  pub project_at : ctx.project ≡ rt.create_program_address (project_seeds p.project_id) p.bump
  pub project_vault : p.usdc_vault ≡ ctx.usdc_vault
  pub position : lookup ctx.position s.accounts ≡ some (position_account q)
  pub position_at :
      ctx.position ≡ rt.create_program_address (position_seeds ctx.project ctx.investor) q.bump
  pub owner : q.owner ≡ ctx.investor
  pub ata_at : ctx.investor_usdc_ata ≡ rt.get_associated_token_address ctx.investor ctx.usdc_mint
  pub ata_there : rt.token_account s.tokens ctx.investor_usdc_ata ≡ some ata
  pub ata_mint : ata.mint ≡ ctx.usdc_mint
  pub ata_owner : ata.owner ≡ ctx.investor
  pub vault_there : rt.token_account s.tokens ctx.usdc_vault ≡ some vault
  pub mint : rt.is_mint s.tokens ctx.usdc_mint ≡ true

-- What a position may claim of a project.
abbrev pub owed_to : Project → InvestorPosition → ℕ
owed_to p q = q.tokens_held * (p.cumulative_usdc_per_token - q.last_claimed_per_token) / precision

-- The account of a position after a claim of `owed`.
abbrev pub claimed_from : Project → InvestorPosition → ℕ → InvestorPosition
claimed_from p q owed = record q {
  last_claimed_per_token = p.cumulative_usdc_per_token;
  total_claimed = q.total_claimed + owed;
}

-- Every number of a claim fits into its word.
pub record HasRoom (p : Project) (q : InvestorPosition) : Type 0 where
  pub settled : q.last_claimed_per_token ≤ p.cumulative_usdc_per_token
  pub scaled : q.tokens_held * (p.cumulative_usdc_per_token - q.last_claimed_per_token) < u128_size
  pub owed : owed_to p q < u64_size
  pub total : q.total_claimed + owed_to p q < u64_size

room_for :
    (t c l n d : ℕ)
    → n * precision + t * (c - l) ≤ d * precision
    → d < u64_size
    → (t * (c - l) < u128_size)
      × (t * (c - l) / precision < u64_size)
      × (n + t * (c - l) / precision < u64_size)
room_for t c l n d h fits = (omega arith, omega arith, omega arith)

module _ {L : Type 0} {rt : Runtime L} (laws : RuntimeLaws rt) where
  -- A position of the project `p`, at the address of some investor.
  pub room_of_claim :
      (d : Accounts) (k at investor : Pubkey) (p : Project) (q : InvestorPosition)
      → Inv rt d
      → Rules d
      → lookup k d ≡ some (project_account p)
      → lookup at d ≡ some (position_account q)
      → at ≡ rt.create_program_address (position_seeds k investor) q.bump
      → HasRoom p q
  room_of_claim d k at investor p q inv rules there held spot =
      let mine = target_of_address laws d k at investor q.bump q inv held spot in
      let here = position-IsPlaced rt d at q inv.placed held in
      let same_fund : here.1.fund ≡ project_fund p =
        cc (here.1.found, ap (λ t. lookup t d) mine, there, here.1.is_fund) in
      let (scaled, owed, total) =
        room_for q.tokens_held p.cumulative_usdc_per_token q.last_claimed_per_token q.total_claimed
          p.total_distributed
          (omega (
            arith,
            entitled_here k p.cumulative_usdc_per_token q mine,
            sum_by-lookup (entitled k p.cumulative_usdc_per_token) at (position_account q) d held,
            inv.solvent k (project_account p) (project_fund p) there refl refl,
          ))
          (rules.fits k (project_account p) (project_fund p) there refl) in
      record {
        settled = rw same_fund at here.1.settled;
        scaled = scaled;
        owed = owed;
        total = total;
      }

  claim-Runs :
      (ctx : ClaimProjectReturns) (s : State L) (p : Project) (q : InvestorPosition)
      → (vault ata : TokenAccount) (l : L) → IsReady rt ctx s p q vault ata
      → q.target ≡ ctx.project
      → HasRoom p q
      → 0 < owed_to p q
      → owed_to p q ≤ vault.amount
      → rt.transfer ctx.usdc_vault ctx.investor_usdc_ata ctx.project (owed_to p q) s.tokens ≡ ok l
      → Runs (claim_project_returns rt ctx) s tt (record s {
        tokens = l;
        accounts =
            insert ctx.position (position_account (claimed_from p q (owed_to p q))) s.accounts;
      })
  unfolding claim_project_returns
  claim-Runs ctx s p q vault ata l ready mine room due covered moved =
      run_load as_project _ (project_account p) p _ ready.project refl (
        run_key _ _ ready.project_at (
          run_key _ _ ready.project_vault (
            run_load as_position _ (position_account q) q _ ready.position refl (
              run_key _ _ ready.position_at (
                run_key _ _ ready.owner (
                  run_key _ _ mine (
                    run_associated rt _ _ _ ata _ ready.ata_at ready.ata_there ready.ata_mint
                      ready.ata_owner
                      (run_load_token rt _ vault _ ready.vault_there (
                        run_load_mint rt _ _ ready.mint (
                          run_ok_or _ _ _ (checked_sub_fits _ _ room.settled) (
                            run_ok_or _ _ _ (checked_mul_fits u128_size _ _ room.scaled) (
                              run_ok_or _ _ _ (try_from_fits u64_size _ room.owed) (
                                run_require _ _ (lt→ltb _ _ due) (
                                  run_require _ _ (le→leb _ _ covered) (
                                    run_invoke _ l _ moved (
                                      run_ok_or _ _ _ (checked_add_fits u64_size _ _ room.total)
                                        (run_last_save _ _ _)))))))))))))))))

  -- In every state that is reached from one without accounts: where the accounts of a claim are the
  -- right ones, something is owed, the vault covers it and the token program makes the transfer, the
  -- claim succeeds, in the state with the position settled and its total raised by what is owed. The
  -- addresses of positions are collision free.
  pub claim-succeeds :
      (ctx : ClaimProjectReturns) (s t : State L) (p : Project) (q : InvestorPosition)
      → (vault ata : TokenAccount) (l : L) → IsFresh rt s
      → Reach rt s t
      → IsReady rt ctx t p q vault ata
      → 0 < owed_to p q
      → owed_to p q ≤ vault.amount
      → rt.transfer ctx.usdc_vault ctx.investor_usdc_ata ctx.project (owed_to p q) t.tokens ≡ ok l
      → claim_project_returns rt ctx t
        ≡ ok (
          tt,
          record t {
            tokens = l;
            accounts =
                insert ctx.position (position_account (claimed_from p q (owed_to p q))) t.accounts;
          },
        )
  claim-succeeds ctx s t p q vault ata l fresh r ready due covered moved =
      let inv = Reach-Inv laws s t fresh r in
      (claim-Runs ctx t p q vault ata l ready
        (target_of_address laws t.accounts ctx.project ctx.position ctx.investor q.bump q inv
          ready.position ready.position_at)
        (room_of_claim t.accounts ctx.project ctx.position ctx.investor p q inv
          (Reach-Rules rt s t fresh r) ready.project ready.position ready.position_at)
        due covered moved).runs
