-- ===== src/Refine/Pools.antt =====
-- The moves of the instructions that touch pools (instructions/admin, instructions/investor).
use ascertainty_contracts.Base.Store.{lookup}
use ascertainty_contracts.Base.{
  ◌≡◌, ◌≤◌, ◌*◌, ◌-◌, ◌==◌, ==_self, Bool-cases, some, ℕ, refl, inl, inr, arith, ltb→lt, u64_size,
  checked_add-eq-some,
}
use ascertainty_contracts.Accounts.{
  Pubkey, Pool, InvestorPosition, Accounts, default_key, platform_account, pool_account,
}
use ascertainty_contracts.Runtime.{
  NewOrOld, Runtime, State, Ensures, on_key, on_require, on_ok_or, on_clock, on_invoke, on_save,
  on_project, on_pool, on_position, on_init, on_init_position, on_load_token, on_load_mint,
  on_load_token_of, on_init_associated, on_init_associated_if_needed, on_last_save,
}
use ascertainty_contracts.Admin.Pools.{
  CreatePool, create_pool, AddProjectToPool, add_project_to_pool, DistributePoolReturns,
  distribute_pool_returns,
}
use ascertainty_contracts.Investor.Projects.{opened_position}
use ascertainty_contracts.Investor.Pools.{
  BuyPoolTokens, buy_pool_tokens, ClaimPoolReturns, claim_pool_returns,
}
use ascertainty_contracts.Shares.Fund.{pool_fund}
use ascertainty_contracts.Shares.Excess.{pool_excess}
use ascertainty_contracts.Shares.Preserve.Positions.{mul-sub_self}
use ascertainty_contracts.Shares.Move.{
  link, nothing, put, create, distribute, buy, claim, Moves, then_move, one-Move,
}
use ascertainty_contracts.Shares.Kept.{still_free}
use ascertainty_contracts.Refine.Follow.{pool_kept, counted}
use ascertainty_contracts.Refine.Constraints.{plain_at, one_link_more}
use ascertainty_contracts.Refine.Constraints.{
  on_platform_of, on_platform_usdc, accrual, room_of, owed_of,
}

-- What a purchase with the position `q` may claim at once is what its excess counts.
within_excess :
    (d : Accounts) (k at investor : Pubkey) (p : Pool) (q : InvestorPosition) (b n : ℕ)
    → lookup k d ≡ some (pool_account p)
    → NewOrOld at q d
    → n
        * (p.cumulative_usdc_per_token
            - (opened_position q investor k p.cumulative_usdc_per_token b).last_claimed_per_token)
      ≤ pool_excess k at n d k
within_excess d k at investor p q b n there (inl (free, blank)) =
    rw (==_self k, there, free, blank) (omega (arith, mul-sub_self n p.cumulative_usdc_per_token))
within_excess d k at investor p q b n there (inr old) =
    rw (==_self k, there, old)
      (elim (Bool-cases (q.owner == default_key)) [
        | inl e ↦ rw e (omega (arith, mul-sub_self n p.cumulative_usdc_per_token))
        | inr e ↦ rw e (omega arith)
      ])

module _ {L : Type 0} (rt : Runtime L) where
  pub create_pool-Moves :
      (ctx : CreatePool) (id target : ℕ) (s : State L)
      → Ensures (λ _ e. Moves rt s.accounts nothing e.accounts) (create_pool rt ctx id target) s
  unfolding create_pool
  create_pool-Moves ctx id target s = on_platform_usdc rt _ _ _ λ platform there _ _.
      on_init rt _ _ λ bump at found free. on_invoke _ λ _ l _.
        on_init_associated rt _ _ _ λ _ l' _. on_load_mint rt _ λ _ _. on_require _ λ _ positive.
          on_clock λ now _. on_save _ _ λ _. on_last_save _ _ (
            then_move
              (one-Move rt (
                put _ _ refl refl
                  (plain_at _ (platform_account platform) _ _ there refl refl (counted platform))
                  (inr (_, there)) refl))
              (create _ _ target (still_free _ _ _ _ free there) refl
                ((ltb→lt _ _ positive, refl, omega arith), (at, found), refl) refl))

  pub add_project_to_pool-Moves :
      (ctx : AddProjectToPool) (s : State L)
      → Ensures (λ _ e. Moves rt s.accounts nothing e.accounts) (add_project_to_pool rt ctx) s
  unfolding add_project_to_pool
  add_project_to_pool-Moves ctx s = on_platform_of rt _ _ λ platform _ _. on_pool _ λ pool there.
      on_key _ λ _ at. on_project _ λ project _. on_key _ λ _ at'.
        on_init rt _ _ λ bump at'' found free. on_require _ λ _ few. on_save _ _ λ _.
          on_last_save _ _ (
            one-Move rt (
              link _ pool _
                (record {
                  pool = ctx.pool;
                  project = ctx.project;
                  project_tokens_held = 0;
                  bump = bump;
                })
                there free refl (ltb→lt _ _ few) (at'', found) (rw (one_link_more _ few) refl)))

  pub distribute_pool_returns-Moves :
      (ctx : DistributePoolReturns) (amount : ℕ) (s : State L)
      → Ensures
          (λ _ e. Moves rt s.accounts nothing e.accounts)
          (distribute_pool_returns rt ctx amount)
          s
  unfolding distribute_pool_returns
  distribute_pool_returns-Moves ctx amount s = on_platform_usdc rt _ _ _ λ platform _ _ _.
      on_pool _ λ pool there. on_key _ λ _ at. on_key _ λ _ vault.
        on_load_token_of rt _ _ _ λ ata _ _ _. on_load_token rt _ λ balance _.
          on_load_mint rt _ λ _ _. on_require _ λ _ nonzero. on_require _ λ _ sold.
            on_invoke _ λ _ l _. on_ok_or _ λ scaled sc. on_ok_or _ λ delta dl.
              on_ok_or _ λ cumulative cm. on_ok_or _ λ distributed ds.
                let grown = accrual amount pool.tokens_sold _ _ _ _ _ _ sc dl cm ds in
                on_last_save _ _ (
                  one-Move rt (
                    distribute _ (pool_account pool) _ (pool_fund pool) amount there refl
                      (rw (grown.0, grown.1)) refl
                      (pool_kept pool (omega arith) (omega (arith, grown.1))
                        (omega (arith, grown.0)) (omega arith) (λ h. h))
                      refl (ltb→lt _ _ sold) grown.2 refl))

  pub buy_pool_tokens-Moves :
      (ctx : BuyPoolTokens) (amount : ℕ) (s : State L)
      → Ensures
          (λ _ e.
            Moves rt s.accounts (pool_excess ctx.pool ctx.position amount s.accounts) e.accounts)
          (buy_pool_tokens rt ctx amount)
          s
  unfolding buy_pool_tokens
  buy_pool_tokens-Moves ctx amount s = on_pool _ λ pool there. on_key _ λ _ at. on_key _ λ _ mint.
      on_key _ λ _ vault. on_load_mint rt _ λ _ _. on_load_token rt _ λ balance _.
        on_load_token_of rt _ _ _ λ ata _ _ _. on_init_associated_if_needed rt _ _ _ λ _ l _.
          on_init_position rt _ _ λ opened spot found old. on_load_mint rt _ λ _ _.
            on_require _ λ _ nonzero. on_require _ λ _ raising. on_ok_or _ λ remaining rm.
              on_require _ λ _ fits. on_invoke _ λ _ l' _. on_invoke _ λ _ l'' _.
                on_ok_or _ λ held hd. on_ok_or _ λ sold sd.
                  let q =
                    opened_position opened.0 ctx.investor ctx.pool pool.cumulative_usdc_per_token
                      opened.1 in
                  let more = checked_add-eq-some u64_size q.tokens_held amount held hd in
                  let grown = checked_add-eq-some u64_size pool.tokens_sold amount sold sd in
                  on_save _ _ λ _. on_last_save _ _ (
                    one-Move rt (
                      buy _ (pool_account pool) (pool_account (record pool { tokens_sold = sold }))
                        (pool_fund pool) _ opened.0 ctx.investor amount there refl (rw grown.0) refl
                        (pool_kept pool (omega (arith, grown.0)) (omega arith) (omega arith)
                          (omega arith) (λ h. h))
                        refl
                        (inr (
                          refl,
                          within_excess s.accounts _ _ ctx.investor _ opened.0 _ amount there old,
                        ))
                        (room_of _ _ _ _ rm fits) spot old (rw (more.0, found))))

  pub claim_pool_returns-Moves :
      (ctx : ClaimPoolReturns) (s : State L)
      → Ensures (λ _ e. Moves rt s.accounts nothing e.accounts) (claim_pool_returns rt ctx) s
  unfolding claim_pool_returns
  claim_pool_returns-Moves ctx s = on_pool _ λ pool there. on_key _ λ _ at. on_key _ λ _ vault.
      on_position _ λ position held. on_key _ λ _ spot. on_key _ λ _ owner. on_key _ λ _ mine.
        on_init_associated_if_needed rt _ _ _ λ _ l _. on_load_token rt _ λ balance _.
          on_load_mint rt _ λ _ _. on_ok_or _ λ delta dl. on_ok_or _ λ scaled sc.
            on_ok_or _ λ owed ow. on_require _ λ _ due. on_require _ λ _ covered.
              on_invoke _ λ _ l' _. on_ok_or _ λ claimed cl.
                let o = owed_of _ _ _ _ _ _ _ _ dl sc ow cl in
                on_last_save _ _ (
                  rw o.1 (
                    one-Move rt (
                      claim _ (pool_account pool) (pool_fund pool) _ position owed there refl held
                        mine o.2 o.0 (ltb→lt _ _ due) refl)))
