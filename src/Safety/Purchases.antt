-- ===== src/Safety/Purchases.antt =====
-- What a purchase of pool tokens entitles to (buy_pool_tokens.rs).
use ascertainty_contracts.Base.{
  ℕ, ◌+◌, ◌-◌, ◌*◌, ◌≡◌, ◌≢◌, refl, ◌∙◌, ◌==◌, none, some, arith, false, u64_size,
  checked_add-eq-some, ==_ne, inl, inr,
}
use ascertainty_contracts.Base.Store.{lookup, lookup-insert_self}
use ascertainty_contracts.Errors.{ok}
use ascertainty_contracts.Accounts.{
  default_key, Pool, InvestorPosition, pool_account, position_account,
}
use ascertainty_contracts.Runtime.{
  Runtime, State, NewOrOld, blank_position, Ensures, ensures-ok, on_key, on_require, on_ok_or,
  on_invoke, on_save, on_pool, on_init_position, on_load_token, on_load_mint, on_load_token_of,
  on_init_associated_if_needed, on_last_save, position_seeds,
}
use ascertainty_contracts.Investor.Projects.{opened_position}
use ascertainty_contracts.Investor.Pools.{BuyPoolTokens, buy_pool_tokens}
use ascertainty_contracts.Shares.Move.{bought}

module _ {L : Type 0} (rt : Runtime L) where
  pool_bought :
      (ctx : BuyPoolTokens) (amount : ℕ) (s : State L)
      → Ensures
          (λ _ s'.
            (p : Pool) × (q : InvestorPosition) × (lookup ctx.pool s.accounts
              ≡ some (pool_account p))
            × NewOrOld ctx.position q s.accounts
            × (lookup ctx.position s'.accounts
                ≡ some (
                    position_account (
                      bought q ctx.investor ctx.pool p.cumulative_usdc_per_token
                        (rt.find_program_address (position_seeds ctx.pool ctx.investor)).1
                        amount))))
          (buy_pool_tokens rt ctx amount)
          s
  unfolding buy_pool_tokens
  pool_bought ctx amount s = on_pool _ λ pool there. on_key _ λ _ at. on_key _ λ _ mint.
      on_key _ λ _ vault. on_load_mint rt _ λ _ _. on_load_token rt _ λ balance _.
        on_load_token_of rt _ _ _ λ ata _ _ _. on_init_associated_if_needed rt _ _ _ λ _ l _.
          on_init_position rt _ _ λ opened spot found old. on_load_mint rt _ λ _ _.
            on_require _ λ _ nonzero. on_require _ λ _ raising. on_ok_or _ λ remaining rm.
              on_require _ λ _ fits. on_invoke _ λ _ l' _. on_invoke _ λ _ l'' _.
                on_ok_or _ λ held hd. on_ok_or _ λ sold sd.
                  let q =
                    opened_position opened.0 ctx.investor ctx.pool pool.cumulative_usdc_per_token
                      opened.1 in
                  let more = checked_add-eq-some u64_size q.tokens_held amount held hd in
                  on_save _ _ λ _. on_last_save _ _ (
                    pool,
                    opened.0,
                    there,
                    old,
                    lookup-insert_self ctx.position _ _ ∙ rw (more.0, found) refl,
                  )

  -- A purchase of pool tokens by the owner of a position adds to what the position may claim at once
  -- `amount` times the part of the accumulator that the position has not claimed yet: the new tokens
  -- share in distributions that were made before they were bought.
  pub top_up-entitles :
      (ctx : BuyPoolTokens) (amount : ℕ) (s s' : State L) (p : Pool) (q : InvestorPosition)
      → buy_pool_tokens rt ctx amount s ≡ ok (tt, s')
      → lookup ctx.pool s.accounts ≡ some (pool_account p)
      → lookup ctx.position s.accounts ≡ some (position_account q)
      → q.owner ≢ default_key
      → (q' : InvestorPosition) × (lookup ctx.position s'.accounts ≡ some (position_account q'))
        × (q'.tokens_held * (p.cumulative_usdc_per_token - q'.last_claimed_per_token)
            ≡ q.tokens_held * (p.cumulative_usdc_per_token - q.last_claimed_per_token)
              + amount * (p.cumulative_usdc_per_token - q.last_claimed_per_token))
  top_up-entitles ctx amount s s' p q run there held owned =
      let (p', q0, at_pool, old, after) = ensures-ok tt s' (pool_bought ctx amount s) run in
      let same_p : p' ≡ p = cc (at_pool, there) in
      let same_q : q0 ≡ q = was_there old in
      let test : (q0.owner == default_key) ≡ false = rw same_q (==_ne q.owner default_key owned) in
      (
        record q { tokens_held = q.tokens_held + amount },
        after ∙ rw (test, same_q) refl,
        spread q.tokens_held amount (p.cumulative_usdc_per_token - q.last_claimed_per_token),
      )
    where
      was_there : {q0 : InvestorPosition} → NewOrOld ctx.position q0 s.accounts → q0 ≡ q
      was_there (inl (free, e)) = cc (free, held)
      was_there (inr there) = cc (there, held)

      spread : (a b c : ℕ) → (a + b) * c ≡ a * c + b * c
      spread a b c = grind arith

  -- A first purchase of pool tokens opens a position of the buyer that holds `amount` tokens and may
  -- claim nothing yet.
  pub first_purchase-settled :
      (ctx : BuyPoolTokens) (amount : ℕ) (s s' : State L) (p : Pool)
      → buy_pool_tokens rt ctx amount s ≡ ok (tt, s')
      → lookup ctx.pool s.accounts ≡ some (pool_account p)
      → lookup ctx.position s.accounts ≡ none
      → (q' : InvestorPosition) × (lookup ctx.position s'.accounts ≡ some (position_account q'))
        × (q'.owner ≡ ctx.investor)
        × (q'.target ≡ ctx.pool)
        × (q'.tokens_held ≡ amount)
        × (q'.last_claimed_per_token ≡ p.cumulative_usdc_per_token)
        × (q'.total_claimed ≡ 0)
  first_purchase-settled ctx amount s s' p run there free =
      let (p', q0, at_pool, old, after) = ensures-ok tt s' (pool_bought ctx amount s) run in
      let same_p : p' ≡ p = cc (at_pool, there) in
      let blank : q0 ≡ blank_position = was_blank old in
      (
        bought blank_position ctx.investor ctx.pool p.cumulative_usdc_per_token
            (rt.find_program_address (position_seeds ctx.pool ctx.investor)).1 amount,
        after ∙ rw (same_p, blank) refl,
        refl,
        refl,
        omega arith,
        refl,
        refl,
      )
    where
      was_blank :
          {q0 : InvestorPosition} → NewOrOld ctx.position q0 s.accounts → q0 ≡ blank_position
      was_blank (inl (_, e)) = e
      was_blank (inr there) = cc (there, free)
