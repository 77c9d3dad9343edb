-- ===== src/Shares/Preserve/Purchases.antt =====
-- A purchase and a withdrawal against the invariant, and then every move.
use ascertainty_contracts.Base.{
  ℕ, ◌+◌, ◌-◌, ◌*◌, ◌≤◌, ◌≡◌, refl, ap, sym, ◌∙◌, ◌⊎◌, inl, inr, true, false, some, arith, ◌==◌,
  Bool-cases,
}
use ascertainty_contracts.Base.Store.{lookup, insert}
use ascertainty_contracts.Accounts.{
  pool_account, link_account, Pubkey, InvestorPosition, Account, Accounts, position_account,
}
use ascertainty_contracts.Runtime.{Runtime, RuntimeLaws, NewOrOld, blank_position, position_seeds}
use ascertainty_contracts.Shares.Fund.{
  pool_fund, plain-is_position, count-is_pool, Fund, fund_of, is_pool, is_raising, held, entitled,
}
use ascertainty_contracts.Shares.Move.{
  bought, Move, put, create, govern, distribute, buy, claim, withdraw, link, one_more, Moves, done,
  then_move,
}
use ascertainty_contracts.Shares.Kept.{still_free}
use ascertainty_contracts.Shares.Invariant.{Inv}
use ascertainty_contracts.Shares.Preserve.Funds.{put-Inv, create-Inv, govern-Inv, distribute-Inv}
use ascertainty_contracts.Shares.Preserve.Positions.{
  claim-Inv, position-IsPlaced, held_here, entitled_here,
}
use ascertainty_contracts.Shares.Preserve.Trades.{trade-Inv}

mul-zero_sub : (t c l : ℕ) → c ≡ 0 → t * (c - l) ≡ 0
mul-zero_sub t c l e = let z : c - l ≡ 0 = omega arith in rw z (omega arith)

module _ {L : Type 0} {rt : Runtime L} (laws : RuntimeLaws rt) where
  -- A position at the address of fund `k` is one of fund `k`.
  pub target_of_address :
      (d : Accounts) (k at owner : Pubkey) (bump : ℕ) (q : InvestorPosition)
      → Inv rt d
      → lookup at d ≡ some (position_account q)
      → at ≡ rt.create_program_address (position_seeds k owner) bump
      → q.target ≡ k
  target_of_address d k at owner bump q i there spot =
      laws.position_address_injective q.target q.owner k owner q.bump bump
        (sym (position-IsPlaced rt d at q i.placed there).0 ∙ spot)

  -- What a purchase makes of a position of the fund, or of a blank one.
  pub record IsBought (k at : Pubkey) (c n : ℕ) (q q' : InvestorPosition) : Type 0 where
    pub mine : q'.target ≡ k
    more : q'.tokens_held ≡ q.tokens_held + n
    spot : at ≡ rt.create_program_address (position_seeds k q'.owner) q'.bump
    settled : q'.last_claimed_per_token ≤ c
    claimed : q'.total_claimed ≤ q.total_claimed

  pub bought-IsBought :
      (d : Accounts) (k : Pubkey) (a : Account) (f : Fund) (at : Pubkey) (q : InvestorPosition)
      → (investor : Pubkey) (n : ℕ) → Inv rt d
      → lookup k d ≡ some a
      → fund_of a ≡ some f
      → at ≡ (rt.find_program_address (position_seeds k investor)).0
      → NewOrOld at q d
      → (q ≡ blank_position) ⊎ (q.target ≡ k)
      → IsBought k at f.per_token n q (
          bought q investor k f.per_token (rt.find_program_address (position_seeds k investor)).1 n)
  bought-IsBought d k a f at q investor n i ka fa spot old was = elim (Bool-cases (q.owner == 0)) [
    | inl e ↦ rw e (record {
      mine = refl;
      more = refl;
      spot = spot ∙ laws.find_creates (position_seeds k investor);
      settled = omega arith;
      claimed = omega arith;
    })
    | inr e ↦ rw e (kept e old)
  ]
    where
      kept :
          (q.owner == 0) ≡ false
          → NewOrOld at q d
          → IsBought k at f.per_token n q (record q { tokens_held = q.tokens_held + n })
      kept e (inl (_, blank)) = cc (ap (λ (r : InvestorPosition). r.owner == 0) blank, e)
      kept e (inr there) =
          let here = position-IsPlaced rt d at q i.placed there in
          let target =
            target_of_address d k at investor _ q i there
              (spot ∙ laws.find_creates (position_seeds k investor)) in
          let same_fund : here.1.fund ≡ f =
            cc (here.1.found, ap (λ t. lookup t d) target, ka, here.1.is_fund, fa) in
          record {
            mine = target;
            more = refl;
            spot = rw target at here.0;
            settled = rw same_fund at here.1.settled;
            claimed = omega arith;
          }

  pub was_mine :
      (d : Accounts) (k at investor : Pubkey) (q : InvestorPosition)
      → Inv rt d
      → at ≡ (rt.find_program_address (position_seeds k investor)).0
      → NewOrOld at q d
      → (q ≡ blank_position) ⊎ (q.target ≡ k)
  was_mine d k at investor q i spot (inl (_, blank)) = inl blank
  was_mine d k at investor q i spot (inr there) = inr (
      target_of_address d k at investor _ q i there
        (spot ∙ laws.find_creates (position_seeds k investor)))

  held_was :
      (k : Pubkey) (q : InvestorPosition)
      → (q ≡ blank_position) ⊎ (q.target ≡ k)
      → held k (position_account q) ≡ q.tokens_held
  held_was k q (inl e) = rw e (ground arith)
  held_was k q (inr e) = held_here k q e

  -- In a fund whose accumulator is 0 a position is entitled to what it has claimed.
  entitled_at_zero :
      (k : Pubkey) (c : ℕ) (q q' : InvestorPosition)
      → c ≡ 0
      → (q ≡ blank_position) ⊎ (q.target ≡ k)
      → q'.target ≡ k
      → q'.total_claimed ≤ q.total_claimed
      → entitled k c (position_account q') ≤ entitled k c (position_account q)
  entitled_at_zero k c q q' zero_c was mine less = elim was [
    | inl e ↦
        let none_claimed : q'.total_claimed ≡ 0 =
          omega (arith, ap (λ (r : InvestorPosition). r.total_claimed) e) in
        omega (
          arith,
          entitled_here k c q' mine,
          none_claimed,
          mul-zero_sub q'.tokens_held c q'.last_claimed_per_token zero_c,
        )
    | inr e ↦ omega (
      arith,
      entitled_here k c q' mine,
      entitled_here k c q e,
      mul-zero_sub q'.tokens_held c q'.last_claimed_per_token zero_c,
    )
  ]

  buy-Inv :
      (d : Accounts) (k : Pubkey) (a v : Account) (f : Fund) (at : Pubkey) (q : InvestorPosition)
      → (investor : Pubkey) (n : ℕ) {P : Type 0} → lookup k d ≡ some a
      → fund_of a ≡ some f
      → fund_of v ≡ some (record f { sold = f.sold + n })
      → is_pool v ≡ is_pool a
      → is_raising v ≡ is_raising a
      → (is_raising a ≡ true) ⊎ ((is_pool a ≡ true) × P)
      → f.sold + n ≤ f.target
      → at ≡ (rt.find_program_address (position_seeds k investor)).0
      → NewOrOld at q d
      → Inv rt d
      → Inv rt (
          insert at
            (position_account (
              bought q investor k f.per_token
                (rt.find_program_address (position_seeds k investor)).1
                n))
            (insert k v d))
  buy-Inv d k a v f at q investor n ka fa gv pools raising open_to room spot old i =
      let was = was_mine d k at investor q i spot old in
      let b = bought-IsBought d k a f at q investor n i ka fa spot old was in
      trade-Inv rt d k a v f (record f { sold = f.sold + n }) at q _ ka fa gv pools raising refl
        refl room old b.mine was i b.spot b.settled (omega (arith, held_was k q was, b.more))
        (λ np. elim open_to [
          | inl r ↦
              entitled_at_zero k f.per_token q
                (bought q investor k f.per_token
                  (rt.find_program_address (position_seeds k investor)).1 n)
                (i.quiet k a f ka fa r) was b.mine b.claimed
          | inr (p, _) ↦ cc (p, np)
        ])

  withdraw-Inv :
      (d : Accounts) (k : Pubkey) (a v : Account) (f : Fund) (at : Pubkey) (q : InvestorPosition)
      → lookup k d ≡ some a
      → fund_of a ≡ some f
      → fund_of v ≡ some (record f { sold = f.sold - q.tokens_held })
      → is_pool v ≡ is_pool a
      → is_raising v ≡ is_raising a
      → lookup at d ≡ some (position_account q)
      → at ≡ rt.create_program_address (position_seeds k q.owner) q.bump
      → q.tokens_held ≤ f.sold
      → Inv rt d
      → Inv rt (insert at (position_account (record q { tokens_held = 0 })) (insert k v d))
  withdraw-Inv d k a v f at q ka fa gv pools raising there spot enough i =
      let mine = target_of_address d k at q.owner q.bump q i there spot in
      let here = position-IsPlaced rt d at q i.placed there in
      let same_fund : here.1.fund ≡ f =
        cc (here.1.found, ap (λ t. lookup t d) mine, ka, here.1.is_fund, fa) in
      trade-Inv rt d k a v f (record f { sold = f.sold - q.tokens_held }) at q
        (record q { tokens_held = 0 }) ka fa gv pools raising refl refl
        (omega (arith, (i.supply k a f ka fa).1)) (inr there) mine (inr mine) i spot
        (rw same_fund at here.1.settled) (omega (arith, held_here k q mine))
        (λ np. omega (
          arith,
          entitled_here k f.per_token q mine,
          entitled_here k f.per_token (record q { tokens_held = 0 }) mine,
        ))

  pub Move-Inv : {x : Pubkey → ℕ} (d e : Accounts) → Move rt x d e → Inv rt d → Inv rt e
  Move-Inv d e (put k v vf vp plain sound to) i =
      rw to (put-Inv rt d k v vf (plain-is_position v vp) plain i)
  Move-Inv d e (create k v target free vf gated to) i = rw to (create-Inv rt d k v target free vf i)
  Move-Inv d e (govern k a v f ka fa fv pools ev raising to) i =
      rw to (govern-Inv rt d k a v f ka fa fv (count-is_pool v a pools) raising i)
  Move-Inv d e (distribute k a v f n ka fa gv pools ev still pos_sold fits to) i =
      rw to (distribute-Inv rt d k a v f n ka fa gv (count-is_pool v a pools) still i)
  Move-Inv d e (buy k a v f at q investor n ka fa gv pools ev raising open_to room spot old to) i =
      rw to (
        buy-Inv d k a v f at q investor n ka fa gv (count-is_pool v a pools) raising open_to room
          spot old i)
  Move-Inv d e (claim k a f at q owed ka fa there mine settled owes due to) i =
      rw to (claim-Inv rt d k a f at q owed ka fa there mine owes i)
  Move-Inv d e (withdraw k a v f at q ka fa gv pools ev raising there spot enough held_some to) i =
      rw to
        (withdraw-Inv d k a v f at q ka fa gv (count-is_pool v a pools) raising there spot enough i)
  Move-Inv d e (link k p at l ka free mine few home to) i = rw to (
      put-Inv rt (insert k (pool_account (one_more p)) d) at (link_account l) refl refl
        (λ a there. cc (still_free d at k (pool_account (one_more p)) free ka, there))
        (govern-Inv rt d k (pool_account p) (pool_account (one_more p)) (pool_fund p) ka refl refl
          refl (λ r. r) i))

  pub Moves-Inv :
      {d : Accounts} {x : Pubkey → ℕ} {e : Accounts} → Moves rt d x e → Inv rt d → Inv rt e
  Moves-Inv done i = i
  Moves-Inv (then_move ms m) i = Move-Inv _ _ m (Moves-Inv ms i)
