-- ===== src/Shares/Persist.antt =====
-- Each move as a rewrite that an account follows (Accounts/Evolve.antt).
use ascertainty_contracts.Base.{ℕ, ◌+◌, ◌≡◌, refl, inr, some, arith}
use ascertainty_contracts.Base.Store.{lookup, insert}
use ascertainty_contracts.Accounts.{
  pool_account, link_account, Pubkey, InvestorPosition, Account, Accounts, position_account,
}
use ascertainty_contracts.Accounts.Evolve.{PositionEvolves, Evolves}
use ascertainty_contracts.Runtime.{Runtime, NewOrOld}
use ascertainty_contracts.Shares.Fund.{Fund, fund_of}
use ascertainty_contracts.Shares.Move.{
  Move, put, create, govern, distribute, buy, claim, withdraw, link, one_more, Moves, done,
  then_move,
}
use ascertainty_contracts.Shares.Kept.{
  still_free, linked-PoolEvolves, Kind, Kept, Kept-refl, Kept-trans, Kept-insert, bought-Evolves,
  position_follows, fund_follows,
}
use ascertainty_contracts.Shares.Preserve.Trades.{at-ne-fund, NewOrOld-insert}

module _ {L : Type 0} (rt : Runtime L) (kind : Kind) where
  -- A fund and a position are written.
  trade-Kept :
      (d : Accounts) (k : Pubkey) (a v : Account) (f : Fund) (at : Pubkey)
      → (q q' : InvestorPosition) → lookup k d ≡ some a
      → fund_of a ≡ some f
      → Evolves a v
      → NewOrOld at q d
      → PositionEvolves q q'
      → Kept kind d (insert at (position_account q') (insert k v d))
  trade-Kept d k a v f at q q' ka fa ev old qq =
      Kept-trans kind d (insert k v d) _ (Kept-insert kind k v d (fund_follows d k a v ka ev)) (
        Kept-insert kind at (position_account q') (insert k v d) (
          position_follows (insert k v d) at q q'
            (NewOrOld-insert d k at v q (at-ne-fund d k at a f q ka fa old) old) qq))

  pub Move-Kept : {x : Pubkey → ℕ} (d e : Accounts) → Move rt x d e → Kept kind d e
  Move-Kept d e (put k v vf vp plain sound to) =
      rw to (Kept-insert kind k v d (λ a x. (plain a x).2))
  Move-Kept d e (create k v target free vf gated to) =
      rw to (Kept-insert kind k v d (λ a x. cc (free, x)))
  Move-Kept d e (govern k a v f ka fa fv pools ev raising to) =
      rw to (Kept-insert kind k v d (fund_follows d k a v ka ev))
  Move-Kept d e (distribute k a v f n ka fa gv pools ev still sold fits to) =
      rw to (Kept-insert kind k v d (fund_follows d k a v ka ev))
  Move-Kept d e (buy k a v f at q investor n ka fa gv pools ev raising open_to room spot old to) =
      rw to (trade-Kept d k a v f at q _ ka fa ev old (bought-Evolves q investor k f.per_token _ n))
  Move-Kept d e (claim k a f at q owed ka fa there mine settled owes due to) = rw to (
      Kept-insert kind at _ d (
        position_follows d at q
          (record q {
            last_claimed_per_token = f.per_token;
            total_claimed = q.total_claimed + owed;
          })
          (inr there)
          (record {
            owned = λ h. h;
            owner = λ h. refl;
            target = λ h. refl;
            total_claimed = λ h. omega arith;
            last_claimed_per_token = λ h. settled;
          })))
  Move-Kept d e (withdraw k a v f at q ka fa gv pools ev raising there spot enough some_held to) =
      rw to (
        trade-Kept d k a v f at q (record q { tokens_held = 0 }) ka fa ev (inr there)
          (record {
            owned = λ h. h;
            owner = λ h. refl;
            target = λ h. refl;
            total_claimed = λ h. omega arith;
            last_claimed_per_token = λ h. omega arith;
          }))
  Move-Kept d e (link k p at l ka free mine few home to) = rw to (
      Kept-trans kind d (insert k (pool_account (one_more p)) d) _
        (Kept-insert kind k (pool_account (one_more p)) d
          (fund_follows d k (pool_account p) _ ka (linked-PoolEvolves p few)))
        (Kept-insert kind at (link_account l) (insert k (pool_account (one_more p)) d)
          (λ a there. cc (still_free d at k (pool_account (one_more p)) free ka, there))))

  pub Moves-Kept : (d : Accounts) {x : Pubkey → ℕ} (e : Accounts) → Moves rt d x e → Kept kind d e
  Moves-Kept d e done = Kept-refl kind d
  Moves-Kept d e' (then_move {e = e} ms m) =
      Kept-trans kind d e e' (Moves-Kept d e ms) (Move-Kept e e' m)
