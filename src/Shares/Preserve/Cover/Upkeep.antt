-- ===== src/Shares/Preserve/Cover/Upkeep.antt =====
-- Each move against what pools owe.
use ascertainty_contracts.Base.{
  ℕ, ◌+◌, ◌*◌, ◌/◌, ◌≤◌, ◌≡◌, refl, ap, sym, ◌∙◌, inl, inr, some, arith, [],
}
use ascertainty_contracts.Base.Store.{lookup, insert, sum_by-le-linear}
use ascertainty_contracts.Constants.{precision}
use ascertainty_contracts.Accounts.{link_account, Pubkey, Account, Accounts, pool_account}
use ascertainty_contracts.Runtime.{Runtime, RuntimeLaws}
use ascertainty_contracts.Shares.Fund.{
  pool_fund, plain-is_position, count-is_pool, Fund, fund_of, held, entitled, entitlements,
  is_position_of_fund, entitled_grows,
}
use ascertainty_contracts.Shares.Move.{
  nothing, Move, put, create, govern, distribute, buy, claim, withdraw, link, one_more, Moves, done,
  then_move,
}
use ascertainty_contracts.Shares.Kept.{still_free}
use ascertainty_contracts.Shares.Invariant.{Inv}
use ascertainty_contracts.Shares.Rewrite.{entitlements_of_none}
use ascertainty_contracts.Shares.Preserve.Funds.{mul-div-le}
use ascertainty_contracts.Shares.Preserve.Positions.{
  entitlements-insert_position, fund_before, entitled_here, claim_less, settled_position,
}
use ascertainty_contracts.Shares.Preserve.Purchases.{
  target_of_address, was_mine, bought-IsBought, Moves-Inv,
}
use ascertainty_contracts.Shares.Preserve.Cover.{
  IsCovered, more-IsCovered, write-IsCovered, raising-is_pool, fund_plain, bought-entitled,
  trade-IsCovered,
}

module _ {L : Type 0} {rt : Runtime L} (laws : RuntimeLaws rt) (y : Pubkey → ℕ) where
  -- What a distribution of `n` adds to the entitlements is at most `n`.
  accrued :
      (k : Pubkey) (a : Account) (d : Accounts) (f : Fund) (n : ℕ)
      → Inv rt d
      → lookup k d ≡ some a
      → fund_of a ≡ some f
      → entitlements k (f.per_token + n * precision / f.sold) d
        ≤ entitlements k f.per_token d + n * precision
  accrued k a d f n i ka fa = omega (
    arith,
    sum_by-le-linear (entitled k (f.per_token + n * precision / f.sold)) (entitled k f.per_token)
        (held k) (n * precision / f.sold) d (entitled_grows k f.per_token (n * precision / f.sold)),
    ap (λ (t : ℕ). t * (n * precision / f.sold)) (i.supply k a f ka fa).0,
    mul-div-le rt f.sold (n * precision),
  )

  Move-IsCovered :
      {x : Pubkey → ℕ} (d e : Accounts)
      → Move rt x d e
      → Inv rt d
      → IsCovered y d
      → IsCovered (λ k. y k + x k) e
  Move-IsCovered {x} d e (put k v vf vp plain sound to) i c = rw to (
      more-IsCovered y x (insert k v d) (
        write-IsCovered y d k v (λ w there. (plain w there).1) (plain-is_position v vp)
          (λ g vg. cc (vf, vg)) c))
  Move-IsCovered {x} d e (create k v target free vf gated to) i c = rw to (
      more-IsCovered y x (insert k v d) (
        write-IsCovered y d k v (λ w there. cc (there, free)) (is_position_of_fund v vf)
          (λ g vg p. rw (entitlements_of_none rt k g.per_token d free i.placed) (omega arith)) c))
  Move-IsCovered {x} d e (govern k a v f ka fa fv pools ev raising to) i c = rw to (
      more-IsCovered y x (insert k v d) (
        write-IsCovered y d k v (fund_plain d k a ka fa) (is_position_of_fund v fv)
          (λ g vg p.
            let same : g ≡ f = cc (vg, fv) in
            rw same (c.covered k a f ka fa (sym (count-is_pool v a pools) ∙ p)))
          c))
  Move-IsCovered {x} d e (distribute k a v f n ka fa gv pools ev still sold fits to) i c = rw to (
      more-IsCovered y x (insert k v d) (
        write-IsCovered y d k v (fund_plain d k a ka fa) (is_position_of_fund v gv)
          (λ g vg p.
            let same : g ≡ record f {
              distributed = f.distributed + n;
              per_token = f.per_token + n * precision / f.sold;
            } =
              cc (vg, gv) in
            rw same (
              omega (
                arith,
                c.covered k a f ka fa (sym (count-is_pool v a pools) ∙ p),
                accrued k a d f n i ka fa,
              )))
          c))
  Move-IsCovered {x} d e
        (buy k a v f at q investor n ka fa gv pools ev raising open_to room spot old to) i c =
      let was = was_mine laws d k at investor q i spot old in
      let b = bought-IsBought laws d k a f at q investor n i ka fa spot old was in
      rw to (
        trade-IsCovered rt y x d k a v f _ at q _ ka fa gv (count-is_pool v a pools) raising refl
          refl room old b.mine was
          (λ p. elim open_to [
            | inl r ↦ absurd (raising-is_pool a r p)
            | inr (_, within) ↦ bought-entitled k q investor f.per_token _ n (x k) b.mine within
          ])
          c)
  Move-IsCovered {x} d e (claim k a f at q owed ka fa there mine settled owes due to) i c =
      rw to (record {
        covered = λ j b g found fb p.
            let before = fund_before d at q (settled_position q f owed) j b g found fb in
            omega (
              arith,
              entitlements-insert_position d at q (settled_position q f owed) j g.per_token
                  (inr there),
              c.covered j b g before fb p,
              claim_less d k a f at q owed ka fa mine owes j b g before fb,
            );
      })
  Move-IsCovered {x} d e
        (withdraw k a v f at q ka fa gv pools ev raising there spot enough some_held to) i c =
      let mine = target_of_address laws d k at q.owner q.bump q i there spot in
      rw to (
        trade-IsCovered rt y x d k a v f _ at q (record q { tokens_held = 0 }) ka fa gv
          (count-is_pool v a pools) raising refl refl (omega (arith, (i.supply k a f ka fa).1))
          (inr there) mine (inr mine)
          (λ p. omega (
            arith,
            entitled_here k f.per_token q mine,
            entitled_here k f.per_token (record q { tokens_held = 0 }) mine,
          ))
          c)
  Move-IsCovered {x} d e (link k p at l ka free mine few home to) i c = rw to (
      more-IsCovered y x (insert at (link_account l) (insert k (pool_account (one_more p)) d)) (
        write-IsCovered y (insert k (pool_account (one_more p)) d) at (link_account l)
          (λ w there. cc (still_free d at k (pool_account (one_more p)) free ka, there)) refl
          (λ g vg. cc vg)
          (write-IsCovered y d k (pool_account (one_more p))
            (fund_plain d k (pool_account p) ka refl) refl
            (λ g vg p'.
              let same : g ≡ pool_fund p = cc vg in
              rw same (c.covered k (pool_account p) (pool_fund p) ka refl refl))
            c)))

module _ {L : Type 0} {rt : Runtime L} (laws : RuntimeLaws rt) (y : Pubkey → ℕ) where
  pub Moves-IsCovered :
      (d : Accounts) {x : Pubkey → ℕ} (e : Accounts)
      → Moves rt d x e
      → Inv rt d
      → IsCovered y d
      → IsCovered (λ k. y k + x k) e
  Moves-IsCovered d {x} e done i c = more-IsCovered y x d c
  Moves-IsCovered d {x} e' (then_move {e = e} ms m) i c =
      let before = Moves-IsCovered d e ms i c in
      Move-IsCovered laws y e e' m (Moves-Inv laws ms i)
        (record { covered = λ k a f at fa p. omega (arith, before.covered k a f at fa p) })

pub IsCovered-fresh : IsCovered nothing []
unfolding lookup
IsCovered-fresh = record { covered = λ k a f e fa p. cc e }
