-- ===== src/Shares/Preserve/Funds.antt =====
-- The moves that write one account, none of them a position: put, create, govern, distribute.
use ascertainty_contracts.Base.{
  ℕ, ◌+◌, ◌*◌, ◌/◌, ◌≤◌, ◌≡◌, refl, ap, sym, ◌∙◌, inl, inr, true, false, none, some, arith,
}
use ascertainty_contracts.Base.Store.{
  lookup, insert, lookup-insert_cases, sum_by-insert_zero, sum_by-le-linear,
}
use ascertainty_contracts.Constants.{precision}
use ascertainty_contracts.Accounts.{Pubkey, Account, Accounts}
use ascertainty_contracts.Runtime.{Runtime}
use ascertainty_contracts.Shares.Fund.{
  Fund, fund_of, is_pool, is_position, is_raising, held, entitled, shares, entitlements,
  held_of_other, entitled_of_other, is_position_of_fund, entitled_grows,
}
use ascertainty_contracts.Shares.Move.{IsPlainAt}
use ascertainty_contracts.Shares.Invariant.{Inv}
use ascertainty_contracts.Shares.Rewrite.{
  HasFund-insert_off, HasFund-insert_fund, IsPlaced-other, IsPlaced-insert, shares_of_none,
  entitlements_of_none, shares-insert_fund, entitlements-insert_fund,
}

module _ {L : Type 0} (rt : Runtime L) where
  pub put-Inv :
      (d : Accounts) (k : Pubkey) (v : Account)
      → fund_of v ≡ none
      → is_position v ≡ false
      → IsPlainAt k v d
      → Inv rt d
      → Inv rt (insert k v d)
  put-Inv d k v vf vp plain i = record {
    placed =
        IsPlaced-insert rt k v d (λ q h. HasFund-insert_off k v d q (λ a e. (plain a e).0) h)
          (IsPlaced-other rt _ k v vp) i.placed;
    supply = λ j a f e fa.
        let old = before j a f e fa in
        let same =
          sum_by-insert_zero (held j) k v d (λ w x. held_of_other j w (plain w x).1)
            (held_of_other j v vp) in
        (same ∙ (i.supply j a f old fa).0, (i.supply j a f old fa).1);
    quiet = λ j a f e fa. i.quiet j a f (before j a f e fa) fa;
    solvent = λ j a f e fa p.
        rw
          (sum_by-insert_zero (entitled j f.per_token) k v d
            (λ w x. entitled_of_other j f.per_token w (plain w x).1)
            (entitled_of_other j f.per_token v vp))
          (i.solvent j a f (before j a f e fa) fa p);
  }
    where
      before :
          (j : Pubkey) (a : Account) (f : Fund)
          → lookup j (insert k v d) ≡ some a
          → fund_of a ≡ some f
          → lookup j d ≡ some a
      before j a f e fa = elim (lookup-insert_cases j k v a d e) [
        | inl (_, av) ↦ cc (av, fa, vf)
        | inr (_, old) ↦ old
      ]

  pub create-Inv :
      (d : Accounts) (k : Pubkey) (v : Account) (target : ℕ)
      → lookup k d ≡ none
      → fund_of v ≡ some (record { target = target; sold = 0; distributed = 0; per_token = 0 })
      → Inv rt d
      → Inv rt (insert k v d)
  create-Inv d k v target free vf i = record {
    placed =
        IsPlaced-insert rt k v d (λ q h. HasFund-insert_off k v d q (λ a e. cc (e, free)) h)
          (IsPlaced-other rt _ k v other) i.placed;
    supply = λ j a f e fa. elim (lookup-insert_cases j k v a d e) [
      | inl (jk, av) ↦
          let ff : f ≡ fresh = cc (fa, vf, av) in
          rw (same_shares j, jk, shares_of_none rt k d free i.placed, ff) (refl, omega arith)
      | inr (_, old) ↦ rw (same_shares j) (i.supply j a f old fa)
    ];
    quiet = λ j a f e fa r. elim (lookup-insert_cases j k v a d e) [
      | inl (jk, av) ↦ let ff : f ≡ fresh = cc (fa, vf, av) in rw ff
      | inr (_, old) ↦ i.quiet j a f old fa r
    ];
    solvent = λ j a f e fa p. elim (lookup-insert_cases j k v a d e) [
      | inl (jk, av) ↦
          rw
            (
              same_entitlements j f.per_token,
              jk,
              entitlements_of_none rt k f.per_token d free i.placed,
            )
            (omega arith)
      | inr (_, old) ↦ rw (same_entitlements j f.per_token) (i.solvent j a f old fa p)
    ];
  }
    where
      fresh : Fund
      fresh = record { target = target; sold = 0; distributed = 0; per_token = 0 }

      other : is_position v ≡ false
      other = is_position_of_fund v vf

      same_shares : (j : Pubkey) → shares j (insert k v d) ≡ shares j d
      same_shares j =
          sum_by-insert_zero (held j) k v d (λ w e. cc (e, free)) (held_of_other j v other)

      same_entitlements :
          (j : Pubkey) (c : ℕ) → entitlements j c (insert k v d) ≡ entitlements j c d
      same_entitlements j c =
          sum_by-insert_zero (entitled j c) k v d (λ w e. cc (e, free))
            (entitled_of_other j c v other)

  -- A fund is written over itself or over an earlier state of it.
  module _ (d : Accounts) (k : Pubkey) (a v : Account) (f g : Fund) (ka : lookup k d ≡ some a)
      (fa : fund_of a ≡ some f) (gv : fund_of v ≡ some g) (pools : is_pool v ≡ is_pool a)
      (sold : g.sold ≡ f.sold) (target : g.target ≡ f.target) (i : Inv rt d) where
    -- `quiet` and `solvent` of the fund itself are the caller's to show.
    rewrite-Inv :
        f.per_token ≤ g.per_token
        → (is_raising v ≡ true → g.per_token ≡ 0)
        → (is_pool v ≡ false → entitlements k g.per_token d ≤ g.distributed * precision)
        → Inv rt (insert k v d)
    rewrite-Inv grows still covered = record {
      placed =
          IsPlaced-insert rt k v d (λ q h. HasFund-insert_fund k a v f g d q ka fa gv grows h)
            (IsPlaced-other rt _ k v (is_position_of_fund v gv)) i.placed;
      supply = λ j b h e fb. elim (lookup-insert_cases j k v b d e) [
        | inl (jk, bv) ↦
            let hg : h ≡ g = cc (fb, gv, bv) in
            let mine = i.supply k a f ka fa in
            rw (shares-insert_fund k a v d j ka fa gv, jk, hg)
              (mine.0 ∙ sym sold, omega (arith, mine.1, sold, target))
        | inr (_, old) ↦ rw (shares-insert_fund k a v d j ka fa gv) (i.supply j b h old fb)
      ];
      quiet = λ j b h e fb r. elim (lookup-insert_cases j k v b d e) [
        | inl (jk, bv) ↦ let hg : h ≡ g = cc (fb, gv, bv) in rw hg (still (rw bv at r))
        | inr (_, old) ↦ i.quiet j b h old fb r
      ];
      solvent = λ j b h e fb p. elim (lookup-insert_cases j k v b d e) [
        | inl (jk, bv) ↦
            let hg : h ≡ g = cc (fb, gv, bv) in
            rw (entitlements-insert_fund k a v d j h.per_token ka fa gv, jk, hg)
              (covered (rw bv at p))
        | inr (_, old) ↦
            rw (entitlements-insert_fund k a v d j h.per_token ka fa gv) (i.solvent j b h old fb p)
      ];
    }

  pub govern-Inv :
      (d : Accounts) (k : Pubkey) (a v : Account) (f : Fund)
      → lookup k d ≡ some a
      → fund_of a ≡ some f
      → fund_of v ≡ some f
      → is_pool v ≡ is_pool a
      → (is_raising v ≡ true → is_raising a ≡ true)
      → Inv rt d
      → Inv rt (insert k v d)
  govern-Inv d k a v f ka fa fv pools raising i =
      rewrite-Inv d k a v f f ka fa fv pools refl refl i (omega arith)
        (λ r. i.quiet k a f ka fa (raising r)) (λ p. i.solvent k a f ka fa (sym pools ∙ p))

  pub mul-div-le : (s x : ℕ) → s * (x / s) ≤ x
  mul-div-le s x = grind arith

  pub distribute-Inv :
      (d : Accounts) (k : Pubkey) (a v : Account) (f : Fund) (n : ℕ)
      → lookup k d ≡ some a
      → fund_of a ≡ some f
      → fund_of v
        ≡ some (record f {
          distributed = f.distributed + n;
          per_token = f.per_token + n * precision / f.sold;
        })
      → is_pool v ≡ is_pool a
      → is_raising v ≡ false
      → Inv rt d
      → Inv rt (insert k v d)
  distribute-Inv d k a v f n ka fa gv pools still i =
      rewrite-Inv d k a v f _ ka fa gv pools refl refl i (omega arith) (λ r. cc (r, still))
        (λ p. omega (
          arith,
          i.solvent k a f ka fa (sym pools ∙ p),
          sum_by-le-linear (entitled k (f.per_token + n * precision / f.sold))
              (entitled k f.per_token) (held k) (n * precision / f.sold) d
              (entitled_grows k f.per_token (n * precision / f.sold)),
          ap (λ (t : ℕ). t * (n * precision / f.sold)) (i.supply k a f ka fa).0,
          mul-div-le f.sold (n * precision),
        ))
