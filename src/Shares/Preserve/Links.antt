-- ===== src/Shares/Preserve/Links.antt =====
-- The projects of a pool, against the moves: a pool counts its links.
use ascertainty_contracts.Base.{
  ℕ, ◌≡◌, ◌≢◌, refl, ap, sym, ◌∙◌, inl, inr, false, Option, none, some, arith, ◌==◌, ==→eq,
  Bool-cases, if◌then◌else◌, [],
}
use ascertainty_contracts.Base.Store.{
  lookup, insert, lookup-insert, lookup-insert_ne, lookup-insert_self, sum_by, sum_by-insert_zero,
  sum_by-insert_new,
}
use ascertainty_contracts.Accounts.{
  Pubkey, Pool, PoolProjectLink, InvestorPosition, Account, Accounts, pool_account, link_account,
  position_account,
}
use ascertainty_contracts.Accounts.Evolve.{Evolves}
use ascertainty_contracts.Runtime.{Runtime, NewOrOld}
use ascertainty_contracts.Shares.Fund.{Fund, fund_of, count_of, is_child}
use ascertainty_contracts.Shares.Move.{
  IsUnlinked, one_more, Move, put, create, govern, distribute, buy, claim, withdraw, link, Moves,
  done, then_move,
}
use ascertainty_contracts.Shares.Kept.{still_free}
use ascertainty_contracts.Shares.Preserve.Trades.{at-ne-fund, NewOrOld-insert}

-- One for a link of the pool `k`.
abbrev pub link_of : Pubkey → Account → ℕ
link_of k (link_account l) = if l.pool == k then 1 else 0
link_of k _ = 0

-- The links of the pool `k`.
abbrev pub links : Pubkey → Accounts → ℕ
links k d = sum_by (link_of k) d

-- What the account at a key counts, if it is a pool.
abbrev pub count_at : Option Account → ℕ
count_at (some (pool_account p)) = p.underlying_project_count
count_at _ = 0

pub record Linked (d : Accounts) : Type 0 where
  pub counted : (k : Pubkey) → links k d ≡ count_at (lookup k d)

abbrev IsUnlike : Account → Type 0
IsUnlike (link_account l) = ⊥
IsUnlike _ = Unit

unlike-link_of : (k : Pubkey) (v : Account) → IsUnlike v → link_of k v ≡ 0
unlike-link_of k (link_account l) h = absurd h
unlike-link_of k _ h = refl

-- A write of an account that is no link, over one that is none either and counts the same.
write-Linked :
    (d : Accounts) (k : Pubkey) (v : Account)
    → ((w : Account) → lookup k d ≡ some w → IsUnlike w)
    → IsUnlike v
    → count_at (some v) ≡ count_at (lookup k d)
    → Linked d
    → Linked (insert k v d)
write-Linked d k v old new same c = record {
  counted = λ j.
      let kept =
        sum_by-insert_zero (link_of j) k v d (λ w there. unlike-link_of j w (old w there))
          (unlike-link_of j v new) in
      kept
      ∙ (c.counted j
          ∙ rw (lookup-insert j k v d) (elim (Bool-cases (j == k)) [
            | inl e ↦ rw e (ap (λ x. count_at (lookup x d)) (==→eq j k e) ∙ sym same)
            | inr e ↦ rw e refl
          ]));
}

fund-IsUnlike : (v : Account) {f : Fund} → fund_of v ≡ some f → IsUnlike v
fund-IsUnlike (link_account l) e = cc
fund-IsUnlike _ e = tt

child-IsUnlike : (v : Account) → is_child v ≡ false → IsUnlike v
child-IsUnlike (link_account l) e = cc
child-IsUnlike _ e = tt

-- What is no fund counts nothing.
plain-count : (v : Account) → fund_of v ≡ none → count_at (some v) ≡ 0
plain-count (pool_account p) e = cc
plain-count _ e = refl

new-count : (v : Account) → IsUnlinked v → count_at (some v) ≡ 0
new-count (pool_account p) e = e
new-count _ e = refl

same-count : (v a : Account) → count_of v ≡ count_of a → count_at (some v) ≡ count_at (some a)
same-count (pool_account p) (pool_account q) e = ground arith
same-count (pool_account p) _ e = cc
same-count _ (pool_account q) e = cc
same-count _ _ e = refl

-- A link is only followed by itself.
before-IsUnlike : (w v : Account) → Evolves w v → IsUnlike v → IsUnlike w
before-IsUnlike (link_account l) v ev h = rw ev at h
before-IsUnlike _ v ev h = tt

fund-Linked :
    (d : Accounts) (k : Pubkey) (a v : Account) {f g : Fund}
    → lookup k d ≡ some a
    → fund_of a ≡ some f
    → fund_of v ≡ some g
    → count_of v ≡ count_of a
    → Linked d
    → Linked (insert k v d)
fund-Linked d k a v ka fa gv same c =
    write-Linked d k v (λ w there. let was : w ≡ a = cc (there, ka) in rw was (fund-IsUnlike a fa))
      (fund-IsUnlike v gv) (same-count v a same ∙ ap count_at (sym ka)) c

position-Linked :
    (d : Accounts) (at : Pubkey) (q q' : InvestorPosition)
    → NewOrOld at q d
    → Linked d
    → Linked (insert at (position_account q') d)
position-Linked d at q q' (inl (free, _)) c =
    write-Linked d at (position_account q') (λ w there. cc (there, free)) tt
      (ap count_at (sym free)) c
position-Linked d at q q' (inr held) c =
    write-Linked d at (position_account q')
      (λ w there. let was : w ≡ position_account q = cc (there, held) in rw was tt) tt
      (ap count_at (sym held)) c

trade-Linked :
    (d : Accounts) (k at : Pubkey) (a v : Account) (q q' : InvestorPosition) {f g : Fund}
    → lookup k d ≡ some a
    → fund_of a ≡ some f
    → fund_of v ≡ some g
    → count_of v ≡ count_of a
    → NewOrOld at q d
    → Linked d
    → Linked (insert at (position_account q') (insert k v d))
trade-Linked d k at a v q q' {f = f} ka fa gv same old c =
    position-Linked (insert k v d) at q q'
      (NewOrOld-insert d k at v q (at-ne-fund d k at a f q ka fa old) old)
      (fund-Linked d k a v ka fa gv same c)

link-link_of : (k : Pubkey) (l : PoolProjectLink) → l.pool ≡ k → link_of k (link_account l) ≡ 1
link-link_of k l mine = ground arith

other-link_of :
    (j k : Pubkey) (l : PoolProjectLink) → j ≢ k → l.pool ≡ k → link_of j (link_account l) ≡ 0
other-link_of j k l ne mine = ground arith

-- The link and the count are written together.
link-Linked :
    (d : Accounts) (k : Pubkey) (p : Pool) (at : Pubkey) (l : PoolProjectLink)
    → lookup k d ≡ some (pool_account p)
    → lookup at d ≡ none
    → l.pool ≡ k
    → Linked d
    → Linked (insert at (link_account l) (insert k (pool_account (one_more p)) d))
link-Linked d k p at l ka free mine c = record {
  counted = λ j.
      let d' = insert k (pool_account (one_more p)) d in
      let free' = still_free d at k (pool_account (one_more p)) free ka in
      let added = sum_by-insert_new (link_of j) at (link_account l) d' free' in
      let kept =
        sum_by-insert_zero (link_of j) k (pool_account (one_more p)) d
          (λ w there. let was : w ≡ pool_account p = cc (there, ka) in rw was refl) refl in
      let apart : at ≢ k = λ e. cc (ap (λ t. lookup t d) e, free, ka) in
      elim (Bool-cases (j == at)) [
        | inl e ↦
            let same = ==→eq j at e in
            rw (same, lookup-insert_self at (link_account l) d')
              (let old = c.counted at ∙ ap count_at free in
                omega
                  (arith, rw same at added, rw same at kept, old, other-link_of at k l apart mine))
        | inr e ↦
            let off : j ≢ at = ground arith in
            rw (lookup-insert_ne j at (link_account l) d' off) (elim (Bool-cases (j == k)) [
              | inl f ↦
                  let same = ==→eq j k f in
                  rw (same, lookup-insert_self k (pool_account (one_more p)) d)
                    (let old = c.counted k ∙ ap count_at ka in
                      omega (arith, rw same at added, rw same at kept, old, link-link_of k l mine))
              | inr f ↦
                  let ne : j ≢ k = ground arith in
                  rw (lookup-insert_ne j k (pool_account (one_more p)) d ne)
                    (omega (arith, added, kept, c.counted j, other-link_of j k l ne mine))
            ])
      ];
}

module _ {L : Type 0} (rt : Runtime L) where
  Move-Linked : {x : Pubkey → ℕ} (d e : Accounts) → Move rt x d e → Linked d → Linked e
  Move-Linked d e (put k v vf vp plain sound to) c =
      let new = child-IsUnlike v vp in
      rw to (
        write-Linked d k v (λ w there. before-IsUnlike w v (plain w there).2 new) new
          (plain-count v vf ∙ sym (counts_nothing (lookup k d) λ w there. (plain w there).0)) c)
    where
      counts_nothing :
          (o : Option Account) → ((w : Account) → o ≡ some w → fund_of w ≡ none) → count_at o ≡ 0
      counts_nothing none h = refl
      counts_nothing (some w) h = plain-count w (h w refl)
  Move-Linked d e (create k v target free vf (_, _, unlinked) to) c = rw to (
      write-Linked d k v (λ w there. cc (there, free)) (fund-IsUnlike v vf)
        (new-count v unlinked ∙ ap count_at (sym free)) c)
  Move-Linked d e (govern k a v f ka fa fv pools ev raising to) c =
      rw to (fund-Linked d k a v ka fa fv pools c)
  Move-Linked d e (distribute k a v f n ka fa gv pools ev still sold fits to) c =
      rw to (fund-Linked d k a v ka fa gv pools c)
  Move-Linked d e (buy k a v f at q investor n ka fa gv pools ev raising open_to room spot old to)
        c =
      rw to (trade-Linked d k at a v q _ ka fa gv pools old c)
  Move-Linked d e (claim k a f at q owed ka fa there mine settled owes due to) c =
      rw to (position-Linked d at q _ (inr there) c)
  Move-Linked d e (withdraw k a v f at q ka fa gv pools ev raising there spot enough some_held to)
        c =
      rw to (trade-Linked d k at a v q _ ka fa gv pools (inr there) c)
  Move-Linked d e (link k p at l ka free mine few home to) c =
      rw to (link-Linked d k p at l ka free mine c)

  pub Moves-Linked :
      (d : Accounts) {x : Pubkey → ℕ} (e : Accounts) → Moves rt d x e → Linked d → Linked e
  Moves-Linked d e done c = c
  Moves-Linked d e' (then_move {e = e} ms m) c = Move-Linked e e' m (Moves-Linked d e ms c)

pub Linked-fresh : Linked []
unfolding lookup sum_by
Linked-fresh = record { counted = λ k. refl }
