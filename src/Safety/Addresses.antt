-- ===== src/Safety/Addresses.antt =====
-- Where the program's accounts stand: the seeds of every `init`, over chains of instructions.
use ascertainty_contracts.Base.{◌≡◌, ◌∙◌, sym, ap, false, some, List, subst, refl, ℕ}
use ascertainty_contracts.Base.Store.{lookup}
use ascertainty_contracts.Errors.{ok}
use ascertainty_contracts.Accounts.{Pubkey, Account, platform_account, position_account}
use ascertainty_contracts.Runtime.{Seed, Runtime, RuntimeLaws, State}
use ascertainty_contracts.Program.{Instruction, execute, Reach, Reach-trans, here, next, IsFresh}
use ascertainty_contracts.Shares.Fund.{is_position}
use ascertainty_contracts.Shares.Home.{seeds_of, bump_of, IsHome}
use ascertainty_contracts.Shares.Homes.{Homes, Moves-Homes, Homes-fresh}
use ascertainty_contracts.Shares.Preserve.Positions.{position-IsPlaced}
use ascertainty_contracts.Refine.Program.{Step-Moves, Reach-Inv}
use ascertainty_contracts.Safety.Authority.{admin_call, execute-IsAdmin}
use ascertainty_contracts.Safety.Lifecycle.{Reach-PlatformEvolves}

module _ {L : Type 0} (rt : Runtime L) where
  Reach-keeps_Homes : {s t : State L} → Reach rt s t → Homes rt s.accounts → Homes rt t.accounts
  Reach-keeps_Homes here h = h
  Reach-keeps_Homes (next r st) h =
      Moves-Homes rt _ _ (Step-Moves rt _ _ st) (Reach-keeps_Homes r h)

  Reach-Homes : (s t : State L) → IsFresh rt s → Reach rt s t → Homes rt t.accounts
  Reach-Homes s t fresh r = Reach-keeps_Homes r (subst (Homes rt) (sym fresh) (Homes-fresh rt))

  home_of :
      (k : Pubkey) (v : Account)
      → is_position v ≡ false
      → IsHome rt k v
      → (k ≡ (rt.find_program_address (seeds_of v)).0)
        × (bump_of v ≡ (rt.find_program_address (seeds_of v)).1)
  home_of k (position_account q) plain h = cc
  home_of k _ plain h = h

  -- In every state reached from one without accounts: two accounts that are no positions, with the
  -- same seeds in their fields (two projects with one id, two platforms, two verifications with one
  -- project and index), are one account.
  pub Reach-unique :
      (s t : State L) (j k : Pubkey) (v w : Account)
      → IsFresh rt s
      → Reach rt s t
      → is_position v ≡ false
      → is_position w ≡ false
      → lookup j t.accounts ≡ some v
      → lookup k t.accounts ≡ some w
      → seeds_of v ≡ seeds_of w
      → (j ≡ k) × (v ≡ w)
  Reach-unique s t j k v w fresh r nv nw at_j at_k same =
      let homes = Reach-Homes s t fresh r in
      let hv = home_of j v nv (homes j v at_j) in
      let hw = home_of k w nw (homes k w at_k) in
      let jk : j ≡ k = hv.0 ∙ (ap (λ x. (rt.find_program_address x).0) same ∙ sym hw.0) in
      (jk, cc (ap (λ x. lookup x t.accounts) jk, at_j, at_k))

  -- Along every chain of instructions from a state without accounts there is one platform and one
  -- admin: whoever signs an instruction of `admin_call` that succeeds is the one who signed every
  -- earlier one, for the same platform account.
  pub Reach-one_admin :
      (s t t' u u' : State L) (i i' : Instruction) (k k' admin admin' : Pubkey)
      → IsFresh rt s
      → Reach rt s t
      → Reach rt t u
      → admin_call i ≡ some (k, admin)
      → execute rt i t ≡ ok (tt, t')
      → admin_call i' ≡ some (k', admin')
      → execute rt i' u ≡ ok (tt, u')
      → (k' ≡ k) × (admin' ≡ admin)
  Reach-one_admin s t t' u u' i i' k k' admin admin' fresh r r' call run call' run' =
      let (p, at_k, _, signed) = execute-IsAdmin rt i t t' k admin call run in
      let (p', at_k', _, signed') = execute-IsAdmin rt i' u u' k' admin' call' run' in
      let (q, still, ev) = Reach-PlatformEvolves t u k p r' at_k in
      let (kk, same) =
        Reach-unique s u k' k (platform_account p') (platform_account q) fresh (Reach-trans rt r r')
          refl refl at_k' still refl in
      let same_admin : p'.admin ≡ q.admin = cc same in
      (kk, cc (signed, signed', same_admin, ev.admin))

module _ {L : Type 0} {rt : Runtime L} (laws : RuntimeLaws rt) where
  -- In every state reached from one without accounts, each account stands at the program-derived
  -- address of its kind: the one that the seeds of its `init`, filled in with the account's own fields,
  -- and its stored bump create. A found address is the one that the found bump creates.
  pub Reach-seeded :
      (s t : State L) (k : Pubkey) (v : Account)
      → IsFresh rt s
      → Reach rt s t
      → lookup k t.accounts ≡ some v
      → k ≡ rt.create_program_address (seeds_of v) (bump_of v)
  Reach-seeded s t k v fresh r there = go v there (Reach-Homes rt s t fresh r k v there)
    where
      plain :
          (b : ℕ) (seeds : List Seed)
          → (k ≡ (rt.find_program_address seeds).0) × (b ≡ (rt.find_program_address seeds).1)
          → k ≡ rt.create_program_address seeds b
      plain b seeds (at, found) =
          at ∙ (laws.find_creates seeds ∙ ap (rt.create_program_address seeds) (sym found))

      go :
          (v : Account)
          → lookup k t.accounts ≡ some v
          → IsHome rt k v
          → k ≡ rt.create_program_address (seeds_of v) (bump_of v)
      go (position_account q) there h =
          (position-IsPlaced rt t.accounts k q (Reach-Inv laws s t fresh r).placed there).0
      go v there h = plain (bump_of v) (seeds_of v) (home_of rt k v refl h)
