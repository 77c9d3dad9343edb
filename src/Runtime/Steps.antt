-- ===== src/Runtime/Steps.antt =====
-- The rules of Runtime/Rules.antt for a step and the rest of the instruction after it.
use ascertainty_contracts.Base.{ℕ, ◌≡◌, refl, ◌==◌, Bool, true, Option, none, some, List, ==→eq}
use ascertainty_contracts.Base.Int.{ℤ}
use ascertainty_contracts.Base.Store.{lookup, insert}
use ascertainty_contracts.Errors.{ExiraError, Error, Result, ok}
use ascertainty_contracts.Accounts.{
  Pubkey, Platform, Project, Pool, InvestorPosition, MrvProject, Verification, Auditor, Account,
  platform_account, project_account, pool_account, position_account, mrv_account,
  verification_account, auditor_account,
}
use ascertainty_contracts.Runtime.Machine.{
  Seed, TokenAccount, Runtime, State, M, ◌>>=◌, require_or, ok_or, get_tokens, clock, invoke, save,
  load, as_platform, as_project, as_pool, as_position, as_mrv_project, as_verification, as_auditor,
  init, init_position_if_needed, load_token, load_mint, load_token_of, init_associated,
  create_associated_if_needed, init_associated_if_needed,
}
use ascertainty_contracts.Runtime.Rules.{
  Ensures, on_pure, on_bind, do_require, do_ok_or, do_invoke, do_load, do_init_vacant,
  do_load_token, NewOrOld, IsAssociated, Creates, do_load_position_if_any,
}

module _ {L B : Type 0} {Q : B → State L → Type 0} where
  pub on_require :
      (e : Error) {b : Bool} {f : Unit {0} → M L B} {s : State L}
      → ((u : Unit {0}) → b ≡ true → Ensures Q (f u) s)
      → Ensures Q (require_or b e >>= f) s
  on_require e {b} {f} {s} h = on_bind (require_or b e) (do_require _ e b s h)

  pub on_key :
      (e : Error) {j k : Pubkey} {f : Unit {0} → M L B} {s : State L}
      → ((u : Unit {0}) → j ≡ k → Ensures Q (f u) s)
      → Ensures Q (require_or (j == k) e >>= f) s
  on_key e {j} {k} h = on_require e λ u g. h u (==→eq j k g)

  pub on_ok_or :
      (e : ExiraError) {A : Type 0} {o : Option A} {f : A → M L B} {s : State L}
      → ((a : A) → o ≡ some a → Ensures Q (f a) s)
      → Ensures Q (ok_or o e >>= f) s
  on_ok_or e {o = o} {s = s} h = on_bind (ok_or o e) (do_ok_or _ e o s h)

  pub on_clock :
      {f : ℤ → M L B} {s : State L}
      → ((t : ℤ) → t ≡ s.unix_timestamp → Ensures Q (f t) s)
      → Ensures Q (clock >>= f) s
  unfolding clock
  on_clock {s = s} h = on_bind clock (record { holds = h s.unix_timestamp refl })

  pub on_get_tokens :
      {f : L → M L B} {s : State L}
      → ((l : L) → l ≡ s.tokens → Ensures Q (f l) s)
      → Ensures Q (get_tokens >>= f) s
  unfolding get_tokens
  on_get_tokens {s = s} h = on_bind get_tokens (record { holds = h s.tokens refl })

  pub on_invoke :
      (c : L → Result L) {f : Unit {0} → M L B} {s : State L}
      → ((u : Unit {0}) (l : L) → c s.tokens ≡ ok l → Ensures Q (f u) (record s { tokens = l }))
      → Ensures Q (invoke c >>= f) s
  on_invoke c {s = s} h = on_bind (invoke c) (do_invoke _ c s h)

  pub on_save :
      (k : Pubkey) (a : Account) {f : Unit {0} → M L B} {s : State L}
      → ((u : Unit {0}) → Ensures Q (f u) (record s { accounts = insert k a s.accounts }))
      → Ensures Q (save k a >>= f) s
  unfolding save
  on_save k a h = on_bind (save k a) (record { holds = h tt })

  on_load :
      {A : Type 0} (read : Account → Option A) (mk : A → Account)
      → ((a : Account) (t : A) → read a ≡ some t → a ≡ mk t)
      → (k : Pubkey) (f : A → M L B) (s : State L)
      → ((t : A) → lookup k s.accounts ≡ some (mk t) → Ensures Q (f t) s)
      → Ensures Q (load read k >>= f) s
  on_load read mk made k f s h = on_bind (load read k) (do_load read mk made _ k s h)

  pub on_platform :
      (k : Pubkey) {f : Platform → M L B} {s : State L}
      → ((t : Platform) → lookup k s.accounts ≡ some (platform_account t) → Ensures Q (f t) s)
      → Ensures Q (load as_platform k >>= f) s
  on_platform k h = on_load as_platform platform_account made k _ _ h
    where
      made : (a : Account) (t : Platform) → as_platform a ≡ some t → a ≡ platform_account t
      made (platform_account a) t e = cc
      made _ t e = cc

  pub on_project :
      (k : Pubkey) {f : Project → M L B} {s : State L}
      → ((t : Project) → lookup k s.accounts ≡ some (project_account t) → Ensures Q (f t) s)
      → Ensures Q (load as_project k >>= f) s
  on_project k h = on_load as_project project_account made k _ _ h
    where
      made : (a : Account) (t : Project) → as_project a ≡ some t → a ≡ project_account t
      made (project_account a) t e = cc
      made _ t e = cc

  pub on_pool :
      (k : Pubkey) {f : Pool → M L B} {s : State L}
      → ((t : Pool) → lookup k s.accounts ≡ some (pool_account t) → Ensures Q (f t) s)
      → Ensures Q (load as_pool k >>= f) s
  on_pool k h = on_load as_pool pool_account made k _ _ h
    where
      made : (a : Account) (t : Pool) → as_pool a ≡ some t → a ≡ pool_account t
      made (pool_account a) t e = cc
      made _ t e = cc

  pub on_position :
      (k : Pubkey) {f : InvestorPosition → M L B} {s : State L}
      → ((t : InvestorPosition)
          → lookup k s.accounts ≡ some (position_account t)
          → Ensures Q (f t) s)
      → Ensures Q (load as_position k >>= f) s
  on_position k h = on_load as_position position_account made k _ _ h
    where
      made : (a : Account) (t : InvestorPosition) → as_position a ≡ some t → a ≡ position_account t
      made (position_account a) t e = cc
      made _ t e = cc

  pub on_mrv_project :
      (k : Pubkey) {f : MrvProject → M L B} {s : State L}
      → ((t : MrvProject) → lookup k s.accounts ≡ some (mrv_account t) → Ensures Q (f t) s)
      → Ensures Q (load as_mrv_project k >>= f) s
  on_mrv_project k h = on_load as_mrv_project mrv_account made k _ _ h
    where
      made : (a : Account) (t : MrvProject) → as_mrv_project a ≡ some t → a ≡ mrv_account t
      made (mrv_account a) t e = cc
      made _ t e = cc

  pub on_verification :
      (k : Pubkey) {f : Verification → M L B} {s : State L}
      → ((t : Verification)
          → lookup k s.accounts ≡ some (verification_account t)
          → Ensures Q (f t) s)
      → Ensures Q (load as_verification k >>= f) s
  on_verification k h = on_load as_verification verification_account made k _ _ h
    where
      made :
          (a : Account) (t : Verification) → as_verification a ≡ some t → a ≡ verification_account t
      made (verification_account a) t e = cc
      made _ t e = cc

  pub on_auditor :
      (k : Pubkey) {f : Auditor → M L B} {s : State L}
      → ((t : Auditor) → lookup k s.accounts ≡ some (auditor_account t) → Ensures Q (f t) s)
      → Ensures Q (load as_auditor k >>= f) s
  on_auditor k h = on_load as_auditor auditor_account made k _ _ h
    where
      made : (a : Account) (t : Auditor) → as_auditor a ≡ some t → a ≡ auditor_account t
      made (auditor_account a) t e = cc
      made _ t e = cc

  pub on_assoc :
      {A C : Type 0} (m : M L A) {g : A → M L C} {f : C → M L B} {s : State L}
      → Ensures (λ a s'. Ensures (λ c s''. Ensures Q (f c) s'') (g a) s') m s
      → Ensures Q ((m >>= g) >>= f) s
  on_assoc m {g} {f} h = on_bind (m >>= g) (on_bind m h)

-- The account constraints that take several steps.
module _ {L B : Type 0} {Q : B → State L → Type 0} (rt : Runtime L) where
  pub on_init :
      (k : Pubkey) (seeds : List Seed) {f : ℕ → M L B} {s : State L}
      → ((b : ℕ)
          → k ≡ (rt.find_program_address seeds).0
          → b ≡ (rt.find_program_address seeds).1
          → lookup k s.accounts ≡ none
          → Ensures Q (f b) s)
      → Ensures Q (init rt k seeds >>= f) s
  unfolding init
  on_init k seeds {f} {s} h =
      on_bind (init rt k seeds) (
        on_key _
          λ _ at. on_bind _ (do_init_vacant _ k s λ _ vacant. on_pure _ (h _ at refl vacant)))

  pub on_init_position :
      (k : Pubkey) (seeds : List Seed) {f : InvestorPosition × ℕ → M L B} {s : State L}
      → ((r : InvestorPosition × ℕ)
          → k ≡ (rt.find_program_address seeds).0
          → r.1 ≡ (rt.find_program_address seeds).1
          → NewOrOld k r.0 s.accounts
          → Ensures Q (f r) s)
      → Ensures Q (init_position_if_needed rt k seeds >>= f) s
  unfolding init_position_if_needed
  on_init_position k seeds {f} {s} h = on_bind (init_position_if_needed rt k seeds) (
      on_key _
        λ _ at. on_bind _ (do_load_position_if_any rt _ k s λ q old. on_pure _ (h _ at refl old)))

  pub on_load_token :
      (k : Pubkey) {f : TokenAccount → M L B} {s : State L}
      → ((t : TokenAccount) → rt.token_account s.tokens k ≡ some t → Ensures Q (f t) s)
      → Ensures Q (load_token rt k >>= f) s
  on_load_token k {s = s} h = on_bind (load_token rt k) (do_load_token rt _ k s h)

module _ {L : Type 0} (rt : Runtime L) where
  create_if_needed :
      (P : Unit {0} → State L → Type 0) (o : Option TokenAccount) (mint authority : Pubkey)
      → (s : State L)
      → ((u : Unit {0}) (l : L)
          → Creates rt o mint authority s.tokens l
          → P u (record s { tokens = l }))
      → Ensures P (create_associated_if_needed rt o mint authority) s
  unfolding create_associated_if_needed
  create_if_needed P (some t) mint authority s h =
      on_key _ λ _ m. do_require _ _ _ _ λ u o. h u s.tokens (m, ==→eq _ _ o, refl)
  create_if_needed P none mint authority s h = do_invoke _ _ _ h

module _ {L B : Type 0} {Q : B → State L → Type 0} (rt : Runtime L) where
  pub on_load_mint :
      (k : Pubkey) {f : Unit {0} → M L B} {s : State L}
      → ((u : Unit {0}) → rt.is_mint s.tokens k ≡ true → Ensures Q (f u) s)
      → Ensures Q (load_mint rt k >>= f) s
  unfolding load_mint
  on_load_mint k {f} {s} h =
      on_bind (load_mint rt k) (on_get_tokens λ l e. do_require _ _ _ _ (rw e h))

  pub on_load_token_of :
      (k mint authority : Pubkey) {f : TokenAccount → M L B} {s : State L}
      → ((t : TokenAccount)
          → rt.token_account s.tokens k ≡ some t
          → t.mint ≡ mint
          → t.owner ≡ authority
          → Ensures Q (f t) s)
      → Ensures Q (load_token_of rt k mint authority >>= f) s
  unfolding load_token_of
  on_load_token_of k mint authority h =
      on_bind (load_token_of rt k mint authority)
        (on_load_token rt k λ t e. on_key _ λ _ m. on_key _ λ _ o. on_pure _ (h t e m o))

  pub on_init_associated :
      (k mint authority : Pubkey) {f : Unit {0} → M L B} {s : State L}
      → ((u : Unit {0}) (l : L)
          → rt.create_associated mint authority s.tokens ≡ ok l
          → Ensures Q (f u) (record s { tokens = l }))
      → Ensures Q (init_associated rt k mint authority >>= f) s
  unfolding init_associated
  on_init_associated k mint authority h =
      on_bind (init_associated rt k mint authority) (on_key _ λ _ at. do_invoke _ _ _ h)

  pub on_init_associated_if_needed :
      (k mint authority : Pubkey) {f : Unit {0} → M L B} {s : State L}
      → ((u : Unit {0}) (l : L)
          → IsAssociated rt k mint authority s.tokens l
          → Ensures Q (f u) (record s { tokens = l }))
      → Ensures Q (init_associated_if_needed rt k mint authority >>= f) s
  unfolding init_associated_if_needed
  on_init_associated_if_needed k mint authority {s = s} h =
      on_bind (init_associated_if_needed rt k mint authority) (
        on_key _ λ _ at. on_get_tokens λ l e. rw e (
          create_if_needed rt _ _ mint authority s
            λ u l' made. h u l' (record { address = at; created = made })))

-- The last write of an instruction.
pub on_last_save :
    {L : Type 0} {Q : Unit {0} → State L → Type 0} (k : Pubkey) (a : Account) {s : State L}
    → Q tt (record s { accounts = insert k a s.accounts })
    → Ensures Q (save k a) s
unfolding save
on_last_save k a h = record { holds = h }
