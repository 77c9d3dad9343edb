-- ===== src/Runtime/Progress.antt =====
-- How an instruction that meets its tests runs to its end: one rule for each step of the monad.
use ascertainty_contracts.Base.{◌≡◌, refl, ◌∙◌, ap, ◌==◌, ==_self, Bool, true, Option, some}
use ascertainty_contracts.Base.Store.{lookup, insert}
use ascertainty_contracts.Errors.{ExiraError, Error, Result, ok}
use ascertainty_contracts.Accounts.{Pubkey, Account}
use ascertainty_contracts.Runtime.Machine.{
  TokenAccount, Runtime, State, M, ◌>>=◌, require_or, ok_or, get_tokens, invoke, save, load,
  load_token, load_token_of, load_mint, pure, create_associated_if_needed,
  init_associated_if_needed,
}

-- From `s` the instruction `m` ends with `a` in `s'`.
pub record Runs {L A : Type 0} (m : M L A) (s : State L) (a : A) (s' : State L) : Type 0 where
  pub runs : m s ≡ ok (a, s')

module _ {L A B : Type 0} where
  run_bind :
      (m : M L A) (f : A → M L B) (s t : State L) (a : A) {b : B} {s' : State L}
      → m s ≡ ok (a, t)
      → Runs (f a) t b s'
      → Runs (m >>= f) s b s'
  unfolding ◌>>=◌
  run_bind m f s t a e g = record { runs = rw (e, ◌>>=◌) g.runs }

module _ {L B : Type 0} {b : B} {s' : State L} where
  pub run_require :
      (e : Error) {test : Bool} (f : Unit {0} → M L B) {s : State L}
      → test ≡ true
      → Runs (f tt) s b s'
      → Runs (require_or test e >>= f) s b s'
  unfolding require_or
  run_require e {test} f {s = s} h g =
      run_bind (require_or test e) f s s tt (rw (h, require_or) refl) g

  pub run_key :
      (e : Error) {j k : Pubkey} (f : Unit {0} → M L B) {s : State L}
      → j ≡ k
      → Runs (f tt) s b s'
      → Runs (require_or (j == k) e >>= f) s b s'
  run_key e {j} {k} f h g = run_require e f (ap (λ x. x == k) h ∙ ==_self k) g

  pub run_ok_or :
      {A : Type 0} (e : ExiraError) {o : Option A} (a : A) (f : A → M L B) {s : State L}
      → o ≡ some a
      → Runs (f a) s b s'
      → Runs (ok_or o e >>= f) s b s'
  unfolding ok_or
  run_ok_or e {o} a f {s = s} h g = run_bind (ok_or o e) f s s a (rw (h, ok_or) refl) g

  pub run_invoke :
      (c : L → Result L) (l : L) (f : Unit {0} → M L B) {s : State L}
      → c s.tokens ≡ ok l
      → Runs (f tt) (record s { tokens = l }) b s'
      → Runs (invoke c >>= f) s b s'
  unfolding invoke
  run_invoke c l f {s = s} h g =
      run_bind (invoke c) f s (record s { tokens = l }) tt (rw (h, invoke) refl) g

  pub run_load :
      {A : Type 0} (read : Account → Option A) (k : Pubkey) (v : Account) (a : A) (f : A → M L B)
      → {s : State L} → lookup k s.accounts ≡ some v
      → read v ≡ some a
      → Runs (f a) s b s'
      → Runs (load read k >>= f) s b s'
  unfolding load
  run_load read k v a f {s = s} h e g = run_bind (load read k) f s s a (rw (h, e, load) refl) g

  pub run_load_token :
      (rt : Runtime L) (k : Pubkey) (t : TokenAccount) (f : TokenAccount → M L B) {s : State L}
      → rt.token_account s.tokens k ≡ some t
      → Runs (f t) s b s'
      → Runs (load_token rt k >>= f) s b s'
  unfolding load_token
  run_load_token rt k t f {s = s} h g =
      run_bind (load_token rt k) f s s t (rw (h, load_token) refl) g

  pub run_load_mint :
      (rt : Runtime L) (k : Pubkey) (f : Unit {0} → M L B) {s : State L}
      → rt.is_mint s.tokens k ≡ true
      → Runs (f tt) s b s'
      → Runs (load_mint rt k >>= f) s b s'
  unfolding load_mint get_tokens require_or ◌>>=◌
  run_load_mint rt k f {s = s} h g =
      run_bind (load_mint rt k) f s s tt (rw (h, load_mint, get_tokens, ◌>>=◌, require_or) refl) g

module _ {L B : Type 0} {b : B} {s' : State L} where
  pub run_token_of :
      (rt : Runtime L) (k mint authority : Pubkey) (t : TokenAccount) (f : TokenAccount → M L B)
      → {s : State L} → rt.token_account s.tokens k ≡ some t
      → t.mint ≡ mint
      → t.owner ≡ authority
      → Runs (f t) s b s'
      → Runs (load_token_of rt k mint authority >>= f) s b s'
  unfolding load_token_of pure
  run_token_of rt k mint authority t f {s = s} there m o g =
      run_bind (load_token_of rt k mint authority) f s s t
        (run_load_token rt k t _ there
          (run_key _ _ m (run_key _ _ o (record { runs = refl })))).runs
        g

  -- A write, and the rest of the instruction.
  pub run_save :
      (k : Pubkey) (a : Account) (f : Unit {0} → M L B) {s : State L}
      → Runs (f tt) (record s { accounts = insert k a s.accounts }) b s'
      → Runs (save k a >>= f) s b s'
  unfolding save
  run_save k a f {s = s} g =
      run_bind (save k a) f s (record s { accounts = insert k a s.accounts }) tt refl g

module _ {L : Type 0} where
  -- The associated account is there, with its mint and its owner.
  if_needed-Runs :
      (rt : Runtime L) (k mint authority : Pubkey) (t : TokenAccount) (s : State L)
      → rt.token_account s.tokens k ≡ some t
      → t.mint ≡ mint
      → t.owner ≡ authority
      → Runs (create_associated_if_needed rt (rt.token_account s.tokens k) mint authority) s tt s
  unfolding create_associated_if_needed require_or
  if_needed-Runs rt k mint authority t s there m o =
      rw (there, create_associated_if_needed)
        (run_key _ _ m
          (record { runs = rw (ap (λ x. x == authority) o ∙ ==_self authority, require_or) refl }))

  pub run_associated :
      (rt : Runtime L) (k mint authority : Pubkey) (t : TokenAccount) {B : Type 0}
      → (f : Unit {0} → M L B) {s s' : State L} {b : B}
      → k ≡ rt.get_associated_token_address authority mint
      → rt.token_account s.tokens k ≡ some t
      → t.mint ≡ mint
      → t.owner ≡ authority
      → Runs (f tt) s b s'
      → Runs (init_associated_if_needed rt k mint authority >>= f) s b s'
  unfolding init_associated_if_needed get_tokens
  run_associated rt k mint authority t f {s = s} at there m o g =
      run_bind (init_associated_if_needed rt k mint authority) f s s tt
        (run_key _ _ at (
          run_bind get_tokens _ s s s.tokens refl
            (if_needed-Runs rt k mint authority t s there m o))).runs
        g

-- The last write of an instruction.
pub run_last_save :
    {L : Type 0} (k : Pubkey) (a : Account) (s : State L)
    → Runs (save k a) s tt (record s { accounts = insert k a s.accounts })
unfolding save
run_last_save k a s = record { runs = refl }
