-- ===== src/Runtime/Avoids.antt =====
-- Which errors an instruction avoids from a given state, along its text: the rules of
-- Runtime/Raises.antt with what the steps before have found.
use ascertainty_contracts.Base.{◌≡◌, ◌==◌, ==→eq, Bool, true, Option, some}
use ascertainty_contracts.Base.Store.{lookup}
use ascertainty_contracts.Errors.{
  ExiraError, Error, Result, ok, err, anchor, account_not_initialized,
}
use ascertainty_contracts.Accounts.{
  Pubkey, Project, InvestorPosition, Account, project_account, position_account,
}
use ascertainty_contracts.Runtime.Machine.{
  TokenAccount, Runtime, State, M, ◌>>=◌, require_or, ok_or, load, as_project, as_position,
  load_token, load_mint, get_tokens, constrain,
}
use ascertainty_contracts.Runtime.Rules.{
  Ensures, Holds, on_bind, do_require, do_load, do_load_token,
}
use ascertainty_contracts.Runtime.Raises.{
  IsIn, FailsIn, Raises, Raises-require_or, Raises-load, Raises-load_token, Raises-load_mint,
}

-- From `s` the instruction `m` succeeds, or ends in an error of E or in one that is not the program's.
pub record Avoids {L A : Type 0} (E : ExiraError → Type 0) (m : M L A) (s : State L) : Type 0 where
  pub at : FailsIn E (m s)

module _ {L B : Type 0} {E : ExiraError → Type 0} where
  -- The rest of the instruction, whatever the step `m` gives.
  avoid_bind :
      {A : Type 0} (m : M L A) (f : A → M L B) (s : State L)
      → Raises E m
      → Ensures (λ a t. Avoids E (f a) t) m s
      → Avoids E (m >>= f) s
  unfolding ◌>>=◌
  avoid_bind {A} m f s hm hf = record { at = go (m s) (hm.at s) hf.holds }
    where
      go :
          (r : Result (A × State L))
          → FailsIn E r
          → Holds (λ a t. Avoids E (f a) t) r
          → FailsIn {A = B × State L} E (elim r [ ok (a, t) ↦ f a t | err e ↦ err e ])
      go (ok (a, t)) h k = k.at
      go (err e) h k = h

  pub avoid_require :
      (e : Error) (b : Bool) (f : Unit {0} → M L B) {s : State L}
      → IsIn E e
      → (b ≡ true → Avoids E (f tt) s)
      → Avoids E (require_or b e >>= f) s
  avoid_require e b f {s} h k =
      avoid_bind (require_or b e) f s (Raises-require_or b e h) (do_require _ e b s λ _ x. k x)

  pub avoid_key :
      (e : Error) (j k : Pubkey) (f : Unit {0} → M L B) {s : State L}
      → IsIn E e
      → (j ≡ k → Avoids E (f tt) s)
      → Avoids E (require_or (j == k) e >>= f) s
  avoid_key e j k f h g = avoid_require e (j == k) f h λ x. g (==→eq j k x)

  -- A checked operation that is in range.
  pub avoid_ok_or :
      {A : Type 0} (e : ExiraError) (o : Option A) (a : A) (f : A → M L B) {s : State L}
      → o ≡ some a
      → Avoids E (f a) s
      → Avoids E (ok_or o e >>= f) s
  unfolding ok_or ◌>>=◌
  avoid_ok_or e o a f {s} h k = record { at = rw (h, ok_or, ◌>>=◌) k.at }

  pub avoid_project :
      (k : Pubkey) (f : Project → M L B) {s : State L}
      → ((p : Project) → lookup k s.accounts ≡ some (project_account p) → Avoids E (f p) s)
      → Avoids E (load as_project k >>= f) s
  avoid_project k f {s} h =
      avoid_bind (load as_project k) f s (Raises-load as_project k)
        (do_load as_project project_account made _ k s h)
    where
      made : (a : Account) (t : Project) → as_project a ≡ some t → a ≡ project_account t
      made (project_account a) t e = cc
      made _ t e = cc

  pub avoid_position :
      (k : Pubkey) (f : InvestorPosition → M L B) {s : State L}
      → ((q : InvestorPosition)
          → lookup k s.accounts ≡ some (position_account q)
          → Avoids E (f q) s)
      → Avoids E (load as_position k >>= f) s
  avoid_position k f {s} h =
      avoid_bind (load as_position k) f s (Raises-load as_position k)
        (do_load as_position position_account made _ k s h)
    where
      made : (a : Account) (t : InvestorPosition) → as_position a ≡ some t → a ≡ position_account t
      made (position_account a) t e = cc
      made _ t e = cc

  pub avoid_load_token :
      (rt : Runtime L) (k : Pubkey) (f : TokenAccount → M L B) {s : State L}
      → ((t : TokenAccount) → Avoids E (f t) s)
      → Avoids E (load_token rt k >>= f) s
  avoid_load_token rt k f {s} h =
      avoid_bind (load_token rt k) f s (Raises-load_token rt k) (do_load_token rt _ k s λ t _. h t)

  pub avoid_load_mint :
      (rt : Runtime L) (k : Pubkey) (f : Unit {0} → M L B) {s : State L}
      → Avoids E (f tt) s
      → Avoids E (load_mint rt k >>= f) s
  unfolding load_mint get_tokens ◌>>=◌
  avoid_load_mint rt k f {s} h = avoid_bind (load_mint rt k) f s (Raises-load_mint rt k) (
      on_bind get_tokens {f = λ x. constrain (rt.is_mint x k) account_not_initialized} (record {
        holds = do_require _ (anchor account_not_initialized) (rt.is_mint s.tokens k) s λ _ _. h;
      }))

  -- A step of which nothing is used.
  pub avoid_any :
      {A : Type 0} (m : M L A) (f : A → M L B) {s : State L}
      → Raises E m
      → ((a : A) (t : State L) → Avoids E (f a) t)
      → Avoids E (m >>= f) s
  avoid_any {A} m f {s} h k = avoid_bind m f s h (record { holds = go (m s) })
    where
      go : (r : Result (A × State L)) → Holds (λ a t. Avoids E (f a) t) r
      go (ok (a, t)) = k a t
      go (err e) = tt

  pub avoid_last : (m : M L B) {s : State L} → Raises E m → Avoids E m s
  avoid_last m {s} h = record { at = h.at s }
