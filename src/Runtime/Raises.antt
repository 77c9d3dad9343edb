-- ===== src/Runtime/Raises.antt =====
-- Which errors of the program an instruction can end in: one rule for each step of the monad, for
-- `search`.
use ascertainty_contracts.Base.{ℕ, Bool, true, false, Option, none, some, List}
use ascertainty_contracts.Base.Store.{lookup}
use ascertainty_contracts.Errors.{
  ExiraError, Error, exira, anchor, token_error, Result, ok, err, account_not_initialized,
  account_already_in_use, account_discriminator_mismatch,
}
use ascertainty_contracts.Accounts.{position_account, Pubkey, InvestorPosition, Account}
use ascertainty_contracts.Runtime.Machine.{
  Seed, TokenAccount, Runtime, State, M, ◌>>=◌, pure, require_or, ok_or, get_tokens, clock, invoke,
  save, load, init_vacant, as_position, init, load_position_if_any, init_position_if_needed,
  load_token, load_mint, load_token_of, blank_position, init_associated,
  create_associated_if_needed, init_associated_if_needed,
}

-- An error of the program's own is one of E; the others are the framework's or the token program's.
abbrev pub IsIn : (ExiraError → Type 0) → Error → Type 0
IsIn E (exira e) = E e
IsIn E _ = Unit

abbrev pub FailsIn : {A : Type 0} → (ExiraError → Type 0) → Result A → Type 0
FailsIn E (ok a) = Unit
FailsIn E (err e) = IsIn E e

-- From every state `m` succeeds, or ends in an error of E or in one that is not the program's own.
pub record Raises {L A : Type 0} (E : ExiraError → Type 0) (m : M L A) : Type 0 where
  pub at : (s : State L) → FailsIn E (m s)

-- The token program ends in no error of this program.
abbrev pub IsForeign : {A : Type 0} → Result A → Type 0
IsForeign = FailsIn (λ _. ⊥)

pub record ForeignErrors {L : Type 0} (rt : Runtime L) : Type 0 where
  pub init_mint_foreign : (k n a f : ℕ) (l : L) → IsForeign (rt.init_mint k n a f l)
  pub create_associated_foreign : (m a : Pubkey) (l : L) → IsForeign (rt.create_associated m a l)
  pub transfer_foreign : (f t a : Pubkey) (n : ℕ) (l : L) → IsForeign (rt.transfer f t a n l)
  pub mint_to_foreign : (m t a : Pubkey) (n : ℕ) (l : L) → IsForeign (rt.mint_to m t a n l)
  pub burn_foreign : (m f a : Pubkey) (n : ℕ) (l : L) → IsForeign (rt.burn m f a n l)

foreign :
    {A B : Type 0} (E : ExiraError → Type 0) (g : A → B) (r : Result A)
    → IsForeign r
    → FailsIn {A = B} E (elim r [ ok a ↦ ok (g a) | err e ↦ err e ])
foreign E g (ok a) h = tt
foreign E g (err (exira e)) h = absurd h
foreign E g (err (anchor e)) h = tt
foreign E g (err (token_error n)) h = tt

module _ {L : Type 0} {E : ExiraError → Type 0} where
  pub Raises-pure : {A : Type 0} (a : A) → Raises {L = L} E (pure a)
  unfolding pure
  Raises-pure a = record { at = λ s. tt }

  pub Raises-require_or : (b : Bool) (e : Error) → IsIn E e → Raises {L = L} E (require_or b e)
  unfolding require_or
  Raises-require_or true e h = record { at = λ s. tt }
  Raises-require_or false e h = record { at = λ s. h }

  pub Raises-ok_or :
      {A : Type 0} (o : Option A) (e : ExiraError) → E e → Raises {L = L} E (ok_or o e)
  unfolding ok_or
  Raises-ok_or (some a) e h = record { at = λ s. tt }
  Raises-ok_or none e h = record { at = λ s. h }

  pub Raises-get_tokens : Raises {L = L} E get_tokens
  unfolding get_tokens
  Raises-get_tokens = record { at = λ s. tt }

  pub Raises-clock : Raises {L = L} E clock
  unfolding clock
  Raises-clock = record { at = λ s. tt }

  pub Raises-invoke : (f : L → Result L) → ((l : L) → IsForeign (f l)) → Raises E (invoke f)
  unfolding invoke
  Raises-invoke f h = record { at = λ s. foreign E _ (f s.tokens) (h s.tokens) }

  pub Raises-save : (k : Pubkey) (a : Account) → Raises {L = L} E (save k a)
  unfolding save
  Raises-save k a = record { at = λ s. tt }

  pub Raises-load :
      {A : Type 0} (read : Account → Option A) (k : Pubkey) → Raises {L = L} E (load read k)
  unfolding load
  Raises-load {A} read k = record { at = λ s. go (lookup k s.accounts) s }
    where
      inner :
          (o : Option A) (s : State L)
          → FailsIn {A = A × State L} E
              (elim o [ none ↦ err (anchor account_discriminator_mismatch) | some t ↦ ok (t, s) ])
      inner none s = tt
      inner (some a) s = tt

      go :
          (o : Option Account) (s : State L)
          → FailsIn {A = A × State L} E (elim o [
            | none ↦ err (anchor account_not_initialized)
            | some a ↦ elim (read a) [
              | none ↦ err (anchor account_discriminator_mismatch)
              | some t ↦ ok (t, s)
            ]
          ])
      go none s = tt
      go (some a) s = inner (read a) s

  pub Raises-bind :
      {A B : Type 0} (m : M L A) (f : A → M L B)
      → Raises E m
      → ((a : A) → Raises E (f a))
      → Raises E (m >>= f)
  unfolding ◌>>=◌
  Raises-bind {A} {B} m f hm hf = record { at = λ s. go (m s) (hm.at s) }
    where
      go :
          (r : Result (A × State L))
          → FailsIn E r
          → FailsIn {A = B × State L} E (elim r [ ok (a, s') ↦ f a s' | err e ↦ err e ])
      go (ok (a, s')) h = (hf a).at s'
      go (err e) h = h

module _ {L : Type 0} (rt : Runtime L) {E : ExiraError → Type 0} where
  Raises-init_vacant : (k : Pubkey) → Raises {L = L} E (init_vacant k)
  unfolding init_vacant
  Raises-init_vacant k = record { at = λ s. go (lookup k s.accounts) s }
    where
      go :
          (o : Option Account) (s : State L)
          → FailsIn {A = Unit {0} × State L} E
              (elim o [ none ↦ ok (tt, s) | some _ ↦ err (anchor account_already_in_use) ])
      go none s = tt
      go (some a) s = tt

  Raises-load_position_if_any : (k : Pubkey) → Raises E (load_position_if_any rt k)
  unfolding load_position_if_any
  Raises-load_position_if_any k = record { at = λ s. go (lookup k s.accounts) s }
    where
      go :
          (o : Option Account) (s : State L)
          → FailsIn {A = InvestorPosition × State L} E (elim o [
            | none ↦ ok (blank_position, s)
            | some a ↦ elim (as_position a) [
              | none ↦ err (anchor account_discriminator_mismatch)
              | some t ↦ ok (t, s)
            ]
          ])
      go none s = tt
      go (some (position_account q)) s = tt
      go (some _) s = tt

  pub Raises-load_token : (k : Pubkey) → Raises E (load_token rt k)
  unfolding load_token
  Raises-load_token k = record { at = λ s. go (rt.token_account s.tokens k) s }
    where
      go :
          (o : Option TokenAccount) (s : State L)
          → FailsIn {A = TokenAccount × State L} E
              (elim o [ none ↦ err (anchor account_not_initialized) | some t ↦ ok (t, s) ])
      go none s = tt
      go (some t) s = tt

  pub Raises-init : (k : Pubkey) (seeds : List Seed) → Raises E (init rt k seeds)
  unfolding init
  Raises-init k seeds = search (Raises-bind, Raises-require_or, Raises-init_vacant, Raises-pure)

  pub Raises-init_position :
      (k : Pubkey) (seeds : List Seed) → Raises E (init_position_if_needed rt k seeds)
  unfolding init_position_if_needed
  Raises-init_position k seeds =
      search (Raises-bind, Raises-require_or, Raises-load_position_if_any, Raises-pure)

  pub Raises-load_mint : (k : Pubkey) → Raises E (load_mint rt k)
  unfolding load_mint
  Raises-load_mint k = search (Raises-bind, Raises-get_tokens, Raises-require_or)

  pub Raises-load_token_of :
      (k mint authority : Pubkey) → Raises E (load_token_of rt k mint authority)
  unfolding load_token_of
  Raises-load_token_of k mint authority =
      search (Raises-bind, Raises-load_token, Raises-require_or, Raises-pure)

module _ {L : Type 0} {rt : Runtime L} (foreign_errors : ForeignErrors rt)
    {E : ExiraError → Type 0} where
  pub Raises-init_associated :
      (k mint authority : Pubkey) → Raises E (init_associated rt k mint authority)
  unfolding init_associated
  Raises-init_associated k mint authority =
      Raises-bind _ _ (Raises-require_or _ _ tt)
        λ _. Raises-invoke _ (foreign_errors.create_associated_foreign _ _)

  pub Raises-init_mint : (k n a f : ℕ) → Raises E (invoke (rt.init_mint k n a f))
  Raises-init_mint k n a f = Raises-invoke _ (foreign_errors.init_mint_foreign k n a f)

  pub Raises-transfer : (f t a : Pubkey) (n : ℕ) → Raises E (invoke (rt.transfer f t a n))
  Raises-transfer f t a n = Raises-invoke _ (foreign_errors.transfer_foreign f t a n)

  pub Raises-mint_to : (m t a : Pubkey) (n : ℕ) → Raises E (invoke (rt.mint_to m t a n))
  Raises-mint_to m t a n = Raises-invoke _ (foreign_errors.mint_to_foreign m t a n)

  pub Raises-burn : (m f a : Pubkey) (n : ℕ) → Raises E (invoke (rt.burn m f a n))
  Raises-burn m f a n = Raises-invoke _ (foreign_errors.burn_foreign m f a n)

  Raises-create_if_needed :
      (o : Option TokenAccount) (mint authority : Pubkey)
      → Raises E (create_associated_if_needed rt o mint authority)
  unfolding create_associated_if_needed
  Raises-create_if_needed (some t) mint authority = search (Raises-bind, Raises-require_or)
  Raises-create_if_needed none mint authority =
      Raises-invoke _ (foreign_errors.create_associated_foreign _ _)

  pub Raises-init_associated_if_needed :
      (k mint authority : Pubkey) → Raises E (init_associated_if_needed rt k mint authority)
  unfolding init_associated_if_needed
  Raises-init_associated_if_needed k mint authority =
      search (Raises-bind, Raises-require_or, Raises-get_tokens, Raises-create_if_needed)

pub ruleset raises_rules = (
  Raises-pure, Raises-require_or, Raises-ok_or, Raises-get_tokens, Raises-clock, Raises-save,
  Raises-load, Raises-bind, Raises-load_token, Raises-init, Raises-init_position, Raises-load_mint,
  Raises-load_token_of, Raises-init_associated, Raises-init_associated_if_needed, Raises-init_mint,
  Raises-transfer, Raises-mint_to, Raises-burn,
)
