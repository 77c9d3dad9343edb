-- ===== src/Runtime/Rules.antt =====
-- What holds of every successful end of an instruction, proved along its text: one rule for each
-- step of the monad. The rules stand in the order of Runtime/Machine.antt.
use ascertainty_contracts.Base.{◌≡◌, refl, ap, ◌⊎◌, inl, inr, Bool, true, false, Option, none, some}
use ascertainty_contracts.Base.Store.{lookup}
use ascertainty_contracts.Errors.{
  ExiraError, Error, anchor, Result, ok, err, account_not_initialized,
  account_discriminator_mismatch, account_already_in_use,
}
use ascertainty_contracts.Accounts.{Pubkey, InvestorPosition, Account, Accounts, position_account}
use ascertainty_contracts.Runtime.Machine.{
  TokenAccount, Runtime, State, M, ◌>>=◌, pure, require_or, ok_or, invoke, load, init_vacant,
  as_position, blank_position, load_position_if_any, load_token,
}

-- A successful end satisfies Q; a failed one changes nothing and need not.
abbrev pub Holds : {L A : Type 0} → (A → State L → Type 0) → Result (A × State L) → Type 0
Holds Q (ok (a, s)) = Q a s
Holds Q (err e) = Unit

pub record Ensures {L A : Type 0} (Q : A → State L → Type 0) (m : M L A) (s : State L)
    : Type 0 where
  pub holds : Holds Q (m s)

pub ensures-ok :
    {L A : Type 0} {Q : A → State L → Type 0} {m : M L A} {s : State L} (a : A) (s' : State L)
    → Ensures Q m s
    → m s ≡ ok (a, s')
    → Q a s'
ensures-ok a s' h e = rw e at h.holds

Holds-constant : {L A : Type 0} (P : Type 0) → P → (r : Result (A × State L)) → Holds (λ _ _. P) r
Holds-constant P p (ok (a, s)) = p
Holds-constant P p (err e) = tt

-- What is known already holds at every end.
pub ensures_known :
    {L A : Type 0} {P : Type 0} (m : M L A) (s : State L) → P → Ensures (λ _ _. P) m s
ensures_known {P = P} m s p = record { holds = Holds-constant P p (m s) }

module _ {L A : Type 0} {Q : A → State L → Type 0} where
  pub on_pure : (a : A) {s : State L} → Q a s → Ensures Q (pure a) s
  unfolding pure
  on_pure a h = record { holds = h }

module _ {L A B : Type 0} {Q : B → State L → Type 0} where
  pub on_bind :
      (m : M L A) {f : A → M L B} {s : State L}
      → Ensures (λ a s'. Ensures Q (f a) s') m s
      → Ensures Q (m >>= f) s
  unfolding ◌>>=◌
  on_bind m {f} {s} h = record { holds = go (m s) h.holds }
    where
      go :
          (r : Result (A × State L))
          → Holds (λ a s'. Ensures Q (f a) s') r
          → Holds Q (elim r [ ok (a, s') ↦ f a s' | err e ↦ err e ])
      go (ok (a, s')) k = k.holds
      go (err e) k = tt

-- A position is new and blank, or was there.
abbrev pub NewOrOld : Pubkey → InvestorPosition → Accounts → Type 0
NewOrOld k q d =
    ((lookup k d ≡ none) × (q ≡ blank_position)) ⊎ (lookup k d ≡ some (position_account q))

-- What the creation of an associated token account leaves of the tokens `l`: an account that is
-- there must be of this mint and this owner, and nothing changes; otherwise it is created.
abbrev pub Creates :
    {L : Type 0} → Runtime L → Option TokenAccount → Pubkey → Pubkey → L → L → Type 0
Creates rt (some a) mint authority l l' = (a.mint ≡ mint) × (a.owner ≡ authority) × (l' ≡ l)
Creates rt none mint authority l l' = rt.create_associated mint authority l ≡ ok l'

-- `k` is the associated token account of `authority` for `mint`, which the tokens `l` had or to which
-- it was added, with the tokens `l'` as the result.
pub record IsAssociated {L : Type 0} (rt : Runtime L) (k mint authority : Pubkey) (l l' : L)
    : Type 0 where
  pub address : k ≡ rt.get_associated_token_address authority mint
  pub created : Creates rt (rt.token_account l k) mint authority l l'

-- The rules for the primitives, each with the rest of the instruction as `P`.
module _ {L : Type 0} where
  pub do_require :
      (P : Unit {0} → State L → Type 0) (e : Error) (b : Bool) (s : State L)
      → ((u : Unit {0}) → b ≡ true → P u s)
      → Ensures P (require_or b e) s
  unfolding require_or
  do_require P e true s k = record { holds = k tt refl }
  do_require P e false s k = record { holds = tt }

  pub do_ok_or :
      {A : Type 0} (P : A → State L → Type 0) (e : ExiraError) (o : Option A) (s : State L)
      → ((a : A) → o ≡ some a → P a s)
      → Ensures P (ok_or o e) s
  unfolding ok_or
  do_ok_or P e (some a) s k = record { holds = k a refl }
  do_ok_or P e none s k = record { holds = tt }

  pub do_invoke :
      (P : Unit {0} → State L → Type 0) (c : L → Result L) (s : State L)
      → ((u : Unit {0}) (l : L) → c s.tokens ≡ ok l → P u (record s { tokens = l }))
      → Ensures P (invoke c) s
  unfolding invoke
  do_invoke P c s k = record { holds = go (c s.tokens) (λ l e. k tt l e) }
    where
      go :
          (r : Result L)
          → ((l : L) → r ≡ ok l → P tt (record s { tokens = l }))
          → Holds P (elim r [ ok l ↦ ok (tt, record s { tokens = l }) | err e ↦ err e ])
      go (ok l) h = h l refl
      go (err e) h = tt

  pub do_load :
      {A : Type 0} (read : Account → Option A) (mk : A → Account)
      → ((a : Account) (t : A) → read a ≡ some t → a ≡ mk t)
      → (P : A → State L → Type 0) (k : Pubkey) (s : State L)
      → ((t : A) → lookup k s.accounts ≡ some (mk t) → P t s)
      → Ensures P (load read k) s
  unfolding load
  do_load {A} read mk made P k s h = record { holds = go (lookup k s.accounts) (λ t e. h t e) }
    where
      inner :
          (a : Account) (o : Option A)
          → read a ≡ o
          → ((t : A) → some a ≡ some (mk t) → P t s)
          → Holds P
              (elim o [ none ↦ err (anchor account_discriminator_mismatch) | some t ↦ ok (t, s) ])
      inner a none e f = tt
      inner a (some t) e f = f t (ap some (made a t e))

      go :
          (o : Option Account)
          → ((t : A) → o ≡ some (mk t) → P t s)
          → Holds P (elim o [
            | none ↦ err (anchor account_not_initialized)
            | some a ↦ elim (read a) [
              | none ↦ err (anchor account_discriminator_mismatch)
              | some t ↦ ok (t, s)
            ]
          ])
      go none f = tt
      go (some a) f = inner a (read a) refl f

  pub do_init_vacant :
      (P : Unit {0} → State L → Type 0) (k : Pubkey) (s : State L)
      → ((u : Unit {0}) → lookup k s.accounts ≡ none → P u s)
      → Ensures P (init_vacant k) s
  unfolding init_vacant
  do_init_vacant P k s h = record { holds = go (lookup k s.accounts) (λ e. h tt e) }
    where
      go :
          (o : Option Account)
          → (o ≡ none → P tt s)
          → Holds P (elim o [ none ↦ ok (tt, s) | some _ ↦ err (anchor account_already_in_use) ])
      go none f = f refl
      go (some a) f = tt

  pub do_load_token :
      (rt : Runtime L) (P : TokenAccount → State L → Type 0) (k : Pubkey) (s : State L)
      → ((t : TokenAccount) → rt.token_account s.tokens k ≡ some t → P t s)
      → Ensures P (load_token rt k) s
  unfolding load_token
  do_load_token rt P k s h = record { holds = go (rt.token_account s.tokens k) h }
    where
      go :
          (o : Option TokenAccount)
          → ((t : TokenAccount) → o ≡ some t → P t s)
          → Holds P (elim o [ none ↦ err (anchor account_not_initialized) | some t ↦ ok (t, s) ])
      go none f = tt
      go (some t) f = f t refl

  pub do_load_position_if_any :
      (rt : Runtime L) (P : InvestorPosition → State L → Type 0) (k : Pubkey) (s : State L)
      → ((q : InvestorPosition) → NewOrOld k q s.accounts → P q s)
      → Ensures P (load_position_if_any rt k) s
  unfolding load_position_if_any
  do_load_position_if_any rt P k s h = record { holds = go (lookup k s.accounts) h }
    where
      go :
          (o : Option Account)
          → ((q : InvestorPosition)
              → ((o ≡ none) × (q ≡ blank_position)) ⊎ (o ≡ some (position_account q))
              → P q s)
          → Holds P (elim o [
            | none ↦ ok (blank_position, s)
            | some a ↦ elim (as_position a) [
              | none ↦ err (anchor account_discriminator_mismatch)
              | some t ↦ ok (t, s)
            ]
          ])
      go none f = f blank_position (inl (refl, refl))
      go (some (position_account q)) f = f q (inr refl)
      go (some _) f = tt
