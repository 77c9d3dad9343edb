-- ===== src/Tests/Small.antt =====
-- A small runtime: addresses are numbers made of the seeds, the token program is a store of token
-- accounts.
use ascertainty_contracts.Base.{
  inl, inr, ℕ, ◌+◌, ◌-◌, ◌*◌, ◌%◌, refl, arith, ◌==◌, leb, ◌&&◌, if◌then◌else◌, Option, none, some,
  List, [], ◌∷◌, length, Bool-cases,
}
use ascertainty_contracts.Base.Store.{Store, lookup, insert}
use ascertainty_contracts.Errors.{token_error, Result, ok, err}
use ascertainty_contracts.Accounts.{Pubkey}
use ascertainty_contracts.Runtime.{
  Seed, tag, le_bytes, key, byte, TokenAccount, Runtime, RuntimeLaws,
}
use ascertainty_contracts.Runtime.Raises.{ForeignErrors, IsForeign}

abbrev pub Tokens : Type 0
Tokens = Store TokenAccount

abbrev pub address : List Seed → ℕ → Pubkey
address (tag t ∷ []) b = 100
address (tag t ∷ le_bytes n ∷ []) b = length t * 10_000 + n
address (tag t ∷ key k ∷ []) b = 300_000 + length t * 1_000 + k
address (tag t ∷ key j ∷ key k ∷ []) b = 1_000_000 + j * 1_000 + k % 1_000
address (tag t ∷ key k ∷ byte n ∷ []) b = 500_000 + k + n
address _ b = 7

abbrev pub move_tokens :
    Option TokenAccount
    → Option TokenAccount
    → Pubkey
    → Pubkey
    → Pubkey
    → ℕ
    → Tokens
    → Result Tokens
move_tokens (some a) (some b) from to authority n l =
    if leb n a.amount && (a.owner == authority)
    then ok (
        insert to (record b { amount = b.amount + n })
          (insert from (record a { amount = a.amount - n }) l))
    else err (token_error 1)
move_tokens _ _ from to authority n l = err (token_error 2)

abbrev pub change_tokens : Option TokenAccount → Pubkey → (ℕ → ℕ) → Tokens → Result Tokens
change_tokens (some a) k f l = ok (insert k (record a { amount = f a.amount }) l)
change_tokens none k f l = err (token_error 3)

abbrev pub small_runtime : Runtime Tokens
small_runtime = record {
  find_program_address = λ seeds. (address seeds 255, 255);
  create_program_address = address;
  get_associated_token_address = λ wallet mint. 3_000_000 + wallet * 100 + mint;
  token_account = λ l k. lookup k l;
  is_mint = λ l k. leb k 99;
  init_mint = λ mint decimals authority freeze l. ok l;
  create_associated = λ mint authority l. ok (
      insert (3_000_000 + authority * 100 + mint)
        (record { mint = mint; owner = authority; amount = 0 }) l);
  transfer =
      λ from to authority n l. move_tokens (lookup from l) (lookup to l) from to authority n l;
  mint_to = λ mint to authority n l. change_tokens (lookup to l) to (λ a. a + n) l;
  burn = λ mint from authority n l. change_tokens (lookup from l) from (λ a. a - n) l;
}

pub small_runtime_laws : RuntimeLaws small_runtime
small_runtime_laws = record {
  position_address_injective = λ t o t' o' b b' e. omega (arith, e);
  find_creates = λ seeds. refl;
}

pub small_runtime_foreign : ForeignErrors small_runtime
small_runtime_foreign = record {
  init_mint_foreign = λ k n a f l. tt;
  create_associated_foreign = λ m a l. tt;
  transfer_foreign = λ f t a n l. moved (lookup f l) (lookup t l) f t a n l;
  mint_to_foreign = λ m t a n l. changed (lookup t l) t _ l;
  burn_foreign = λ m f a n l. changed (lookup f l) f _ l;
}
  where
    moved :
        (x y : Option TokenAccount) (f t a n : ℕ) (l : Tokens)
        → IsForeign (move_tokens x y f t a n l)
    moved (some x) (some y) f t a n l = elim (Bool-cases (leb n x.amount && (x.owner == a))) [
      | inl e ↦ rw e tt
      | inr e ↦ rw e tt
    ]
    moved (some x) none f t a n l = tt
    moved none (some y) f t a n l = tt
    moved none none f t a n l = tt

    changed :
        (x : Option TokenAccount) (k : Pubkey) (g : ℕ → ℕ) (l : Tokens)
        → IsForeign (change_tokens x k g l)
    changed (some x) k g l = tt
    changed none k g l = tt
