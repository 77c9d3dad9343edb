-- ===== src/Safety/Texts.antt =====
-- The fixed-length text fields of the MRV accounts (pad_into of register_project.rs).
use ascertainty_contracts.Base.{
  zero, suc, ◌⊎◌, ◌∙◌, length-append, length-replicate, ℕ, ◌+◌, ◌-◌, ◌<◌, ◌≤◌, ◌≡◌, refl, ap, arith,
  ltb, lt→ltb, none, some, List, [], ◌∷◌, ◌++◌, length, replicate, Bool-cases, inl, inr, ltb→lt,
  false,
}
use ascertainty_contracts.Mrv.Text.{copy_from_slice, pad_into}

copied :
    (src : List ℕ) (m n : ℕ)
    → m ≡ length src + n
    → copy_from_slice src (replicate m 0) ≡ src ++ replicate n 0
unfolding copy_from_slice
copied [] m n e = ap (λ x. replicate x 0) (e ∙ omega arith)
copied (b ∷ src) zero n e = absurd (omega (arith, e))
copied (b ∷ src) (suc m) n e = ap (λ r. b ∷ r) (copied src m n (omega (arith, e)))

pub pad_into_short :
    (n : ℕ) (bytes : List ℕ)
    → length bytes ≤ n
    → pad_into n bytes ≡ some (bytes ++ replicate (n - length bytes) 0)
unfolding pad_into
pad_into_short n bytes h =
    rw (test, pad_into) (ap some (copied bytes n (n - length bytes) (omega arith)))
  where
    test : ltb n (length bytes) ≡ false
    test = ground arith

pad_into_long : (n : ℕ) (bytes : List ℕ) → n < length bytes → pad_into n bytes ≡ none
unfolding pad_into
pad_into_long n bytes h = rw (lt→ltb n (length bytes) h, pad_into) refl

-- A text of at most n bytes becomes the text followed by zeros, n bytes in all; a longer one is refused.
pub pad_into-pads :
    (n : ℕ) (bytes : List ℕ)
    → ((n < length bytes) × (pad_into n bytes ≡ none))
      ⊎ ((out : List ℕ) × (pad_into n bytes ≡ some out)
          × (out ≡ bytes ++ replicate (n - length bytes) 0)
          × (length out ≡ n))
pad_into-pads n bytes = elim (Bool-cases (ltb n (length bytes))) [
  | inl e ↦ let long = ltb→lt n (length bytes) e in inl (long, pad_into_long n bytes long)
  | inr e ↦
      let short : length bytes ≤ n = ground arith in
      inr (
        bytes ++ replicate (n - length bytes) 0,
        pad_into_short n bytes short,
        refl,
        omega (
          arith,
          length-append bytes (replicate {A = ℕ} (n - length bytes) 0),
          length-replicate {A = ℕ} (n - length bytes) 0,
        ),
      )
]
