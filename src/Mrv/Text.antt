-- ===== src/Mrv/Text.antt =====
-- `pad_into` of programs/exira/src/instructions/mrv/register_project.rs (which add_auditor.rs and
-- submit_baseline.rs repeat): a text as its UTF-8 bytes in a field of fixed length.
use ascertainty_contracts.Base.{
  ℕ, ltb, if◌then◌else◌, Option, none, some, List, [], ◌∷◌, length, replicate,
}

-- `out[..src.len()].copy_from_slice(src)`
unfoldable pub copy_from_slice : List ℕ → List ℕ → List ℕ
copy_from_slice [] out = out
copy_from_slice (b ∷ src) [] = []
copy_from_slice (b ∷ src) (_ ∷ out) = b ∷ copy_from_slice src out

-- `none` is `Err(StringTooLong)`.
unfoldable pub pad_into : ℕ → List ℕ → Option (List ℕ)
pad_into n bytes =
    if ltb n (length bytes) then none else some (copy_from_slice bytes (replicate n 0))
