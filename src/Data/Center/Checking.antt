-- ===== src/Data/Center/Checking.antt =====
-- cxsom/src/cxsomVariable.hpp: `Center::check` on every branch.
use cxsom.Prelude.{
  ℕ, ◌≡◌, refl, if◌then◌else◌, Option, none, some, find, ◌⊎◌, inl, inr, Eq, ◌=?◌, arith,
  Option-cases,
}
use cxsom.Symbol.{variable_Eq}
use cxsom.Symbol
use cxsom.Data.File.{FileError, realize}
use cxsom.Data.Center.{Center, CenterError, construct, check}
use cxsom.Data.Center.Typing.{IsKnown, kind_of}

-- What a call throws.
abbrev pub thrown : {A : Type 0} → CenterError ⊎ A → Option CenterError
thrown (inl x) = some x
thrown (inr a) = none

-- What `check` is expected to throw, from the type of the variable on the disk. A variable without a
-- file needs both sizes.
abbrev pub refusal :
    {T : Type 0} ⦃e : Eq T⦄ → T → Option ℕ → Option ℕ → Option T → Option CenterError
refusal t cache size (some k) =
    if k =? t then none else some (CenterError.of_file FileError.type_mismatch)
refusal t none size none = some (CenterError.of_file FileError.no_cache_size)
refusal t (some c) none none = some (CenterError.of_file FileError.no_file_size)
refusal t (some c) (some s) none = none

module _ {T D : Type 0} ⦃e : Eq T⦄ (zeros : Option T → D) where
  construct-refusal :
      (t : T) (cache size : Option ℕ) (o : Option _)
      → thrown (construct {D = D} zeros (some t) cache size o)
        ≡ refusal t cache size (elim o [ none ↦ none | some d ↦ some d.type ])
  unfolding construct realize
  construct-refusal t cache size (some d) = ground (arith, e.beq_iff d.type t, e.beq_iff t d.type)
  construct-refusal t none size none = refl
  construct-refusal t (some c) none none = refl
  construct-refusal t (some c) (some s) none = refl

  -- If the variables that are opened know the types of their files, `check` throws exactly what is
  -- expected, whether the variable is opened or not.
  pub check-refusal :
      (v : Symbol.Variable) (t : T) (cache size : Option ℕ) (c : Center T D)
      → IsKnown c
      → thrown (check zeros v t cache size c) ≡ refusal t cache size (kind_of v c)
  unfolding check
  check-refusal v t cache size c k = elim (Option-cases (find v c.variables)) [
    | inr (x, f) ↦
        let q = k v x f in
        ground (arith, e.beq_iff t x.file.disk.type, e.beq_iff x.file.disk.type t)
    | inl f ↦ ground (arith, construct-refusal t cache size (c.files v))
  ]
