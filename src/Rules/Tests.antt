-- ===== src/Rules/Tests.antt =====
-- A program that sets a rule and renames a variable, and the theorems on it.
use cxsom.Prelude.{ℕ, String, ◌≡◌, refl, some, [], ◌∷◌, find, store, contains, insert}
use cxsom.Job.{pos, negsuc}
use cxsom.Rules.{RuleError, Step, ValueKey, Data, Update, key_Eq, at_key_Eq}
use cxsom.Rules.Context.{
  Context, empty, apply, declare_all, set_update, add_update, check_update, check_args,
}
use cxsom.Rules.Renaming.{rename, is_ruled}
use cxsom.Rules.Sound.{Reach, Inv, declares, sets, here, next, context-Inv}
use cxsom.Rules.Moving.{Moved, rename-Moved}

abbrev key : String → ValueKey
key name = record { timeline = "main"; name = name }

-- The date before, and the date itself.
abbrev prev : String → Data
prev name = record { id = record { key = key name; date = Step.offset (negsuc 0) } }

abbrev now : String → Data
now name = record { id = record { key = key name; date = Step.offset (pos 0) } }

-- x at a date is copied from y at the date before.
abbrev copied : Update ℕ × Context ℕ
copied = apply "copy" (prev "/y" ∷ []) empty

abbrev program : Context ℕ
program = (set_update (now "/x") copied.0 copied.1).1

Reach-program : Reach program
unfolding declare_all contains insert
Reach-program =
    next (next here (declares (prev "/y" ∷ []) empty)) (sets (now "/x") copied.0 copied.1)

context-Inv_example : Inv program
context-Inv_example = context-Inv program Reach-program

-- y is renamed, and then x can not take its new name.
abbrev renamed : Context ℕ
renamed = (rename (key "/y") (key "/z") program).1

rename_throws : (rename (key "/x") (key "/x") program).0 ≡ some RuleError.invalid_rename
unfolding rename set_update add_update check_update check_args declare_all is_ruled store find
rename_throws = refl

-- A shifted result is refused.
set_refused : (set_update (prev "/x") copied.0 copied.1).0 ≡ some RuleError.bad_update
unfolding set_update check_update
set_refused = refl

rename-Moved_example :
    Moved (key "/y") (key "/z") (now "/x").id program.updates renamed.updates
    × Moved (key "/y") (key "/z") (now "/x").id program.inits renamed.inits
unfolding rename set_update add_update check_update check_args declare_all is_ruled store find
rename-Moved_example =
    rename-Moved (key "/y") (key "/z") (now "/x").id (now "/x").id program renamed Reach-program
      refl
