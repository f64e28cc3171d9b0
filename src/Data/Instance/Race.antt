-- ===== src/Data/Instance/Race.antt =====
-- cxsom/src/cxsomVariable.hpp: a reader that has seen `writing` false, and a writer that comes before it counts itself.
use cxsom.Prelude.{refl, true, false, [], ◌∷◌, arith}
use cxsom.Data.Instance.Locks.{Phase, State, free, Reach, passes, reads, raises, writes, here, next}

-- Both are in their functions at the same time.
abbrev both : State
both = record { nb_readers = 1; writing = true; threads = Phase.written ∷ Phase.reading ∷ [] }

abbrev s1 : State
s1 = record { nb_readers = 0; writing = false; threads = Phase.passed ∷ [] }

abbrev s2 : State
s2 = record { nb_readers = 0; writing = true; threads = Phase.raised ∷ Phase.passed ∷ [] }

abbrev s3 : State
s3 = record { nb_readers = 0; writing = true; threads = Phase.written ∷ Phase.passed ∷ [] }

Reach-both : Reach free both
Reach-both =
    next
      (next (next (next here (passes free refl (omega arith))) (raises s1 (omega arith)))
        (writes s2 [] (Phase.passed ∷ []) refl refl))
      (reads s3 (Phase.written ∷ []) [] refl)
