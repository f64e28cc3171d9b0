-- ===== src/TimeStep/Run/Removal.antt =====
-- What `remove_update` and the switch of `report` do to the number of contents that pass a test.
use cxsom.Prelude.{
  ℕ, String, ◌+◌, ◌-◌, ◌≡◌, refl, Bool, true, false, not, ◌&&◌, Option, none, some, List, [], ◌∷◌,
  if◌then◌else◌, arith, count, count-append,
}
use cxsom.TimeStep.{Content, Updates, Instance, Task, has_init, init_done}
use cxsom.TimeStep.Totals.{total}
use cxsom.TimeStep.Run.{remove_first, remove_where, requeue, named}
use cxsom.Update

abbrev pub left {ℓ} : {A : Type ℓ} → List A → Option (List A) → List A
left cs none = cs
left cs (some r) = r

-- At most one entry that passes the test goes.
pub count-remove_first :
    (p : Content → Bool) (cs : List Content)
    → count p (left cs (remove_first p cs)) ≡ count p cs - 1
unfolding remove_first
count-remove_first p [] = refl
count-remove_first p (c ∷ cs) = ground (arith, count-remove_first p cs)

pub remove_first-none :
    (p : Content → Bool) (cs : List Content) → remove_first p cs ≡ none → count p cs ≡ 0
unfolding remove_first
remove_first-none p [] h = refl
remove_first-none p (c ∷ cs) h = ground (arith, remove_first-none p cs)

abbrev hits {ℓ} : {A : Type ℓ} → Option A → ℕ
hits none = 0
hits (some a) = 1

count-hits :
    (p : Content → Bool) (cs : List Content)
    → count p (left cs (remove_first p cs)) + hits (remove_first p cs) ≡ count p cs
unfolding remove_first
count-hits p [] = refl
count-hits p (c ∷ cs) = ground (arith, count-hits p cs)

-- An entry that passes another test only stays.
pub count-remove_first_ne :
    (p q : Content → Bool)
    → ((c : Content) → p c ≡ true → q c ≡ false)
    → (cs : List Content) → count q (left cs (remove_first p cs)) ≡ count q cs
unfolding remove_first
count-remove_first_ne p q d [] = refl
count-remove_first_ne p q d (c ∷ cs) = ground (arith, count-remove_first_ne p q d cs, d c)

-- `remove_update` takes one content with the name from the queues, if there is one.
pub total-remove_where :
    (p : Content → Bool) (i : Instance) → total p (remove_where p i) ≡ total p i - 1
unfolding remove_where
total-remove_where p i = ground (
  arith,
  count-remove_first p i.unstable,
  count-remove_first p i.impossible,
  count-remove_first p i.stable,
  count-remove_first p i.confirmed,
  count-remove_first p i.fresh,
  remove_first-none p i.unstable,
  remove_first-none p i.impossible,
  remove_first-none p i.stable,
  remove_first-none p i.confirmed,
  remove_first-none p i.fresh,
  count-hits p i.unstable,
  count-hits p i.impossible,
  count-hits p i.stable,
  count-hits p i.confirmed,
  count-hits p i.fresh,
)

pub total-remove_where_ne :
    (p q : Content → Bool) (i : Instance)
    → ((c : Content) → p c ≡ true → q c ≡ false)
    → total q (remove_where p i) ≡ total q i
unfolding remove_where
total-remove_where_ne p q i d = ground (
  arith,
  count-remove_first_ne p q d i.unstable,
  count-remove_first_ne p q d i.impossible,
  count-remove_first_ne p q d i.stable,
  count-remove_first_ne p q d i.confirmed,
  count-remove_first_ne p q d i.fresh,
)

-- The rest of the time step is not touched.
pub remove_where-rest :
    (p : Content → Bool) (i : Instance)
    → let j = remove_where p i in
      (j.status ≡ i.status)
      × (j.who ≡ i.who)
      × (j.variables ≡ i.variables)
      × (j.blockers ≡ i.blockers)
unfolding remove_where
remove_where-rest p i = ground arith

-- A report `Done` of a usual update ends the update: it goes to no queue.
abbrev pub ends : Task → Bool
ends t = elim t.report [ Update.Status.done ↦ not (has_init t.update) | _ ↦ false ]

module _ {S : Type 0} (ops : Updates S) where
  -- The reported update goes to exactly one queue, unless it has ended.
  pub total-requeue :
      (n : String) (s : S) (t : Task) (i : Instance) {j : Instance}
      → requeue ops s t i ≡ some j
      → total (named ops n) j
        ≡ total (named ops n) i + (if named ops n t.update && not (ends t) then 1 else 0)
  unfolding requeue
  total-requeue n s t i h = ground (
    arith,
    count-append (named ops n) i.unstable (init_done t.update ∷ []),
    count-append (named ops n) i.impossible (t.update ∷ []),
    count-append (named ops n) i.stable (t.update ∷ []),
    count-append (named ops n) i.confirmed (t.update ∷ []),
  )

  pub requeue-rest :
      (s : S) (t : Task) (i : Instance) {j : Instance}
      → requeue ops s t i ≡ some j
      → (j.who ≡ i.who) × (j.variables ≡ i.variables) × (j.status ≡ i.status)
  unfolding requeue
  requeue-rest s t i h = ground arith
