-- ===== src/Job/Opening.antt =====
-- cxsom/src/cxsomJobs.hpp: the instances that the realization of the patterns puts in the time steps.
use cxsom.Prelude.{
  ℕ, String, Bool, true, false, if◌then◌else◌, Option, none, some, List, [], ◌∷◌, ◌≡◌, find,
  is_empty, find-store, All, get_elem?, All-get_elem?, arith, refl, sym, subst, Option-cases, inl,
  inr, if_split, ap, ◌∙◌, not, ◌&&◌, ◌==◌, ==_iff, count, zero, suc, ◌<◌,
}
use cxsom.Symbol.{
  Variable, TimeStep, name_Eq, variable_Eq, time_step_Eq, time_step_of, name_eq, time_step_eq_iff,
}
use cxsom.Symbol
use cxsom.Job.{Update, UpdatePattern, update_at}
use cxsom.Job.Offsets.{is_some}
use cxsom.Job.Center.{
  Steps, Center, check_and_get, put_update, instance_of, feasible, earliest, realize_entry,
  unprotected_realize, realize_all, unprotected_realize_patterns,
}
use cxsom.Job.Realizing.{check_and_get-find, update_at-res, is_before, is_first, first-earliest}

-- A time step keeps its date and its timeline, and an update of them that is added stands in it,
-- with those that stood there.
pub record Laws {P S : Type 0} (steps : Steps P S) : Type 0 where
  pub made : (k : TimeStep) → steps.who (steps.make k) ≡ k
  pub same : (x : Update P) (s : S) → steps.who (steps.add_update x s) ≡ steps.who s
  pub added :
      (x : Update P) (s : S)
      → steps.who s ≡ time_step_of x.res
      → steps.has_instance x.res (steps.add_update x s) ≡ true
  pub kept :
      (x : Update P) (i : Symbol.Instance) (s : S)
      → steps.has_instance i s ≡ true
      → steps.has_instance i (steps.add_update x s) ≡ true

module _ {P S : Type 0} (steps : Steps P S) where
  -- An instance is to be computed by its time step.
  abbrev pub has_in : Symbol.Instance → Option S → Bool
  has_in i none = false
  has_in i (some s) = steps.has_instance i s

  abbrev pub holds : Symbol.Instance → Center P S → Bool
  holds i c = has_in i (find (time_step_of i) c.timesteps)

  -- Each time step stands under its own name.
  abbrev pub IsPlaced : Center P S → Type 0
  IsPlaced c = (k : TimeStep) (s : S) → find k c.timesteps ≡ some s → steps.who s ≡ k

module _ {P S : Type 0} (steps : Steps P S) (history_length : Variable → ℕ)
    (laws : Laws steps) where
  check_and_get-holds :
      (k : TimeStep) (i : Symbol.Instance) (c : Center P S)
      → holds steps i c ≡ true
      → holds steps i (check_and_get steps history_length k c).1 ≡ true
  unfolding check_and_get
  check_and_get-holds k i c h = elim (Option-cases (find k c.timesteps)) [
    | inl e ↦ ground (
      arith,
      find-store k (time_step_of i) (steps.make k) c.timesteps,
      time_step_eq_iff k (time_step_of i),
    )
    | inr (b, e) ↦ ground arith
  ]

  put_update-holds :
      (o : Option (Update P)) (k : TimeStep) (s : S) (i : Symbol.Instance) (c : Center P S)
      → find k c.timesteps ≡ some s
      → holds steps i c ≡ true
      → holds steps i (put_update steps history_length o k s c) ≡ true
  unfolding put_update
  put_update-holds none k s i c e h = h
  put_update-holds (some x) k s i c e h = ground (
    arith,
    find-store k (time_step_of i) (steps.add_update x s) c.timesteps,
    time_step_eq_iff k (time_step_of i),
    laws.kept x i s,
  )

  pub put_update-new :
      (x : Update P) (s : S) (c : Center P S)
      → steps.who s ≡ time_step_of x.res
      → holds steps x.res (put_update steps history_length (some x) (time_step_of x.res) s c) ≡ true
  unfolding put_update
  put_update-new x s c w = ground (
    arith,
    find-store (time_step_of x.res) (time_step_of x.res) (steps.add_update x s) c.timesteps,
    time_step_eq_iff (time_step_of x.res) (time_step_of x.res),
    laws.added x s,
  )

  pub found :
      (k : TimeStep) (c : Center P S)
      → find k (check_and_get steps history_length k c).1.timesteps
        ≡ some (check_and_get steps history_length k c).0
  found k c = ground (arith, check_and_get-find steps history_length k k c, time_step_eq_iff k k)

  pub check_and_get-IsPlaced :
      (k : TimeStep) (c : Center P S)
      → IsPlaced steps c
      → IsPlaced steps (check_and_get steps history_length k c).1
  unfolding check_and_get
  check_and_get-IsPlaced k c h j s f = elim (Option-cases (find k c.timesteps)) [
    | inl e ↦
        ground (
          arith,
          find-store k j (steps.make k) c.timesteps,
          time_step_eq_iff k j,
          laws.made k,
          h j s,
        )
    | inr (b, e) ↦ ground (arith, h j s)
  ]

  put_update-IsPlaced :
      (o : Option (Update P)) (k : TimeStep) (s : S) (c : Center P S)
      → steps.who s ≡ k
      → IsPlaced steps c
      → IsPlaced steps (put_update steps history_length o k s c)
  unfolding put_update
  put_update-IsPlaced none k s c w h j z f = h j z f
  put_update-IsPlaced (some x) k s c w h j z f = ground (
    arith,
    find-store k j (steps.add_update x s) c.timesteps,
    time_step_eq_iff k j,
    laws.same x s,
    h j z,
  )

  found-who :
      (k : TimeStep) (c : Center P S)
      → IsPlaced steps c
      → steps.who (check_and_get steps history_length k c).0 ≡ k
  found-who k c h =
      check_and_get-IsPlaced k c h k (check_and_get steps history_length k c).0 (found k c)

  realize-IsPlaced :
      (u : UpdatePattern P) (first : ℕ) (c : Center P S)
      → IsPlaced steps c
      → IsPlaced steps (unprotected_realize steps history_length u first c)
  unfolding unprotected_realize
  realize-IsPlaced u first c h =
      let k = time_step_of (instance_of steps history_length u) in
      let (s, c') = check_and_get steps history_length k c in
      if_split (IsPlaced steps)
        (not (feasible steps history_length u && history_length u.res == first)) (λ e. h)
        (λ e.
          if_split (IsPlaced steps) (steps.has_instance (instance_of steps history_length u) s)
            (λ f. check_and_get-IsPlaced k c h)
            (λ f.
              put_update-IsPlaced (update_at u (history_length u.res)) k s c' (found-who k c h)
                (check_and_get-IsPlaced k c h)))

  realize_entry-IsPlaced :
      (o : Option ℕ) (u : UpdatePattern P) (c : Center P S)
      → IsPlaced steps c
      → IsPlaced steps (realize_entry steps history_length o u c)
  unfolding realize_entry
  realize_entry-IsPlaced none u c h = h
  realize_entry-IsPlaced (some k) u c h = realize-IsPlaced u k c h

  realize-holds :
      (u : UpdatePattern P) (first : ℕ) (i : Symbol.Instance) (c : Center P S)
      → holds steps i c ≡ true
      → holds steps i (unprotected_realize steps history_length u first c) ≡ true
  unfolding unprotected_realize
  realize-holds u first i c h =
      let k = time_step_of (instance_of steps history_length u) in
      let (s, c') = check_and_get steps history_length k c in
      ground (
        arith,
        h,
        check_and_get-holds k i c h,
        put_update-holds (update_at u (history_length u.res)) k s i c' (found k c),
      )

  put_update-made :
      (u : UpdatePattern P) (o : Option (Update P)) (s : S) (c : Center P S)
      → update_at u (history_length u.res) ≡ o
      → is_some o ≡ true
      → steps.who s ≡ time_step_of (instance_of steps history_length u)
      → holds steps (instance_of steps history_length u) (
          put_update steps history_length o (time_step_of (instance_of steps history_length u)) s c)
        ≡ true
  put_update-made u none s c e n w = ground arith
  put_update-made u (some x) s c e n w =
      subst
        (λ i. holds steps i (put_update steps history_length (some x) (time_step_of i) s c) ≡ true)
        (update_at-res steps history_length u (history_length u.res) x e)
        (put_update-new x s c (
          w
          ∙ ap time_step_of
              (sym (update_at-res steps history_length u (history_length u.res) x e))))

  realize-new :
      (u : UpdatePattern P) (c : Center P S)
      → IsPlaced steps c
      → feasible steps history_length u ≡ true
      → is_some (update_at u (history_length u.res)) ≡ true
      → holds steps
          (instance_of steps history_length u)
          (unprotected_realize steps history_length u (history_length u.res) c)
        ≡ true
  unfolding unprotected_realize
  realize-new u c h f e =
      let k = time_step_of (instance_of steps history_length u) in
      let (s, c') = check_and_get steps history_length k c in
      ground (
        arith,
        found k c,
        put_update-made u (update_at u (history_length u.res)) s c' refl e (found-who k c h),
      )

  realize_entry-holds :
      (o : Option ℕ) (u : UpdatePattern P) (i : Symbol.Instance) (c : Center P S)
      → holds steps i c ≡ true
      → holds steps i (realize_entry steps history_length o u c) ≡ true
  unfolding realize_entry
  realize_entry-holds none u i c h = h
  realize_entry-holds (some k) u i c h = realize-holds u k i c h

  realize_entry-new :
      (o : Option ℕ) (u : UpdatePattern P) (c : Center P S)
      → IsPlaced steps c
      → o ≡ some (history_length u.res)
      → feasible steps history_length u ≡ true
      → is_some (update_at u (history_length u.res)) ≡ true
      → holds steps (instance_of steps history_length u) (realize_entry steps history_length o u c)
        ≡ true
  unfolding realize_entry
  realize_entry-new o u c h e f n =
      subst
        (λ o.
          holds steps (instance_of steps history_length u)
            (realize_entry steps history_length o u c)
          ≡ true)
        (sym e) (realize-new u c h f n)

  realize_all-holds :
      (m : List (String × ℕ)) (ps : List (Variable × UpdatePattern P)) (i : Symbol.Instance)
      (c : Center P S)
      → holds steps i c ≡ true
      → holds steps i (realize_all steps history_length m ps c) ≡ true
  unfolding realize_all
  realize_all-holds m [] i c h = h
  realize_all-holds m ((v, u) ∷ rest) i c h =
      realize_all-holds m rest i (realize_entry steps history_length (find v.timeline m) u c)
        (realize_entry-holds (find v.timeline m) u i c h)

  -- A pattern that is to be realized has its instance in its time step.
  abbrev IsOpened : List (String × ℕ) → Center P S → Variable × UpdatePattern P → Type 0
  IsOpened m c p =
      find p.0.timeline m ≡ some (history_length p.1.res)
      → feasible steps history_length p.1 ≡ true
      → is_some (update_at p.1 (history_length p.1.res)) ≡ true
      → holds steps (instance_of steps history_length p.1) c ≡ true

  realize_all-IsOpened :
      (m : List (String × ℕ)) (ps : List (Variable × UpdatePattern P)) (c : Center P S)
      → IsPlaced steps c
      → All (IsOpened m (realize_all steps history_length m ps c)) ps
  unfolding realize_all
  realize_all-IsOpened m [] c h = tt
  realize_all-IsOpened m ((v, u) ∷ rest) c h = (
    (λ e f n.
        realize_all-holds m rest (instance_of steps history_length u)
          (realize_entry steps history_length (find v.timeline m) u c)
          (realize_entry-new (find v.timeline m) u c h e f n)),
    realize_all-IsOpened m rest (realize_entry steps history_length (find v.timeline m) u c)
        (realize_entry-IsPlaced (find v.timeline m) u c h),
  )

  nothing-IsOpened :
      (ps : List (Variable × UpdatePattern P)) (c : Center P S) → All (IsOpened [] c) ps
  unfolding find
  nothing-IsOpened [] c = tt
  nothing-IsOpened (p ∷ rest) c = ((λ e f n. ground arith), nothing-IsOpened rest c)

  both-IsOpened :
      (m : List (String × ℕ)) (ps : List (Variable × UpdatePattern P)) (c : Center P S)
      → IsPlaced steps c
      → All (IsOpened m (if is_empty m then c else realize_all steps history_length m ps c)) ps
  both-IsOpened [] ps c h = nothing-IsOpened ps c
  both-IsOpened (x ∷ m) ps c h = realize_all-IsOpened (x ∷ m) ps c h

  count-is_first :
      (ps : List (Variable × UpdatePattern P)) (n : ℕ) (v : Variable) (u : UpdatePattern P)
      → get_elem? ps n ≡ some (v, u)
      → feasible steps history_length u ≡ true
      → 0 < count (is_first steps history_length v.timeline (history_length u.res)) ps
  count-is_first [] n v u h f = ground arith
  count-is_first (p ∷ rest) zero v u h f = ground (
    arith,
    h,
    f,
    name_Eq.beq_iff v.timeline v.timeline,
    ==_iff (history_length u.res) (history_length u.res),
  )
  count-is_first (p ∷ rest) (suc n) v u h f = ground (arith, count-is_first rest n v u h f)

  -- The time step of a pattern that is realized answers that it has the instance.
  pub realize_patterns-holds :
      (c : Center P S) (n : ℕ) (v : Variable) (u : UpdatePattern P)
      → IsPlaced steps c
      → get_elem? c.patterns n ≡ some (v, u)
      → count (is_before steps history_length v.timeline (history_length u.res)) c.patterns ≡ 0
      → feasible steps history_length u ≡ true
      → is_some (update_at u (history_length u.res)) ≡ true
      → holds steps
          (instance_of steps history_length u)
          (unprotected_realize_patterns steps history_length c)
        ≡ true
  unfolding unprotected_realize_patterns
  realize_patterns-holds c n v u h p b f =
      let first = count-is_first c.patterns n v u p f in
      All-get_elem?
        (IsOpened (earliest steps history_length c.patterns [])
          (unprotected_realize_patterns steps history_length c))
        c.patterns n (v, u)
        (both-IsOpened (earliest steps history_length c.patterns []) c.patterns c h) p
        (first-earliest steps history_length c.patterns v.timeline (history_length u.res) b first) f
