-- ===== src/Job/Realizing.antt =====
-- cxsom/src/cxsomJobs.hpp: which time steps and instances the realization of the patterns opens.
use cxsom.Prelude.{
  ℕ, ltb, min, String, Bool, true, false, ◌&&◌, if◌then◌else◌, ◌==◌, ==_iff, ◌≤◌, ◌<◌, Option, none,
  some, List, [], ◌∷◌, ◌≡◌, ◌≢◌, ◌=?◌, find, store, find-store, All, arith, refl, Option-cases, ◌⊎◌,
  inl, inr, count, ap, ◌∙◌,
}
use cxsom.Symbol.{
  Variable, TimeStep, name_Eq, variable_Eq, time_step_Eq, time_step_of, name_eq, time_step_eq_iff,
}
use cxsom.Job.{Update, UpdatePattern, update_at}
use cxsom.Job.Center.{
  Steps, Center, check_and_get, put_update, instance_of, add_pattern, feasible, note_date,
  note_pattern, earliest, realize_entry, unprotected_realize, realize_all,
  unprotected_realize_patterns,
}

note_date-find :
    (t tl : String) (at : ℕ) (m : List (String × ℕ))
    → find tl (note_date t at m) ≡ (
        if t =? tl
        then some (elim (find tl m) [ none ↦ at | some first ↦ min first at ])
        else find tl m)
unfolding note_date
note_date-find t tl at m = elim (Option-cases (find t m)) [
  | inl e ↦ ground (arith, find-store t tl at m, name_Eq.beq_iff t tl)
  | inr (b, e) ↦ ground (arith, find-store t tl (min b at) m, name_Eq.beq_iff t tl)
]

module _ {P S : Type 0} (steps : Steps P S) (history_length : Variable → ℕ) where
  pub update_at-res :
      (u : UpdatePattern P) (r : ℕ) (x : Update P)
      → update_at u r ≡ some x
      → x.res ≡ record { variable = u.res; at = r }
  unfolding update_at
  update_at-res u r x e = ground arith

  pub check_and_get-find :
      (k ts : TimeStep) (c : Center P S)
      → find ts (check_and_get steps history_length k c).1.timesteps
        ≡ (if k =? ts then some (check_and_get steps history_length k c).0 else find ts c.timesteps)
  unfolding check_and_get
  check_and_get-find k ts c = elim (Option-cases (find k c.timesteps)) [
    | inl e ↦ ground (arith, find-store k ts (steps.make k) c.timesteps)
    | inr (b, e) ↦ ground (arith, time_step_eq_iff k ts)
  ]

  pub put_update-find :
      (o : Option (Update P)) (k ts : TimeStep) (s : S) (c : Center P S)
      → (k =? ts) ≡ false
      → find ts (put_update steps history_length o k s c).timesteps ≡ find ts c.timesteps
  unfolding put_update
  put_update-find none k ts s c h = refl
  put_update-find (some x) k ts s c h =
      ground (arith, find-store k ts (steps.add_update x s) c.timesteps)

  pub unprotected_realize-find :
      (u : UpdatePattern P) (first : ℕ) (ts : TimeStep) (c : Center P S)
      → (name_eq u.res.timeline ts.timeline && first == ts.at) ≡ false
      → find ts (unprotected_realize steps history_length u first c).timesteps ≡ find ts c.timesteps
  unfolding unprotected_realize
  unprotected_realize-find u first ts c h = ground (
    arith,
    check_and_get-find (time_step_of (instance_of steps history_length u)) ts c,
    put_update-find (update_at u (history_length u.res))
        (time_step_of (instance_of steps history_length u)) ts
        (check_and_get steps history_length (time_step_of (instance_of steps history_length u)) c).0
        (check_and_get steps history_length (time_step_of (instance_of steps history_length u))
          c).1,
  )

  -- A pattern stands under the variable that it updates, as `operator+=` puts it.
  abbrev pub IsKeyed : Variable × UpdatePattern P → Type 0
  IsKeyed p = p.0 ≡ p.1.res

  -- A timeline has no feasible update before a date.
  abbrev IsBound : String → ℕ → Variable × UpdatePattern P → Type 0
  IsBound timeline first p =
      name_eq p.0.timeline timeline ≡ true
      → feasible steps history_length p.1 ≡ true
      → first ≤ history_length p.1.res

  -- A feasible update of a timeline at a date.
  abbrev pub is_first : String → ℕ → Variable × UpdatePattern P → Bool
  is_first timeline first p =
      name_eq p.0.timeline timeline
      && (feasible steps history_length p.1 && history_length p.1.res == first)

  note_pattern-find :
      (v : Variable) (u : UpdatePattern P) (m : List (String × ℕ)) (tl : String)
      → find tl (note_pattern steps history_length v u m) ≡ (
          if feasible steps history_length u && name_eq v.timeline tl
          then some (elim (find tl m) [
            | none ↦ history_length u.res
            | some first ↦ min first (history_length u.res)
          ])
          else find tl m)
  unfolding note_pattern
  note_pattern-find v u m tl = ground (arith, note_date-find v.timeline tl (history_length u.res) m)

  earliest-lower :
      (ps : List (Variable × UpdatePattern P)) (m : List (String × ℕ)) (tl : String) (k j : ℕ)
      → find tl (earliest steps history_length ps m) ≡ some k
      → find tl m ≡ some j
      → k ≤ j
  unfolding earliest
  earliest-lower [] m tl k j e f = ground arith
  earliest-lower ((v, u) ∷ rest) m tl k j e f =
      elim (Option-cases (find tl (note_pattern steps history_length v u m))) [
        | inl g ↦ ground (arith, note_pattern-find v u m tl)
        | inr (i, g) ↦ ground (
          arith,
          note_pattern-find v u m tl,
          earliest-lower rest (note_pattern steps history_length v u m) tl k i e g,
        )
      ]

  earliest-IsBound :
      (ps : List (Variable × UpdatePattern P)) (m : List (String × ℕ)) (tl : String) (k : ℕ)
      → find tl (earliest steps history_length ps m) ≡ some k
      → All (IsBound tl k) ps
  unfolding earliest
  earliest-IsBound [] m tl k e = tt
  earliest-IsBound ((v, u) ∷ rest) m tl k e = (
    (λ h f. elim (Option-cases (find tl (note_pattern steps history_length v u m))) [
      | inl g ↦ ground (arith, note_pattern-find v u m tl)
      | inr (i, g) ↦ ground (
        arith,
        note_pattern-find v u m tl,
        earliest-lower rest (note_pattern steps history_length v u m) tl k i e g,
      )
    ]),
    earliest-IsBound rest (note_pattern steps history_length v u m) tl k e,
  )

  earliest-is_first :
      (ps : List (Variable × UpdatePattern P)) (m : List (String × ℕ)) (tl : String) (k : ℕ)
      → find tl (earliest steps history_length ps m) ≡ some k
      → find tl m ≡ some k ⊎ 0 < count (is_first tl k) ps
  unfolding earliest
  earliest-is_first [] m tl k e = inl e
  earliest-is_first ((v, u) ∷ rest) m tl k e = ground (
    arith,
    note_pattern-find v u m tl,
    earliest-is_first rest (note_pattern steps history_length v u m) tl k e,
  )

  realize_entry-find :
      (o : Option ℕ) (u : UpdatePattern P) (ts : TimeStep) (c : Center P S)
      → (name_eq u.res.timeline ts.timeline ≡ true → o ≢ some ts.at)
      → find ts (realize_entry steps history_length o u c).timesteps ≡ find ts c.timesteps
  unfolding realize_entry
  realize_entry-find none u ts c h = refl
  realize_entry-find (some k) u ts c h =
      ground (arith, ==_iff k ts.at, unprotected_realize-find u k ts c)

  realize_all-find :
      (m : List (String × ℕ)) (ps : List (Variable × UpdatePattern P)) (ts : TimeStep)
      (c : Center P S)
      → All IsKeyed ps
      → find ts.timeline m ≢ some ts.at
      → find ts (realize_all steps history_length m ps c).timesteps ≡ find ts c.timesteps
  unfolding realize_all
  realize_all-find m [] ts c h n = refl
  realize_all-find m ((v, u) ∷ rest) ts c h n = ground (
    arith,
    name_Eq.beq_iff u.res.timeline ts.timeline,
    realize_entry-find (find v.timeline m) u ts c,
    realize_all-find m rest ts (realize_entry steps history_length (find v.timeline m) u c) h.1 n,
  )

  -- A feasible update of a timeline before a date.
  abbrev pub is_before : String → ℕ → Variable × UpdatePattern P → Bool
  is_before timeline first p =
      name_eq p.0.timeline timeline
      && (feasible steps history_length p.1 && ltb (history_length p.1.res) first)

  count-is_before :
      (ps : List (Variable × UpdatePattern P)) (tl : String) (k : ℕ)
      → All (IsBound tl k) ps
      → count (is_before tl k) ps ≡ 0
  count-is_before [] tl k h = refl
  count-is_before (p ∷ rest) tl k h = ground (arith, h.0, count-is_before rest tl k h.1)

  -- The date that is looked for: when a timeline has an earliest date, no feasible pattern of the
  -- timeline has an earlier date to compute, and at least one has this date.
  pub earliest-first :
      (ps : List (Variable × UpdatePattern P)) (tl : String) (k : ℕ)
      → find tl (earliest steps history_length ps []) ≡ some k
      → (count (is_before tl k) ps ≡ 0) × 0 < count (is_first tl k) ps
  unfolding find
  earliest-first ps tl k e = (
    count-is_before ps tl k (earliest-IsBound ps [] tl k e),
    ground (arith, earliest-is_first ps [] tl k e),
  )

  -- A date without feasible patterns before it is at most the date of a feasible pattern.
  is_before-is_first :
      (ps : List (Variable × UpdatePattern P)) (tl : String) (k j : ℕ)
      → count (is_before tl k) ps ≡ 0
      → 0 < count (is_first tl j) ps
      → k ≤ j
  is_before-is_first [] tl k j h l = absurd (omega arith)
  is_before-is_first (p ∷ rest) tl k j h l =
      ground (arith, ==_iff (history_length p.1.res) j, is_before-is_first rest tl k j)

  earliest-kept :
      (ps : List (Variable × UpdatePattern P)) (m : List (String × ℕ)) (tl : String) (j : ℕ)
      → find tl m ≡ some j
      → find tl (earliest steps history_length ps m) ≢ none
  unfolding earliest
  earliest-kept [] m tl j h e = ground arith
  earliest-kept ((v, u) ∷ rest) m tl j h e =
      elim (Option-cases (find tl (note_pattern steps history_length v u m))) [
        | inl g ↦ ground (arith, note_pattern-find v u m tl)
        | inr (i, g) ↦ earliest-kept rest (note_pattern steps history_length v u m) tl i g e
      ]

  earliest-noted :
      (ps : List (Variable × UpdatePattern P)) (m : List (String × ℕ)) (tl : String) (k : ℕ)
      → 0 < count (is_first tl k) ps
      → find tl (earliest steps history_length ps m) ≢ none
  unfolding earliest
  earliest-noted [] m tl k h e = ground arith
  earliest-noted ((v, u) ∷ rest) m tl k h e =
      let n = note_pattern steps history_length v u m in
      elim (Option-cases (find tl n)) [
        | inr (i, g) ↦ earliest-kept rest n tl i g e
        | inl g ↦ earliest-noted rest n tl k (ground (arith, h, g, note_pattern-find v u m tl)) e
      ]

  -- A date without feasible patterns before it, and with one at it, is the date that is looked for.
  pub first-earliest :
      (ps : List (Variable × UpdatePattern P)) (tl : String) (k : ℕ)
      → count (is_before tl k) ps ≡ 0
      → 0 < count (is_first tl k) ps
      → find tl (earliest steps history_length ps []) ≡ some k
  first-earliest ps tl k b f = elim (Option-cases (find tl (earliest steps history_length ps []))) [
    | inl e ↦ absurd (earliest-noted ps [] tl k f e)
    | inr (j, e) ↦
        let (b', f') = earliest-first ps tl j e in
        let q : j ≡ k =
          omega (arith, is_before-is_first ps tl k j b f', is_before-is_first ps tl j k b' f) in
        e ∙ ap some q
  ]

  -- The realization of the patterns, each under its variable, leaves a time step as it is, and makes
  -- none there, when its timeline has a feasible pattern with an earlier next date, or none whose next
  -- date is the date of the time step.
  pub realize_patterns-find :
      (c : Center P S) (ts : TimeStep)
      → All IsKeyed c.patterns
      → 0 < count (is_before ts.timeline ts.at) c.patterns
        ⊎ count (is_first ts.timeline ts.at) c.patterns ≡ 0
      → find ts (unprotected_realize_patterns steps history_length c).timesteps
        ≡ find ts c.timesteps
  unfolding unprotected_realize_patterns
  realize_patterns-find c ts h o =
      let n : find ts.timeline (earliest steps history_length c.patterns []) ≢ some ts.at =
        λ e. ground (arith, o, earliest-first c.patterns ts.timeline ts.at e) in
      ground
        (arith, realize_all-find (earliest steps history_length c.patterns []) c.patterns ts c h n)

  store-IsKeyed :
      (u : UpdatePattern P) (ps : List (Variable × UpdatePattern P))
      → All IsKeyed ps
      → All IsKeyed (store u.res u ps)
  unfolding store
  store-IsKeyed u [] h = (refl, tt)
  store-IsKeyed u ((v, w) ∷ rest) h =
      ground (arith, h.0, variable_Eq.beq_iff v u.res, store-IsKeyed u rest h.1)

  -- A pattern that is added stands under its variable, and so do the others.
  pub add_pattern-IsKeyed :
      (u : UpdatePattern P) (c : Center P S)
      → All IsKeyed c.patterns
      → All IsKeyed (add_pattern steps history_length u c).patterns
  add_pattern-IsKeyed u c h = store-IsKeyed u c.patterns h
