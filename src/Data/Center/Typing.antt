-- ===== src/Data/Center/Typing.antt =====
-- cxsom/src/cxsomVariable.hpp: the types of the variables of the centre, which each of its calls keeps.
use cxsom.Prelude.{
  ℕ, ◌≡◌, Option, none, some, List, [], ◌∷◌, find, store, find-store, ◌⊎◌, inl, inr, Eq, arith,
  Option-cases, Result-cases,
}
use cxsom.Symbol.{variable_Eq}
use cxsom.Symbol
use cxsom.Data.File.{Disk, realize}
use cxsom.Data.Variable.{Variable, instance_at, declare_ready, clean_up}
use cxsom.Data.Variable
use cxsom.Data.Center.{
  Center, construct, get_var, touch_var, check_all, clear, get_instance, history_length, check,
}
use cxsom.Data.Center.Methods.{Kept, instance_at-Kept, history_length-Kept}

-- The type of a variable on the disk, if it has a file.
abbrev pub kind_of : {T D : Type 0} → Symbol.Variable → Center T D → Option T
kind_of v c = elim (find v c.variables) [
  | some x ↦ some x.file.disk.type
  | none ↦ elim (c.files v) [ none ↦ none | some d ↦ some d.type ]
]

-- An opened variable knows the type of its file.
abbrev pub IsTyped : {T D : Type 0} → Variable T D → Type 0
IsTyped x = x.file.file.type ≡ some x.file.disk.type

abbrev pub IsKnown : {T D : Type 0} → Center T D → Type 0
IsKnown c = (v : Symbol.Variable) (x : _) → find v c.variables ≡ some x → IsTyped x

module _ {T D : Type 0} ⦃e : Eq T⦄ (zeros : Option T → D) where
  -- What one call after another does: the types that are known are right, and last.
  abbrev pub Keeps : Center T D → Center T D → Type 0
  Keeps c c' =
      IsKnown c' × ((w : Symbol.Variable) (t : T) → kind_of w c ≡ some t → kind_of w c' ≡ some t)

  construct-existing :
      (cache size : Option ℕ) (d : Disk T D) (x : Variable T D)
      → construct zeros none cache size (some d) ≡ inr x
      → IsTyped x × (x.file.disk.type ≡ d.type)
  unfolding construct realize
  construct-existing cache size d x h = ground arith

  construct-IsTyped :
      (t : T) (cache size : Option ℕ) (o : Option (Disk T D)) (x : Variable T D)
      → construct zeros (some t) cache size o ≡ inr x
      → IsTyped x × (x.file.disk.type ≡ t) × ((elim o [ none ↦ t | some d ↦ d.type ]) ≡ t)
  unfolding construct realize
  construct-IsTyped t cache size (some d) x h = ground (arith, e.beq_iff d.type t)
  construct-IsTyped t none size none x h = ground arith
  construct-IsTyped t (some c) none none x h = ground arith
  construct-IsTyped t (some c) (some n) none x h = ground arith

  -- A variable is put in the map: it is opened, or it has changed.
  Keeps-store :
      (v : Symbol.Variable) (x : Variable T D) (c : Center T D)
      → IsKnown c
      → IsTyped x
      → ((t : T) → kind_of v c ≡ some t → x.file.disk.type ≡ t)
      → Keeps c (record c { variables = store v x c.variables })
  Keeps-store v x c k i f = (
    λ w y h. ground (arith, find-store v w x c.variables, k w y, variable_Eq.beq_iff v w),
    λ w t h. ground (arith, find-store v w x c.variables, f t, variable_Eq.beq_iff v w),
  )

  pub Keeps-change :
      (v : Symbol.Variable) (x y : Variable T D) (c : Center T D)
      → IsKnown c
      → find v c.variables ≡ some x
      → Kept x y
      → Keeps c (record c { variables = store v y c.variables })
  Keeps-change v x y c k f s =
      Keeps-store v y c k (let i = k v x f in ground (arith, i)) (λ t h. ground arith)

  -- What `get_var` and `touch_var` do when they succeed.
  abbrev Opened : Symbol.Variable → Center T D → Variable T D → Center T D → Type 0
  Opened v c x c' =
      (find v c.variables ≡ some x) × (c' ≡ c)
      ⊎ ((d : Disk T D) × (find v c.variables ≡ none)
          × (c.files v ≡ some d)
          × (construct zeros none none none (some d) ≡ inr x)
          × (c' ≡ record c { variables = store v x c.variables }))

  pub get_var-Opened :
      (v : Symbol.Variable) (c : Center T D) (x : Variable T D) (c' : Center T D)
      → get_var zeros v c ≡ inr (x, c')
      → Opened v c x c'
  unfolding get_var
  get_var-Opened v c x c' h = elim (Option-cases (find v c.variables)) [
    | inr (y, e) ↦ inl (ground arith)
    | inl e ↦ elim (Option-cases (c.files v)) [
      | inl f ↦ ground arith
      | inr (d, f) ↦ elim (Result-cases (construct zeros none none none (some d))) [
        | inl (_, g) ↦ ground arith
        | inr (y, g) ↦ inr (d, e, f, ground arith, ground arith)
      ]
    ]
  ]

  touch_var-Opened :
      (v : Symbol.Variable) (c c' : Center T D)
      → touch_var zeros v c ≡ inr c'
      → (x : Variable T D) × Opened v c x c'
  unfolding touch_var
  touch_var-Opened v c c' h = elim (Option-cases (find v c.variables)) [
    | inr (y, e) ↦ (y, inl (e, ground arith))
    | inl e ↦ elim (Option-cases (c.files v)) [
      | inl f ↦ ground arith
      | inr (d, f) ↦ elim (Result-cases (construct zeros none none none (some d))) [
        | inl (_, g) ↦ ground arith
        | inr (y, g) ↦ (y, inr (d, e, f, g, ground arith))
      ]
    ]
  ]

  pub Opened-Keeps :
      (v : Symbol.Variable) (c : Center T D) (x : Variable T D) (c' : Center T D)
      → IsKnown c
      → Opened v c x c'
      → Keeps c c'
  Opened-Keeps v c x c' k (inl (f, e)) = rw e (k, λ w t h. h)
  Opened-Keeps v c x c' k (inr (d, f, g, h, e)) =
      let (i, j) = construct-existing none none d x h in
      rw e (Keeps-store v x c k i (λ t q. ground arith))

  pub Opened-find :
      (v : Symbol.Variable) (c : Center T D) (x : Variable T D) (c' : Center T D)
      → Opened v c x c'
      → find v c'.variables ≡ some x
  Opened-find v c x c' (inl (f, e)) = rw e f
  Opened-find v c x c' (inr (d, f, g, h, e)) =
      ground (arith, find-store v v x c.variables, variable_Eq.beq_iff v v)

  pub Keeps-trans : (a b c : Center T D) → Keeps a b → (IsKnown b → Keeps b c) → Keeps a c
  Keeps-trans a b c (k, f) g = let (k', f') = g k in (k', λ w t h. f' w t (f w t h))

  pub check_all-Keeps :
      (vs : List Symbol.Variable) (c c' : Center T D)
      → IsKnown c
      → check_all zeros vs c ≡ inr c'
      → Keeps c c'
  unfolding check_all
  check_all-Keeps [] c c' k h = let q : c' ≡ c = ground arith in rw q (k, λ w t g. g)
  check_all-Keeps (v ∷ rest) c c' k h = elim (Result-cases (touch_var zeros v c)) [
    | inl (_, e) ↦ ground arith
    | inr (b, e) ↦
        let (x, o) = touch_var-Opened v c b e in
        Keeps-trans c b c' (Opened-Keeps v c x b k o)
          (λ kb. check_all-Keeps rest b c' kb (ground arith))
  ]

  pub history_length-Keeps :
      (v : Symbol.Variable) (n : ℕ) (c c' : Center T D)
      → IsKnown c
      → history_length zeros v c ≡ inr (n, c')
      → Keeps c c'
  unfolding history_length
  history_length-Keeps v n c c' k h = elim (Result-cases (get_var zeros v c)) [
    | inl (_, e) ↦ ground arith
    | inr ((x, b), e) ↦ elim (Result-cases (Variable.history_length x)) [
      | inl (_, f) ↦ ground arith
      | inr ((m, y), f) ↦
          let o = get_var-Opened v c x b e in
          let q : c' ≡ record b { variables = store v y b.variables } = ground arith in
          Keeps-trans c b c' (Opened-Keeps v c x b k o) (λ kb.
            rw q (Keeps-change v x y b kb (Opened-find v c x b o) (history_length-Kept m x y f)))
    ]
  ]

  pub get_instance-Keeps :
      (uses : ℕ → ℕ) (i : Symbol.Instance) (r : ℕ) (c c' : Center T D)
      → IsKnown c
      → get_instance zeros uses i c ≡ inr (r, c')
      → Keeps c c'
  unfolding get_instance
  get_instance-Keeps uses i r c c' k h = elim (Option-cases (find i.variable c.variables)) [
    | inl e ↦ ground arith
    | inr (x, e) ↦ elim (Result-cases (instance_at (zeros x.file.file.type) uses i.at x)) [
      | inl (_, f) ↦ ground arith
      | inr ((s, y), f) ↦
          let q : c' ≡ record c { variables = store i.variable y c.variables } = ground arith in
          rw q (
            Keeps-change i.variable x y c k e
              (instance_at-Kept (zeros x.file.file.type) uses i.at s x y f))
    ]
  ]

  pub check-Keeps :
      (v : Symbol.Variable) (t : T) (cache size : Option ℕ) (c c' : Center T D)
      → IsKnown c
      → check zeros v t cache size c ≡ inr c'
      → Keeps c c'
  unfolding check
  check-Keeps v t cache size c c' k h = elim (Option-cases (find v c.variables)) [
    | inr (x, e) ↦ let q : c' ≡ c = ground arith in rw q (k, λ w s g. g)
    | inl e ↦ elim (Result-cases (construct zeros (some t) cache size (c.files v))) [
      | inl (_, f) ↦ ground arith
      | inr (x, f) ↦
          let (i, j, m) = construct-IsTyped t cache size (c.files v) x f in
          let q : c' ≡ record c { variables = store v x c.variables } = ground arith in
          rw q (Keeps-store v x c k i (λ s g. ground arith))
    ]
  ]

  pub clear-Keeps : (c : Center T D) → IsKnown c → Keeps c (clear zeros c)
  unfolding clear find
  clear-Keeps c k = (λ v x h. ground arith, λ w t h. ground arith)
