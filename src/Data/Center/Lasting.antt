-- ===== src/Data/Center/Lasting.antt =====
-- cxsom/src/cxsomVariable.hpp: the calls of the centre, in any order. The type of a variable lasts.
use cxsom.Prelude.{
  ℕ, ◌≡◌, refl, if◌then◌else◌, Option, none, some, List, [], find, store, inl, inr, Eq, ◌=?◌, arith,
  Option-cases, Result-cases,
}
use cxsom.Symbol.{variable_Eq}
use cxsom.Symbol
use cxsom.Data.{Availability}
use cxsom.Data.File.{Disk, realize}
use cxsom.Data.Variable.{Variable, instance_at, declare_ready, clean_up}
use cxsom.Data.Variable
use cxsom.Data.Center.{
  Center, construct, get_var, check_all, clear, get_instance, type_of, history_length, check,
}
use cxsom.Data.Center.Methods.{Kept, declare_ready-Kept, sync_variable-Kept}
use cxsom.Data.Center.Typing.{
  kind_of, IsKnown, Keeps, Keeps-change, get_var-Opened, Opened-Keeps, Opened-find, Keeps-trans,
  check_all-Keeps, history_length-Keeps, get_instance-Keeps, check-Keeps, clear-Keeps,
}

module _ {T D : Type 0} ⦃e : Eq T⦄ (zeros : Option T → D) where
  -- The calls of the centre, those of its instances on their variables, and the files that others make.
  pub data Step : Center T D → Center T D → Type 0 where
    checks :
        (v : Symbol.Variable) (t : T) (cache size : Option ℕ) (c c' : Center T D)
        → check zeros v t cache size c ≡ inr c'
        → Step c c'
    lists :
        (vs : List Symbol.Variable) (c c' : Center T D) → check_all zeros vs c ≡ inr c' → Step c c'
    gets :
        (uses : ℕ → ℕ) (i : Symbol.Instance) (r : ℕ) (c c' : Center T D)
        → get_instance zeros uses i c ≡ inr (r, c')
        → Step c c'
    asks_type :
        (v : Symbol.Variable) (t : Option T) (c c' : Center T D)
        → type_of zeros v c ≡ inr (t, c')
        → Step c c'
    asks_length :
        (v : Symbol.Variable) (n : ℕ) (c c' : Center T D)
        → history_length zeros v c ≡ inr (n, c')
        → Step c c'
    clears : (c : Center T D) → Step c (clear zeros c)
    declares :
        (v : Symbol.Variable) (z : D) (at : ℕ) (d : D) (x y : Variable T D) (c : Center T D)
        → find v c.variables ≡ some x
        → declare_ready z at d x ≡ inr y
        → Step c (record c { variables = store v y c.variables })
    syncs :
        (v : Symbol.Variable) (at : ℕ) (a : Availability) (d : Option D) (x y : Variable T D)
        (c : Center T D)
        → find v c.variables ≡ some x
        → Variable.sync at x ≡ inr (a, d, y)
        → Step c (record c { variables = store v y c.variables })
    cleans :
        (v : Symbol.Variable) (uses : ℕ → ℕ) (x : Variable T D) (c : Center T D)
        → find v c.variables ≡ some x
        → Step c (record c { variables = store v (clean_up uses x) c.variables })
    others :
        (v : Symbol.Variable) (d : Disk T D) (c : Center T D)
        → c.files v ≡ none
        → Step c (record c { files = λ w. if v =? w then some d else c.files w })

  pub data Reach (c : Center T D) : Center T D → Type 0 where
    here : Reach c c
    next : {a b : Center T D} → Reach c a → Step a b → Reach c b

  clean_up-Kept : (uses : ℕ → ℕ) (x : Variable T D) → Kept x (clean_up uses x)
  unfolding clean_up
  clean_up-Kept uses x = (refl, refl)

  Step-Keeps : {c c' : Center T D} → Step c c' → IsKnown c → Keeps zeros c c'
  unfolding type_of
  Step-Keeps (checks v t cache size c c' h) k = check-Keeps zeros v t cache size c c' k h
  Step-Keeps (lists vs c c' h) k = check_all-Keeps zeros vs c c' k h
  Step-Keeps (gets uses i r c c' h) k = get_instance-Keeps zeros uses i r c c' k h
  Step-Keeps (asks_type v t c c' h) k = elim (Result-cases (get_var zeros v c)) [
    | inl (_, e) ↦ ground arith
    | inr ((x, b), e) ↦ Opened-Keeps zeros v c x c' k (get_var-Opened zeros v c x c' (ground arith))
  ]
  Step-Keeps (asks_length v n c c' h) k = history_length-Keeps zeros v n c c' k h
  Step-Keeps (clears c) k = clear-Keeps zeros c k
  Step-Keeps (declares v z at d x y c f h) k =
      Keeps-change zeros v x y c k f (declare_ready-Kept z at d x y h)
  Step-Keeps (syncs v at a d x y c f h) k =
      Keeps-change zeros v x y c k f (sync_variable-Kept at x y a d h)
  Step-Keeps (cleans v uses x c f) k =
      Keeps-change zeros v x (clean_up uses x) c k f (clean_up-Kept uses x)
  Step-Keeps (others v d c f) k = (k, λ w t h. ground (arith, variable_Eq.beq_iff v w))

  pub Reach-Keeps : {c c' : Center T D} → Reach c c' → IsKnown c → Keeps zeros c c'
  Reach-Keeps here k = (k, λ w t h. h)
  Reach-Keeps {c} {c'} (next {a} r s) k =
      Keeps-trans zeros c a c' (Reach-Keeps r k) (λ ka. Step-Keeps s ka)

  -- The centre when it is made: nothing is opened, and the files are those of the root directory.
  abbrev pub made : (Symbol.Variable → Option (Disk T D)) → Center T D
  made files = record { variables = []; files = files }

  pub made-IsKnown : (files : Symbol.Variable → Option (Disk T D)) → IsKnown (made files)
  unfolding find
  made-IsKnown files v x h = ground arith

  -- A file that is there can be opened.
  construct-found :
      (d : Disk T D)
      → (x : Variable T D) × (construct zeros none none none (some d) ≡ inr x)
        × (x.file.file.type ≡ some d.type)
  unfolding construct realize
  construct-found d = (_, refl, refl)

  -- The type that `type_of` gives is that of the disk.
  type_of-kind_of :
      (v : Symbol.Variable) (t : T) (c : Center T D)
      → IsKnown c
      → kind_of v c ≡ some t
      → (b : Center T D) × (type_of zeros v c ≡ inr (some t, b))
  unfolding type_of get_var
  type_of-kind_of v t c k g = elim (Option-cases (find v c.variables)) [
    | inr (x, e) ↦ (c, let q = k v x e in ground arith)
    | inl e ↦ elim (Option-cases (c.files v)) [
      | inl q ↦ ground arith
      | inr (d, q) ↦
          let (x, m, n) = construct-found d in
          (record c { variables = store v x c.variables }, ground arith)
    ]
  ]

  kind_of-type_of :
      (v : Symbol.Variable) (t : T) (c b : Center T D)
      → IsKnown c
      → type_of zeros v c ≡ inr (some t, b)
      → IsKnown b × (kind_of v b ≡ some t)
  unfolding type_of
  kind_of-type_of v t c b k h = elim (Result-cases (get_var zeros v c)) [
    | inl (_, e) ↦ ground arith
    | inr ((x, c'), e) ↦
        let o = get_var-Opened zeros v c x c' e in
        let (kb, _) = Opened-Keeps zeros v c x c' k o in
        let f = Opened-find zeros v c x c' o in
        let i = kb v x f in let q : b ≡ c' = ground arith in rw q (kb, ground arith)
  ]

  -- From the making of the centre on: once `type_of` has given the type of a variable, it gives the same
  -- type after any other calls, those of `clear` and those of the instances included.
  pub type_of-type_of :
      (files : Symbol.Variable → Option (Disk T D)) (c b c' : Center T D) (v : Symbol.Variable)
      (t : T)
      → Reach (made files) c
      → type_of zeros v c ≡ inr (some t, b)
      → Reach b c'
      → (a : Center T D) × (type_of zeros v c' ≡ inr (some t, a))
  type_of-type_of files c b c' v t r h s =
      let (k, _) = Reach-Keeps r (made-IsKnown files) in
      let (kb, g) = kind_of-type_of v t c b k h in
      let (k', f) = Reach-Keeps s kb in type_of-kind_of v t c' k' (f v t g)
