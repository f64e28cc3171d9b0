-- ===== src/Operation/Compute/Running.antt =====
-- cxsom/src/cxsomUpdate.hpp and cxsomOperation.hpp: what an execution computes with an operation.
use cxsom.Prelude.{
  ℕ, ◌≡◌, refl, sym, ap, subst, ◌∙◌, Bool, true, false, ◌&&◌, ◌||◌, Option, none, some, ◌>>=◌, List,
  [], ◌∷◌, map, if◌then◌else◌, arith, Option-cases, Bool-cases, inl, inr,
}
use cxsom.Symbol
use cxsom.Symbol.{instance_Eq, instance_eq_iff}
use cxsom.Data.{is_ready}
use cxsom.Data.Instance.{Cell, Files, Memory, set}
use cxsom.Update.{InArg, OutArg, Res, Base, note_in_arg, notify_datation, u32, init_in_arg_date}
use cxsom.Update.Exec.{
  Run, read_outs, read_ins, write_result, compute, inspect_outs, exec, after_ins, skips, after_outs,
  started,
}
use cxsom.Update.Exec.Result.{outs_ready, passes, read_ins-rest, after_outs-ok}
use cxsom.Operation.Compute.{Operation, hooks, written}

-- Arguments that are read one after the other.
abbrev pub reads : {F V : Type 0} → (ℕ → V → F → Option F) → List (ℕ × V) → F → Option F
reads f [] s = some s
reads f ((n, v) ∷ rest) s = f n v s >>= reads f rest

abbrev pub out_values : {V : Type 0} → (Symbol.Instance → Cell V) → List OutArg → List (ℕ × V)
out_values cell args = map (λ a. (a.arg_number, (cell a.who).content)) args

abbrev pub in_values : {V : Type 0} → (Symbol.Instance → Cell V) → List InArg → List (ℕ × V)
in_values cell args = map (λ a. (a.arg_number, (cell a.who).content)) args

pub bind_assoc :
    {A B C : Type 0} (o : Option A) (f : A → Option B) (g : B → Option C)
    → ((o >>= f) >>= g) ≡ (o >>= λ a. f a >>= g)
bind_assoc none f g = refl
bind_assoc (some a) f g = refl

module _ {F V : Type 0} (op : Operation F V) where
  -- What an execution computes: the out-arguments are read only the first time.
  abbrev pub computed :
      Bool → (Symbol.Instance → Cell V) → List OutArg → List InArg → V → F → Option (Bool × V × F)
  computed known cell outs ins v s = do
    s1 ←
        if known
        then some (op.on_computation_start s)
        else reads op.on_read_out_arg (out_values cell outs) (op.on_computation_start s)
    s2 ← reads op.on_read_in_arg (in_values cell ins) s1
    op.on_write_result v s2

  read_outs-none :
      (cell : Symbol.Instance → Cell V) (args : List OutArg) (ok : Bool)
      → (read_outs (hooks op) cell args ok none).self ≡ none
  unfolding read_outs hooks
  read_outs-none cell [] ok = refl
  read_outs-none cell (a ∷ rest) ok =
      ground (arith, read_outs-none cell rest (is_ready (cell a.who).status && ok))

  read_outs-reads :
      (cell : Symbol.Instance → Cell V) (args : List OutArg) (s : F)
      → outs_ready cell args ≡ true
      → (read_outs (hooks op) cell args true (some s)).self
        ≡ reads op.on_read_out_arg (out_values cell args) s
  unfolding read_outs hooks
  read_outs-reads cell [] s h = refl
  read_outs-reads cell (a ∷ rest) s h =
      elim (Option-cases (op.on_read_out_arg a.arg_number (cell a.who).content s)) [
        | inl n ↦ ground (arith, n, read_outs-none cell rest true)
        | inr (t, e) ↦ ground (arith, e, read_outs-reads cell rest t)
      ]

  read_ins-none :
      (cell : Symbol.Instance → Cell V) (args : List InArg) (r : Res)
      → (read_ins (hooks op) cell args r none).self ≡ none
  unfolding read_ins hooks
  read_ins-none cell [] r = refl
  read_ins-none cell (a ∷ rest) r =
      let c = cell a.who in
      read_ins-none cell rest (note_in_arg r (notify_datation a c.status (u32 c.datation)))

  read_ins-reads :
      (cell : Symbol.Instance → Cell V) (args : List InArg) (r : Res) (s : F)
      → (read_ins (hooks op) cell args r (some s)).self
        ≡ reads op.on_read_in_arg (in_values cell args) s
  unfolding read_ins hooks
  read_ins-reads cell [] r s = refl
  read_ins-reads cell (a ∷ rest) r s =
      let c = cell a.who in
      let r' = note_in_arg r (notify_datation a c.status (u32 c.datation)) in
      elim (Option-cases (op.on_read_in_arg a.arg_number c.content s)) [
        | inl n ↦ ground (arith, n, read_ins-none cell rest r')
        | inr (t, e) ↦ ground (arith, e, read_ins-reads cell rest r' t)
      ]

  read_ins-self :
      (cell : Symbol.Instance → Cell V) (args : List InArg) (r : Res) (f : Option F)
      → (read_ins (hooks op) cell args r f).self
        ≡ (f >>= reads op.on_read_in_arg (in_values cell args))
  read_ins-self cell args r none = read_ins-none cell args r
  read_ins-self cell args r (some s) = read_ins-reads cell args r s

  module _ {M : Type 0} (files : Files V M) where
    -- The update once its out-arguments are known.
    abbrev pub begun : Bool → Base (Option F) → Memory V M → Base (Option F)
    begun known u m =
        let v = started (hooks op) files u in if known then v else after_outs (hooks op) files v m

    started-self :
        (u : Base (Option F)) (s : F)
        → u.self ≡ some s
        → (started (hooks op) files u).self ≡ some (op.on_computation_start s)
    unfolding hooks
    started-self u s e = ap (λ f. f >>= λ s'. some (op.on_computation_start s')) e

    -- The result that is left, and the members of the subclass.
    abbrev pub Leaves : Run (Option F) V M → Symbol.Instance → Option (Bool × V × F) → V → Type 0
    Leaves r w outcome v =
        let left = written v outcome in
        ((r.memory.cell w).content ≡ left.1) × (r.self.self ≡ left.2)

    write_result-Leaves :
        (u : Base (Option F)) (m : Memory V M)
        → let v = (m.cell u.result.who).content in
          Leaves
            (write_result (hooks op) files u m)
            u.result.who
            (u.self >>= op.on_write_result v)
            v
    unfolding write_result set hooks
    write_result-Leaves u m = ground (arith, instance_eq_iff u.result.who u.result.who)

    compute-Leaves :
        (u : Base (Option F)) (m : Memory V M)
        → skips (hooks op) files u m ≡ false
        → let v = (m.cell u.result.who).content in
          Leaves
            (compute (hooks op) files u m)
            u.result.who
            ((u.self >>= reads op.on_read_in_arg (in_values m.cell u.args_in))
              >>= op.on_write_result v)
            v
    unfolding compute
    compute-Leaves u m h =
        let i = after_ins (hooks op) files u m in
        let q : compute (hooks op) files u m ≡ write_result (hooks op) files i m = rw h refl in
        let same =
          (read_ins-rest (hooks op) m.cell u.args_in (init_in_arg_date u.result) u.self).0 in
        let self = read_ins-self m.cell u.args_in (init_in_arg_date u.result) u.self in
        subst
          (λ r.
            Leaves r u.result.who
              ((u.self >>= reads op.on_read_in_arg (in_values m.cell u.args_in))
                >>= op.on_write_result (m.cell u.result.who).content)
              (m.cell u.result.who).content)
          (sym q)
          (subst
            (λ w.
              Leaves (write_result (hooks op) files i m) w
                ((u.self >>= reads op.on_read_in_arg (in_values m.cell u.args_in))
                  >>= op.on_write_result (m.cell w).content)
                (m.cell w).content)
            same
            (subst
              (λ f.
                Leaves (write_result (hooks op) files i m) i.result.who
                  (f >>= op.on_write_result (m.cell i.result.who).content)
                  (m.cell i.result.who).content)
              self (write_result-Leaves i m)))

    exec-begun :
        (u : Base (Option F)) (m : Memory V M)
        → is_ready (m.cell u.result.who).status ≡ false
        → passes files (hooks op) u m ≡ true
        → exec (hooks op) files u m ≡ compute (hooks op) files (begun u.out_ok u m) m
    unfolding exec inspect_outs
    exec-begun u m b p = elim (Bool-cases u.out_ok) [
      | inl o ↦ rw b (rw o refl)
      | inr o ↦
          let v = started (hooks op) files u in
          let k : (after_outs (hooks op) files v m).out_ok ≡ true =
            after_outs-ok files (hooks op) v m ∙ ground arith in
          rw b (rw o (rw k refl))
    ]

    begun-Leaves :
        (known : Bool) (u : Base (Option F)) (m : Memory V M) (s : F)
        → u.self ≡ some s
        → (known || outs_ready m.cell u.args_out) ≡ true
        → skips (hooks op) files (begun known u m) m ≡ false
        → let v = (m.cell u.result.who).content in
          Leaves
            (compute (hooks op) files (begun known u m) m)
            u.result.who
            (computed known m.cell u.args_out u.args_in v s)
            v
    begun-Leaves true u m s e p h =
        let w = u.result.who in
        let v = (m.cell w).content in
        let t = started (hooks op) files u in
        subst
          (λ f.
            Leaves (compute (hooks op) files t m) w
              ((f >>= reads op.on_read_in_arg (in_values m.cell u.args_in))
                >>= op.on_write_result v)
              v)
          (started-self u s e) (compute-Leaves t m h)
    begun-Leaves false u m s e p h =
        let w = u.result.who in
        let v = (m.cell w).content in
        let t = after_outs (hooks op) files (started (hooks op) files u) m in
        let read =
          reads op.on_read_out_arg (out_values m.cell u.args_out) (op.on_computation_start s) in
        let self : t.self ≡ read =
          ap (λ f. (read_outs (hooks op) m.cell u.args_out true f).self) (started-self u s e)
          ∙ read_outs-reads m.cell u.args_out (op.on_computation_start s) p in
        subst (λ o. Leaves (compute (hooks op) files t m) w o v)
          (bind_assoc read (reads op.on_read_in_arg (in_values m.cell u.args_in))
            (op.on_write_result v))
          (subst
            (λ f.
              Leaves (compute (hooks op) files t m) w
                ((f >>= reads op.on_read_in_arg (in_values m.cell u.args_in))
                  >>= op.on_write_result v)
                v)
            self (compute-Leaves t m h))

    -- An execution that neither finds the result ready, nor waits for an out-argument, nor skips,
    -- leaves the content and the members that the operation computes from its members before, from the
    -- out-arguments if they have not been read by an execution before, and from the in-arguments.
    pub exec-computed :
        (u : Base (Option F)) (m : Memory V M) (s : F)
        → u.self ≡ some s
        → is_ready (m.cell u.result.who).status ≡ false
        → passes files (hooks op) u m ≡ true
        → skips (hooks op) files (begun u.out_ok u m) m ≡ false
        → let v = (m.cell u.result.who).content in
          Leaves
            (exec (hooks op) files u m)
            u.result.who
            (computed u.out_ok m.cell u.args_out u.args_in v s)
            v
    exec-computed u m s e b p h =
        let v = (m.cell u.result.who).content in
        subst (λ r. Leaves r u.result.who (computed u.out_ok m.cell u.args_out u.args_in v s) v)
          (sym (exec-begun u m b p)) (begun-Leaves u.out_ok u m s e p h)
