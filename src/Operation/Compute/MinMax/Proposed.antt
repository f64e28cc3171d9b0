-- ===== src/Operation/Compute/MinMax/Proposed.antt =====
-- cxsom/src/cxsomOperation.hpp: what `MinMax` leaves in the result.
use cxsom.Prelude.{
  ℕ, ◌≡◌, refl, ap, ◌∙◌, Bool, true, false, Option, some, List, [], ◌∷◌, if◌then◌else◌, arith,
}
use cxsom.Symbol
use cxsom.Data.{is_ready}
use cxsom.Data.Instance.{Cell, Files, Memory}
use cxsom.Update.{InArg, OutArg, Base}
use cxsom.Update.Exec.{exec, skips}
use cxsom.Update.Exec.Result.{passes}
use cxsom.Types.Values.{Value}
use cxsom.Operation.Compute.{Doubles, hooks, scalar_of, written}
use cxsom.Operation.Compute.Running.{reads, computed, in_values, out_values, begun, exec-computed}
use cxsom.Operation.Compute.MinMax.{
  Members, init, update, operation, on_read_out_arg, on_read_in_arg, on_write_result,
}

scalar_of-set :
    {D : Type 0} (v : Value D) (r p : D)
    → scalar_of v ≡ some r
    → scalar_of (record v { content = p ∷ [] }) ≡ some p
scalar_of-set v r p h = ground arith

-- Values that are scalars, and their doubles.
abbrev pub AreScalars : {D : Type 0} → List (ℕ × Value D) → List D → Type 0
AreScalars [] [] = Unit
AreScalars ((n, v) ∷ rest) (x ∷ xs) = (scalar_of v ≡ some x) × AreScalars rest xs
AreScalars _ _ = ⊥

module _ {D : Type 0} (doubles : Doubles D) (is_min : Bool) where
  -- The first of a list that no other one is better than.
  abbrev pub best : D → List D → D
  best x [] = x
  best x (y ∷ ys) = best (update doubles is_min x y) ys

  reads-out :
      (args : List (ℕ × Value D)) (xs : List D) (s : Members D)
      → AreScalars args xs
      → reads (on_read_out_arg doubles is_min) args s
        ≡ some (record s { value_out = best s.value_out xs })
  unfolding on_read_out_arg
  reads-out [] [] s h = refl
  reads-out [] (x ∷ xs) s h = absurd h
  reads-out ((n, v) ∷ rest) [] s h = absurd h
  reads-out ((n, v) ∷ rest) (x ∷ xs) s h =
      let s' = record s { value_out = update doubles is_min s.value_out x } in
      rw h.0 (reads-out rest xs s' h.1)

  reads-in :
      (args : List (ℕ × Value D)) (xs : List D) (s : Members D)
      → AreScalars args xs
      → reads (on_read_in_arg doubles is_min) args s
        ≡ some (record s { value_in = best s.value_in xs })
  unfolding on_read_in_arg
  reads-in [] [] s h = refl
  reads-in [] (x ∷ xs) s h = absurd h
  reads-in ((n, v) ∷ rest) [] s h = absurd h
  reads-in ((n, v) ∷ rest) (x ∷ xs) s h =
      let s' = record s { value_in = update doubles is_min s.value_in x } in
      rw h.0 (reads-in rest xs s' h.1)

  -- What is known of the out-arguments when the result is written: nothing, if they have been read
  -- by an execution before.
  abbrev pub from_outs : Bool → List D → D
  from_outs known ys = if known then init doubles is_min else best (init doubles is_min) ys

  -- What the result is set to.
  abbrev pub proposed : Bool → List D → List D → D
  proposed known xs ys = update doubles is_min (best (init doubles is_min) xs) (from_outs known ys)

  computed-proposed :
      (epsilon : D) (known : Bool) (cell : Symbol.Instance → Cell (Value D)) (outs : List OutArg)
      (ins : List InArg) (v : Value D) (s : Members D) (r : D) (xs ys : List D)
      → scalar_of v ≡ some r
      → AreScalars (in_values cell ins) xs
      → AreScalars (out_values cell outs) ys
      → let p = proposed known xs ys in
        computed (operation doubles is_min epsilon) known cell outs ins v s
        ≡ some (
          doubles.less epsilon (doubles.fabs (doubles.sub r p)),
          record v { content = p ∷ [] },
          record { value_out = from_outs known ys; value_in = init doubles is_min },
        )
  unfolding on_write_result
  computed-proposed epsilon true cell outs ins v s r xs ys h k l =
      let t : Members D = record {
        value_out = init doubles is_min;
        value_in = init doubles is_min;
      } in
      rw (reads-in (in_values cell ins) xs t k) (rw h refl)
  computed-proposed epsilon false cell outs ins v s r xs ys h k l =
      let t : Members D = record {
        value_out = init doubles is_min;
        value_in = init doubles is_min;
      } in
      rw (reads-out (out_values cell outs) ys t l) (
        rw
          (reads-in (in_values cell ins) xs (record t { value_out = best (init doubles is_min) ys })
            k)
          (rw h refl))

  -- An execution of `min` or `max` that neither finds the result ready, nor waits for an
  -- out-argument, nor skips, sets the result to the best of the in-arguments and, only if this is the
  -- first execution that reads them, of the out-arguments. An execution that comes after it sets the
  -- result to the best of the in-arguments alone.
  pub exec-proposed :
      {M : Type 0} (files : Files (Value D) M) (epsilon : D) (u : Base (Option (Members D)))
      (m : Memory (Value D) M) (s : Members D) (r : D) (xs ys : List D)
      → u.self ≡ some s
      → is_ready (m.cell u.result.who).status ≡ false
      → passes files (hooks (operation doubles is_min epsilon)) u m ≡ true
      → skips
          (hooks (operation doubles is_min epsilon))
          files
          (begun (operation doubles is_min epsilon) files u.out_ok u m)
          m
        ≡ false
      → scalar_of (m.cell u.result.who).content ≡ some r
      → AreScalars (in_values m.cell u.args_in) xs
      → AreScalars (out_values m.cell u.args_out) ys
      → scalar_of
          ((exec (hooks (operation doubles is_min epsilon)) files u m).memory.cell
            u.result.who).content
        ≡ some (proposed u.out_ok xs ys)
  exec-proposed files epsilon u m s r xs ys e b p h k l o =
      let op = operation doubles is_min epsilon in
      let v = (m.cell u.result.who).content in
      let c = computed-proposed epsilon u.out_ok m.cell u.args_out u.args_in v s r xs ys k l o in
      ap scalar_of ((exec-computed op files u m s e b p h).0 ∙ ap (λ x. (written v x).1) c)
      ∙ scalar_of-set v r (proposed u.out_ok xs ys) k
