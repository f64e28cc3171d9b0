-- ===== src/Operation/Compute/Copy/Copied.antt =====
-- cxsom/src/cxsomOperation.hpp: a copy whose types are accepted leaves the argument in the result.
use cxsom.Prelude.{
  ℕ, zero, suc, ◌/◌, ◌≡◌, ◌↔◌, refl, sym, ap, ◌∙◌, Bool, true, false, ◌&&◌, Option, some, List, [],
  ◌∷◌, arith, length, Bool-cases, inl, inr,
}
use cxsom.Symbol
use cxsom.Data.{is_ready}
use cxsom.Data.Instance.{Cell, Files, Memory}
use cxsom.Update.{InArg, OutArg, Base}
use cxsom.Update.Exec.{exec, skips}
use cxsom.Update.Exec.Result.{passes}
use cxsom.Types.{byte_length, IsType}
use cxsom.Types.Values.{Value, take, overwrite, equal_front, read, write, is_equal}
use cxsom.Operation.Typing.{check_types_copy}
use cxsom.Operation.Sound.{type_eq-≡}
use cxsom.Operation.Compute.{Doubles, hooks, written}
use cxsom.Operation.Compute.Running.{computed, begun, exec-computed}
use cxsom.Operation.Compute.Copy.{
  Members, operation, on_read_out_arg, on_read_in_arg, on_write_result,
}

-- A value holds as many doubles as its type has bytes for.
abbrev pub IsStored : {D : Type 0} → Value D → Type 0
IsStored v = length v.content ≡ byte_length v.type / 8

module _ {D : Type 0} where
  take-length : (n : ℕ) (xs : List D) → length xs ≡ n → take n xs ≡ some xs
  unfolding take
  take-length zero [] h = refl
  take-length zero (x ∷ xs) h = absurd (ground arith)
  take-length (suc n) [] h = absurd (ground arith)
  take-length (suc n) (x ∷ xs) h = ground (arith, take-length n xs)

  overwrite-length :
      (n : ℕ) (buf xs : List D) → length buf ≡ n → length xs ≡ n → overwrite n buf xs ≡ some buf
  unfolding overwrite
  overwrite-length zero [] [] h k = refl
  overwrite-length zero (b ∷ buf) xs h k = absurd (ground arith)
  overwrite-length zero [] (x ∷ xs) h k = absurd (ground arith)
  overwrite-length (suc n) [] xs h k = absurd (ground arith)
  overwrite-length (suc n) (b ∷ buf) [] h k = absurd (ground arith)
  overwrite-length (suc n) (b ∷ buf) (x ∷ xs) h k = ground (arith, overwrite-length n buf xs)

  -- The bytes are compared as far as both go.
  equal_front_iff :
      (same : D → D → Bool)
      → ((x y : D) → (same x y ≡ true) ↔ (x ≡ y))
      → (n : ℕ) (buf xs : List D) → length buf ≡ n
      → length xs ≡ n
      → (b : Bool) × (equal_front same n buf xs ≡ some b) × ((b ≡ true) ↔ (xs ≡ buf))
  unfolding equal_front
  equal_front_iff same law zero [] [] h k = (true, refl, (λ _. refl, λ _. refl))
  equal_front_iff same law zero (b ∷ buf) xs h k = absurd (ground arith)
  equal_front_iff same law zero [] (x ∷ xs) h k = absurd (ground arith)
  equal_front_iff same law (suc n) [] xs h k = absurd (ground arith)
  equal_front_iff same law (suc n) (b ∷ buf) [] h k = absurd (ground arith)
  equal_front_iff same law (suc n) (b ∷ buf) (x ∷ xs) h k =
      let (r, e, i) = equal_front_iff same law n buf xs (ground arith) (ground arith) in
      (same x b && r, rw e refl, ground (arith, i, law x b))

  module _ (doubles : Doubles D) (law : (x y : D) → (doubles.same x y ≡ true) ↔ (x ≡ y)) where
    read-copied :
        (v w : Value D) → v.type ≡ w.type → IsStored v → IsStored w → read w.content v ≡ some w
    unfolding read
    read-copied v w t h k =
        let n : length w.content ≡ byte_length v.type / 8 =
          k ∙ ap (λ s. byte_length s / 8) (sym t) in
        let q : record v { content = w.content } ≡ w =
          ap (λ s. record { type = s; content = w.content }) t in
        rw (overwrite-length (byte_length v.type / 8) w.content v.content n h) (ap some q)

    -- The buffer is put into the result, whether it is compared before or not; no change is reported
    -- exactly if the argument is an in-argument and the result holds its content before.
    pub write_result-copied :
        (v w : Value D) (from_out : Bool)
        → v.type ≡ w.type
        → IsStored v
        → IsStored w
        → let s : Members D = record { buffer = w.content; from_out = from_out } in
          (b : Bool) × (on_write_result doubles v s ≡ some (b, w, s))
          × ((b ≡ false) ↔ ((from_out ≡ false) × (v.content ≡ w.content)))
    unfolding on_write_result is_equal
    write_result-copied v w true t h k = (true, rw (read-copied v w t h k) refl, ground arith)
    write_result-copied v w false t h k =
        let n : length w.content ≡ byte_length v.type / 8 =
          k ∙ ap (λ s. byte_length s / 8) (sym t) in
        let (r, e, i) =
          equal_front_iff doubles.same law (byte_length v.type / 8) w.content v.content n h in
        elim (Bool-cases r) [
          | inl q ↦
              let same : v ≡ w =
                ap (λ c. record v { content = c }) (i.0 q)
                ∙ ap (λ s. record { type = s; content = w.content }) t in
              let left : Members D = record { buffer = w.content; from_out = false } in
              (false, rw e (rw q (ap (λ x. some (false, x, left)) same)), ground (arith, i, q))
          | inr q ↦ (true, rw e (rw q (rw (read-copied v w t h k) refl)), ground (arith, i, q))
        ]

    pub write-stored : (w : Value D) → IsStored w → write w ≡ some w.content
    unfolding write
    write-stored w k = take-length (byte_length w.type / 8) w.content k

    -- The one argument is an out-argument that has not been read, or an in-argument.
    pub data IsArgument (cell : Symbol.Instance → Cell (Value D)) (w : Value D)
        : Bool → List OutArg → List InArg → Type 0 where
      from_outs : (a : OutArg) → (cell a.who).content ≡ w → IsArgument cell w false (a ∷ []) []
      from_ins :
          (known : Bool) (a : InArg)
          → (cell a.who).content ≡ w
          → IsArgument cell w known [] (a ∷ [])

    computed-copied :
        (known : Bool) (cell : Symbol.Instance → Cell (Value D)) (outs : List OutArg)
        (ins : List InArg) (v w : Value D) (s : Members D)
        → IsArgument cell w known outs ins
        → v.type ≡ w.type
        → IsStored v
        → IsStored w
        → (b : Bool) × (s' : Members D) × (computed (operation doubles) known cell outs ins v s
            ≡ some (b, w, s'))
    unfolding on_read_out_arg on_read_in_arg
    computed-copied _ cell _ _ v w s (IsArgument.from_outs a q) t h k =
        let (b, e, _) = write_result-copied v w true t h k in
        (b, record { buffer = w.content; from_out = true }, rw q (rw (write-stored w k) e))
    computed-copied _ cell _ _ v w s (IsArgument.from_ins true a q) t h k =
        let (b, e, _) = write_result-copied v w false t h k in
        (b, record { buffer = w.content; from_out = false }, rw q (rw (write-stored w k) e))
    computed-copied _ cell _ _ v w s (IsArgument.from_ins false a q) t h k =
        let (b, e, _) = write_result-copied v w false t h k in
        (b, record { buffer = w.content; from_out = false }, rw q (rw (write-stored w k) e))

    -- An execution of `copy`, whose types the type checker accepts, leaves its argument in the result,
    -- and the members defined, if it neither finds the result ready, nor waits for the argument, nor
    -- skips. The types are those that the grammar can say, and both values hold what their types say.
    pub exec-copied :
        {M : Type 0} (files : Files (Value D) M) (u : Base (Option (Members D)))
        (m : Memory (Value D) M) (s : Members D) (w : Value D)
        → u.self ≡ some s
        → is_ready (m.cell u.result.who).status ≡ false
        → passes files (hooks (operation doubles)) u m ≡ true
        → skips (hooks (operation doubles)) files (begun (operation doubles) files u.out_ok u m) m
          ≡ false
        → IsArgument m.cell w u.out_ok u.args_out u.args_in
        → IsType (m.cell u.result.who).content.type
        → IsType w.type
        → check_types_copy (m.cell u.result.who).content.type (w.type ∷ []) ≡ true
        → IsStored (m.cell u.result.who).content
        → IsStored w
        → let r = exec (hooks (operation doubles)) files u m in
          ((r.memory.cell u.result.who).content ≡ w) × ((s' : Members D) × (r.self.self ≡ some s'))
    exec-copied files u m s w e b p n a i j c h k =
        let op = operation doubles in
        let v = (m.cell u.result.who).content in
        let t = type_eq-≡ v.type w.type i j c in
        let (sig, s', q) = computed-copied u.out_ok m.cell u.args_out u.args_in v w s a t h k in
        let l = exec-computed op files u m s e b p n in
        (l.0 ∙ ap (λ x. (written v x).1) q, (s', l.1 ∙ ap (λ x. (written v x).2) q))
