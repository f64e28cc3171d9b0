-- ===== src/Data/Center/Methods.antt =====
-- cxsom/src/cxsomVariable.hpp: the types of a file and of its object, which no method of a variable changes.
use cxsom.Prelude.{
  ℕ, zero, suc, ◌≡◌, refl, ◌∙◌, Option, inl, inr, arith, Result-cases, if_split, ltb, leb, add64,
  sub64, min, ◌==◌, ◌||◌,
}
use cxsom.Symbol.{variable_Eq}
use cxsom.Data.File.{Disk, State, Slot, blank, no_time}
use cxsom.Data.{Availability, FileAvailability}
use cxsom.Data.File.Access.{
  put, clear, fill, write, write_past, write_first, write_future, write_unbuffered, skip, sync,
}
use cxsom.Data.Variable.{Variable, instance_at, make_instance, declare_ready}
use cxsom.Data.Variable

module _ {T D : Type 0} where
  clear-type : (b : Slot D) (n p : ℕ) (d : Disk T D) → (clear b n p d).1.type ≡ d.type
  unfolding clear put
  clear-type b zero p d = refl
  clear-type b (suc n) p d = clear-type b n (suc p) (put p b d)

  put-type : (p : ℕ) (b : Slot D) (d : Disk T D) → (put p b d).type ≡ d.type
  unfolding put
  put-type p b d = refl

  fill-type : (p : ℕ) (x : D) (d : Disk T D) → (fill p x d).type ≡ d.type
  unfolding put fill
  fill-type p x d = refl

  skip-type : (zeros : D) (n : ℕ) (s : State T D) → (skip zeros n s).2.type ≡ s.disk.type
  unfolding skip
  skip-type zeros n s =
      let h = s.file.header in
      let data_pos = add64 h.next_free_pos n in
      let to_end = sub64 (min h.file_size data_pos) h.next_free_pos in
      let d = clear (blank zeros) to_end h.next_free_pos s.disk in
      let P : ℕ × ℕ × Disk T D → Type 0 = λ r. r.2.type ≡ s.disk.type in
      if_split P (ltb h.file_size n) (λ _. clear-type (blank zeros) h.file_size 0 s.disk)
        (λ _.
          if_split P (leb h.file_size data_pos)
            (λ _.
              clear-type (blank zeros) (sub64 data_pos h.file_size) 0 d.1
              ∙ clear-type (blank zeros) to_end h.next_free_pos s.disk)
            (λ _. clear-type (blank zeros) to_end h.next_free_pos s.disk))

  -- The type in the file and the one that the object keeps are those of another state.
  abbrev pub Same : State T D → State T D → Type 0
  Same s r = (r.disk.type ≡ s.disk.type) × (r.file.type ≡ s.file.type)

  write_first-Same :
      (zeros : D) (at : ℕ) (x : D) (s : State T D) → Same s (write_first zeros at x s).1
  unfolding write_first fill put
  write_first-Same zeros at x s =
      let h = s.file.header in
      if_split (λ (r : FileAvailability × State T D). Same s r.1) (leb h.file_size at)
        (λ _. (clear-type (blank zeros) h.file_size 0 s.disk, refl))
        (λ _. (clear-type (blank zeros) at 0 s.disk, refl))

  write_past-Same :
      (at : ℕ) (x : D) (s r : State T D) (a : FileAvailability)
      → write_past at x s ≡ inr (a, r)
      → Same s r
  unfolding write_past put
  write_past-Same at x s r a h = ground arith

  write_future-Same :
      (zeros : D) (at : ℕ) (x : D) (s : State T D) → Same s (write_future zeros at x s).1
  unfolding write_future fill put
  write_future-Same zeros at x s =
      (skip-type zeros (sub64 (sub64 at 1) s.file.header.highest_time) s, refl)

  write_unbuffered-Same : (at : ℕ) (s : State T D) → Same s (write_unbuffered at s).1
  unfolding write_unbuffered
  write_unbuffered-Same at s =
      let h = s.file.header in
      if_split (λ (r : State T D). Same s r) (h.highest_time == no_time || ltb h.highest_time at)
        (λ _. (refl, refl)) (λ _. (refl, refl))

  write-Same :
      (zeros : D) (at : ℕ) (x : D) (s r : State T D) (a : FileAvailability)
      → write zeros at x s ≡ inr (a, r)
      → Same s r
  unfolding write
  write-Same zeros at x s r a h = ground (
    arith,
    write_past-Same at x s r a,
    write_first-Same zeros at x s,
    write_future-Same zeros at x s,
    write_unbuffered-Same at s,
  )

  sync-Same : (s r : State T D) → sync s ≡ inr r → Same s r
  unfolding sync
  sync-Same s r h = ground arith

  -- The methods of a variable.
  abbrev pub Kept : Variable T D → Variable T D → Type 0
  Kept x y = Same x.file y.file

  pub instance_at-Kept :
      (zeros : D) (uses : ℕ → ℕ) (at r : ℕ) (x y : Variable T D)
      → instance_at zeros uses at x ≡ inr (r, y)
      → Kept x y
  unfolding instance_at make_instance
  instance_at-Kept zeros uses at r x y h = ground arith

  pub declare_ready-Kept :
      (zeros : D) (at : ℕ) (d : D) (x y : Variable T D)
      → declare_ready zeros at d x ≡ inr y
      → Kept x y
  unfolding declare_ready
  declare_ready-Kept zeros at d x y h = elim (Result-cases (write zeros at d x.file)) [
    | inl (_, e) ↦ ground arith
    | inr ((a, r), e) ↦ let k = write-Same zeros at d x.file r a e in ground (arith, k)
  ]

  pub sync_variable-Kept :
      (at : ℕ) (x y : Variable T D) (a : Availability) (d : Option D)
      → Variable.sync at x ≡ inr (a, d, y)
      → Kept x y
  unfolding Variable.sync
  sync_variable-Kept at x y a d h = elim (Result-cases (sync x.file)) [
    | inl (_, e) ↦ ground arith
    | inr (r, e) ↦ let k = sync-Same x.file r e in ground (arith, k)
  ]

  pub history_length-Kept :
      (n : ℕ) (x y : Variable T D) → Variable.history_length x ≡ inr (n, y) → Kept x y
  unfolding Variable.history_length
  history_length-Kept n x y h = elim (Result-cases (sync x.file)) [
    | inl (_, e) ↦ ground arith
    | inr (r, e) ↦ let k = sync-Same x.file r e in ground (arith, k)
  ]
