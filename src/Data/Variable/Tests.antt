-- ===== src/Data/Variable/Tests.antt =====
-- A variable whose cache holds two instances, and the theorems on it.
use cxsom.Prelude.{
  ℕ, ◌≡◌, ◌↔◌, ◌≤◌, refl, arith, true, if◌then◌else◌, ◌==◌, some, none, [], ◌∷◌, length, find,
  add64, sub64,
}
use cxsom.Data.{Availability}
use cxsom.Data.File.{State, no_time}
use cxsom.Data.File.Access.{read}
use cxsom.Data.Variable.{instance_at, make_instance, make_room}
use cxsom.Data.Variable.Cache.{
  IsSorted, remove_oldest, to_remove, erase_dates, erase_date, emplace, date_Eq,
}
use cxsom.Data.Variable.Bound.{length-instance_at}
use cxsom.Data.Variable.Life.{Life, use_count, born, Reach, gets, here, next}
use cxsom.Data.Variable.Single.{held-single}

-- A file that keeps nothing and has seen no date, with a cache of 2.
abbrev file : State ℕ ℕ
file = record {
  file = record {
    type = some 7;
    header = record { cache_size = 2; file_size = 0; highest_time = no_time; next_free_pos = 0 };
    realized = true;
  };
  disk = record {
    type = 7;
    header = record { cache_size = 2; file_size = 0; highest_time = no_time; next_free_pos = 0 };
    slot = λ p. record { flag = 0; content = 0 };
    count = 0;
  };
}

-- The oldest unused entries go first, and those that are used stay.
removes :
    remove_oldest (λ r. if r == 1 then 2 else 1) 2 ((3, 0) ∷ (5, 1) ∷ (8, 2) ∷ (9, 3) ∷ [])
    ≡ (2, (5, 1) ∷ (9, 3) ∷ [])
unfolding remove_oldest to_remove erase_dates erase_date
removes = refl

abbrev start : Life ℕ ℕ
start = born file (λ r. record { status = Availability.busy; datation = 0; content = 0 })

-- An instance that is not in the cache is made; the file has nothing at its date.
abbrev got : ℕ → Life ℕ ℕ → Life ℕ ℕ
got at l =
    let (r, x) = make_instance 0 (use_count l) at Availability.busy none l.var in
    record { var = x; held = (at, r) ∷ l.held }

abbrev one : Life ℕ ℕ
one = got 4 start

abbrev two : Life ℕ ℕ
two = got 9 one

-- The instance at 4 is asked for again, and then one more.
abbrev three : Life ℕ ℕ
three = record { var = two.var; held = (4, 0) ∷ two.held }

Reach-one : Reach 0 start one
unfolding instance_at read find make_instance
Reach-one = next here (gets start 4 0 one.var refl)

Reach-two : Reach 0 start two
unfolding instance_at read find make_instance make_room emplace add64
Reach-two = next Reach-one (gets one 9 1 two.var refl)

Reach-three : Reach 0 start three
unfolding instance_at read find make_instance make_room emplace add64
Reach-three = next Reach-two (gets two 4 0 two.var refl)

held-single_example : ◌≡◌ {A = ℕ} 4 4 ↔ ◌≡◌ {A = ℕ} 0 0
unfolding make_instance
held-single_example =
    held-single 0 file (λ r. record { status = Availability.busy; datation = 0; content = 0 }) three
      0 2 4 4 0 0 Reach-three refl refl

-- Both instances of the cache are in use: it grows beyond its size, to 3.
length-instance_at_example : length (got 7 two).var.cached ≤ 3
unfolding instance_at read find make_instance make_room emplace add64 IsSorted remove_oldest
    to_remove erase_dates sub64
length-instance_at_example =
    length-instance_at 0 (use_count two) 7 2 two.var (got 7 two).var ((omega arith, tt), (tt, tt))
      (omega arith) refl
