-- ===== src/Data/File/Tests.antt =====
-- A file of three slots, written by one object and read by another, and the theorems on it.
use cxsom.Prelude.{
  ℕ, ◌≡◌, ◌⊎◌, refl, inl, inr, arith, true, false, none, some, ◌==◌, ==_iff, Eq, add64, sub64,
}
use cxsom.Data.{FileAvailability}
use cxsom.Data.File.{State, File, FileError, realize, next_pos, pos_in_past, no_time}
use cxsom.Data.File.Access.{
  read, write, sync, put, clear, fill, skip, write_first, write_past, write_future,
}
use cxsom.Data.File.History.{History, Represents, is_kept}
use cxsom.Data.File.History
use cxsom.Data.File.History.Later.{Refines}
use cxsom.Data.File.History.Reading.{read-Represents}
use cxsom.Data.File.History.Writing.{write-Refines}
use cxsom.Data.File.History.Lasting.{read-write, read-write-ready}
use cxsom.Data.File.History.Sharing.{
  Syncs, Realizes, sync-Represents, realize-existing, realize-created,
}

instance abbrev number_Eq : Eq ℕ
number_Eq = record { beq = ◌==◌; beq_iff = ==_iff }

-- The types of the variables are numbers here, and so are the contents.
abbrev unrealized : File ℕ
unrealized = record {
  type = none;
  header = record { cache_size = 0; file_size = 0; highest_time = 0; next_free_pos = 0 };
  realized = false;
}

abbrev created : State ℕ ℕ
created = record {
  file = record {
    type = some 7;
    header = record { cache_size = 2; file_size = 3; highest_time = no_time; next_free_pos = 0 };
    realized = true;
  };
  disk = record {
    type = 7;
    header = record { cache_size = 2; file_size = 3; highest_time = no_time; next_free_pos = 0 };
    slot = λ p. record { flag = 0; content = 0 };
    count = 0;
  };
}

abbrev empty : History ℕ
empty = record { size = 3; next = 0; value = λ u. none }

abbrev state_of : FileError ⊎ (FileAvailability × State ℕ ℕ) → State ℕ ℕ
state_of (inl e) = created
state_of (inr (a, s)) = s

-- The date 1 is written, then the date 3.
abbrev one : State ℕ ℕ
one = state_of (write 0 1 10 created)

abbrev two : State ℕ ℕ
two = state_of (write 0 3 30 one)

abbrev history_one : History ℕ
history_one = (History.write 1 10 empty).1

abbrev history_two : History ℕ
history_two = (History.write 3 30 history_one).1

realize-created_example : Realizes (realize 0 (some 7) (some 2) (some 3) unrealized none) empty
realize-created_example = realize-created 0 7 2 3 unrealized (omega arith)

created-Represents : Represents created empty
unfolding realize
created-Represents = realize-created 0 7 2 3 unrealized (omega arith)

one-Represents : Represents one history_one
unfolding write write_first clear put fill next_pos add64 History.write
one-Represents = (write-Refines 0 created empty 1 10 created-Represents (omega arith)).1

two-Represents : Represents two history_two
unfolding write write_first write_future write_past skip clear put fill next_pos add64 sub64
    History.write
two-Represents = (write-Refines 0 one history_one 3 30 one-Represents (omega arith)).1

write-Refines_example : Refines (write 0 4 40 two) (History.write 4 40 history_two)
write-Refines_example = write-Refines 0 two history_two 4 40 two-Represents (omega arith)

read-Represents_example : read 1 two ≡ inr (History.read 1 history_two)
read-Represents_example = read-Represents two history_two 1 two-Represents

read-write_example : read 2 (state_of (write 0 2 20 two)) ≡ inr (FileAvailability.ready, some 20)
unfolding write write_first write_future write_past skip clear put fill next_pos pos_in_past add64
    sub64 History.write
read-write_example =
    read-write 0 two (state_of (write 0 2 20 two)) history_two 2 20 FileAvailability.busy
      two-Represents (omega arith) refl refl

read-write-ready_example :
    (read 1 (state_of (write 0 5 50 two)) ≡ inr (FileAvailability.ready, some 10))
    ⊎ (read 1 (state_of (write 0 5 50 two)) ≡ inr (FileAvailability.forgotten, none))
unfolding read write write_first write_future write_past skip clear put fill next_pos pos_in_past
    add64 sub64 History.write
read-write-ready_example =
    read-write-ready 0 two (state_of (write 0 5 50 two)) history_two 5 50 FileAvailability.busy
      two-Represents (omega arith) refl 1 10 refl

sync-Represents_example :
    Syncs
      (sync (record { file = record unrealized { realized = true }; disk = two.disk }))
      history_two
sync-Represents_example =
    sync-Represents two history_two (record unrealized { realized = true }) two-Represents refl

realize-existing_example :
    Realizes (realize 0 (some 7) (some 9) none unrealized (some two.disk)) history_two
unfolding write write_first write_future write_past skip clear put fill next_pos add64 sub64
realize-existing_example =
    realize-existing 0 (some 7) (some 9) none unrealized two history_two two-Represents (inr refl)
