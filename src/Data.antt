-- ===== src/Data.antt =====
-- cxsom/src/cxsomVariable.hpp: the availability of an instance, in memory and in its file.
pub mod Instance
pub mod File
pub mod Variable
pub mod Center
use cxsom.Prelude.{Bool, true, false}

-- `enum class Availability : char`. The third value has no name in the source: it is what
-- `Variable::sync` stores when it casts `FileAvailability::Forgotten` (the number 2).
pub data Availability : Type 0 where
  busy ready unnamed : Availability

pub data FileAvailability : Type 0 where
  busy ready forgotten : FileAvailability

-- `availability_of`
abbrev pub availability_of : FileAvailability → Availability
availability_of FileAvailability.busy = Availability.busy
availability_of _ = Availability.ready

-- The cast `(Availability)res` of `Variable::sync`.
abbrev pub cast_availability : FileAvailability → Availability
cast_availability FileAvailability.busy = Availability.busy
cast_availability FileAvailability.ready = Availability.ready
cast_availability FileAvailability.forgotten = Availability.unnamed

abbrev pub is_busy : Availability → Bool
is_busy Availability.busy = true
is_busy _ = false

abbrev pub is_ready : Availability → Bool
is_ready Availability.ready = true
is_ready _ = false
