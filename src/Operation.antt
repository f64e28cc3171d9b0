-- ===== src/Operation.antt =====
-- cxsom/src/cxsomOperation.hpp: the operations that the updates compute, the checking of their types,
-- and the factory that makes them.
pub mod Compute
pub mod Typing
pub mod Typed
pub mod Sound
pub mod Accepted
pub mod Adding
pub mod Complete
pub mod Checked
pub mod Table
pub mod Tests
