-- ===== src/Operation/Compute/Average/Averaged.antt =====
-- cxsom/src/cxsomOperation.hpp: `Average` keeps the sum of the out-arguments from one execution to the
-- next, and each execution averages all the arguments.
use cxsom.Symbol
use cxsom.Operation.Compute.Average.Kept.{Kept}
