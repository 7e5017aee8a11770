-- ===== src/GroupService/Accepted.antt =====
-- The checks of `move_to_group` suffice: no constraint refuses what they accept.
use distributed_rate_limiter.Params.{Params}
use distributed_rate_limiter.Prelude.{nat_eq}
