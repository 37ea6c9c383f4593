-- ===== src/Store/Within.antt =====
-- What the searches of the store return.
use rqmd.Store.{Scope}
