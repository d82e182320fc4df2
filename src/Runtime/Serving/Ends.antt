-- ===== src/Runtime/Serving/Ends.antt =====
-- How the serving of an executor ends.
use naia_relay.Call.{Call}
