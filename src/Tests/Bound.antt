-- ===== src/Tests/Bound.antt =====
-- A run of the bind of a client to its host.
use naia_relay.Prelude.{none, some, Option, true}
use naia_relay.Json.{Value, Object, dict, num, pos, get, empty}
use naia_relay.Call.{Result, ok, raised}
use naia_relay.Pydantic.{Checked, valid, invalid}
use naia_relay.Rlp.Models.{Models, SnapshotPayload}
use naia_relay.Rlp.Models as Payload
use naia_relay.Rlp.Serialize.{build_snapshot_details}
use naia_relay.Registry.Store.{snapshot}
use naia_relay.Runtime.Base.{new_runtime}
use naia_relay.Runtime.Client.{Link, new_link}
use naia_relay.Runtime.Bind.{Surroundings}
use naia_relay.Runtime.Host.{HostRuntime, new_host}
use naia_relay.Tests.Samples.{why, host}
use naia_relay.Tests.Host.{limits}
use naia_relay.Tests.Rlp.{envelope, bind, one_tool, models}

abbrev serving_host : HostRuntime Unit
serving_host =
    record (new_host (record (new_runtime "host" "relay1" "s1" limits) { started = true }) tt) {
      registry = host;
    }

abbrev unbound : Link (HostRuntime Unit)
unbound =
    new_link (record (new_runtime "client" "client1" "c1" limits) { started = true }) serving_host

abbrev host_models : Models
host_models = record (models "bind_session") { bind_session = λ o. valid (bind "s1") }

abbrev in_time : Surroundings (HostRuntime Unit)
in_time = record { expiry = λ attempt. none; now = 5; local_expiry = none }

abbrev details_in : Result Object → Object
details_in (ok details) = details
details_in (raised e) = empty

abbrev listed : Object
listed = details_in (build_snapshot_details host)

-- A validator that keeps the payload of a message, and one that reads the revision of a snapshot.
abbrev payload_in : Option Value → Object
payload_in (some (dict o)) = o
payload_in _ = empty

abbrev read_revision : Option Value → Checked SnapshotPayload
read_revision (some (num (pos n))) = valid (record one_tool { registry_revision = n })
read_revision _ = invalid why

abbrev client_models : Models
client_models = record (models "tool_snapshot") {
  envelope =
      λ o. valid (record (envelope "tool_snapshot") { payload = payload_in (get "payload" o) });
  snapshot = λ o. read_revision (get "registry_revision" o);
}
