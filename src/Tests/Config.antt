-- ===== src/Tests/Config.antt =====
-- Runs of the configuration's theorems.
use naia_relay.Prelude.{◌≡◌, inl, inr, refl, true, none, some, List, [], ◌∷◌, if◌then◌else◌}
use naia_relay.Call.{Call, ok, modify, ◌>>◌}
use naia_relay.Pydantic.{valid}
use naia_relay.Config.{
  http, tcp, direct, RelayConfig, RawConfig, RelayAppConfig, direct_config, validate_mcp,
  validate_endpoint, validate_for_role, validate_address,
}
use naia_relay.Config.Parse.{Fields, validate_raw, to_typed_config}
use naia_relay.Config.Addressed.{IsAddressed, untyped, validated_converts}
use naia_relay.Config.Loader.{Files, mapping}
use naia_relay.Config.Startup.{Action, stop_runtime, serve, run_from_config}
use naia_relay.Config.Plan.{perform_all, opening, run_from_config-opening}
use naia_relay.Tests.Samples.{why}

abbrev relay : RelayConfig
relay = record {
  request_timeout_seconds = 60;
  connection_timeout_seconds = 10;
  heartbeat_timeout_seconds = 30;
  max_message_size_bytes = 1048576;
  max_in_flight_requests = 32;
  max_queue_depth = 128;
  reconnect_attempts = 3;
  reject_duplicate_tool_names = true;
  log_level = "info";
}

-- MCP over HTTP without a host, and an executor over TCP without one.
abbrev raw : RawConfig
raw = record {
  role = direct;
  mcp = some (record { transport = http; host = none; port = some 8080 });
  executor = some (record {
    transport = tcp;
    address = record { host = none; port = none; bind_host = none; bind_port = some 0 };
  });
  relay_link = none;
  relay = relay;
}

abbrev typed : RelayAppConfig
typed = direct_config (record {
  mcp = record { transport = http; host = some "127.0.0.1"; port = some 8080 };
  executor = record {
    transport = tcp;
    address = record { host = some "127.0.0.1"; port = none; bind_host = none; bind_port = some 0 };
  };
  relay = relay;
})

abbrev fields : Fields Unit
fields = record { raw = λ d. valid raw; report = λ es. why; mismatch = λ r. why }

is_validated : validate_raw fields raw ≡ ok (untyped typed)
unfolding validate_raw validate_mcp validate_endpoint validate_address validate_for_role
is_validated = refl

validated_converts_example :
    (c : RelayAppConfig) × (to_typed_config fields (untyped typed) ≡ ok c)
    × (untyped c ≡ untyped typed)
    × IsAddressed c
validated_converts_example = validated_converts fields raw (untyped typed) is_validated

abbrev files : Files Unit
files = record {
  expanduser = λ path. ok path;
  exists = λ path. ok true;
  read_text = λ path. ok "role: direct";
  safe_load = λ text. mapping tt;
}

-- Each action is written down.
abbrev noted : Action → Call (List Action) Unit
noted a = modify (λ done. a ∷ done)

addressed : IsAddressed typed
addressed = ((λ h. absurd (cc h), tt), (inl tt, inr tt), refl)

run_from_config-opening_example :
    run_from_config noted typed true (some "ready.json") []
    ≡ (perform_all noted (opening typed (some "ready.json"))
          >> (if true then noted stop_runtime else serve noted typed))
        []
run_from_config-opening_example =
    run_from_config-opening noted typed true (some "ready.json") [] addressed
