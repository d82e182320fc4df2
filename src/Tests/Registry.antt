-- ===== src/Tests/Registry.antt =====
-- Runs of the registry's theorems.
use naia_relay.Prelude.Dict.{lookup}
use naia_relay.Prelude.{false, ◌≡◌, refl, List, [], ◌∷◌, none}
use naia_relay.Registry.Models.{authoritative, mirrored}
use naia_relay.Registry.Store.{
  RegistryStore, new_registry, register_tool, get_tool, snapshot, replace_from_snapshot,
}
use naia_relay.Registry.Mutation.{
  Mutation, add_tool, drop_tool, apply, accepts, run, Settles, apply-Settles,
}
use naia_relay.Registry.Invariant.{IsValid, new_registry-IsValid, apply-IsValid, run-IsValid}
use naia_relay.Registry.Refinement.{view, steps, view-run}
use naia_relay.Registry.Mirror.{replace_from_snapshot-snapshot}
use naia_relay.Tests.Samples.{echo, host, mirror}

abbrev changes : List Mutation
changes = add_tool echo ∷ add_tool echo ∷ drop_tool "echo" ∷ []

abbrev fresh : RegistryStore
fresh = new_registry authoritative

apply-Settles_example : Settles host (accepts (add_tool echo) host) (apply (add_tool echo) host)
apply-Settles_example = apply-Settles (add_tool echo) host

run-IsValid_example : IsValid (run changes fresh)
run-IsValid_example = run-IsValid changes (new_registry-IsValid authoritative)

view-run_example : view (run changes fresh) ≡ steps changes (view fresh)
view-run_example = view-run changes fresh

host-IsValid : IsValid (register_tool echo fresh).1
unfolding apply
host-IsValid = apply-IsValid (add_tool echo) (new_registry-IsValid authoritative)

replace_from_snapshot-snapshot_example :
    replace_from_snapshot (snapshot (register_tool echo fresh).1) mirror
    ≡ record (register_tool echo fresh).1 { mode = mirrored; stale = false }
replace_from_snapshot-snapshot_example =
    replace_from_snapshot-snapshot mirror (register_tool echo fresh).1 host-IsValid

echo_new : get_tool "echo" fresh ≡ none
unfolding get_tool lookup
echo_new = refl
