-- ===== src/Core/Sessions.antt =====
-- src/naia_relay/core/session.py. A session is what the manager holds of it: a caller that keeps the
-- object sees the same changes.
use Prim.Native.String.{◌++◌ as ◌<>◌}
use naia_relay.Prelude.{
  ℕ, ◌+◌, String, Bool, true, false, Option, none, some, List, [], ◌∷◌, if◌then◌else◌, length,
}
use naia_relay.Prelude.Dict.{Dict, lookup, contains, insert, erase, values}
use naia_relay.Json.{Object}
use naia_relay.Errors.{value_error, key_error}
use naia_relay.Call.{Call, ok, raised}

pub data SessionKind : Type 0 where
  mcp tep rlp : SessionKind

pub record SessionState : Type 0 where
  pub session_id : String
  pub kind : SessionKind
  pub peer_id : Option String
  pub connected : Bool
  pub metadata : Object

pub record SessionManager : Type 0 where
  pub sessions : Dict SessionState

-- SessionManager()
abbrev pub new_manager : SessionManager
new_manager = record { sessions = [] }

unfoldable pub add_session : SessionState → Call SessionManager Unit
unfolding contains insert
add_session session m =
    if contains session.session_id m.sessions
    then (raised (value_error ("Duplicate session_id: " <> session.session_id)), m)
    else (ok tt, record m { sessions = insert session.session_id session m.sessions })

unfoldable pub get_session : String → SessionManager → Option SessionState
unfolding lookup
get_session id m = lookup id m.sessions

unfoldable pub mark_connected : String → Bool → Call SessionManager SessionState
unfolding lookup insert
mark_connected id connected m = elim (lookup id m.sessions) [
  | none ↦ (raised (key_error id), m)
  | some session ↦
      let session' = record session { connected = connected } in
      (ok session', record m { sessions = insert id session' m.sessions })
]

unfoldable pub remove_session : String → Call SessionManager (Option SessionState)
unfolding lookup erase
remove_session id m = (ok (lookup id m.sessions), record m { sessions = erase id m.sessions })

abbrev pub same_kind : SessionKind → SessionKind → Bool
same_kind mcp mcp = true
same_kind tep tep = true
same_kind rlp rlp = true
same_kind _ _ = false

-- sum(1 for session in sessions if session.kind == kind)
unfoldable pub count_kind : SessionKind → List SessionState → ℕ
count_kind kind [] = 0
count_kind kind (s ∷ ss) =
    let rest = count_kind kind ss in if same_kind s.kind kind then rest + 1 else rest

unfoldable pub count_sessions : Option SessionKind → SessionManager → ℕ
unfolding count_kind values
count_sessions none m = length m.sessions
count_sessions (some kind) m = count_kind kind (values m.sessions)
