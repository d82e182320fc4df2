-- ===== src/Core/Balance.antt =====
-- What the session manager and the trackers promise together.
use naia_relay.Prelude.{
  ◌≡◌, refl, ap, ◌∙◌, ℕ, suc, ◌+◌, String, none, some, [], ◌∷◌, arith, if◌then◌else◌, length,
  eq_refl,
}
use naia_relay.Prelude.Dict.{Dict, lookup, contains, insert, erase, values, lookup-insert}
use naia_relay.Prelude.Dict.Laws.{erase-insert_new, length-insert_new}
use naia_relay.Call.{ok}
use naia_relay.Core.Sessions.{
  SessionKind, SessionState, SessionManager, mcp, tep, rlp, count_kind, count_sessions, same_kind,
}
use naia_relay.Core.Tracking.{
  ExecutionState, ExecutionTracker, add_execution, get_execution, update_status, pop_execution,
  count_executions,
}

one_kind :
    (kind : SessionKind) (a b c n : ℕ)
    → n ≡ a + b + c
    → suc n
      ≡ (if same_kind kind mcp then a + 1 else a)
        + (if same_kind kind tep then b + 1 else b)
        + (if same_kind kind rlp then c + 1 else c)
one_kind mcp a b c n h = omega (arith, h)
one_kind tep a b c n h = omega (arith, h)
one_kind rlp a b c n h = omega (arith, h)

count_kinds :
    (d : Dict SessionState)
    → length d ≡ count_kind mcp (values d) + count_kind tep (values d) + count_kind rlp (values d)
unfolding count_kind values
count_kinds [] = refl
count_kinds ((k, s) ∷ d) =
    one_kind s.kind (count_kind mcp (values d)) (count_kind tep (values d))
      (count_kind rlp (values d)) (length d) (count_kinds d)

erase-insert : {V : Type 0} (k : String) (v : V) (d : Dict V) → erase k (insert k v d) ≡ erase k d
unfolding insert erase
erase-insert k v [] = ground (arith, eq_refl k)
erase-insert k v ((j, w) ∷ d) = ground (arith, eq_refl k, erase-insert k v d)

-- Every session is of one of the three kinds: their counts add up to the count of all.
count_sessions-kinds :
    (m : SessionManager)
    → count_sessions none m
      ≡ count_sessions (some mcp) m + count_sessions (some tep) m + count_sessions (some rlp) m
unfolding count_sessions
count_sessions-kinds m = count_kinds m.sessions

lookup-inserted : {V : Type 0} (k : String) (v : V) (d : Dict V) → lookup k (insert k v d) ≡ some v
lookup-inserted k v d = lookup-insert k k v d ∙ rw (eq_refl k) refl

update-added :
    (state : ExecutionState) (status : String) (d : ExecutionTracker)
    → update_status state.execution_id status (insert state.execution_id state d) ≡ (
      ok (record state { status = status }),
      insert state.execution_id
          (record state { status = status })
          (insert state.execution_id state d),
    )
unfolding update_status
update-added state status d = rw (lookup-inserted state.execution_id state d, update_status) refl

-- An execution with a new id that is added, whatever status it is then given, and popped is handed
-- back with that status, and the tracker is as before; in between it is counted once.
tracked_execution :
    (state : ExecutionState) (status : String) (d : ExecutionTracker)
    → get_execution state.execution_id d ≡ none
    → let added = (add_execution state d).1 in
      let updated = (update_status state.execution_id status added).1 in
      (count_executions added ≡ count_executions d + 1)
      × ((update_status state.execution_id status added).0 ≡ ok (record state { status = status }))
      × (pop_execution state.execution_id updated
          ≡ (ok (some (record state { status = status })), d))
unfolding add_execution get_execution pop_execution contains
tracked_execution state status d h =
    let updating = update-added state status d in
    let gone =
      erase-insert state.execution_id (record state { status = status })
        (insert state.execution_id state d)
      ∙ erase-insert_new state.execution_id state d h in
    rw h (
      length-insert_new state.execution_id state d h,
      ap (λ r. r.0) updating,
      rw
          (
            updating,
            lookup-inserted state.execution_id (record state { status = status })
                (insert state.execution_id state d),
            gone,
          )
          refl,
    )
