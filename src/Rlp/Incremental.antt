-- ===== src/Rlp/Incremental.antt =====
-- Incremental events: which are applied, and what the revision is afterwards.
use Prim.Native.String.{◌++◌ as ◌<>◌}
use naia_relay.Prelude.{
  ℕ, ◌+◌, ◌≡◌, ◌≢◌, refl, sym, ap, ◌∙◌, String, true, false, none, some, arith, eq_refl,
}
use naia_relay.Prelude.Dict.{erase, lookup-insert, lookup-erase}
use naia_relay.Json.{Object, empty, decimal}
use naia_relay.Call.{Call, ok, map_ok}
use naia_relay.Registry.Store.{
  RegistryStore, mark_stale, mark_fresh, get_tool, register_tool, deregister_tool,
}
use naia_relay.Tep.Models.{ToolPayload}
use naia_relay.Tep.Handler.{tool_of}
use naia_relay.Rlp.Models.{RlpEnvelope}
use naia_relay.Rlp.Response.{Identity, ok_response, error_response, gap_envelope}
use naia_relay.Rlp.Handler.{incremental, upsert_tool}

-- The error response to an event that is not the next one.
abbrev pub gap_response : String → String → Identity → ℕ → ℕ → Object
gap_response mid gid self expected received =
    error_response mid self (gap_envelope gid self) "revision_gap"
      ("Expected registry revision " <> decimal expected <> " but received " <> decimal received)
      empty

module _ (mid gid : String) (self : Identity) (e : RlpEnvelope) where
  -- An event whose revision is not the registry's next one changes nothing but the staleness,
  -- whatever the event is: the registry is stale, and the answer is the gap response.
  gap_refused :
      (revision : ℕ) (change : Call RegistryStore ℕ) (s : RegistryStore)
      → revision ≢ s.revision + 1
      → incremental mid gid self e revision change s
        ≡ (ok (gap_response mid gid self (s.revision + 1) revision), mark_stale s)
  unfolding incremental
  gap_refused revision change s h = ground arith

  -- An event with the next revision runs its change on the registry marked fresh; the answer is ok if
  -- the change returns, and else its exception.
  pub next_applied :
      (change : Call RegistryStore ℕ) (s : RegistryStore)
      → incremental mid gid self e (s.revision + 1) change s ≡ (
        map_ok (λ _. ok_response mid self e empty) (change (mark_fresh s)).0,
        (change (mark_fresh s)).1,
      )
  unfolding incremental
  next_applied change s = ground arith

  -- A tool that the mirror lacks: after `tool_added` with the next revision the registry has the
  -- tool, is fresh and stands at the announced revision.
  pub upsert_new :
      (tool : ToolPayload) (s : RegistryStore)
      → get_tool tool.name s ≡ none
      → let s' = (incremental mid gid self e (s.revision + 1) (upsert_tool tool) s).1 in
        (get_tool tool.name s' ≡ some (tool_of none tool))
        × (s'.revision ≡ s.revision + 1)
        × (s'.stale ≡ false)
  unfolding incremental upsert_tool mark_fresh register_tool get_tool
  upsert_new tool s h =
      ground
        (arith, eq_refl tool.name, lookup-insert tool.name tool.name (tool_of none tool) s.tools)

  -- A tool that the mirror has: after `tool_updated` with the next revision r the registry has the
  -- new definition and is fresh, but stands at r + 1, since the replacement counts as a removal and
  -- an addition.
  pub upsert_old :
      (tool : ToolPayload) (s : RegistryStore)
      → get_tool tool.name s ≢ none
      → let s' = (incremental mid gid self e (s.revision + 1) (upsert_tool tool) s).1 in
        (get_tool tool.name s' ≡ some (tool_of none tool))
        × (s'.revision ≡ s.revision + 2)
        × (s'.stale ≡ false)
  unfolding incremental upsert_tool mark_fresh register_tool deregister_tool get_tool
  upsert_old tool s h = ground (
    arith,
    eq_refl tool.name,
    lookup-erase tool.name tool.name s.tools,
    lookup-insert tool.name tool.name (tool_of none tool) (erase tool.name s.tools),
  )

  -- After a `tool_updated` event of a tool that the mirror has, which comes with the next revision r,
  -- the event that comes with r + 1 is refused as a gap and leaves the registry stale, whatever it is.
  pub update_then_gap :
      (tool : ToolPayload) (change : Call RegistryStore ℕ) (s : RegistryStore)
      → get_tool tool.name s ≢ none
      → let s' = (incremental mid gid self e (s.revision + 1) (upsert_tool tool) s).1 in
        incremental mid gid self e (s.revision + 2) change s'
        ≡ (ok (gap_response mid gid self (s.revision + 3) (s.revision + 2)), mark_stale s')
  update_then_gap tool change s h =
      let (_, revision, _) = upsert_old tool s h in
      let s' = (incremental mid gid self e (s.revision + 1) (upsert_tool tool) s).1 in
      let expected : s'.revision + 1 ≡ s.revision + 3 = omega (arith, revision) in
      gap_refused (s.revision + 2) change s' (omega (arith, revision))
      ∙ ap (λ n. (ok (gap_response mid gid self n (s.revision + 2)), mark_stale s')) expected

  -- An event that comes one too early is refused and leaves the registry stale. But the event that
  -- it overtook is then handled as if the early one had never come, so a registry that has missed an
  -- event is fresh again.
  pub early_event_forgotten :
      (early late : Call RegistryStore ℕ) (s : RegistryStore)
      → let s' = (incremental mid gid self e (s.revision + 2) early s).1 in
        (s'.stale ≡ true)
        × (incremental mid gid self e (s.revision + 1) late s'
            ≡ incremental mid gid self e (s.revision + 1) late s)
  unfolding mark_stale mark_fresh
  early_event_forgotten early late s =
      rw (gap_refused (s.revision + 2) early s (omega arith))
        (refl, next_applied late (mark_stale s) ∙ sym (next_applied late s))
