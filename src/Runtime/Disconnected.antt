-- ===== src/Runtime/Disconnected.antt =====
-- What a client does with the requests that come after a disconnect: ClientRelayRuntime's
-- on_rlp_disconnect, call_tool, read_resource and get_prompt. Its lists of tools, resources and
-- prompts are still served from the stale mirror.
use naia_relay.Prelude.{◌≡◌, refl, ap, ℕ, ◌+◌, String, true, arith, List, [], ◌∷◌, map, length}
use naia_relay.Json.{Value}
use naia_relay.Errors.{Interpreter}
use naia_relay.Call.{Call, Result, raised}
use naia_relay.Registry.Store.{mark_stale}
use naia_relay.Runtime.Client.{Link, count, mark_link_stale, stale_registry, on_rlp_disconnect}
use naia_relay.Runtime.Forward.{call_tool, read_resource, get_prompt_messages}

-- The requests that a client forwards to its host.
pub data Forwarded : Type 0 where
  calls : String → String → Value → Value → Forwarded
  reads : String → Value → Value → Forwarded
  gets : String → Value → Value → Forwarded

-- What each of them raises while the registry is stale.
abbrev pub refusal : Forwarded → Result Value
refusal (calls mid execution_id name arguments) = raised (stale_registry "execution")
refusal (reads mid uri arguments) = raised (stale_registry "reads")
refusal (gets mid name arguments) = raised (stale_registry "prompts")

-- So many requests more are counted as turned away.
abbrev pub turned_away : {P : Type 0} → ℕ → Link P → Link P
turned_away n = count (λ stats. record stats { stale_rejections = stats.stale_rejections + n })

module _ {P : Type 0} (python : Interpreter) where
  abbrev pub forward_one : Forwarded → Call (Link P) Value
  forward_one (calls mid execution_id name arguments) =
      call_tool python mid execution_id name arguments
  forward_one (reads mid uri arguments) = read_resource python mid uri arguments
  forward_one (gets mid name arguments) = get_prompt_messages python mid name arguments

  -- One request after the other, with what each returned or raised.
  abbrev pub forward_all : List Forwarded → Link P → List (Result Value) × Link P
  forward_all [] s = ([], s)
  forward_all (asked ∷ rest) s =
      let (r, s') = forward_one asked s in let (rs, t) = forward_all rest s' in (r ∷ rs, t)

  stale_refuses :
      (asked : Forwarded) (s : Link P)
      → s.registry.stale ≡ true
      → forward_one asked s ≡ (refusal asked, turned_away 1 s)
  unfolding call_tool read_resource get_prompt_messages
  stale_refuses (calls mid execution_id name arguments) s h = rw h refl
  stale_refuses (reads mid uri arguments) s h = rw h refl
  stale_refuses (gets mid name arguments) s h = rw h refl

  stale_refuses_all :
      (asked : List Forwarded) (s : Link P)
      → s.registry.stale ≡ true
      → forward_all asked s ≡ (map refusal asked, turned_away (length asked) s)
  stale_refuses_all [] s h =
      ap (λ n. ([], count (λ stats. record stats { stale_rejections = n }) s)) (omega arith)
  stale_refuses_all (a ∷ asked) s h =
      rw (stale_refuses a s h, stale_refuses_all asked (turned_away 1 s) h)
        (ap
          (λ n. (
            refusal a ∷ map refusal asked,
            count (λ stats. record stats { stale_rejections = n }) s,
          ))
          (omega arith))

  -- However many calls, reads and prompt requests follow a disconnect before the next bind, each
  -- raises the stale-registry error and is counted. The host is asked for none of them, and nothing
  -- but the count changes from what the disconnect left.
  pub disconnected_forwards_nothing :
      (asked : List Forwarded) (s : Link P)
      → forward_all asked (on_rlp_disconnect s)
        ≡ (map refusal asked, turned_away (length asked) (on_rlp_disconnect s))
  unfolding on_rlp_disconnect mark_link_stale mark_stale
  disconnected_forwards_nothing asked s = stale_refuses_all asked (on_rlp_disconnect s) refl
