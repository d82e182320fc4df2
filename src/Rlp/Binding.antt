-- ===== src/Rlp/Binding.antt =====
-- Which clients a host binds, and what a bind leaves alone.
use naia_relay.Prelude.{
  ◌+◌, ◌≡◌, ◌↔◌, ◌⊎◌, inl, inr, refl, String, true, false, Option, Option-cases, none, some, List,
  [], ◌∷◌, ◌++◌, arith, if◌then◌else◌, is_some, same_text, eq_iff, eq_refl, ◌==◌, length, not, ◌&&◌,
  length-append, Bool-cases,
}
use naia_relay.Json.{Object, empty}
use naia_relay.Errors.{Interpreter}
use naia_relay.Call.{ok}
use naia_relay.Rlp.Models.{RlpEnvelope, BindSessionPayload}
use naia_relay.Rlp.Response.{ok_response, error_response}
use naia_relay.Rlp.Serialize.{build_snapshot_details}
use naia_relay.Rlp.Details.{Lists}
use naia_relay.Rlp.Listed.{build_snapshot_details-Lists}
use naia_relay.Rlp.Handler.{RlpHandler, Handling, Callbacks, identity, contains, add}
use naia_relay.Rlp.Dispatch.{Ids, bind_session}

same_text_iff : (a b : Option String) → (same_text a b ≡ true) ↔ (a ≡ b)
same_text_iff none none = ground arith
same_text_iff none (some t) = ground arith
same_text_iff (some s) none = ground arith
same_text_iff (some s) (some t) = ground (arith, eq_iff s t)

-- The payload names the handler's session, and its token if the handler has one.
pub record MayBind (h : RlpHandler) (p : BindSessionPayload) : Type 0 where
  pub session : p.relay_session_id ≡ h.relay_session_id
  pub token : (h.session_token ≡ none) ⊎ (p.session_token ≡ h.session_token)

token_wrong :
    (h : RlpHandler) (p : BindSessionPayload)
    → ¬ MayBind h p
    → (p.relay_session_id == h.relay_session_id) ≡ true
    → (is_some h.session_token && not (same_text p.session_token h.session_token)) ≡ true
token_wrong h p may_not same = elim (Option-cases h.session_token) [
  | inl absent ↦ absurd (may_not (record { session = named; token = inl absent }))
  | inr (t, given) ↦ elim (Bool-cases (same_text p.session_token h.session_token)) [
    | inl right ↦ absurd (
        may_not (record {
          session = named;
          token = inr ((same_text_iff p.session_token h.session_token).0 right);
        }))
    | inr wrong ↦ ground arith
  ]
]
  where
    named : p.relay_session_id ≡ h.relay_session_id
    named = (eq_iff p.relay_session_id h.relay_session_id).0 same

-- The client is in the set; the rest of the handler is as it was.
abbrev pub with_client : String → RlpHandler → RlpHandler
with_client client h = record h { bound_clients = add client h.bound_clients }

module _ {W : Type 0} (callbacks : Callbacks W) (python : Interpreter) (ids : Ids) (e : RlpEnvelope)
    (p : BindSessionPayload) (s : Handling W) where
  pub bind_session_lem :
      {details : Object}
      → MayBind s.handler p
      → build_snapshot_details s.registry ≡ ok details
      → bind_session callbacks python ids e p s ≡ (
        ok (ok_response ids.response (identity s.handler) e details),
        record s { handler = with_client p.client_instance_id s.handler },
      )
  unfolding bind_session
  bind_session_lem may built = ground (
    arith,
    eq_iff p.relay_session_id s.handler.relay_session_id,
    same_text_iff p.session_token s.handler.session_token,
  )

  -- A client that may not bind is answered with the error of what is wrong, the session before the
  -- token, and nothing changes.
  pub bind_session-refused :
      ¬ MayBind s.handler p
      → bind_session callbacks python ids e p s ≡ (
        ok (
            if p.relay_session_id == s.handler.relay_session_id
            then error_response ids.response
                (identity s.handler)
                e
                "invalid_token"
                "Invalid session token."
                empty
            else error_response ids.response
                (identity s.handler)
                e
                "unknown_session"
                p.relay_session_id
                empty),
        s,
      )
  unfolding bind_session
  bind_session-refused may_not =
      elim (Bool-cases (p.relay_session_id == s.handler.relay_session_id)) [
        | inl same ↦ rw (same, token_wrong s.handler p may_not same)
        | inr other ↦ rw other
      ]

-- No client is listed twice.
abbrev pub Distinct : List String → Type 0
Distinct [] = Unit
Distinct (x ∷ xs) = (contains x xs ≡ false) × Distinct xs

contains-append :
    (x y : String) (xs : List String)
    → contains x (xs ++ y ∷ []) ≡ (if y == x then true else contains x xs)
unfolding contains
contains-append x y [] = refl
contains-append x y (z ∷ xs) = ground (arith, contains-append x y xs)

append-Distinct :
    (x : String) (xs : List String) → contains x xs ≡ false → Distinct xs → Distinct (xs ++ x ∷ [])
unfolding contains
append-Distinct x [] h d = (refl, tt)
append-Distinct x (y ∷ xs) h d =
    ground (arith, contains-append y x xs, append-Distinct x xs, eq_iff x y, eq_iff y x)

add-Distinct : (x : String) (xs : List String) → Distinct xs → Distinct (add x xs)
unfolding add
add-Distinct x xs d = elim (Bool-cases (contains x xs)) [
  | inl old ↦ rw old d
  | inr new ↦ rw new (append-Distinct x xs new d)
]

-- Adding a client counts it once: the set stays free of repetitions, holds the client, and has one
-- more member exactly when the client is new.
pub add-counts :
    (x : String) (xs : List String)
    → (contains x (add x xs) ≡ true)
      × (length (add x xs) ≡ (if contains x xs then length xs else length xs + 1))
unfolding add
add-counts x xs = ground (arith, contains-append x x xs, eq_refl x, length-append xs (x ∷ []))

module _ {W : Type 0} (callbacks : Callbacks W) (python : Interpreter) (ids : Ids) (e : RlpEnvelope)
    (p : BindSessionPayload) (s : Handling W) where
  -- A client that may bind is bound: the handler holds it, and counts one client more exactly when it
  -- is new. It is answered with the details of the registry, if its prompts can be serialized, and
  -- these list the registry's revision and each of its tools, resources and prompts, in order, with
  -- their fields. Nothing but the set of clients changes.
  pub bind_session-bound :
      {details : Object}
      → MayBind s.handler p
      → build_snapshot_details s.registry ≡ ok details
      → let (r, s') = bind_session callbacks python ids e p s in
        let old = s.handler.bound_clients in
        (r ≡ ok (ok_response ids.response (identity s.handler) e details))
        × Lists s.registry details
        × (contains p.client_instance_id s'.handler.bound_clients ≡ true)
        × (length s'.handler.bound_clients
            ≡ (if contains p.client_instance_id old then length old else length old + 1))
        × (record s' { handler = record s'.handler { bound_clients = old } } ≡ s)
  bind_session-bound {details = details} may built =
      let (holds, counts) = add-counts p.client_instance_id s.handler.bound_clients in
      rw (bind_session_lem callbacks python ids e p s may built)
        (refl, build_snapshot_details-Lists s.registry details built, holds, counts, refl)
