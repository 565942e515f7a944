-- ===== src/Mcp/Server/Calls/Warmed.antt =====
-- What calls of tools keep warm: `keep_warm` and `invoke` of crates/ktsense-mcp/src/server.rs.
use mathlib.Core.Path.{subst}
use ktsense.Prelude.{
  ◌≡◌, refl, ap, sym, ◌∙◌, Bool, true, false, Bool-cases, inl, inr, Option, none, some, List, [],
  ◌∷◌, arith, Bytes,
}
use ktsense.Mcp.Paths.{same_path, same_path_self}
use ktsense.Mcp.Warm.{decided, has_root, has_root-same_path, claim, when_claimed, ensure}
use ktsense.Mcp.Server.{Tool, Request}
use ktsense.Mcp.Server.Calls.{
  Server, Outside, learn, learn_roots, on_roots_list_changed, root_for, daemon_holds, or_default,
  ensured, keep_warm, presented, invoke, invoke_check, call_tool, call_check,
}

-- Warming is on, and the root has been decided.
abbrev pub HeldIn : Bytes → Option (List Bytes) → Type 0
HeldIn root none = ⊥
HeldIn root (some roots) = has_root root roots ≡ true

-- What may happen between two calls.
pub data CallEvent : Type 0 where
  tool_call : Tool → (Option Bytes → Request) → Option Bytes → Option Bytes → CallEvent
  check_call : (Option Bytes → Request) → Option Bytes → Option Bytes → CallEvent
  roots_changed : CallEvent

HeldIn-same_path :
    (a b : Bytes) (decided_roots : Option (List Bytes))
    → same_path a b ≡ true
    → HeldIn b decided_roots
    → HeldIn a decided_roots
HeldIn-same_path a b none e h = h
HeldIn-same_path a b (some roots) e h = has_root-same_path a b roots e ∙ h

has_root_self : (root : Bytes) (roots : List Bytes) → has_root root (root ∷ roots) ≡ true
unfolding has_root
has_root_self root roots = ground (arith, same_path_self root)

claim-holds :
    (root asked : Bytes) (roots : List Bytes)
    → has_root root roots ≡ true
    → has_root root (claim asked roots).1 ≡ true
unfolding claim has_root
claim-holds root asked roots h = ground arith

claim-asked : (asked : Bytes) (roots : List Bytes) → has_root asked (claim asked roots).1 ≡ true
unfolding claim
claim-asked asked roots = ground (arith, has_root_self asked roots)

module _ {ℓ} {W : Type ℓ} (outside : Outside W) where
  when_claimed-roots :
      (claimed : Bool × List Bytes) (root : Bytes) (holds : W → Bool × W) (w : W)
      → (when_claimed outside.open_engine outside.cut claimed root holds w).1.0 ≡ claimed.1
  unfolding when_claimed
  when_claimed-roots (true, roots) root holds w = refl
  when_claimed-roots (false, roots) root holds w = refl

  ensure-roots :
      (root : Bytes) (holds : W → Bool × W) (roots : List Bytes) (w : W)
      → (ensure outside.open_engine outside.cut root holds roots w).1.0 ≡ (claim root roots).1
  unfolding ensure
  ensure-roots root holds roots w = when_claimed-roots (claim root roots) root holds w

  ensured-holds :
      (root asked : Bytes) (decided_roots : Option (List Bytes)) (server : Server W)
      → server.warm ≡ decided_roots
      → HeldIn root decided_roots
      → HeldIn root (ensured outside asked decided_roots server).1.warm
  unfolding ensured
  ensured-holds root asked none server e h = absurd h
  ensured-holds root asked (some roots) server e h =
      ap (λ l. has_root root l) (ensure-roots asked (daemon_holds outside asked) roots server.world)
      ∙ claim-holds root asked roots h

  ensured-asked :
      (asked : Bytes) (roots : List Bytes) (server : Server W)
      → HeldIn asked (ensured outside asked (some roots) server).1.warm
  unfolding ensured
  ensured-asked asked roots server =
      ap (λ l. has_root asked l)
        (ensure-roots asked (daemon_holds outside asked) roots server.world)
      ∙ claim-asked asked roots

  keep_warm-holds :
      (root : Bytes) (tool : Tool) (request : Request) (server : Server W)
      → HeldIn root server.warm
      → HeldIn root (keep_warm outside tool request server).1.warm
  unfolding keep_warm
  keep_warm-holds root tool request server h = elim (Bool-cases tool.index_shapes_answer) [
    | inl shapes ↦ rw shapes (
        ensured-holds root (or_default outside.default_root request.root) server.warm server refl h)
    | inr other ↦ rw other h
  ]

  learn-warm :
      (known : Option (List Bytes)) (server : Server W)
      → (learn outside known server).warm ≡ server.warm
  unfolding learn
  learn-warm none server = refl
  learn-warm (some roots) server = refl

  unfoldable pub run_event : CallEvent → Server W → Server W
  run_event (tool_call tool build call subject) server =
      (call_tool outside tool build call subject server).1
  run_event (check_call build call subject) server =
      (call_check outside build call subject server).1
  run_event roots_changed server = on_roots_list_changed outside server

  unfoldable pub run_events : List CallEvent → Server W → Server W
  run_events [] server = server
  run_events (event ∷ events) server = run_events events (run_event event server)

  learned-holds :
      (root : Bytes) (server : Server W)
      → HeldIn root server.warm
      → HeldIn root (learn_roots outside server).warm
  unfolding learn_roots
  learned-holds root server h = subst (HeldIn root) (sym (learn-warm server.client_roots server)) h

  run_event-holds :
      (root : Bytes) (event : CallEvent) (server : Server W)
      → HeldIn root server.warm
      → HeldIn root (run_event event server).warm
  unfolding run_event call_tool call_check invoke invoke_check on_roots_list_changed
  run_event-holds root (tool_call tool build call subject) server h =
      keep_warm-holds root tool (build (root_for outside (learn_roots outside server) call subject))
        (learn_roots outside server) (learned-holds root server h)
  run_event-holds root (check_call build call subject) server h = learned-holds root server h
  run_event-holds root roots_changed server h = h

  run_events-holds :
      (root : Bytes) (events : List CallEvent) (server : Server W)
      → HeldIn root server.warm
      → HeldIn root (run_events events server).warm
  unfolding run_events
  run_events-holds root [] server h = h
  run_events-holds root (event ∷ events) server h =
      run_events-holds root events (run_event event server) (run_event-holds root event server h)

  ensured-held :
      (root : Bytes) (decided_roots : Option (List Bytes)) (server : Server W)
      → server.warm ≡ decided_roots
      → HeldIn root decided_roots
      → ensured outside root decided_roots server ≡ (some decided, server)
  unfolding ensured ensure claim when_claimed
  ensured-held root none server e h = absurd h
  ensured-held root (some roots) server e h =
      rw h (ap (λ known. (some decided, record server { warm = known })) (sym e))

  keep_warm-held :
      (root : Bytes) (tool : Tool) (request : Request) (server : Server W)
      → tool.index_shapes_answer ≡ true
      → same_path (or_default outside.default_root request.root) root ≡ true
      → HeldIn root server.warm
      → keep_warm outside tool request server ≡ (some decided, server)
  unfolding keep_warm
  keep_warm-held root tool request server shapes e h = rw shapes (
      ensured-held (or_default outside.default_root request.root) server.warm server refl
        (HeldIn-same_path (or_default outside.default_root request.root) root server.warm e h))

  invoke-asked :
      (tool : Tool) (request : Request) (server : Server W) (roots : List Bytes)
      → tool.index_shapes_answer ≡ true
      → server.warm ≡ some roots
      → HeldIn
          (or_default outside.default_root request.root)
          (invoke outside tool request server).1.warm
  unfolding invoke keep_warm
  invoke-asked tool request server roots shapes on =
      rw (shapes, on) (ensured-asked (or_default outside.default_root request.root) roots server)

  -- Once a tool whose answer the index shapes has been called for a root, with warming on, a later call
  -- of such a tool for an equal path only runs its command: whatever calls and changes of the client's
  -- roots come in between, and whatever the runner, the daemon, the engines and the clock do, it asks no
  -- daemon, opens no engine, leaves the decided roots as they were, and presents what the command
  -- answered as of a root that was decided before.
  pub invoke-warms_once :
      (tool : Tool) (request : Request) (server : Server W) (roots : List Bytes)
      (events : List CallEvent) (later_tool : Tool) (later_request : Request)
      → tool.index_shapes_answer ≡ true
      → later_tool.index_shapes_answer ≡ true
      → server.warm ≡ some roots
      → same_path
          (or_default outside.default_root later_request.root)
          (or_default outside.default_root request.root)
        ≡ true
      → let after = run_events events (invoke outside tool request server).1 in
        let (answer, world) = outside.run later_request after.world in
        invoke outside later_tool later_request after
        ≡ (presented outside later_tool (some decided) answer, record after { world = world })
  unfolding invoke
  invoke-warms_once tool request server roots events later_tool later_request shapes later_shapes on
        same =
      let root = or_default outside.default_root request.root in
      let called = (invoke outside tool request server).1 in
      let after = run_events events called in
      let held =
        keep_warm-held root later_tool later_request after later_shapes same (
          run_events-holds root events called (invoke-asked tool request server roots shapes on)) in
      ap
        (λ kept.
          let (answer, world) = outside.run later_request kept.1.world in
          (presented outside later_tool kept.0 answer, record kept.1 { world = world }))
        held
