-- ===== src/Mcp/Server/Calls.antt =====
-- The calls of tools: `KtsenseServer` of crates/ktsense-mcp/src/server.rs. The warm engines are the set of the
-- decided roots, absent when warming is switched off.
pub mod Warmed
use ktsense.Prelude.{
  ℕ, Bool, true, false, Option, none, some, List, [], ◌∷◌, if◌then◌else◌, Bytes, bytes_eq, codes,
}
use ktsense.Std.Results.{Result, ok, err}
use ktsense.Mcp.Warm.{Warmth, ensure}
use ktsense.Mcp.Roots.{resolve}
use ktsense.Mcp.Server.{
  Tool, Request, json, Invocation, CallToolResult, present, present_check, status,
}

pub record Server {ℓ} (W : Type ℓ) : Type ℓ where
  pub client_roots : Option (List Bytes)
  pub warm : Option (List Bytes)
  pub world : W

-- What the server calls: the runner, its default root, the state that a status report gives, the warmer
-- and its bound, and the client's answer about its roots, which a failure or a timeout leaves out.
pub record Outside {ℓ} (W : Type ℓ) : Type ℓ where
  pub run : Request → W → Result Invocation Bytes × W
  pub default_root : Bytes
  pub daemon_state : Bytes → Option Bytes
  pub open_engine : Bytes → W → Result (Unit {0}) Bytes × W
  pub cut : Bytes → W → Option W
  pub declares_roots : Bool
  pub list_roots : W → Option (List Bytes) × W
  pub exists_under : Bytes → Bytes → Bool
  pub canonicalize : Bytes → Option Bytes

abbrev pub listed : Option (List Bytes) → List Bytes
listed none = []
listed (some roots) = roots

abbrev pub is_running : Option Bytes → Bool
unfolding bytes_eq
is_running none = false
is_running (some state) = bytes_eq state (codes "running")

abbrev pub or_default : Bytes → Option Bytes → Bytes
or_default default none = default
or_default default (some root) = root

module _ {ℓ} {W : Type ℓ} (outside : Outside W) where
  unfoldable pub advertised_roots : W → List Bytes × W
  advertised_roots w =
      if outside.declares_roots
      then (let (answer, w') = outside.list_roots w in (listed answer, w'))
      else ([], w)

  unfoldable pub learn : Option (List Bytes) → Server W → Server W
  unfolding advertised_roots
  learn (some known) server = server
  learn none server =
      let (roots, w) = advertised_roots server.world in
      record server { client_roots = some roots; world = w }

  unfoldable pub learn_roots : Server W → Server W
  unfolding learn
  learn_roots server = learn server.client_roots server

  unfoldable pub on_roots_list_changed : Server W → Server W
  on_roots_list_changed server = record server { client_roots = none }

  unfoldable pub root_for : Server W → Option Bytes → Option Bytes → Option Bytes
  unfolding resolve
  root_for server call subject =
      resolve outside.exists_under outside.canonicalize (listed server.client_roots) call subject

  unfoldable pub report_running : Result Invocation Bytes × W → Bool × W
  unfolding is_running
  report_running (ok invocation, w) = (is_running (outside.daemon_state invocation.stdout), w)
  report_running (err reason, w) = (false, w)

  unfoldable pub daemon_holds : Bytes → W → Bool × W
  unfolding report_running
  daemon_holds root w =
      report_running
        (outside.run (record { args = status.cli_command ∷ []; root = some root; format = json }) w)

  unfoldable pub ensured : Bytes → Option (List Bytes) → Server W → Option Warmth × Server W
  unfolding ensure daemon_holds
  ensured root none server = (none, server)
  ensured root (some decided) server =
      let (warmth, (decided', w)) =
        ensure outside.open_engine outside.cut root (daemon_holds root) decided server.world in
      (some warmth, record server { warm = some decided'; world = w })

  unfoldable pub keep_warm : Tool → Request → Server W → Option Warmth × Server W
  unfolding ensured
  keep_warm tool request server =
      if tool.index_shapes_answer
      then ensured (or_default outside.default_root request.root) server.warm server
      else (none, server)

  unfoldable pub presented :
      Tool → Option Warmth → Result Invocation Bytes → Result CallToolResult Bytes
  unfolding present
  presented tool warmth (ok invocation) = ok (present tool invocation warmth)
  presented tool warmth (err reason) = err reason

  unfoldable pub invoke : Tool → Request → Server W → Result CallToolResult Bytes × Server W
  unfolding keep_warm presented
  invoke tool request server =
      let (warmth, warmed) = keep_warm tool request server in
      let (invocation, w) = outside.run request warmed.world in
      (presented tool warmth invocation, record warmed { world = w })

  unfoldable pub checked : Result Invocation Bytes → Result CallToolResult Bytes
  unfolding present_check
  checked (ok invocation) = ok (present_check invocation)
  checked (err reason) = err reason

  -- A syntax check asks for no warm engine.
  unfoldable pub invoke_check : Request → Server W → Result CallToolResult Bytes × Server W
  unfolding checked
  invoke_check request server =
      let (invocation, w) = outside.run request server.world in
      (checked invocation, record server { world = w })

  -- A call of a tool, its request made from the root: what is the call's own root, and what is its subject.
  unfoldable pub call_tool :
      Tool
      → (Option Bytes → Request)
      → Option Bytes
      → Option Bytes
      → Server W
      → Result CallToolResult Bytes × Server W
  unfolding learn_roots root_for invoke
  call_tool tool build call subject server =
      let learned = learn_roots server in
      invoke tool (build (root_for learned call subject)) learned

  -- The calls of `check_kotlin_syntax`.
  unfoldable pub call_check :
      (Option Bytes → Request)
      → Option Bytes
      → Option Bytes
      → Server W
      → Result CallToolResult Bytes × Server W
  unfolding learn_roots root_for invoke_check
  call_check build call subject server =
      let learned = learn_roots server in
      invoke_check (build (root_for learned call subject)) learned
