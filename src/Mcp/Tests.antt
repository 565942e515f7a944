-- ===== src/Mcp/Tests.antt =====
-- The MCP server of crates/ktsense-mcp on concrete answers and calls.
use ktsense.Prelude.{
  ℕ, ◌+◌, ◌≡◌, ◌||◌, ◌⊎◌, refl, Bool, true, false, Option, none, some, List, [], ◌∷◌, ◌++◌, Bytes,
  codes,
}
use ktsense.Std.Results.{Result, ok}
use ktsense.Mcp.Citations.{scan_of}
use ktsense.Mcp.Citations.Citing.{IsIndex}
use ktsense.Mcp.Citations.Index.{scan_of-IsIndex}
use ktsense.Mcp.Paths.{same_path}
use ktsense.Mcp.Warm.{Warmth, ensure}
use ktsense.Mcp.Warm.Once.{ensure_all, decisions, due, ensure_all-decisions}
use ktsense.Mcp.Roots.{resolve, first_root}
use ktsense.Mcp.Roots.Resolve.{FirstHolding, NoneHolds, resolve-first}
use ktsense.Mcp.Server.{
  Invocation, Request, md, present_check, symbols, trace, outline, deps, map_tool, check, context,
  status, grep,
}
use ktsense.Mcp.Server.Check.{Says, reported, present_check-Says}
use ktsense.Mcp.Server.Arguments.{
  OutlineParams, SymbolParams, TraceParams, MapParams, ContextParams, GrepParams,
  get_kotlin_outline, find_kotlin_symbol, trace_kotlin_symbol, analyze_kotlin_dependencies,
  get_kotlin_repo_map, check_kotlin_syntax, explain_kotlin_symbol, ktsense_status,
  search_kotlin_text, given,
}
use ktsense.Mcp.Server.Arguments.Groups.{
  Runs, word, maybe_word, switch, valued, numbered, with_commas, each, asked_for, test_scope,
}
use ktsense.Mcp.Server.Arguments.Requests.{tools-Runs}
use ktsense.Mcp.Server.Calls.{Server, Outside, presented, invoke}
use ktsense.Mcp.Server.Calls.Warmed.{roots_changed, run_events, invoke-warms_once}

abbrev usages : Bytes
usages =
    codes "index: partial"
    ++ (b'\n' ∷ codes "a/B.kt")
    ++ (b'\n' ∷ codes "- 12 in B.save")
    ++ (b'\n' ∷ codes "see a/C.kt:7:3")

two_citations :
    (scan_of usages).citations
    ≡ record { path = codes "a/B.kt"; line = 12; column = none }
      ∷ record { path = codes "a/C.kt"; line = 7; column = some 3 }
      ∷ []
unfolding scan_of
two_citations = refl

scan_of-IsIndex_example : IsIndex (scan_of usages)
scan_of-IsIndex_example = scan_of-IsIndex usages

-- An engine that opens whenever it is asked; the world counts how often.
abbrev opens : Bytes → ℕ → Result (Unit {0}) Bytes × ℕ
opens root n = (ok tt, n + 1)

abbrev never_cut : Bytes → ℕ → Option ℕ
never_cut root n = none

abbrev no_daemon : Bytes → ℕ → Bool × ℕ
no_daemon root n = (false, n)

-- One root twice, the second time with a slash at its end, and another root.
abbrev three_requests : List Bytes
three_requests = codes "/w" ∷ codes "/v" ∷ codes "/w/" ∷ []

ensure_all-decisions_example :
    decisions opens never_cut no_daemon
      (codes "/w")
      (ensure_all opens never_cut no_daemon three_requests [] 0).0
    ≡ due opens never_cut no_daemon (codes "/w") three_requests []
ensure_all-decisions_example =
    ensure_all-decisions opens never_cut no_daemon three_requests [] 0 (codes "/w")

decided_once :
    decisions opens never_cut no_daemon
      (codes "/w")
      (ensure_all opens never_cut no_daemon three_requests [] 0).0
    ≡ 1
unfolding ensure_all decisions ensure
decided_once = refl

abbrev exists_nowhere : Bytes → Bytes → Bool
exists_nowhere root subject = false

abbrev resolves_nothing : Bytes → Option Bytes
resolves_nothing path = none

abbrev two_roots : List Bytes
two_roots = codes "/a" ∷ codes "/b" ∷ []

resolve-first_example :
    ((root : Bytes) × ((resolve exists_nowhere resolves_nothing two_roots none
            (some (codes "/b/C.kt"))
          ≡ some root)
        × FirstHolding exists_nowhere resolves_nothing two_roots (codes "/b/C.kt") root))
    ⊎ ((resolve exists_nowhere resolves_nothing two_roots none (some (codes "/b/C.kt"))
          ≡ first_root exists_nowhere resolves_nothing two_roots)
        × NoneHolds exists_nowhere resolves_nothing two_roots (codes "/b/C.kt"))
resolve-first_example = resolve-first exists_nowhere resolves_nothing two_roots (codes "/b/C.kt")

abbrev failed_check : Invocation
failed_check = record {
  code = some 1;
  stdout = codes "B.kt:3:1: error";
  stderr = [];
  root = codes "/w";
}

present_check-Says_example :
    Says failed_check.code (reported failed_check) (present_check failed_check)
present_check-Says_example = present_check-Says failed_check

abbrev outside : Outside ℕ
outside = record {
  run = λ request n. (ok failed_check, n);
  default_root = codes "/w";
  daemon_state = λ report. none;
  open_engine = opens;
  cut = never_cut;
  declares_roots = true;
  list_roots = λ n. (some two_roots, n);
  exists_under = exists_nowhere;
  canonicalize = resolves_nothing;
}

abbrev fresh_server : Server ℕ
fresh_server = record { client_roots = none; warm = some []; world = 0 }

abbrev plain_request : Request
plain_request = record { args = []; root = none; format = md }

abbrev rooted_request : Request
rooted_request = record { args = []; root = some (codes "/w"); format = md }

invoke-warms_once_example :
    let after =
      run_events outside
        (roots_changed ∷ [])
        (invoke outside symbols plain_request fresh_server).1 in
    let (answer, world) = outside.run rooted_request after.world in
    invoke outside trace rooted_request after
    ≡ (presented outside trace (some Warmth.decided) answer, record after { world = world })
invoke-warms_once_example =
    invoke-warms_once outside symbols plain_request fresh_server [] (roots_changed ∷ []) trace
      rooted_request refl refl refl (unfold same_path in refl)

abbrev a_file : OutlineParams
a_file = record { file = codes "A.kt"; private = true; kdoc = false; annotations = false }

abbrev a_name : SymbolParams
a_name = record {
  query = some (codes "A");
  kind = none;
  limit = some 5;
  pick = none;
  contains = true;
}

abbrev a_trace : TraceParams
a_trace = record {
  symbol = some (codes "A");
  pick = none;
  depth = some 2;
  limit = none;
  path = codes "a" ∷ [];
  tests = some true;
}

abbrev a_map : MapParams
a_map = record {
  budget = some 100;
  compact = false;
  focus = some (codes "A");
  fill = false;
  path = [];
}

abbrev a_context : ContextParams
a_context = record {
  symbol = none;
  pick = some (codes "a.A");
  budget = none;
  only = codes "source" ∷ [];
  match_pattern = none;
  around = some 2;
  path = [];
  tests = some false;
}

abbrev a_grep : GrepParams
a_grep = record {
  pattern = codes "A";
  path = none;
  tests = none;
  kotlin_only = some true;
  word = none;
  ignore_case = some true;
  fixed_strings = none;
  limit = some 3;
}

abbrev at_w : Option Bytes
at_w = some (codes "/w")

tools-Runs_example :
    ((Runs outline at_w
          (word a_file.file
            ∷ switch (codes "--private") a_file.private
            ∷ switch (codes "--kdoc") a_file.kdoc
            ∷ switch (codes "--annotations") a_file.annotations
            ∷ [])
          (get_kotlin_outline a_file at_w)
        × Runs symbols at_w
            (maybe_word a_name.query
              ∷ valued (codes "--kind") a_name.kind
              ∷ numbered (codes "--limit") a_name.limit
              ∷ valued (codes "--pick") a_name.pick
              ∷ switch (codes "--contains") a_name.contains
              ∷ [])
            (find_kotlin_symbol a_name at_w))
      × (Runs trace at_w
            (maybe_word a_trace.symbol
              ∷ valued (codes "--pick") a_trace.pick
              ∷ numbered (codes "--depth") a_trace.depth
              ∷ numbered (codes "--limit") a_trace.limit
              ∷ each (codes "--path") a_trace.path
              ∷ test_scope a_trace.tests
              ∷ [])
            (trace_kotlin_symbol a_trace at_w)
          × Runs deps at_w
              (valued (codes "--level") none ∷ [])
              (analyze_kotlin_dependencies none at_w)))
    × ((Runs map_tool at_w
            (numbered (codes "--budget") a_map.budget
              ∷ switch (codes "--compact") (a_map.compact || given a_map.focus)
              ∷ valued (codes "--focus") a_map.focus
              ∷ switch (codes "--fill") a_map.fill
              ∷ each (codes "--path") a_map.path
              ∷ [])
            (get_kotlin_repo_map a_map at_w)
          × Runs check at_w (word (codes "A.kt") ∷ []) (check_kotlin_syntax (codes "A.kt") at_w))
        × ((Runs context at_w
                (maybe_word a_context.symbol
                  ∷ valued (codes "--pick") a_context.pick
                  ∷ numbered (codes "--budget") a_context.budget
                  ∷ with_commas (codes "--only") a_context.only
                  ∷ valued (codes "--match") a_context.match_pattern
                  ∷ numbered (codes "--around") a_context.around
                  ∷ each (codes "--path") a_context.path
                  ∷ test_scope a_context.tests
                  ∷ [])
                (explain_kotlin_symbol a_context at_w)
              × Runs status at_w [] (ktsense_status at_w))
            × Runs grep at_w
                (word a_grep.pattern
                  ∷ valued (codes "--path") a_grep.path
                  ∷ test_scope a_grep.tests
                  ∷ asked_for (codes "--kotlin-only") a_grep.kotlin_only
                  ∷ asked_for (codes "--word") a_grep.word
                  ∷ asked_for (codes "--ignore-case") a_grep.ignore_case
                  ∷ asked_for (codes "--fixed-strings") a_grep.fixed_strings
                  ∷ numbered (codes "--limit") a_grep.limit
                  ∷ [])
                (search_kotlin_text a_grep at_w)))
tools-Runs_example =
    tools-Runs at_w a_file a_name a_trace none a_map (codes "A.kt") a_context a_grep
