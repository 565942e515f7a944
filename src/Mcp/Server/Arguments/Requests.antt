-- ===== src/Mcp/Server/Arguments/Requests.antt =====
-- The requests that the tools make: `Args` and the handlers of crates/ktsense-mcp/src/server.rs.
use ktsense.Prelude.{◌≡◌, refl, ◌||◌, Option, [], ◌∷◌, Bytes, codes}
use ktsense.Mcp.Server.{Tool, outline, symbols, trace, deps, map_tool, check, context, status, grep}
use ktsense.Mcp.Server.Arguments.{
  given, OutlineParams, SymbolParams, TraceParams, MapParams, ContextParams, GrepParams,
  get_kotlin_outline, find_kotlin_symbol, trace_kotlin_symbol, analyze_kotlin_dependencies,
  get_kotlin_repo_map, check_kotlin_syntax, explain_kotlin_symbol, ktsense_status,
  search_kotlin_text,
}
use ktsense.Mcp.Server.Arguments.Groups.{
  and_positional, and_maybe, and_flag, and_option, and_number, and_list, and_each, and_asked,
  and_tests, word, maybe_word, switch, valued, numbered, with_commas, each, asked_for, test_scope,
  Runs, With,
}

module _ (root : Option Bytes) where
  get_kotlin_outline-Runs :
      (p : OutlineParams)
      → Runs outline root
          (word p.file
            ∷ switch (codes "--private") p.private
            ∷ switch (codes "--kdoc") p.kdoc
            ∷ switch (codes "--annotations") p.annotations
            ∷ [])
          (get_kotlin_outline p root)
  unfolding get_kotlin_outline
  get_kotlin_outline-Runs p =
      let t : Tool = outline in
      let start : With t root [] ≡ With t root [] = refl in
      let r0 = and_positional t root start p.file in
      let r1 = and_flag t root r0 (codes "private") p.private in
      let r2 = and_flag t root r1 (codes "kdoc") p.kdoc in
      and_flag t root r2 (codes "annotations") p.annotations

  find_kotlin_symbol-Runs :
      (p : SymbolParams)
      → Runs symbols root
          (maybe_word p.query
            ∷ valued (codes "--kind") p.kind
            ∷ numbered (codes "--limit") p.limit
            ∷ valued (codes "--pick") p.pick
            ∷ switch (codes "--contains") p.contains
            ∷ [])
          (find_kotlin_symbol p root)
  unfolding find_kotlin_symbol
  find_kotlin_symbol-Runs p =
      let t : Tool = symbols in
      let start : With t root [] ≡ With t root [] = refl in
      let r0 = and_maybe t root start p.query in
      let r1 = and_option t root r0 (codes "kind") p.kind in
      let r2 = and_number t root r1 (codes "limit") p.limit in
      let r3 = and_option t root r2 (codes "pick") p.pick in
      and_flag t root r3 (codes "contains") p.contains

  trace_kotlin_symbol-Runs :
      (p : TraceParams)
      → Runs trace root
          (maybe_word p.symbol
            ∷ valued (codes "--pick") p.pick
            ∷ numbered (codes "--depth") p.depth
            ∷ numbered (codes "--limit") p.limit
            ∷ each (codes "--path") p.path
            ∷ test_scope p.tests
            ∷ [])
          (trace_kotlin_symbol p root)
  unfolding trace_kotlin_symbol
  trace_kotlin_symbol-Runs p =
      let t : Tool = trace in
      let start : With t root [] ≡ With t root [] = refl in
      let r0 = and_maybe t root start p.symbol in
      let r1 = and_option t root r0 (codes "pick") p.pick in
      let r2 = and_number t root r1 (codes "depth") p.depth in
      let r3 = and_number t root r2 (codes "limit") p.limit in
      let r4 = and_each t root r3 (codes "path") p.path in and_tests t root r4 p.tests

  get_kotlin_repo_map-Runs :
      (p : MapParams)
      → Runs map_tool root
          (numbered (codes "--budget") p.budget
            ∷ switch (codes "--compact") (p.compact || given p.focus)
            ∷ valued (codes "--focus") p.focus
            ∷ switch (codes "--fill") p.fill
            ∷ each (codes "--path") p.path
            ∷ [])
          (get_kotlin_repo_map p root)
  unfolding get_kotlin_repo_map
  get_kotlin_repo_map-Runs p =
      let t : Tool = map_tool in
      let start : With t root [] ≡ With t root [] = refl in
      let r0 = and_number t root start (codes "budget") p.budget in
      let r1 = and_flag t root r0 (codes "compact") (p.compact || given p.focus) in
      let r2 = and_option t root r1 (codes "focus") p.focus in
      let r3 = and_flag t root r2 (codes "fill") p.fill in and_each t root r3 (codes "path") p.path

  explain_kotlin_symbol-Runs :
      (p : ContextParams)
      → Runs context root
          (maybe_word p.symbol
            ∷ valued (codes "--pick") p.pick
            ∷ numbered (codes "--budget") p.budget
            ∷ with_commas (codes "--only") p.only
            ∷ valued (codes "--match") p.match_pattern
            ∷ numbered (codes "--around") p.around
            ∷ each (codes "--path") p.path
            ∷ test_scope p.tests
            ∷ [])
          (explain_kotlin_symbol p root)
  unfolding explain_kotlin_symbol
  explain_kotlin_symbol-Runs p =
      let t : Tool = context in
      let start : With t root [] ≡ With t root [] = refl in
      let r0 = and_maybe t root start p.symbol in
      let r1 = and_option t root r0 (codes "pick") p.pick in
      let r2 = and_number t root r1 (codes "budget") p.budget in
      let r3 = and_list t root r2 (codes "only") p.only in
      let r4 = and_option t root r3 (codes "match") p.match_pattern in
      let r5 = and_number t root r4 (codes "around") p.around in
      let r6 = and_each t root r5 (codes "path") p.path in and_tests t root r6 p.tests

  search_kotlin_text-Runs :
      (p : GrepParams)
      → Runs grep root
          (word p.pattern
            ∷ valued (codes "--path") p.path
            ∷ test_scope p.tests
            ∷ asked_for (codes "--kotlin-only") p.kotlin_only
            ∷ asked_for (codes "--word") p.word
            ∷ asked_for (codes "--ignore-case") p.ignore_case
            ∷ asked_for (codes "--fixed-strings") p.fixed_strings
            ∷ numbered (codes "--limit") p.limit
            ∷ [])
          (search_kotlin_text p root)
  unfolding search_kotlin_text
  search_kotlin_text-Runs p =
      let t : Tool = grep in
      let start : With t root [] ≡ With t root [] = refl in
      let r0 = and_positional t root start p.pattern in
      let r1 = and_option t root r0 (codes "path") p.path in
      let r2 = and_tests t root r1 p.tests in
      let r3 = and_asked t root r2 (codes "kotlin-only") p.kotlin_only in
      let r4 = and_asked t root r3 (codes "word") p.word in
      let r5 = and_asked t root r4 (codes "ignore-case") p.ignore_case in
      let r6 = and_asked t root r5 (codes "fixed-strings") p.fixed_strings in
      and_number t root r6 (codes "limit") p.limit

  analyze_kotlin_dependencies-Runs :
      (p : Option Bytes)
      → Runs deps root (valued (codes "--level") p ∷ []) (analyze_kotlin_dependencies p root)
  unfolding analyze_kotlin_dependencies
  analyze_kotlin_dependencies-Runs p =
      let t : Tool = deps in
      let start : With t root [] ≡ With t root [] = refl in
      and_option t root start (codes "level") p

  check_kotlin_syntax-Runs :
      (p : Bytes) → Runs check root (word p ∷ []) (check_kotlin_syntax p root)
  unfolding check_kotlin_syntax
  check_kotlin_syntax-Runs p =
      let t : Tool = check in
      let start : With t root [] ≡ With t root [] = refl in and_positional t root start p

  -- Whatever its parameters, the request of each of the nine tools is the tool's own command with exactly
  -- the arguments that these groups list for the parameters, in their order, in the root that the call
  -- resolved, answered in Markdown: a switch when it is set, an option with its value when there is one,
  -- a list joined by commas or repeated, and `--compact` also when a focus is given.
  pub tools-Runs :
      (o : OutlineParams) (s : SymbolParams) (t : TraceParams) (level : Option Bytes)
      (m : MapParams) (path : Bytes) (c : ContextParams) (g : GrepParams)
      → ((Runs outline root
              (word o.file
                ∷ switch (codes "--private") o.private
                ∷ switch (codes "--kdoc") o.kdoc
                ∷ switch (codes "--annotations") o.annotations
                ∷ [])
              (get_kotlin_outline o root)
            × Runs symbols root
                (maybe_word s.query
                  ∷ valued (codes "--kind") s.kind
                  ∷ numbered (codes "--limit") s.limit
                  ∷ valued (codes "--pick") s.pick
                  ∷ switch (codes "--contains") s.contains
                  ∷ [])
                (find_kotlin_symbol s root))
          × (Runs trace root
                (maybe_word t.symbol
                  ∷ valued (codes "--pick") t.pick
                  ∷ numbered (codes "--depth") t.depth
                  ∷ numbered (codes "--limit") t.limit
                  ∷ each (codes "--path") t.path
                  ∷ test_scope t.tests
                  ∷ [])
                (trace_kotlin_symbol t root)
              × Runs deps root
                  (valued (codes "--level") level ∷ [])
                  (analyze_kotlin_dependencies level root)))
        × ((Runs map_tool root
                (numbered (codes "--budget") m.budget
                  ∷ switch (codes "--compact") (m.compact || given m.focus)
                  ∷ valued (codes "--focus") m.focus
                  ∷ switch (codes "--fill") m.fill
                  ∷ each (codes "--path") m.path
                  ∷ [])
                (get_kotlin_repo_map m root)
              × Runs check root (word path ∷ []) (check_kotlin_syntax path root))
            × ((Runs context root
                    (maybe_word c.symbol
                      ∷ valued (codes "--pick") c.pick
                      ∷ numbered (codes "--budget") c.budget
                      ∷ with_commas (codes "--only") c.only
                      ∷ valued (codes "--match") c.match_pattern
                      ∷ numbered (codes "--around") c.around
                      ∷ each (codes "--path") c.path
                      ∷ test_scope c.tests
                      ∷ [])
                    (explain_kotlin_symbol c root)
                  × Runs status root [] (ktsense_status root))
                × Runs grep root
                    (word g.pattern
                      ∷ valued (codes "--path") g.path
                      ∷ test_scope g.tests
                      ∷ asked_for (codes "--kotlin-only") g.kotlin_only
                      ∷ asked_for (codes "--word") g.word
                      ∷ asked_for (codes "--ignore-case") g.ignore_case
                      ∷ asked_for (codes "--fixed-strings") g.fixed_strings
                      ∷ numbered (codes "--limit") g.limit
                      ∷ [])
                    (search_kotlin_text g root)))
  unfolding ktsense_status
  tools-Runs o s t level m path c g = (
    (
      (get_kotlin_outline-Runs o, find_kotlin_symbol-Runs s),
      (trace_kotlin_symbol-Runs t, analyze_kotlin_dependencies-Runs level),
    ),
    (
      (get_kotlin_repo_map-Runs m, check_kotlin_syntax-Runs path),
      ((explain_kotlin_symbol-Runs c, refl), search_kotlin_text-Runs g),
    ),
  )
