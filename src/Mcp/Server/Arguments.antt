-- ===== src/Mcp/Server/Arguments.antt =====
-- The command lines of the tools: `Args` and the handlers of crates/ktsense-mcp/src/server.rs. Each handler
-- stands here as the request that it builds, given the root; numbers are printed in decimal.
pub mod Groups
pub mod Requests
use ktsense.Prelude.{
  ℕ, Bool, true, false, ◌||◌, Option, none, some, List, [], ◌∷◌, ◌++◌, if◌then◌else◌, Bytes, codes,
  bytes_eq,
}
use ktsense.Std.Str.{join_with}
use ktsense.Std.Number.{decimal}
use ktsense.Mcp.Server.{
  Tool, Request, md, outline, symbols, trace, deps, map_tool, check, context, status, grep,
}

abbrev pub for_tool : Tool → Option Bytes → Request
for_tool tool root = record { args = tool.cli_command ∷ []; root = root; format = md }

abbrev pub push_arg : Bytes → Request → Request
push_arg value request = record request { args = request.args ++ (value ∷ []) }

unfoldable pub positional : Bytes → Request → Request
positional value request = push_arg value request

unfoldable pub maybe_positional : Option Bytes → Request → Request
unfolding positional
maybe_positional none request = request
maybe_positional (some value) request = positional value request

abbrev pub long_name : Bytes → Bytes
long_name name = codes "--" ++ name

unfoldable pub flag : Bytes → Bool → Request → Request
flag name true request = push_arg (long_name name) request
flag name false request = request

unfoldable pub option : Bytes → Option Bytes → Request → Request
option name none request = request
option name (some value) request = push_arg value (push_arg (long_name name) request)

abbrev pub printed : Option ℕ → Option Bytes
unfolding decimal
printed none = none
printed (some n) = some (decimal n)

unfoldable pub option_list : Bytes → List Bytes → Request → Request
unfolding join_with
option_list name [] request = request
option_list name (value ∷ values) request =
    push_arg (join_with b',' (value ∷ values)) (push_arg (long_name name) request)

unfoldable pub repeated_option : Bytes → List Bytes → Request → Request
repeated_option name [] request = request
repeated_option name (value ∷ values) request =
    repeated_option name values (push_arg value (push_arg (long_name name) request))

abbrev pub is_some_of : Bool → Option Bool → Bool
is_some_of wanted none = false
is_some_of true (some given) = given
is_some_of false (some given) = if given then false else true

abbrev pub given : Option Bytes → Bool
given none = false
given (some value) = true

pub record OutlineParams : Type 0 where
  pub file : Bytes
  pub private : Bool
  pub kdoc : Bool
  pub annotations : Bool

pub record SymbolParams : Type 0 where
  pub query : Option Bytes
  pub kind : Option Bytes
  pub limit : Option ℕ
  pub pick : Option Bytes
  pub contains : Bool

pub record TraceParams : Type 0 where
  pub symbol : Option Bytes
  pub pick : Option Bytes
  pub depth : Option ℕ
  pub limit : Option ℕ
  pub path : List Bytes
  pub tests : Option Bool

pub record MapParams : Type 0 where
  pub budget : Option ℕ
  pub compact : Bool
  pub focus : Option Bytes
  pub fill : Bool
  pub path : List Bytes

pub record ContextParams : Type 0 where
  pub symbol : Option Bytes
  pub pick : Option Bytes
  pub budget : Option ℕ
  pub only : List Bytes
  pub match_pattern : Option Bytes
  pub around : Option ℕ
  pub path : List Bytes
  pub tests : Option Bool

pub record GrepParams : Type 0 where
  pub pattern : Bytes
  pub path : Option Bytes
  pub tests : Option Bool
  pub kotlin_only : Option Bool
  pub word : Option Bool
  pub ignore_case : Option Bool
  pub fixed_strings : Option Bool
  pub limit : Option ℕ

-- `--tests` for test sources, `--no-tests` for the others.
abbrev pub test_flags : Option Bool → Request → Request
unfolding flag
test_flags tests request =
    flag (codes "no-tests") (is_some_of false tests)
      (flag (codes "tests") (is_some_of true tests) request)

unfoldable pub get_kotlin_outline : OutlineParams → Option Bytes → Request
unfolding positional flag
get_kotlin_outline params root = flag (codes "annotations") params.annotations (
    flag (codes "kdoc") params.kdoc
      (flag (codes "private") params.private (positional params.file (for_tool outline root))))

unfoldable pub find_kotlin_symbol : SymbolParams → Option Bytes → Request
unfolding maybe_positional flag option
find_kotlin_symbol params root = flag (codes "contains") params.contains (
    option (codes "pick") params.pick (
      option (codes "limit") (printed params.limit) (
        option (codes "kind") params.kind (maybe_positional params.query (for_tool symbols root)))))

unfoldable pub trace_kotlin_symbol : TraceParams → Option Bytes → Request
unfolding maybe_positional option repeated_option test_flags
trace_kotlin_symbol params root = test_flags params.tests (
    repeated_option (codes "path") params.path (
      option (codes "limit") (printed params.limit) (
        option (codes "depth") (printed params.depth) (
          option (codes "pick") params.pick
            (maybe_positional params.symbol (for_tool trace root))))))

unfoldable pub analyze_kotlin_dependencies : Option Bytes → Option Bytes → Request
unfolding option
analyze_kotlin_dependencies level root = option (codes "level") level (for_tool deps root)

unfoldable pub get_kotlin_repo_map : MapParams → Option Bytes → Request
unfolding flag option repeated_option
get_kotlin_repo_map params root = repeated_option (codes "path") params.path (
    flag (codes "fill") params.fill (
      option (codes "focus") params.focus (
        flag (codes "compact") (params.compact || given params.focus)
          (option (codes "budget") (printed params.budget) (for_tool map_tool root)))))

unfoldable pub check_kotlin_syntax : Bytes → Option Bytes → Request
unfolding positional
check_kotlin_syntax path root = positional path (for_tool check root)

unfoldable pub explain_kotlin_symbol : ContextParams → Option Bytes → Request
unfolding maybe_positional option option_list repeated_option test_flags
explain_kotlin_symbol params root = test_flags params.tests (
    repeated_option (codes "path") params.path (
      option (codes "around") (printed params.around) (
        option (codes "match") params.match_pattern (
          option_list (codes "only") params.only (
            option (codes "budget") (printed params.budget) (
              option (codes "pick") params.pick
                (maybe_positional params.symbol (for_tool context root))))))))

unfoldable pub ktsense_status : Option Bytes → Request
ktsense_status root = for_tool status root

unfoldable pub search_kotlin_text : GrepParams → Option Bytes → Request
unfolding positional flag option test_flags
search_kotlin_text params root = option (codes "limit") (printed params.limit) (
    flag (codes "fixed-strings") (is_some_of true params.fixed_strings) (
      flag (codes "ignore-case") (is_some_of true params.ignore_case) (
        flag (codes "word") (is_some_of true params.word) (
          flag (codes "kotlin-only") (is_some_of true params.kotlin_only) (
            test_flags params.tests (
              option (codes "path") params.path
                (positional params.pattern (for_tool grep root))))))))
