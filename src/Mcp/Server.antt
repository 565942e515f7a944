-- ===== src/Mcp/Server.antt =====
-- The tools and their answers: crates/ktsense-mcp/src/lib.rs, crates/ktsense-mcp/src/server.rs and `Answer` of
-- crates/ktsense-mcp/src/citations.rs. The runner, the client's list of roots and the reading of the status
-- report are parameters over a world `W`; JSON results are the values that they stand for.
pub mod Arguments
pub mod Calls
pub mod Check
use Prim.Native.String.{String}
use ktsense.Prelude.{
  ℕ, ◌+◌, Bool, true, false, not, ◌&&◌, ◌||◌, Option, none, some, List, [], ◌∷◌, ◌++◌, map,
  if◌then◌else◌, ◌==◌, Bytes, bytes_eq, codes, length,
}
use ktsense.Std.Str.{trim}
use ktsense.Std.Results.{Result, ok, err}
use ktsense.Mcp.Citations.{Citation, Scan, scan_of}
use ktsense.Mcp.Warm.{Warmth, label}

pub data Requirement : Type 0 where
  nothing engine engine_index : Requirement

abbrev pub requirement_label : Requirement → Bytes
requirement_label nothing = codes "nothing"
requirement_label engine = codes "kmp-lsp"
requirement_label engine_index = codes "kmp-lsp and a settled index"

pub record Tool : Type 0 where
  pub name : Bytes
  pub cli_command : Bytes
  pub requires : Requirement
  pub index_shapes_answer : Bool

pub data Format : Type 0 where
  md json : Format

pub record Request : Type 0 where
  pub args : List Bytes
  pub root : Option Bytes
  pub format : Format

-- An exit status, absent for a child that a signal ended.
pub record Invocation : Type 0 where
  pub code : Option ℕ
  pub stdout : Bytes
  pub stderr : Bytes
  pub root : Bytes

pub record Answer : Type 0 where
  pub tool : Bytes
  pub command : Bytes
  pub requires : Bytes
  pub root : Bytes
  pub exit : Option ℕ
  pub index : Option Bytes
  pub warmth : Option Bytes
  pub outcome : Option Bytes
  pub findings : Option ℕ
  pub files : List Bytes
  pub citations : List Citation
  pub citations_omitted : ℕ

pub record CallToolResult : Type 0 where
  pub is_error : Bool
  pub content : Bytes
  pub structured_content : Answer

abbrev pub warmth_label : Option Warmth → Option Bytes
warmth_label none = none
warmth_label (some warmth) = some (label warmth)

unfoldable pub index_answer : Tool → Bytes → Option ℕ → Option Warmth → Bytes → Answer
unfolding scan_of
index_answer tool root exit warmth text =
    let scan = scan_of text in
    record {
      tool = tool.name;
      command = tool.cli_command;
      requires = requirement_label tool.requires;
      root = root;
      exit = exit;
      index = scan.index;
      warmth = warmth_label warmth;
      outcome = none;
      findings = none;
      files = scan.files;
      citations = scan.citations;
      citations_omitted = scan.omitted;
    }

abbrev pub is_answer_exit : Option ℕ → Bool
is_answer_exit none = false
is_answer_exit (some code) = code == 0 || code == 3

-- The text of an invocation that answered, or of one that failed.
unfoldable pub result_text : Bool → Invocation → Bytes
unfolding trim bytes_eq
result_text true invocation = invocation.stdout
result_text false invocation =
    if bytes_eq (trim invocation.stderr) [] then trim invocation.stdout else trim invocation.stderr

unfoldable pub present : Tool → Invocation → Option Warmth → CallToolResult
unfolding result_text index_answer
present tool invocation warmth =
    let answered = is_answer_exit invocation.code in
    let text = result_text answered invocation in
    record {
      is_error = not answered;
      content = text;
      structured_content = index_answer tool invocation.root invocation.code warmth text;
    }

pub data CheckOutcome : Type 0 where
  clean findings execution_failure : CheckOutcome

-- By the exit status, and whether a report stands on stdout with nothing on stderr.
abbrev pub outcome_of : Option ℕ → Bool → CheckOutcome
outcome_of none reported = execution_failure
outcome_of (some code) reported =
    if code == 0 then clean else if code == 1 && reported then findings else execution_failure

unfoldable pub classify : Invocation → CheckOutcome
unfolding trim bytes_eq
classify invocation =
    outcome_of invocation.code
      (not (bytes_eq (trim invocation.stdout) []) && bytes_eq (trim invocation.stderr) [])

abbrev pub outcome_label : CheckOutcome → Bytes
outcome_label clean = codes "clean"
outcome_label findings = codes "findings"
outcome_label execution_failure = codes "execution_failure"

abbrev pub is_answer : CheckOutcome → Bool
is_answer clean = true
is_answer findings = true
is_answer execution_failure = false

abbrev pub finding_count : CheckOutcome → Answer → Option ℕ
finding_count clean answer = some 0
finding_count findings answer = some (length answer.citations + answer.citations_omitted)
finding_count execution_failure answer = none

abbrev pub tool_of : String → String → Requirement → Bool → Tool
tool_of name command requires shapes = record {
  name = codes name;
  cli_command = codes command;
  requires = requires;
  index_shapes_answer = shapes;
}

abbrev pub outline : Tool
outline = tool_of "get_kotlin_outline" "outline" nothing false

abbrev pub symbols : Tool
symbols = tool_of "find_kotlin_symbol" "symbols" engine true

abbrev pub trace : Tool
trace = tool_of "trace_kotlin_symbol" "trace" engine_index true

abbrev pub deps : Tool
deps = tool_of "analyze_kotlin_dependencies" "deps" nothing false

abbrev pub map_tool : Tool
map_tool = tool_of "get_kotlin_repo_map" "map" nothing false

abbrev pub check : Tool
check = tool_of "check_kotlin_syntax" "check" engine false

abbrev pub context : Tool
context = tool_of "explain_kotlin_symbol" "context" engine_index true

abbrev pub status : Tool
status = tool_of "ktsense_status" "status" nothing false

abbrev pub grep : Tool
grep = tool_of "search_kotlin_text" "grep" nothing false

unfoldable pub present_check : Invocation → CallToolResult
unfolding classify result_text index_answer
present_check invocation =
    let outcome = classify invocation in
    let text = result_text (is_answer outcome) invocation in
    let answer = index_answer check invocation.root invocation.code none text in
    record {
      is_error = not (is_answer outcome);
      content = text;
      structured_content = record answer {
        outcome = some (outcome_label outcome);
        findings = finding_count outcome answer;
      };
    }
