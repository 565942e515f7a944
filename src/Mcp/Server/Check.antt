-- ===== src/Mcp/Server/Check.antt =====
-- What a syntax check reports: `present_check` of crates/ktsense-mcp/src/server.rs.
use ktsense.Prelude.{
  ℕ, ◌≡◌, ◌⊎◌, ◌↔◌, Bool, true, false, not, ◌&&◌, Option, none, some, [], arith, bytes_eq,
}
use ktsense.Std.Str.{trim}
use ktsense.Mcp.Server.{
  Invocation, Answer, CheckOutcome, outcome_of, classify, is_answer, finding_count, result_text,
  index_answer, present_check, CallToolResult, check,
}

-- A report on stdout, and nothing on stderr.
abbrev pub reported : Invocation → Bool
unfolding trim bytes_eq
reported invocation =
    not (bytes_eq (trim invocation.stdout) []) && bytes_eq (trim invocation.stderr) []

-- What the fields of a result say of an exit status and a report.
abbrev pub Says : Option ℕ → Bool → CallToolResult → Type 0
Says code report result =
    ((result.is_error ≡ false) ↔ ((code ≡ some 0) ⊎ ((code ≡ some 1) × (report ≡ true))))
    × (((result.structured_content.findings ≡ none) ↔ (result.is_error ≡ true))
        × ((code ≡ some 0) → result.structured_content.findings ≡ some 0))

abbrev answered_with : CheckOutcome → Answer → Bool × Option ℕ
answered_with outcome answer = (not (is_answer outcome), finding_count outcome answer)

outcome_of-says :
    (code : Option ℕ) (report : Bool) (answer : Answer)
    → let outcome = outcome_of code report in
      ((is_answer outcome ≡ true) ↔ ((code ≡ some 0) ⊎ ((code ≡ some 1) × (report ≡ true))))
      × (((finding_count outcome answer ≡ none) ↔ (is_answer outcome ≡ false))
          × ((code ≡ some 0) → finding_count outcome answer ≡ some 0))
outcome_of-says none report answer = ground arith
outcome_of-says (some code) report answer = ground arith

-- For every invocation of a syntax check: its result is not an error just when the exit status is 0, or is
-- 1 with a report on stdout and nothing but white space on stderr; it counts findings just when it is no
-- error; and the count of a clean exit is 0.
pub present_check-Says :
    (invocation : Invocation)
    → Says invocation.code (reported invocation) (present_check invocation)
unfolding present_check classify
present_check-Says invocation =
    let outcome = classify invocation in
    let answer =
      index_answer check invocation.root invocation.code none
        (result_text (is_answer outcome) invocation) in
    ground (arith, outcome_of-says invocation.code (reported invocation) answer)
