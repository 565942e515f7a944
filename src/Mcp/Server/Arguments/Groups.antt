-- ===== src/Mcp/Server/Arguments/Groups.antt =====
-- The groups of arguments that `Args` of crates/ktsense-mcp/src/server.rs appends.
use ktsense.Prelude.{
  ℕ, ◌≡◌, refl, ap, sym, ◌∙◌, Bool, true, false, Option, none, some, List, [], ◌∷◌, ◌++◌,
  append-nil, append_assoc, Bytes, codes,
}
use ktsense.Std.Str.{join_with}
use ktsense.Std.Number.{decimal}
use ktsense.Mcp.Server.{Tool, Request, md}
use ktsense.Mcp.Server.Arguments.{
  push_arg, positional, maybe_positional, flag, option, option_list, repeated_option, is_some_of,
  printed, test_flags, long_name,
}

-- Groups of arguments, as a command line has them.
abbrev pub word : Bytes → List Bytes
word value = value ∷ []

abbrev pub maybe_word : Option Bytes → List Bytes
maybe_word none = []
maybe_word (some value) = value ∷ []

abbrev pub switch : Bytes → Bool → List Bytes
switch name true = name ∷ []
switch name false = []

abbrev pub valued : Bytes → Option Bytes → List Bytes
valued name none = []
valued name (some value) = name ∷ value ∷ []

abbrev pub numbered : Bytes → Option ℕ → List Bytes
unfolding decimal
numbered name none = []
numbered name (some n) = name ∷ decimal n ∷ []

abbrev pub with_commas : Bytes → List Bytes → List Bytes
unfolding join_with
with_commas name [] = []
with_commas name (value ∷ values) = name ∷ join_with b',' (value ∷ values) ∷ []

abbrev pub each : Bytes → List Bytes → List Bytes
each name [] = []
each name (value ∷ values) = name ∷ value ∷ each name values

-- A switch that is set by a `true` that was given.
abbrev pub asked_for : Bytes → Option Bool → List Bytes
asked_for name (some true) = name ∷ []
asked_for name (some false) = []
asked_for name none = []

-- Only tests, only production code, or both.
abbrev pub test_scope : Option Bool → List Bytes
test_scope (some true) = codes "--tests" ∷ []
test_scope (some false) = codes "--no-tests" ∷ []
test_scope none = []

abbrev pub joined : List Bytes → List (List Bytes) → List Bytes
joined args [] = args
joined args (group ∷ groups) = joined (args ++ group) groups

-- The request runs the tool's command with these groups of arguments, in this order and no others, in
-- the root, and is answered in Markdown.
abbrev pub Runs : Tool → Option Bytes → List (List Bytes) → Request → Type 0
Runs tool root groups request =
    request ≡ record { args = tool.cli_command ∷ joined [] groups; root = root; format = md }

module _ (tool : Tool) (root : Option Bytes) where
  -- A request with these arguments behind the command.
  abbrev pub With : List Bytes → Request
  With args = record { args = tool.cli_command ∷ args; root = root; format = md }

  push_two :
      (args : List Bytes) (a b : Bytes)
      → push_arg b (push_arg a (With args)) ≡ With (args ++ (a ∷ b ∷ []))
  push_two args a b = ap With (append_assoc args (a ∷ []) (b ∷ []))

  unchanged : (args : List Bytes) → With args ≡ With (args ++ [])
  unchanged args = ap With (sym (append-nil args))

  maybe_positional-With :
      (value : Option Bytes) (args : List Bytes)
      → maybe_positional value (With args) ≡ With (args ++ maybe_word value)
  unfolding maybe_positional positional
  maybe_positional-With none args = unchanged args
  maybe_positional-With (some value) args = refl

  flag-With :
      (name : Bytes) (present : Bool) (args : List Bytes)
      → flag name present (With args) ≡ With (args ++ switch (long_name name) present)
  unfolding flag
  flag-With name true args = refl
  flag-With name false args = unchanged args

  option-With :
      (name : Bytes) (value : Option Bytes) (args : List Bytes)
      → option name value (With args) ≡ With (args ++ valued (long_name name) value)
  unfolding option
  option-With name none args = unchanged args
  option-With name (some value) args = push_two args (long_name name) value

  number-With :
      (name : Bytes) (value : Option ℕ) (args : List Bytes)
      → option name (printed value) (With args) ≡ With (args ++ numbered (long_name name) value)
  unfolding option printed numbered
  number-With name none args = unchanged args
  number-With name (some n) args = push_two args (long_name name) (decimal n)

  option_list-With :
      (name : Bytes) (values args : List Bytes)
      → option_list name values (With args) ≡ With (args ++ with_commas (long_name name) values)
  unfolding option_list
  option_list-With name [] args = unchanged args
  option_list-With name (value ∷ values) args =
      push_two args (long_name name) (join_with b',' (value ∷ values))

  repeated_option-With :
      (name : Bytes) (values args : List Bytes)
      → repeated_option name values (With args) ≡ With (args ++ each (long_name name) values)
  unfolding repeated_option
  repeated_option-With name [] args = unchanged args
  repeated_option-With name (value ∷ values) args =
      ap (repeated_option name values) (push_two args (long_name name) value)
      ∙ repeated_option-With name values (args ++ (long_name name ∷ value ∷ []))
      ∙ ap With (append_assoc args (long_name name ∷ value ∷ []) (each (long_name name) values))

  asked_for-With :
      (name : Bytes) (wanted : Option Bool) (args : List Bytes)
      → flag name (is_some_of true wanted) (With args)
        ≡ With (args ++ asked_for (long_name name) wanted)
  unfolding flag
  asked_for-With name none args = unchanged args
  asked_for-With name (some true) args = refl
  asked_for-With name (some false) args = unchanged args

  test_flags-With :
      (tests : Option Bool) (args : List Bytes)
      → test_flags tests (With args) ≡ With (args ++ test_scope tests)
  unfolding test_flags flag
  test_flags-With none args = unchanged args
  test_flags-With (some true) args = refl
  test_flags-With (some false) args = refl

  module _ {args : List Bytes} {r : Request} (built : r ≡ With args) where
    pub and_positional : (value : Bytes) → positional value r ≡ With (args ++ word value)
    unfolding positional
    and_positional value = ap (push_arg value) built

    pub and_maybe :
        (value : Option Bytes) → maybe_positional value r ≡ With (args ++ maybe_word value)
    and_maybe value = ap (maybe_positional value) built ∙ maybe_positional-With value args

    pub and_flag :
        (name : Bytes) (present : Bool)
        → flag name present r ≡ With (args ++ switch (long_name name) present)
    and_flag name present = ap (flag name present) built ∙ flag-With name present args

    pub and_option :
        (name : Bytes) (value : Option Bytes)
        → option name value r ≡ With (args ++ valued (long_name name) value)
    and_option name value = ap (option name value) built ∙ option-With name value args

    pub and_number :
        (name : Bytes) (value : Option ℕ)
        → option name (printed value) r ≡ With (args ++ numbered (long_name name) value)
    and_number name value = ap (option name (printed value)) built ∙ number-With name value args

    pub and_list :
        (name : Bytes) (values : List Bytes)
        → option_list name values r ≡ With (args ++ with_commas (long_name name) values)
    and_list name values = ap (option_list name values) built ∙ option_list-With name values args

    pub and_each :
        (name : Bytes) (values : List Bytes)
        → repeated_option name values r ≡ With (args ++ each (long_name name) values)
    and_each name values =
        ap (repeated_option name values) built ∙ repeated_option-With name values args

    pub and_asked :
        (name : Bytes) (wanted : Option Bool)
        → flag name (is_some_of true wanted) r ≡ With (args ++ asked_for (long_name name) wanted)
    and_asked name wanted =
        ap (flag name (is_some_of true wanted)) built ∙ asked_for-With name wanted args

    pub and_tests : (tests : Option Bool) → test_flags tests r ≡ With (args ++ test_scope tests)
    and_tests tests = ap (test_flags tests) built ∙ test_flags-With tests args
