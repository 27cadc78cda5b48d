-- ===== src/Tool.antt =====
-- tools/cmdrunner/cmdrunner.go: `ToolSchemaJSON`, the JSON schema of the requests that a model may
-- make, and the decoding of a request.
pub mod Schema
pub mod Guide
mod Tests
use opengrab.Prelude.{
  Bool, true, false, not, ◌&&◌, ◌||◌, List, [], ◌∷◌, ◌++◌, Option, none, some, if◌then◌else◌,
}
use opengrab.Text.{Text, codes, is_empty, text_eq, has_text}
use opengrab.Mode.{Mode, unset, auto, args, shell, other}
use opengrab.Request.{Request}

-- A JSON object with the properties of the schema, where none is a property that is missing, and
-- whether it has any others. Every value has the type that the schema asks for.
pub record Arguments : Type 0 where
  pub mode : Option Text
  pub program : Option Text
  pub args : Option (List Text)
  pub shell_command : Option Text
  pub command : Option Text
  pub dir : Option Text
  pub reason : Option Text
  pub has_others : Bool

-- `required`
abbrev pub has {ℓ} : {A : Type ℓ} → Option A → Bool
has none = false
has (some a) = true

-- `minLength: 1`
abbrev pub has_length_1 : Option Text → Bool
has_length_1 none = true
has_length_1 (some s) = not (is_empty s)

-- `enum`
abbrev pub is_mode_name : Option Text → Bool
is_mode_name none = true
is_mode_name (some s) = has_text (codes "auto" ∷ codes "args" ∷ codes "shell" ∷ []) s

-- `const`
abbrev pub is_const : Option Text → Text → Bool
is_const none t = true
is_const (some s) t = text_eq s t

-- `additionalProperties` and `properties`
unfoldable pub valid_properties : Arguments → Bool
valid_properties a =
    not a.has_others
    && is_mode_name a.mode
    && has_length_1 a.program
    && has_length_1 a.shell_command
    && has_length_1 a.command

-- The three members of `oneOf`.
unfoldable pub is_args_mode : Arguments → Bool
is_args_mode a = is_const a.mode (codes "args") && has a.mode && has a.program

unfoldable pub is_shell_mode : Arguments → Bool
is_shell_mode a = is_const a.mode (codes "shell") && has a.mode && has a.shell_command

unfoldable pub is_auto_mode : Arguments → Bool
is_auto_mode a =
    is_const a.mode (codes "auto")
    && has a.mode
    && (has a.command || has a.program || has a.shell_command)

-- `oneOf`: exactly one of three.
abbrev pub exactly_one : Bool → Bool → Bool → Bool
exactly_one true b c = not b && not c
exactly_one false b c = (b && not c) || (not b && c)

-- `ToolSchemaJSON`
unfoldable pub is_valid : Arguments → Bool
is_valid a = valid_properties a && exactly_one (is_args_mode a) (is_shell_mode a) (is_auto_mode a)

-- A text as a `Mode`.
unfoldable pub mode_of_text : Text → Mode
mode_of_text s =
    if is_empty s
    then unset
    else if text_eq s (codes "auto")
    then auto
    else if text_eq s (codes "args")
    then args
    else if text_eq s (codes "shell")
    then shell
    else other s

abbrev pub or_empty : Option Text → Text
or_empty none = []
or_empty (some s) = s

abbrev pub or_nil : Option (List Text) → List Text
or_nil none = []
or_nil (some ts) = ts

-- The `Request` that `encoding/json` makes of the object, by the tags of its fields.
unfoldable pub decode_request : Arguments → Request
decode_request a = record {
  mode = mode_of_text (or_empty a.mode);
  program = or_empty a.program;
  args = or_nil a.args;
  shell_command = or_empty a.shell_command;
  command = or_empty a.command;
  dir = or_empty a.dir;
  reason = or_empty a.reason;
}

-- `ToolName`
abbrev pub tool_name : Text
tool_name = codes "cmdrunner"

-- `ToolDescription`
abbrev pub tool_description : Text
tool_description =
    codes "Execute commands with cmdrunner. Default to args mode. Use shell mode only "
    ++ (codes "when the command requires shell syntax such as redirection (> >> <), "
        ++ (codes "pipelines (|), chaining (&& ||), wildcard expansion, environment-variable "
            ++ (codes "expansion, or shell builtins.")))

-- `ToolUsageGuide`
abbrev pub tool_usage_guide : Text
tool_usage_guide =
    codes "\nUse args mode by default.\n\n"
    ++ (codes "Choose args mode when the task can be expressed as one executable plus an "
        ++ (codes "explicit argument list, with no shell syntax.\n\n"
            ++ (codes "Choose shell mode only when the command requires shell behavior, such as:\n"
                ++ (codes "- redirection: > >> <\n- pipelines: |\n- chaining: && ||\n"
                    ++ (codes
                          "- wildcard expansion: * ?\n- environment-variable expansion\n- shell builtins\n\n"
                        ++ (codes
                              "For args mode, fill:\n- program\n- args\n\nFor shell mode, fill:\n- shell_command\n"
                            ++ (codes
                                "\nFor auto mode, fill:\n- command\n\nPrefer args mode for safety and portability.\n")))))))

-- `ToolDefinition`; the schema is the test that it stands for.
pub record ToolDefinition : Type 0 where
  pub name : Text
  pub description : Text
  pub input_schema : Arguments → Bool

-- `GetToolDefinition`
abbrev pub get_tool_definition : ToolDefinition
get_tool_definition = record {
  name = tool_name;
  description = tool_description;
  input_schema = is_valid;
}
