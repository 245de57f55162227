-- ===== src/Tools.antt =====
-- narration-enrichment/src/narration_enrichment/tools.py: the one door to tool execution. A registered
-- tool is its validation of the arguments and its function; what a tool reads is not modelled. Of a
-- result the integer ids under the key `transactions` and the JSON text are kept.
use gen_ai_backend.Prelude.{ℕ, String, Bool, true, false, Option, none, some, List, []}
use gen_ai_backend.Prelude.Text.{Text}
use gen_ai_backend.Errors.{Kind, Attempt, returned, raised}

pub data ToolResult : Type 0 where
  unknown_tool invalid_arguments : ToolResult
  execution_failed : Kind → ToolResult
  result : List ℕ → String → ToolResult

pub record ToolOutcome : Type 0 where
  pub tool_name : String
  pub ok : Bool
  pub result : ToolResult

-- `none`: the arguments do not validate.
pub record Tool : Type 0 where
  pub run : Option String → Option (Attempt (List ℕ × String))

-- The registered tools, and `json.dumps` of a result.
pub record Toolbox : Type 0 where
  pub registry : String → Option Tool
  pub dumps : ToolResult → Text

abbrev pub outcome_of : String → Option (Attempt (List ℕ × String)) → ToolOutcome
outcome_of name none = record { tool_name = name; ok = false; result = invalid_arguments }
outcome_of name (some (raised e)) = record {
  tool_name = name;
  ok = false;
  result = execution_failed e.kind;
}
outcome_of name (some (returned (ids, text))) = record {
  tool_name = name;
  ok = true;
  result = result ids text;
}

abbrev run_tool : String → Option String → Option Tool → ToolOutcome
run_tool name arguments none = record { tool_name = name; ok = false; result = unknown_tool }
run_tool name arguments (some tool) = outcome_of name (tool.run arguments)

unfoldable pub execute_tool : (String → Option Tool) → String → Option String → ToolOutcome
execute_tool registry name arguments = run_tool name arguments (registry name)

-- The ids that a result carries.
abbrev pub result_ids : ToolResult → List ℕ
result_ids (result ids text) = ids
result_ids _ = []
