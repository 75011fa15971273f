-- ===== src/Tools.antt =====
-- src/tools/tool-registry.ts and src/tools/types.ts. What a tool does is of a type `E` that the
-- executor fixes; a name is a string, as its type says.
pub mod Laws
mod Tests
use agentlily_runtime.Common.{
  Text, ℕ, Bool, not, Option, none, some, List, [], length, text_eq, trim, is_blank, if◌then◌else◌,
}
use agentlily_runtime.Common.Dict.{get, has, set, delete, values}
use agentlily_runtime.Errors.{
  Result, ok, err, runtime_error, invalid_task, duplicate_tool, tool_not_found, RuntimeErrorCode,
}

pub record ToolDefinition (E : Type 0) : Type 0 where
  pub name : Text
  pub description : Text
  pub execute : E

pub record ToolRegistry (E : Type 0) : Type 0 where
  pub tools : List (Text × ToolDefinition E)

module _ {E : Type 0} where
  abbrev pub empty : ToolRegistry E
  empty = record { tools = [] }

  unfoldable pub register : ToolDefinition E → ToolRegistry E → Result (ToolRegistry E)
  register tool r =
      if is_blank tool.name
      then err (runtime_error invalid_task)
      else if not (text_eq tool.name (trim tool.name))
      then err (runtime_error invalid_task)
      else if has tool.name r.tools
      then err (runtime_error duplicate_tool)
      else ok (record { tools = set tool.name tool r.tools })

  unfoldable pub get_tool : Text → ToolRegistry E → Result (ToolDefinition E)
  get_tool tool_name r = elim (get tool_name r.tools) [
    | none ↦ err (runtime_error tool_not_found)
    | some tool ↦ ok tool
  ]

  unfoldable pub has_tool : Text → ToolRegistry E → Bool
  has_tool tool_name r = has tool_name r.tools

  unfoldable pub unregister : Text → ToolRegistry E → ToolRegistry E × Bool
  unregister tool_name r = (record { tools = delete tool_name r.tools }, has tool_name r.tools)

  unfoldable pub clear : ToolRegistry E → ToolRegistry E
  clear r = record { tools = [] }

  unfoldable pub size : ToolRegistry E → ℕ
  size r = length r.tools

  unfoldable pub list : ToolRegistry E → List (ToolDefinition E)
  list r = values r.tools
