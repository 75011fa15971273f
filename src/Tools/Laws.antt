-- ===== src/Tools/Laws.antt =====
-- What registration accepts, and what a lookup returns.
use agentlily_runtime.Common.{
  Text, ◌≡◌, false, arith, text_eq, text_eq_iff, trim, is_blank, if◌then◌else◌, ◌↔◌,
}
use agentlily_runtime.Common.Dict.{set, get-set}
use agentlily_runtime.Errors.{ok}
use agentlily_runtime.Tools.{ToolDefinition, ToolRegistry, register, get_tool, has_tool}

module _ {E : Type 0} where
  -- The name is not blank, has no outer white space and is not taken.
  abbrev pub IsRegistrable : ToolDefinition E → ToolRegistry E → Type 0
  IsRegistrable tool r =
      (is_blank tool.name ≡ false) × (trim tool.name ≡ tool.name) × (has_tool tool.name r ≡ false)

  -- Registration returns exactly for a name that is not blank, has no outer white space and is not
  -- taken.
  pub register_iff :
      (tool : ToolDefinition E) (r : ToolRegistry E)
      → ((r' : ToolRegistry E) × (register tool r ≡ ok r')) ↔ IsRegistrable tool r
  unfolding register has_tool
  register_iff tool r = (
    λ (r', e). (ground arith, ground (arith, text_eq_iff tool.name (trim tool.name)), ground arith),
    λ h. (
      record { tools = set tool.name tool r.tools },
      ground (arith, text_eq_iff tool.name (trim tool.name)),
    ),
  )

  -- After a registration that returned, the tool's name resolves to the tool, and every other name to
  -- what it resolved to before.
  pub get_tool-register :
      (tool : ToolDefinition E) (r r' : ToolRegistry E) (name : Text)
      → register tool r ≡ ok r'
      → get_tool name r' ≡ (if text_eq tool.name name then ok tool else get_tool name r)
  unfolding register get_tool
  get_tool-register tool r r' name e = ground (arith, get-set tool.name name tool r.tools)
