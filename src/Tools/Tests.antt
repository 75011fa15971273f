-- ===== src/Tools/Tests.antt =====
-- src/tools/tool-registry.ts on a small registry.
use agentlily_runtime.Common.{Text, lit, ◌≡◌, refl, ℕ, ◌↔◌, List, [], ◌∷◌, text_eq, if◌then◌else◌}
use agentlily_runtime.Errors.{ok}
use agentlily_runtime.Tools.{ToolDefinition, ToolRegistry, register, get_tool}
use agentlily_runtime.Tools.Laws.{IsRegistrable, register_iff, get_tool-register}

abbrev echo : ToolDefinition ℕ
echo = record { name = lit "echo"; description = []; execute = 1 }

abbrev ping : ToolDefinition ℕ
ping = record { name = lit "ping"; description = []; execute = 2 }

abbrev one : ToolRegistry ℕ
one = record { tools = (lit "echo", echo) ∷ [] }

abbrev two : ToolRegistry ℕ
two = record { tools = (lit "echo", echo) ∷ (lit "ping", ping) ∷ [] }

register_iff_example :
    ((r' : ToolRegistry ℕ) × (register ping one ≡ ok r')) ↔ IsRegistrable ping one
register_iff_example = register_iff ping one

get_tool-register_example :
    get_tool (lit "ping") two
    ≡ (if text_eq (lit "ping") (lit "ping") then ok ping else get_tool (lit "ping") one)
unfolding register agentlily_runtime.Common.is_blank text_eq agentlily_runtime.Common.Dict.has
    agentlily_runtime.Common.Dict.set
get_tool-register_example = get_tool-register ping one two (lit "ping") refl
