-- ===== src/Telegram/Card.antt =====
-- internal/plugins/channel/telegram/card.go: the card that shows the running tools. The time since
-- its start is a text.
use maven.Base.{
  ℕ, zero, suc, Bool, ◌||◌, Option, none, some, List, [], ◌∷◌, ◌++◌, ◌==◌, ltb, if◌then◌else◌,
  is_empty, length,
}
use maven.Base.Assoc.{lookup, insert}
use maven.Base.Decimal.{format_int}
use maven.Base.Text.{Text, codes, text_eq}
use maven.Stringutil.{truncate_runes_tail}

pub data ToolStatus : Type 0 where
  tool_running tool_done tool_error : ToolStatus

-- `toolEntry`.
pub record ToolEntry : Type 0 where
  pub name : Text
  pub summary : Text
  pub status : ToolStatus
  pub output : Text

-- `StatusCard`.
pub record StatusCard : Type 0 where
  pub iteration : ℕ
  pub tools : List ToolEntry
  pub tool_index : List (Text × ℕ)

-- `NewStatusCard`.
abbrev pub new_status_card : StatusCard
new_status_card = record { iteration = 0; tools = []; tool_index = [] }

-- `AddTool`.
unfoldable pub add_tool : Text → Text → Text → StatusCard → StatusCard
unfolding insert text_eq
add_tool id name summary c = record c {
  tools =
      c.tools ++ record { name = name; summary = summary; status = tool_running; output = [] } ∷ [];
  tool_index = insert id (length c.tools) c.tool_index;
}

-- `c.tools[idx] = f(c.tools[idx])`.
unfoldable pub update_tool : (ToolEntry → ToolEntry) → ℕ → List ToolEntry → List ToolEntry
update_tool f n [] = []
update_tool f zero (t ∷ ts) = f t ∷ ts
update_tool f (suc n) (t ∷ ts) = t ∷ update_tool f n ts

abbrev pub update_at : (ToolEntry → ToolEntry) → Option ℕ → StatusCard → StatusCard
update_at f none c = c
update_at f (some n) c = record c { tools = update_tool f n c.tools }

-- `FinishTool`.
unfoldable pub finish_tool : Text → Bool → StatusCard → StatusCard
unfolding lookup text_eq update_tool
finish_tool id is_failed c =
    update_at (λ t. record t { status = if is_failed then tool_error else tool_done })
      (lookup id c.tool_index) c

abbrev pub max_tool_output_runes : ℕ
max_tool_output_runes = 1200

-- `AppendToolOutput`.
unfoldable pub append_tool_output : Text → Text → StatusCard → StatusCard
unfolding lookup text_eq update_tool truncate_runes_tail
append_tool_output id text c =
    if is_empty id || is_empty text
    then c
    else update_at
        (λ t.
          let output = t.output ++ text in
          record t {
            output =
                if ltb max_tool_output_runes (length output)
                then truncate_runes_tail output max_tool_output_runes (codes "… ")
                else output;
          })
        (lookup id c.tool_index) c

-- `SetIteration`.
unfoldable pub set_iteration : ℕ → StatusCard → StatusCard
set_iteration n c = record c { iteration = n }

-- `EscapeHTML` in one pass: what a replacement puts in holds nothing for those behind it.
unfoldable pub escape_html : Text → Text
escape_html [] = []
escape_html (c ∷ s) =
    let rest = escape_html s in
    if c == b'&'
    then codes "&amp;" ++ rest
    else if c == b'<'
    then codes "&lt;" ++ rest
    else if c == b'>'
    then codes "&gt;" ++ rest
    else c ∷ rest

abbrev pub icon_of : ToolStatus → Text
icon_of tool_running = codes "⏳"
icon_of tool_done = codes "✅"
icon_of tool_error = codes "❌"

-- The rows of `Render`.
unfoldable pub render_tool : ToolEntry → Text
unfolding escape_html
render_tool t =
    (icon_of t.status ++ codes " <code>" ++ escape_html t.name ++ codes "</code>")
    ++ (if is_empty t.summary then [] else codes "(" ++ escape_html t.summary ++ codes ")")
    ++ codes "\n"
    ++ (if is_empty t.output then [] else codes "<pre>" ++ escape_html t.output ++ codes "</pre>\n")

unfoldable pub render_tools : List ToolEntry → Text
unfolding render_tool
render_tools [] = []
render_tools (t ∷ ts) = render_tool t ++ render_tools ts

-- `Render`.
unfoldable pub render : Text → StatusCard → Text
unfolding render_tools format_int
render elapsed c =
    codes "🤖 <b>Working...</b>\n"
    ++ (if ltb 0 c.iteration
        then codes "\n🔄 Iteration " ++ format_int c.iteration ++ codes "\n"
        else [])
    ++ (if is_empty c.tools then [] else codes "\n" ++ render_tools c.tools)
    ++ codes "\n⏱ "
    ++ elapsed
