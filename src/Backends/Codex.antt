-- ===== src/Backends/Codex.antt =====
-- src/backends/codex-jsonl.ts: the consumer of the JSON lines that `codex exec` writes. A line is read by
-- an argument, JSON.parse with the cast to `CodexLine`, which checks nothing: a line that is null is one of
-- its readings, and another value without fields is a line that has none; a line whose fields have other
-- types than `CodexLine` declares is outside the model. An optional field that is null or missing is
-- `none`, except in the fields of type `unknown`.
pub mod Answers
pub mod Arguments
use orca_ts.Loop.Execution.Step.{property}
use orca_ts.Model.Events.{
  tool_result, assistant_tool_call, assistant_turn_end, assistant_text_delta,
  backend_failed_plainly, user_question, Schema,
}
use orca_ts.Backends.Stream.{
  null_line, shaped, throws, returns, malformed, Reading, Attempt, succeeded, failed, is_type, Call,
  emitted, Consumer, text_content, is_blank, structured_of_text,
}
use orca_ts.Model.{
  codex, unsupported_feature, end, field, obj, Usage, str, Fields, RuntimeError, Value,
}
use orca_ts.Base.{
  or_else, ◌&&◌, ◌∷◌, text, ◌==◌, length, Bool, ◌++◌, ltb, ◌||◌, ℕ, Option, or_default, List,
  if◌then◌else◌, Result, same, Text, none, some, [], true, false, ok, err,
}

pub record CodexUsage : Type 0 where
  pub input_tokens : Option ℕ
  pub output_tokens : Option ℕ
  pub reasoning_output_tokens : Option ℕ

pub record CodexItem : Type 0 where
  pub id : Option Text
  pub type : Option Text
  pub body : Option Text
  pub name : Option Text
  pub server : Option Text
  pub tool : Option Text
  pub command : Option Value
  pub path : Option Text
  pub changes : Option Value
  pub output : Option Value
  pub arguments : Option Value
  pub content : Option (List (Option Text))
  pub error : Option Text

pub record CodexLine : Type 0 where
  pub type : Option Text
  pub thread_id : Option Text
  pub usage : Option CodexUsage
  pub item : Option CodexItem

-- What `item?.field` reads where there is no item.
abbrev pub no_item : CodexItem
no_item = record {
  id = none;
  type = none;
  body = none;
  name = none;
  server = none;
  tool = none;
  command = none;
  path = none;
  changes = none;
  output = none;
  arguments = none;
  content = none;
  error = none;
}

unfoldable pub is_tool_item : CodexItem → Bool
unfolding same
is_tool_item item =
    is_type item.type (text "mcp_tool_call")
    || is_type item.type (text "command_execution")
    || is_type item.type (text "file_change")
    || is_type item.type (text "tool_call")

unfoldable pub tool_name : CodexItem → Text
unfolding same
tool_name item =
    if is_type item.type (text "mcp_tool_call")
    then or_default item.server [] ++ text "." ++ or_default item.tool []
    else or_default (or_else item.name (or_else item.tool item.type)) (text "tool_call")

-- A spread of an optional field.
abbrev pub spread : Text → Option Value → Fields → Fields
spread key none fields = fields
spread key (some v) fields = field key v fields

abbrev pub as_text : Option Text → Option Value
as_text none = none
as_text (some t) = some (str t)

unfoldable pub tool_input : CodexItem → Value
tool_input item = elim item.arguments [
  | some input ↦ input
  | none ↦ elim item.command [
    | some command ↦ obj (field (text "command") command end)
    | none ↦
        obj (spread (text "path") (as_text item.path) (spread (text "changes") item.changes end))
  ]
]

unfoldable pub tool_output : CodexItem → Value
unfolding text_content
tool_output item = elim item.output [
  | some output ↦ output
  | none ↦
      let content = text_content item.content in
      if ltb 0 (length content) then str content else str (or_default item.error [])
]

-- The property of an object that is a string, if that is what the input is.
unfoldable pub question_in : Option Value → Text
question_in (some (str question)) = question
question_in _ = []

unfoldable pub ask_user_question : Option Value → Text
unfolding question_in property
ask_user_question (some (obj fields)) = question_in (property (text "question") fields)
ask_user_question _ = []

abbrev pub positive : Option ℕ → Option ℕ
positive none = none
positive (some n) = if n == 0 then none else some n

unfoldable pub normalize_codex_usage : Option CodexUsage → Usage
normalize_codex_usage none = record { input = 0; output = 0; reasoning = none }
normalize_codex_usage (some u) = record {
  input = or_default u.input_tokens 0;
  output = or_default u.output_tokens 0;
  reasoning = positive u.reasoning_output_tokens;
}

-- Whether an optional text is neither missing nor empty.
abbrev pub is_truthy : Option Text → Bool
is_truthy none = false
is_truthy (some t) = ltb 0 (length t)

pub record CodexState : Type 0 where
  pub thread_id : Text
  pub output : Text
  pub last_agent_text : Text
  pub aborted : Bool

pub record CodexOptions (O : Type 0) : Type 0 where
  pub read_line : Text → Reading CodexLine
  pub parse_json : Text → Result Value Text
  pub schema : Option (Schema O)
  pub interactive : Bool

abbrev pub start_codex : CodexState
start_codex = record { thread_id = []; output = []; last_agent_text = []; aborted = false }

abbrev pub abort : CodexState → CodexState
abort s = record s { aborted = true }

module _ {O : Type 0} (options : CodexOptions O) where
  abbrev pub Turn : Type 0
  Turn = CodexState × List (Call O)

  unfoldable pub on_ask_user : CodexItem → CodexState → Turn
  unfolding ask_user_question
  on_ask_user item s =
      if options.interactive
      then (s, emitted (user_question (ask_user_question item.arguments)) ∷ [])
      else (
        abort s,
        failed (
              unsupported_feature (text "codex ask_user")
                (text "Codex ask_user MCP bridge requires an explicit interactive conversation"))
            ∷ [],
      )

  unfoldable pub on_tool_started : CodexItem → CodexState → Turn
  unfolding on_ask_user same tool_name tool_input
  on_tool_started item s =
      if is_type item.server (text "orcats") && is_type item.tool (text "ask_user")
      then on_ask_user item s
      else (
        s,
        emitted (assistant_tool_call (or_default item.id []) (tool_name item) (tool_input item))
            ∷ [],
      )

  unfoldable pub on_tool_completed : CodexItem → CodexState → Turn
  unfolding tool_output
  on_tool_completed item s =
      let result : Option Bool → Call O =
        λ is_error. emitted (tool_result (or_default item.id []) (tool_output item) is_error) in
      if is_truthy item.error
      then (
        abort s,
        result (some true) ∷ failed (backend_failed_plainly codex (or_default item.error [])) ∷ [],
      )
      else (s, result none ∷ [])

  unfoldable pub on_agent_message : CodexItem → CodexState → Turn
  on_agent_message item s =
      let body = or_default item.body [] in
      (
        record s { output = s.output ++ body; last_agent_text = body },
        emitted (assistant_text_delta body) ∷ [],
      )

  unfoldable pub parse_codex_structured_output : Text → Result (Option O) RuntimeError
  unfolding structured_of_text
  parse_codex_structured_output output =
      structured_of_text options.parse_json (text "Codex structured output was not valid JSON")
        options.schema output

  -- `lastAgentText || output`.
  abbrev pub final_text : CodexState → Text
  final_text s = if ltb 0 (length s.last_agent_text) then s.last_agent_text else s.output

  unfoldable pub settle_turn : Result (Option O) RuntimeError → CodexLine → CodexState → Turn
  unfolding normalize_codex_usage
  settle_turn (err error) line s = (abort s, emitted assistant_turn_end ∷ failed error ∷ [])
  settle_turn (ok structured) line s = (
    abort s,
    emitted assistant_turn_end
        ∷ succeeded (record {
          backend = codex;
          session_id = s.thread_id;
          output = s.output;
          structured = structured;
          usage = some (normalize_codex_usage line.usage);
        })
        ∷ [],
  )

  unfoldable pub on_turn_completed : CodexLine → CodexState → Turn
  unfolding settle_turn parse_codex_structured_output
  on_turn_completed line s = settle_turn (parse_codex_structured_output (final_text s)) line s

  unfoldable pub on_line : CodexLine → CodexState → Turn
  unfolding same is_tool_item on_tool_started on_tool_completed on_agent_message on_turn_completed
  on_line line s =
      let item = or_default line.item no_item in
      if is_type line.type (text "thread.started")
      then (record s { thread_id = or_default line.thread_id s.thread_id }, [])
      else if is_type line.type (text "item.started") && is_tool_item item
      then on_tool_started item s
      else if is_type line.type (text "item.completed") && is_tool_item item
      then on_tool_completed item s
      else if is_type line.type (text "item.completed") && is_type item.type (text "agent_message")
      then on_agent_message item s
      else if is_type line.type (text "turn.completed")
      then on_turn_completed line s
      else (s, [])

  -- What reading a line gives, acted upon; on null, `line.type` throws.
  unfoldable pub on_read : Reading CodexLine → CodexState → Attempt Turn
  unfolding on_line
  on_read (malformed message) s = returns (
    abort s,
    failed (backend_failed_plainly codex (text "invalid codex JSONL: " ++ message)) ∷ [],
  )
  on_read null_line s = throws
  on_read (shaped line) s = returns (on_line line s)

  unfoldable pub consume_codex : CodexState → Text → Attempt Turn
  unfolding is_blank on_read
  consume_codex s raw =
      if s.aborted || is_blank raw then returns (s, []) else on_read (options.read_line raw) s

  unfoldable pub finish_codex : CodexState → Turn
  finish_codex s = if s.aborted then (s, []) else (
    abort s,
    failed (backend_failed_plainly codex (text "codex stream ended before turn.completed")) ∷ [],
  )

  abbrev pub codex_consumer : Consumer O
  codex_consumer = record {
    State = CodexState;
    aborted = λ s. s.aborted;
    consume = consume_codex;
    finish = finish_codex;
  }
