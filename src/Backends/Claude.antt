-- ===== src/Backends/Claude.antt =====
-- src/backends/claude-stream-json.ts: the consumer of `claude --output-format stream-json`. A line is read
-- by an argument, JSON.parse with the cast to `ClaudeStreamLine`, which checks nothing: a line that is null
-- is one of its readings, and a block may have a type that the cast does not name; a line whose fields
-- have other types than are declared is outside the model. `JSON.stringify` is an argument too.
pub mod Answers
use orca_ts.Model.{no_context, claude, BackendFailureContext, backend_failed, RuntimeError, Value}
use orca_ts.Model.Events.{
  conversation_error, assistant_turn_end, assistant_text_delta, tool_result, assistant_tool_call,
  Schema, parse_structured_output,
}
use orca_ts.Backends.Stream.{
  null_line, shaped, throws, malformed, returns, Attempt, Reading, succeeded, emitted, is_type,
  failed, structured_of_text, is_blank, Call, Consumer,
}
use orca_ts.Base.{
  not, ◌++◌, ◌&&◌, map, ◌>>=◌, text, ◌∷◌, ◌||◌, Result, or_default, same, All, Option,
  if◌then◌else◌, Bool, List, Text, none, some, [], true, false, ok, err,
}

pub data ClaudeContentBlock : Type 0 where
  tool_use : (id name : Text) (input : Value) → ClaudeContentBlock
  tool_output : (tool_use_id : Text) (content : Value) (is_error : Option Bool) → ClaudeContentBlock
  prose : (body : Text) → ClaudeContentBlock
  other_block : ClaudeContentBlock

pub record ClaudeDelta : Type 0 where
  pub type : Option Text
  pub body : Option Text

pub record ClaudeEvent : Type 0 where
  pub type : Option Text
  pub delta : Option ClaudeDelta

pub record ClaudeStreamLine : Type 0 where
  pub type : Option Text
  pub subtype : Option Text
  pub session_id : Option Text
  pub result : Option Text
  pub structured_output : Option Value
  pub is_error : Option Bool
  pub event : Option ClaudeEvent
  pub content : Option (List ClaudeContentBlock)

pub record ClaudeOptions (O : Type 0) : Type 0 where
  pub read_line : Text → Reading ClaudeStreamLine
  pub parse_json : Text → Result Value Text
  pub stringify : Value → Text
  pub schema : Option (Schema O)
  pub failure_context : Option BackendFailureContext

pub record ClaudeState : Type 0 where
  pub aborted : Bool

module _ {O : Type 0} (options : ClaudeOptions O) where
  unfoldable pub claude_stream_failure : Text → Text → RuntimeError
  claude_stream_failure message phase = elim options.failure_context [
    | none ↦ backend_failed claude message no_context
    | some context ↦ backend_failed claude message (record context { phase = some phase })
  ]

  unfoldable pub on_delta : Option Text → ClaudeDelta → List (Call O)
  unfolding same
  on_delta event_type delta =
      if is_type event_type (text "content_block_delta") && is_type delta.type (text "text_delta")
      then emitted (assistant_text_delta (or_default delta.body [])) ∷ []
      else []

  unfoldable pub consume_stream_event : Option ClaudeEvent → List (Call O)
  unfolding on_delta
  consume_stream_event none = []
  consume_stream_event (some event) = elim event.delta [
    | none ↦ []
    | some delta ↦ on_delta event.type delta
  ]

  unfoldable pub block_calls : List ClaudeContentBlock → List (Call O)
  block_calls [] = []
  block_calls (tool_use id name input ∷ blocks) =
      emitted (assistant_tool_call id name input) ∷ block_calls blocks
  block_calls (tool_output id content is_error ∷ blocks) =
      emitted (tool_result id content is_error) ∷ block_calls blocks
  block_calls (prose body ∷ blocks) = emitted (assistant_text_delta body) ∷ block_calls blocks
  block_calls (other_block ∷ blocks) = block_calls blocks

  -- Whether a block of an assistant's message ends the turn.
  unfoldable pub ends_turn : List ClaudeContentBlock → Bool
  ends_turn [] = false
  ends_turn (tool_output _ _ _ ∷ blocks) = ends_turn blocks
  ends_turn (other_block ∷ blocks) = ends_turn blocks
  ends_turn (_ ∷ blocks) = true

  unfoldable pub consume_message : Option Text → Option (List ClaudeContentBlock) → List (Call O)
  unfolding same block_calls ends_turn
  consume_message type content =
      let blocks = or_default content [] in
      block_calls blocks
      ++ (if is_type type (text "assistant") && ends_turn blocks
          then emitted assistant_turn_end ∷ []
          else [])

  unfoldable pub validate : Schema O → Value → Result (Option O) RuntimeError
  unfolding parse_structured_output
  validate schema raw = parse_structured_output schema raw >>= λ value. ok (some value)

  unfoldable pub parse_claude_structured_output :
      Option (Schema O) → Text → Option Value → Result (Option O) RuntimeError
  unfolding validate structured_of_text
  parse_claude_structured_output none output structured_output = ok none
  parse_claude_structured_output (some schema) output (some raw) = validate schema raw
  parse_claude_structured_output (some schema) output none =
      structured_of_text options.parse_json (text "Claude structured output was not valid JSON")
        (some schema) output

  -- `structuredOutput === undefined ? line.result ?? "" : JSON.stringify(structuredOutput)`.
  unfoldable pub output_of : ClaudeStreamLine → Text
  output_of line = elim line.structured_output [
    | none ↦ or_default line.result []
    | some v ↦ options.stringify v
  ]

  unfoldable pub settle_result : Text → Text → Result (Option O) RuntimeError → List (Call O)
  settle_result session output (err error) = failed error ∷ []
  settle_result session output (ok structured) =
      succeeded (record {
        backend = claude;
        session_id = session;
        output = output;
        structured = structured;
        usage = none;
      })
      ∷ []

  unfoldable pub consume_result : ClaudeStreamLine → List (Call O)
  unfolding same output_of settle_result parse_claude_structured_output claude_stream_failure
  consume_result line =
      let output = output_of line in
      if is_type line.subtype (text "success") && not (or_default line.is_error false)
      then settle_result (or_default line.session_id []) output
          (parse_claude_structured_output options.schema output line.structured_output)
      else emitted (
          conversation_error (some (text "backend_failed"))
            (text "session failed (see message above)"))
        ∷ failed (claude_stream_failure (text "claude session failed: " ++ output) (text "turn"))
        ∷ []

  unfoldable pub consume_claude_line : ClaudeStreamLine → List (Call O)
  unfolding same consume_stream_event consume_message consume_result
  consume_claude_line line =
      if is_type line.type (text "stream_event")
      then consume_stream_event line.event
      else if is_type line.type (text "assistant") || is_type line.type (text "user")
      then consume_message line.type line.content
      else if is_type line.type (text "result")
      then consume_result line
      else []

  abbrev pub ClaudeTurn : Type 0
  ClaudeTurn = ClaudeState × List (Call O)

  -- What reading a line gives, acted upon; on null, `line.type` throws.
  unfoldable pub on_claude_read : Reading ClaudeStreamLine → ClaudeState → Attempt ClaudeTurn
  unfolding same consume_claude_line claude_stream_failure
  on_claude_read (malformed message) s = returns (
    record { aborted = true },
    failed (claude_stream_failure (text "invalid claude stream-json: " ++ message) (text "turn"))
        ∷ [],
  )
  on_claude_read null_line s = throws
  on_claude_read (shaped line) s = returns (
    if is_type line.type (text "result") then record { aborted = true } else s,
    consume_claude_line line,
  )

  unfoldable pub consume_claude : ClaudeState → Text → Attempt ClaudeTurn
  unfolding is_blank on_claude_read
  consume_claude s raw =
      if s.aborted || is_blank raw
      then returns (s, [])
      else on_claude_read (options.read_line raw) s

  unfoldable pub finish_claude : ClaudeState → ClaudeTurn
  unfolding claude_stream_failure
  finish_claude s = if s.aborted then (s, []) else (
    record { aborted = true },
    failed (
          claude_stream_failure (text "claude exited cleanly but never sent a result message")
            (text "turn"))
        ∷ [],
  )

  abbrev pub claude_consumer : Consumer O
  claude_consumer = record {
    State = ClaudeState;
    aborted = λ s. s.aborted;
    consume = consume_claude;
    finish = finish_claude;
  }
