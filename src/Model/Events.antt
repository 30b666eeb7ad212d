-- ===== src/Model/Events.antt =====
-- src/model/schemas.ts and structured.ts: the events of a conversation, and what a backend answers.
use orca_ts.Base.{err, Bool, List, ok, Option, Result, Text}
use orca_ts.Model.{
  structured_output_validation_failed, no_context, Usage, backend_failed, RuntimeError, Value,
  BackendTag,
}

pub data ConversationEvent : Type 0 where
  assistant_text_delta : (body : Text) → ConversationEvent
  assistant_turn_end : ConversationEvent
  assistant_thinking_delta : (body : Text) → ConversationEvent
  assistant_tool_call : (id name : Text) (input : Value) → ConversationEvent
  tool_result : (tool_call_id : Text) (output : Value) (is_error : Option Bool) → ConversationEvent
  conversation_error : (code : Option Text) (message : Text) → ConversationEvent
  user_prompt : (body : Text) → ConversationEvent
  user_question : (question : Text) → ConversationEvent
  approve_tool : (tool_call_id name : Text) (input : Value) → ConversationEvent

-- `O` is the type of the output that a schema describes.
pub record BackendResult (O : Type 0) : Type 0 where
  pub backend : BackendTag
  pub session_id : Text
  pub output : Text
  pub structured : Option O
  pub usage : Option Usage

-- A schema of `zod`, by its `safeParse`: the value, or the messages of the issues.
abbrev pub Schema : Type 0 → Type 0
Schema O = Value → Result O (List Text)

unfoldable pub parse_structured_output : {O : Type 0} → Schema O → Value → Result O RuntimeError
parse_structured_output schema raw = elim (schema raw) [
  | ok value ↦ ok value
  | err issues ↦ err (structured_output_validation_failed issues raw)
]

abbrev pub backend_failed_plainly : BackendTag → Text → RuntimeError
backend_failed_plainly backend message = backend_failed backend message no_context
