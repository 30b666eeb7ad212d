-- ===== src/Backends/Pi.antt =====
-- src/backends/pi-rpc.ts: the consumer of Pi's RPC lines. A line is read by an argument, JSON.parse with
-- the cast to `PiLine`; a blank line is not read. `emit` is taken not to throw.
pub mod Answers
use orca_ts.Model.Events.{
  tool_result, assistant_turn_end, assistant_tool_call, assistant_text_delta, conversation_error,
  backend_failed_plainly, Schema,
}
use orca_ts.Model.{str, end, obj, pi, Value, RuntimeError, Usage}
use orca_ts.Backends.Stream.{
  returns, Attempt, succeeded, emitted, is_type, failed, Call, text_content, is_blank, Consumer,
  structured_of_text,
}
use orca_ts.Base.{
  ◌++◌, ◌∷◌, length, ◌&&◌, ℕ, ltb, text, Bool, ◌||◌, same, if◌then◌else◌, Text, List, or_default,
  Result, Option, none, some, [], true, false, ok, err,
}

pub record PiUsage : Type 0 where
  pub input : Option ℕ
  pub output : Option ℕ

pub record PiMessage : Type 0 where
  pub content : Option (List (Option Text))
  pub usage : Option PiUsage

pub record PiLine : Type 0 where
  pub type : Option Text
  pub success : Option Bool
  pub error : Option Text
  pub tool_call_id : Option Text
  pub tool_name : Option Text
  pub args : Option Value
  pub is_error : Option Bool
  pub result_content : Option (List (Option Text))
  pub message : Option PiMessage

pub record PiOptions (O : Type 0) : Type 0 where
  pub read_line : Text → Result PiLine Text
  pub parse_json : Text → Result Value Text
  pub schema : Option (Schema O)
  pub session_id : Text

pub record PiRpcState : Type 0 where
  pub output : Text
  pub usage : Usage
  pub aborted : Bool

abbrev pub new_pi_rpc_state : PiRpcState
new_pi_rpc_state = record {
  output = [];
  usage = record { input = 0; output = 0; reasoning = none };
  aborted = false;
}

abbrev pub stop : PiRpcState → PiRpcState
stop s = record s { aborted = true }

abbrev pub is_false : Option Bool → Bool
is_false (some false) = true
is_false _ = false

abbrev pub usage_in : Option PiUsage → Usage
usage_in none = record { input = 0; output = 0; reasoning = none }
usage_in (some u) = record {
  input = or_default u.input 0;
  output = or_default u.output 0;
  reasoning = none;
}

unfoldable pub pi_rpc_args : Text → List Text
pi_rpc_args session_dir = text "--mode" ∷ text "rpc" ∷ text "--session-dir" ∷ session_dir ∷ []

module _ {O : Type 0} (options : PiOptions O) where
  abbrev pub PiTurn : Type 0
  PiTurn = PiRpcState × List (Call O)

  unfoldable pub on_failed_response : PiLine → PiRpcState → PiTurn
  on_failed_response line s =
      let message = or_default line.error (text "Pi command failed") in
      (
        stop s,
        emitted (conversation_error none message) ∷ failed (backend_failed_plainly pi message) ∷ [],
      )

  unfoldable pub on_message_end : Option PiMessage → PiRpcState → PiTurn
  unfolding text_content
  on_message_end message s =
      let m = or_default message (record { content = none; usage = none }) in
      let output = text_content m.content in
      (
        record s { output = output; usage = usage_in m.usage },
        if ltb 0 (length output)
            then emitted (assistant_text_delta output) ∷ emitted assistant_turn_end ∷ []
            else [],
      )

  unfoldable pub parse_pi_structured_output : Text → Result (Option O) RuntimeError
  unfolding structured_of_text
  parse_pi_structured_output output =
      structured_of_text options.parse_json (text "Pi structured output was not valid JSON")
        options.schema output

  unfoldable pub settle_agent : Result (Option O) RuntimeError → PiRpcState → PiTurn
  settle_agent (err error) s = (stop s, failed error ∷ [])
  settle_agent (ok structured) s = (
    stop s,
    succeeded (record {
      backend = pi;
      session_id = options.session_id;
      output = s.output;
      structured = structured;
      usage = some s.usage;
    })
        ∷ [],
  )

  -- `applyPiRpcLine` on a line that was read; a terminal line aborts.
  unfoldable pub apply_pi_rpc_line : PiLine → PiRpcState → PiTurn
  unfolding same on_failed_response on_message_end parse_pi_structured_output settle_agent
      text_content
  apply_pi_rpc_line line s =
      if is_type line.type (text "response") && is_false line.success
      then on_failed_response line s
      else if is_type line.type (text "tool_execution_start")
      then (
        s,
        emitted (
              assistant_tool_call (or_default line.tool_call_id []) (or_default line.tool_name [])
                (or_default line.args (obj end)))
            ∷ [],
      )
      else if is_type line.type (text "tool_execution_end")
      then (
        s,
        emitted (
              tool_result (or_default line.tool_call_id []) (str (text_content line.result_content))
                (some (or_default line.is_error false)))
            ∷ [],
      )
      else if is_type line.type (text "message_end")
      then on_message_end line.message s
      else if is_type line.type (text "agent_end")
      then settle_agent (parse_pi_structured_output s.output) s
      else (s, [])

  unfoldable pub on_pi_read : Result PiLine Text → PiRpcState → PiTurn
  unfolding apply_pi_rpc_line
  on_pi_read (err message) s =
      (stop s, failed (backend_failed_plainly pi (text "invalid pi RPC: " ++ message)) ∷ [])
  on_pi_read (ok line) s = apply_pi_rpc_line line s

  -- Whatever a line throws is caught, null included, and fails the conversation.
  unfoldable pub consume_pi : PiRpcState → Text → Attempt PiTurn
  unfolding is_blank on_pi_read
  consume_pi s raw =
      returns (if s.aborted || is_blank raw then (s, []) else on_pi_read (options.read_line raw) s)

  unfoldable pub finish_pi : PiRpcState → PiTurn
  finish_pi s = if s.aborted then (s, []) else (
    stop s,
    failed (backend_failed_plainly pi (text "pi stream ended before agent_end")) ∷ [],
  )

  abbrev pub pi_consumer : Consumer O
  pi_consumer = record {
    State = PiRpcState;
    aborted = λ s. s.aborted;
    consume = consume_pi;
    finish = finish_pi;
  }
