-- ===== src/Tests/Backends.antt =====
-- Runs of the consumers of src/backends.
use orca_ts.Backends.Codex.Arguments.{
  codex_exec_jsonl_args-IsOther, codex_exec_jsonl_args, IsOther, CodexExecArgs,
}
use orca_ts.Model.{codex}
use orca_ts.Backends.Stream.{malformed, null_line, shaped, follow, Reading, succeeded}
use orca_ts.Model.Events.{assistant_text_delta}
use orca_ts.Backends.Pi.Answers.{pi_stream_settles}
use orca_ts.Backends.Claude.{ClaudeStreamLine, ClaudeOptions}
use orca_ts.Backends.Pi.{new_pi_rpc_state, PiLine, pi_consumer, PiOptions}
use orca_ts.Backends.Codex.{
  finish_codex, normalize_codex_usage, parse_codex_structured_output, settle_turn,
  on_turn_completed, on_agent_message, is_tool_item, no_item, on_line, on_read, CodexLine,
  start_codex, CodexItem, codex_consumer, consume_codex, CodexOptions,
}
use orca_ts.Backends.Stream.{emitted, structured_of_text, is_space, is_blank, feed, settlements}
use orca_ts.Base.{
  arith, All, true, same, ◌≡◌, if◌then◌else◌, ◌∷◌, text, Option, Result, ℕ, List, Text, none, some,
  [], false, refl, ok, err,
}
use orca_ts.Model.Events.{assistant_turn_end}

abbrev codex_line : Text → Option CodexItem → CodexLine
codex_line type item = record { type = some type; thread_id = none; usage = none; item = item }

-- A reader that knows three lines.
abbrev read_codex : Text → Reading CodexLine
read_codex raw =
    if same raw (text "message")
    then shaped (
        codex_line (text "item.completed")
          (some (record no_item { type = some (text "agent_message"); body = some (text "hi") })))
    else if same raw (text "done")
    then shaped (codex_line (text "turn.completed") none)
    else if same raw (text "null")
    then null_line
    else malformed (text "unexpected token")

abbrev codex_options : CodexOptions ℕ
codex_options = record {
  read_line = read_codex;
  parse_json = λ t. err (text "unexpected token");
  schema = none;
  interactive = false;
}

abbrev codex_raws : List Text
codex_raws = text "message" ∷ text "message" ∷ text "done" ∷ text "late" ∷ []

codex_run : feed (codex_consumer codex_options) codex_raws start_codex ≡ (
  emitted (assistant_text_delta (text "hi"))
      ∷ emitted (assistant_text_delta (text "hi"))
      ∷ emitted assistant_turn_end
      ∷ succeeded (record {
        backend = codex;
        session_id = [];
        output = text "hihi";
        structured = none;
        usage = some (record { input = 0; output = 0; reasoning = none });
      })
      ∷ [],
  false,
)
unfolding feed follow consume_codex is_blank is_space on_read on_line is_tool_item same
    on_agent_message on_turn_completed settle_turn parse_codex_structured_output structured_of_text
    normalize_codex_usage finish_codex
codex_run = refl

-- A null line ends the stream without a settlement.
codex_null :
    feed
      (codex_consumer codex_options)
      (text "message" ∷ text "null" ∷ text "done" ∷ [])
      start_codex
    ≡ (emitted (assistant_text_delta (text "hi")) ∷ [], true)
unfolding feed follow consume_codex is_blank is_space on_read on_line is_tool_item same
    on_agent_message
codex_null = refl

abbrev read_claude : Text → Reading ClaudeStreamLine
read_claude raw = shaped (record {
  type = some (text "result");
  subtype = some raw;
  session_id = some (text "s1");
  result = some (text "fine");
  structured_output = none;
  is_error = some false;
  event = none;
  content = none;
})

abbrev claude_options : ClaudeOptions ℕ
claude_options = record {
  read_line = read_claude;
  parse_json = λ t. err (text "unexpected token");
  stringify = λ v. [];
  schema = none;
  failure_context = none;
}

abbrev claude_raws : List Text
claude_raws = text "success" ∷ text "success" ∷ []

abbrev read_pi : Text → Result PiLine Text
read_pi raw = ok (record {
  type = some raw;
  success = none;
  error = none;
  tool_call_id = none;
  tool_name = none;
  args = none;
  is_error = none;
  result_content = none;
  message = none;
})

abbrev pi_options : PiOptions ℕ
pi_options = record {
  read_line = read_pi;
  parse_json = λ t. err (text "unexpected token");
  schema = none;
  session_id = text "p1";
}

pi_stream_settles_example :
    let (calls, threw) =
      feed (pi_consumer pi_options) (text "message_end" ∷ text "agent_end" ∷ []) new_pi_rpc_state in
    (settlements calls ≡ 1) × (threw ≡ false)
pi_stream_settles_example =
    pi_stream_settles pi_options (text "message_end" ∷ text "agent_end" ∷ [])

abbrev resumed : CodexExecArgs
resumed = record {
  model = some (text "gpt");
  reasoning_effort = some (text "high");
  approval_policy = none;
  sandbox = none;
  read_only = true;
  ignore_user_config = true;
  output_schema_path = none;
  resume_session_id = some (text "s1");
  mcp_server_url = some (text "http");
  prompt = some (text "go on");
}

codex_exec_jsonl_args-IsOther_example : All IsOther (codex_exec_jsonl_args (λ t. t) resumed)
unfolding same
codex_exec_jsonl_args-IsOther_example =
    codex_exec_jsonl_args-IsOther (λ t. t) resumed (text "s1") refl (omega arith) refl refl tt refl
