-- ===== src/Backends/Pi/Answers.antt =====
-- How a Pi stream settles its conversation.
use orca_ts.Model.{RuntimeError}
use orca_ts.Backends.Stream.{
  follow, returns, feed-IsSettled, is_blank, is_type, text_content, IsConsumer, IsStep, feed, Call,
  settlements,
}
use orca_ts.Backends.Pi.{
  parse_pi_structured_output, is_false, new_pi_rpc_state, PiMessage, pi_consumer, PiLine, finish_pi,
  on_failed_response, apply_pi_rpc_line, on_pi_read, on_message_end, PiRpcState, settle_agent,
  consume_pi, PiOptions,
}
use orca_ts.Base.{
  ◌∷◌, arith, length, ◌&&◌, ltb, text, ◌||◌, or_default, if_elim, ◌≡◌, Result, Option, Text, List,
  none, [], false, refl, ok, err,
}

module _ {O : Type 0} (options : PiOptions O) where
  abbrev IsTurn : PiRpcState × List (Call O) → Type 0
  IsTurn r = IsStep (pi_consumer options) (returns r)

  on_message_end-IsTurn :
      (m : Option PiMessage) (s : PiRpcState)
      → s.aborted ≡ false
      → IsTurn (on_message_end options m s)
  unfolding on_message_end settlements
  on_message_end-IsTurn m s h =
      let output = text_content (or_default m (record { content = none; usage = none })).content in
      let silent =
        if_elim (λ (cs : List (Call O)). settlements cs ≡ 0) (ltb 0 (length output)) (λ a. refl)
          (λ b. refl) in
      (λ _. silent, λ a. cc)

  settle_agent-IsTurn :
      (r : Result (Option O) RuntimeError) (s : PiRpcState) → IsTurn (settle_agent options r s)
  unfolding settle_agent settlements
  settle_agent-IsTurn (ok v) s = (λ a. cc, λ _. refl)
  settle_agent-IsTurn (err e) s = (λ a. cc, λ _. refl)

  apply_pi_rpc_line-IsTurn :
      (line : PiLine) (s : PiRpcState)
      → s.aborted ≡ false
      → IsTurn (apply_pi_rpc_line options line s)
  unfolding apply_pi_rpc_line on_failed_response settlements
  apply_pi_rpc_line-IsTurn line s h =
      if_elim IsTurn (is_type line.type (text "response") && is_false line.success)
        (λ a. (λ a. cc, λ _. refl))
        (λ b.
          if_elim IsTurn (is_type line.type (text "tool_execution_start"))
            (λ c. (λ _. refl, λ a. cc))
            (λ d.
              if_elim IsTurn (is_type line.type (text "tool_execution_end"))
                (λ e. (λ _. refl, λ a. cc))
                (λ f.
                  if_elim IsTurn (is_type line.type (text "message_end"))
                    (λ g. on_message_end-IsTurn line.message s h)
                    (λ i.
                      if_elim IsTurn (is_type line.type (text "agent_end"))
                        (λ j. settle_agent-IsTurn (parse_pi_structured_output options s.output) s)
                        (λ k. (λ _. refl, λ a. cc))))))

  on_pi_read-IsTurn :
      (r : Result PiLine Text) (s : PiRpcState)
      → s.aborted ≡ false
      → IsTurn (on_pi_read options r s)
  unfolding on_pi_read settlements
  on_pi_read-IsTurn (ok line) s h = apply_pi_rpc_line-IsTurn line s h
  on_pi_read-IsTurn (err m) s h = (λ a. cc, λ _. refl)

  -- The Pi consumer keeps the promises of a consumer.
  pub pi_consumer-IsConsumer : IsConsumer (pi_consumer options)
  unfolding consume_pi finish_pi settlements
  pi_consumer-IsConsumer = record {
    deaf = λ s raw h.
        if_elim (λ (r : PiRpcState × List (Call O)). returns r ≡ returns (s, []))
          (s.aborted || is_blank raw) (λ a. refl) (λ b. absurd (ground arith));
    step = λ s raw h.
        if_elim IsTurn (s.aborted || is_blank raw) (λ a. (λ _. refl, λ a. cc))
          (λ b. on_pi_read-IsTurn (options.read_line raw) s h);
    idle = λ s h.
        if_elim (λ (r : PiRpcState × List (Call O)). r.1 ≡ []) s.aborted (λ a. refl)
          (λ b. absurd (cc));
    close = λ s h.
        if_elim (λ (r : PiRpcState × List (Call O)). settlements r.1 ≡ 1) s.aborted
          (λ a. absurd (cc)) (λ b. refl);
  }

  no_throw : (raws : List Text) (s : PiRpcState) → (feed (pi_consumer options) raws s).1 ≡ false
  unfolding feed follow consume_pi
  no_throw [] s = refl
  no_throw (raw ∷ raws) s = no_throw raws _

  -- Whatever its lines are, a Pi stream settles its conversation exactly once, and its consumer does
  -- not throw.
  pub pi_stream_settles :
      (raws : List Text)
      → let (calls, threw) = feed (pi_consumer options) raws new_pi_rpc_state in
        (settlements calls ≡ 1) × (threw ≡ false)
  pi_stream_settles raws =
      let whole = no_throw raws new_pi_rpc_state in
      let settled =
        feed-IsSettled (pi_consumer options) pi_consumer-IsConsumer raws new_pi_rpc_state refl in
      (settled.0 whole, whole)
