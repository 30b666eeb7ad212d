-- ===== src/Backends/Claude/Answers.antt =====
-- How a Claude stream settles its conversation.
use orca_ts.Model.{RuntimeError}
use orca_ts.Backends.Stream.{
  null_line, shaped, returns, malformed, Attempt, is_null_line, Reading, is_type_other, is_blank,
  settlements-append, is_type, IsConsumer, IsStep, Call, settlements,
}
use orca_ts.Backends.Claude.{
  other_block, block_calls, prose, parse_claude_structured_output, tool_output, ends_turn, tool_use,
  output_of, claude_consumer, ClaudeDelta, ClaudeEvent, ClaudeContentBlock, finish_claude,
  ClaudeStreamLine, on_delta, settle_result, on_claude_read, consume_stream_event,
  consume_claude_line, consume_claude, ClaudeState, consume_message, consume_result, ClaudeOptions,
}
use orca_ts.Base.{
  Bool, Bool-cases, same, inl, inr, ◌+◌, arith, ◌∙◌, ◌||◌, not, if_elim, ◌∷◌, ◌&&◌, text,
  or_default, ◌≡◌, Result, Text, Option, List, none, some, [], true, false, refl, ok, err,
}

module _ {O : Type 0} (options : ClaudeOptions O) where
  abbrev IsTurn : Attempt (ClaudeState × List (Call O)) → Type 0
  IsTurn r = IsStep (claude_consumer options) r

  settlements-blocks :
      (blocks : List ClaudeContentBlock) → settlements (block_calls options blocks) ≡ 0
  unfolding settlements block_calls
  settlements-blocks [] = refl
  settlements-blocks (tool_use _ _ _ ∷ bs) = settlements-blocks bs
  settlements-blocks (tool_output _ _ _ ∷ bs) = settlements-blocks bs
  settlements-blocks (prose _ ∷ bs) = settlements-blocks bs
  settlements-blocks (other_block ∷ bs) = settlements-blocks bs

  settlements-message :
      (type : Option Text) (content : Option (List ClaudeContentBlock))
      → settlements (consume_message options type content) ≡ 0
  unfolding consume_message settlements
  settlements-message type content =
      let blocks = or_default content [] in
      let ending = is_type type (text "assistant") && ends_turn options blocks in
      settlements-append (block_calls options blocks) _
      ∙ if_elim
          (λ (cs : List (Call O)). settlements (block_calls options blocks) + settlements cs ≡ 0)
          ending (λ yes. omega (arith, settlements-blocks blocks))
          (λ no. omega (arith, settlements-blocks blocks))

  settlements-event :
      (event : Option ClaudeEvent) → settlements (consume_stream_event options event) ≡ 0
  unfolding consume_stream_event on_delta settlements
  settlements-event none = refl
  settlements-event (some event) = go event.delta
    where
      go :
          (d : Option ClaudeDelta)
          → settlements (elim d as (λ x. List (Call O)) [
            | none ↦ []
            | some delta ↦ on_delta options event.type delta
          ])
            ≡ 0
      go none = refl
      go (some delta) =
          if_elim (λ (cs : List (Call O)). settlements cs ≡ 0)
            (is_type event.type (text "content_block_delta")
              && is_type delta.type (text "text_delta"))
            (λ yes. refl) (λ no. refl)

  settlements-result : (line : ClaudeStreamLine) → settlements (consume_result options line) ≡ 1
  unfolding consume_result settle_result settlements
  settlements-result line =
      if_elim (λ (cs : List (Call O)). settlements cs ≡ 1)
        (is_type line.subtype (text "success") && not (or_default line.is_error false))
        (λ yes. go (
          parse_claude_structured_output options options.schema (output_of options line)
            line.structured_output))
        (λ no. refl)
    where
      go :
          (r : Result (Option O) RuntimeError)
          → settlements
              (settle_result options (or_default line.session_id []) (output_of options line) r)
            ≡ 1
      go (ok v) = refl
      go (err e) = refl

  -- A line settles if its type is `result`, and only then.
  settlements-line :
      (line : ClaudeStreamLine)
      → (is_type line.type (text "result") ≡ true
          → settlements (consume_claude_line options line) ≡ 1)
        × (is_type line.type (text "result") ≡ false
            → settlements (consume_claude_line options line) ≡ 0)
  unfolding consume_claude_line settlements same
  settlements-line line =
      let result : Bool = is_type line.type (text "result") in
      let Counted : List (Call O) → Type 0 =
        λ cs. (result ≡ true → settlements cs ≡ 1) × (result ≡ false → settlements cs ≡ 0) in
      if_elim Counted (is_type line.type (text "stream_event"))
        (λ a.
          let other = is_type_other line.type (text "stream_event") (text "result") refl a in
          (λ k. cc, λ k. settlements-event line.event))
        (λ b.
          if_elim Counted (is_type line.type (text "assistant") || is_type line.type (text "user"))
            (λ c. (
              λ k. absurd (message line.type c k),
              λ k. settlements-message line.type line.content,
            ))
            (λ d.
              if_elim Counted result (λ e. (λ _. settlements-result line, λ k. cc))
                (λ f. (λ k. cc, λ _. refl))))
    where
      message :
          (t : Option Text)
          → (is_type t (text "assistant") || is_type t (text "user")) ≡ true
          → is_type t (text "result") ≡ true
          → ⊥
      message t c k = elim (Bool-cases (is_type t (text "assistant"))) [
        | inl a ↦ let other = is_type_other t (text "assistant") (text "result") refl a in cc
        | inr n ↦
            let u : is_type t (text "user") ≡ true = ground arith in
            let other = is_type_other t (text "user") (text "result") refl u in cc
      ]

  on_claude_read-IsTurn :
      (r : Reading ClaudeStreamLine) (s : ClaudeState)
      → s.aborted ≡ false
      → IsTurn (on_claude_read options r s)
  unfolding on_claude_read settlements
  on_claude_read-IsTurn (malformed m) s h = (λ a. cc, λ _. refl)
  on_claude_read-IsTurn null_line s h = tt
  on_claude_read-IsTurn (shaped line) s h =
      let (settling, other) = settlements-line line in
      if_elim (λ (t : ClaudeState). IsTurn (returns (t, consume_claude_line options line)))
        (is_type line.type (text "result")) (λ k. (λ a. cc, λ _. settling k))
        (λ k. (λ _. other k, λ a. cc))

  -- The Claude consumer keeps the promises of a consumer.
  pub claude_consumer-IsConsumer : IsConsumer (claude_consumer options)
  unfolding consume_claude finish_claude settlements
  claude_consumer-IsConsumer = record {
    deaf = λ s raw h.
        if_elim (λ (r : Attempt (ClaudeState × List (Call O))). r ≡ returns (s, []))
          (s.aborted || is_blank raw) (λ a. refl) (λ b. absurd (ground arith));
    step = λ s raw h.
        if_elim IsTurn (s.aborted || is_blank raw) (λ a. (λ _. refl, λ a. cc))
          (λ b. on_claude_read-IsTurn (options.read_line raw) s h);
    idle = λ s h.
        if_elim (λ (r : ClaudeState × List (Call O)). r.1 ≡ []) s.aborted (λ a. refl)
          (λ b. absurd (cc));
    close = λ s h.
        if_elim (λ (r : ClaudeState × List (Call O)). settlements r.1 ≡ 1) s.aborted
          (λ a. absurd (cc)) (λ b. refl);
  }

  -- Whether JSON.parse gives null for a line.
  abbrev pub is_claude_null : Text → Bool
  is_claude_null raw = is_null_line (options.read_line raw)
