-- ===== src/Backends/Codex/Answers.antt =====
-- How a Codex stream settles its conversation, and with what output.
use orca_ts.Model.{RuntimeError}
use orca_ts.Model.Events.{assistant_text_delta}
use orca_ts.Backends.Stream.{
  null_line, malformed, throws, shaped, is_null_line, Reading, Attempt, returns, failed, succeeded,
  is_blank, is_type, emitted, IsStep, Call, IsConsumer, settlements,
}
use orca_ts.Backends.Codex.{
  final_text, is_tool_item, parse_codex_structured_output, no_item, is_truthy, CodexLine,
  settle_turn, CodexItem, on_agent_message, codex_consumer, consume_codex, CodexState,
  on_tool_started, on_read, on_ask_user, on_tool_completed, on_turn_completed, on_line,
  finish_codex, CodexOptions,
}
use orca_ts.Base.{
  Bool, ◌&&◌, arith, text, Option, ◌||◌, or_default, subst, ◌++◌, ◌∷◌, if_elim, ◌≡◌, Result, List,
  Text, [], true, false, refl, ok, err,
}

-- The texts of the text deltas, in their order, after those of a prefix; each success tells them.
unfoldable pub Tells : {O : Type 0} → Text → List (Call O) → Type 0
Tells said [] = Unit
Tells said (emitted (assistant_text_delta t) ∷ cs) = Tells (said ++ t) cs
Tells said (emitted _ ∷ cs) = Tells said cs
Tells said (succeeded r ∷ cs) = (r.output ≡ said) × Tells said cs
Tells said (failed e ∷ cs) = Tells said cs

module _ {O : Type 0} (options : CodexOptions O) where
  abbrev IsTurn : Attempt (CodexState × List (Call O)) → Type 0
  IsTurn r = IsStep (codex_consumer options) r

  -- A turn that tells what was said, and leaves the output said after it.
  abbrev Says : CodexState → Attempt (CodexState × List (Call O)) → Type 0
  Says s throws = Unit
  Says s (returns r) = (cs : List (Call O)) → Tells r.0.output cs → Tells s.output (r.1 ++ cs)

  abbrev IsGood : CodexState → Attempt (CodexState × List (Call O)) → Type 0
  IsGood s r = IsTurn r × Says s r

  quiet-IsGood :
      (s s' : CodexState)
      → s.aborted ≡ false
      → s'.aborted ≡ false
      → s'.output ≡ s.output
      → IsGood s (returns (s', []))
  unfolding settlements
  quiet-IsGood s s' h k e = ((λ _. refl, λ a. cc), λ cs t. subst (λ o. Tells o cs) e t)

  on_ask_user-IsGood :
      (item : CodexItem) (s : CodexState)
      → s.aborted ≡ false
      → IsGood s (returns (on_ask_user options item s))
  unfolding on_ask_user settlements Tells
  on_ask_user-IsGood item s h =
      if_elim (λ r. IsGood s (returns r)) options.interactive
        (λ yes. ((λ _. refl, λ a. cc), λ cs t. t)) (λ no. ((λ a. cc, λ _. refl), λ cs t. t))

  on_tool_started-IsGood :
      (item : CodexItem) (s : CodexState)
      → s.aborted ≡ false
      → IsGood s (returns (on_tool_started options item s))
  unfolding on_tool_started settlements Tells
  on_tool_started-IsGood item s h =
      if_elim (λ r. IsGood s (returns r))
        (is_type item.server (text "orcats") && is_type item.tool (text "ask_user"))
        (λ asks. on_ask_user-IsGood item s h) (λ other. ((λ _. refl, λ a. cc), λ cs t. t))

  on_tool_completed-IsGood :
      (item : CodexItem) (s : CodexState)
      → s.aborted ≡ false
      → IsGood s (returns (on_tool_completed options item s))
  unfolding on_tool_completed settlements Tells
  on_tool_completed-IsGood item s h =
      if_elim (λ r. IsGood s (returns r)) (is_truthy item.error)
        (λ bad. ((λ a. cc, λ _. refl), λ cs t. t)) (λ good. ((λ _. refl, λ a. cc), λ cs t. t))

  on_turn_completed-IsGood :
      (line : CodexLine) (s : CodexState)
      → s.aborted ≡ false
      → IsGood s (returns (on_turn_completed options line s))
  unfolding on_turn_completed settle_turn settlements Tells
  on_turn_completed-IsGood line s h =
      go (parse_codex_structured_output options (final_text options s))
    where
      go : (r : Result (Option O) RuntimeError) → IsGood s (returns (settle_turn options r line s))
      go (ok v) = ((λ a. cc, λ _. refl), λ cs t. (refl, t))
      go (err e) = ((λ a. cc, λ _. refl), λ cs t. t)

  on_line-IsGood :
      (line : CodexLine) (s : CodexState)
      → s.aborted ≡ false
      → IsGood s (returns (on_line options line s))
  unfolding on_line on_agent_message settlements Tells
  on_line-IsGood line s h =
      let item = or_default line.item no_item in
      if_elim (λ r. IsGood s (returns r)) (is_type line.type (text "thread.started"))
        (λ a.
          quiet-IsGood s (record s { thread_id = or_default line.thread_id s.thread_id }) h h refl)
        (λ b.
          if_elim (λ r. IsGood s (returns r))
            (is_type line.type (text "item.started") && is_tool_item item)
            (λ c. on_tool_started-IsGood item s h)
            (λ d.
              if_elim (λ r. IsGood s (returns r))
                (is_type line.type (text "item.completed") && is_tool_item item)
                (λ e. on_tool_completed-IsGood item s h)
                (λ f.
                  if_elim (λ r. IsGood s (returns r))
                    (is_type line.type (text "item.completed")
                      && is_type item.type (text "agent_message"))
                    (λ g. ((λ _. refl, λ a. cc), λ cs t. t))
                    (λ i.
                      if_elim (λ r. IsGood s (returns r))
                        (is_type line.type (text "turn.completed"))
                        (λ j. on_turn_completed-IsGood line s h)
                        (λ k. quiet-IsGood s s h h refl)))))

  on_read-IsGood :
      (r : Reading CodexLine) (s : CodexState) → s.aborted ≡ false → IsGood s (on_read options r s)
  unfolding on_read settlements Tells
  on_read-IsGood (shaped line) s h = on_line-IsGood line s h
  on_read-IsGood null_line s h = (tt, tt)
  on_read-IsGood (malformed m) s h = ((λ a. cc, λ _. refl), λ cs t. t)

  consume_codex-IsGood :
      (raw : Text) (s : CodexState) → s.aborted ≡ false → IsGood s (consume_codex options s raw)
  unfolding consume_codex
  consume_codex-IsGood raw s h =
      if_elim (IsGood s) (s.aborted || is_blank raw) (λ skip. quiet-IsGood s s h h refl)
        (λ read. on_read-IsGood (options.read_line raw) s h)

  consume_codex-aborted :
      (s : CodexState) (raw : Text)
      → s.aborted ≡ true
      → consume_codex options s raw ≡ returns (s, [])
  unfolding consume_codex
  consume_codex-aborted s raw h =
      if_elim (λ r. r ≡ returns (s, [])) (s.aborted || is_blank raw) (λ a. refl)
        (λ b. absurd (ground arith))

  -- The Codex consumer keeps the promises of a consumer.
  pub codex_consumer-IsConsumer : IsConsumer (codex_consumer options)
  unfolding finish_codex settlements
  codex_consumer-IsConsumer = record {
    deaf = consume_codex-aborted;
    step = λ s raw h. (consume_codex-IsGood raw s h).0;
    idle = λ s h.
        if_elim (λ (r : CodexState × List (Call O)). r.1 ≡ []) s.aborted (λ a. refl)
          (λ b. absurd (cc));
    close = λ s h.
        if_elim (λ (r : CodexState × List (Call O)). settlements r.1 ≡ 1) s.aborted
          (λ a. absurd (cc)) (λ b. refl);
  }

  -- Whether JSON.parse gives null for a line.
  abbrev pub is_codex_null : Text → Bool
  is_codex_null raw = is_null_line (options.read_line raw)
