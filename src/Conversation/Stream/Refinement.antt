-- ===== src/Conversation/Stream/Refinement.antt =====
-- Every call of a conversation is some moves of its abstract view.
use orca_ts.Conversation.Stream.Phases.{resumes, iterates, reserves, takes}
use orca_ts.Conversation.Stream.Pending.{reserve-AllPending, release-Released}
use orca_ts.Conversation.Settlement.{
  reserve, SettlementKind, failure, cancellation_failure, release,
}
use orca_ts.Conversation.Stream.Phases.{
  releases, reports, ends_cleanup, cancels, fails, succeeds, emits, ConversationCall, apply_all,
  apply, cancel_begins, goes, phase_of, Evolves, stays,
}
use orca_ts.Conversation.Stream.Settling.{
  Fits-cancelled, ledger-IsStep, publish-IsStep, IsStep_trans, Fits, settle_or_defer-IsStep,
  unless_cancelled-IsStep, IsStep, uncancelled, IsCoherent,
}
use orca_ts.Conversation.Queue.{next, resume, iterate, push, Queue}
use orca_ts.Model.Events.{ConversationEvent}
use orca_ts.Model.{BackendTag, unsupported_feature, RuntimeError}
use orca_ts.Conversation.Stream.{
  success, ends_cancellation, reserve_settlement, open_conversation, succeed, cancellation,
  report_failure, end_cleanup, cleanup_failure, publish_if, fails_cancellation, failed, Publish,
  unsupported_reason, Outcome, begin_cancel, pending, emit, cleanup_ends,
  complete_cancellation_failure, cancel, fail, release_settlement, StreamConversation,
}
use orca_ts.Base.{
  ◌∷◌, List, [], arith, not, is_none, ◌||◌, if_elim, Bool, ◌≡◌, Text, ℕ, Option, none, some, true,
  false, refl,
}

module _ {O : Type 0} where
  -- A step that changes neither what settles nor the reservations.
  quiet-IsStep :
      (s : StreamConversation O) (q : Queue ConversationEvent)
      → IsCoherent s
      → IsStep s (record s { queue = q })
  quiet-IsStep s q c = record {
    coherent = record {
      settled = c.settled;
      fits = c.fits;
      handler = c.handler;
      cleanup = c.cleanup;
    };
    evolves = stays;
  }

  fail-IsStep : (e : RuntimeError) (s : StreamConversation O) → IsCoherent s → IsStep s (fail e s)
  unfolding fail
  fail-IsStep e s c = unless_cancelled-IsStep failure (failed e) s c tt

  emit-IsStep :
      (event : ConversationEvent) (s : StreamConversation O)
      → IsCoherent s
      → IsStep s (emit event s).0
  unfolding emit
  emit-IsStep event s c = go (unsupported_reason s.can_ask_user event) refl
    where
      go :
          (r : Option (Text × Text))
          → unsupported_reason s.can_ask_user event ≡ r
          → IsStep s (emit event s).0
      go none e = rw (e, emit) (quiet-IsStep s (push event s.queue).0 c)
      go (some (feature, reason)) e =
          rw (e, emit) (fail-IsStep (unsupported_feature feature reason) s c)

  -- The mark that the cancellation is complete.
  marked-IsStep :
      {s t : StreamConversation O}
      → IsStep s t
      → IsStep s (record t { cancellation_complete = true })
  marked-IsStep step = record {
    coherent = record {
      settled = step.coherent.settled;
      fits = step.coherent.fits;
      handler = step.coherent.handler;
      cleanup = step.coherent.cleanup;
    };
    evolves = step.evolves;
  }

  complete_cancellation_failure-IsStep :
      (error : Text) (s : StreamConversation O)
      → IsCoherent s
      → uncancelled s ≡ false
      → IsStep s (complete_cancellation_failure error s)
  unfolding complete_cancellation_failure
  complete_cancellation_failure-IsStep error s c h = marked-IsStep (
      settle_or_defer-IsStep cancellation_failure
        (fails_cancellation (cleanup_failure s error) error) s c h)

  -- A conversation on its way to be cancelled.
  abbrev cancelling_with : Option (Option Text) → StreamConversation O → StreamConversation O
  cancelling_with cleanup s = record s {
    cancellation = some pending;
    handler = true;
    aborted = true;
    cleanup = cleanup;
  }

  cancelling_with-IsStep :
      (cleanup : Option (Option Text)) (s : StreamConversation O)
      → IsCoherent s
      → s.settled ≡ false
      → uncancelled s ≡ true
      → IsStep s (cancelling_with cleanup s)
  cancelling_with-IsStep cleanup s c going free = record {
    coherent = record {
      settled = c.settled;
      fits = λ k p e. Fits-cancelled (uncancelled s) p.publish (c.fits k p e);
      handler = λ _. refl;
      cleanup = λ _ _. refl;
    };
    evolves = begin_move s.outcome (uncancelled s) (ground (arith, c.settled)) free;
  }
    where
      begin_move :
          (x : Option (Outcome O)) (b : Bool)
          → is_none x ≡ true
          → b ≡ true
          → Evolves (phase_of x b) (phase_of x false)
      begin_move none true e f = goes cancel_begins stays
      begin_move none false e f = stays
      begin_move (some o) b e f = absurd (cc)

  cancel-IsStep :
      (reason thrown : Option Text) (s : StreamConversation O)
      → IsCoherent s
      → IsStep s (cancel reason thrown s)
  unfolding cancel
  cancel-IsStep reason thrown s c =
      if_elim (IsStep s) (s.settled || not (is_none s.cancellation)) {x = s}
        {y = begin_cancel reason thrown s} (λ _. record { coherent = c; evolves = stays })
        (λ fresh. go thrown (ground arith) (ground arith))
    where
      go :
          (thrown : Option Text)
          → s.settled ≡ false
          → uncancelled s ≡ true
          → IsStep s (begin_cancel reason thrown s)
      go none going free = cancelling_with-IsStep (some reason) s c going free
      go (some e) going free =
          let step = cancelling_with-IsStep s.cleanup s c going free in
          IsStep_trans step (
            complete_cancellation_failure-IsStep e (cancelling_with s.cleanup s) step.coherent refl)

  -- The reaction to the cleanup runs once.
  abbrev reacted : StreamConversation O → StreamConversation O
  reacted s = record s { cleanup = none }

  reacted-IsStep : (s : StreamConversation O) → IsCoherent s → IsStep s (reacted s)
  reacted-IsStep s c = record {
    coherent = record {
      settled = c.settled;
      fits = c.fits;
      handler = c.handler;
      cleanup = λ r e. absurd (cc);
    };
    evolves = stays;
  }

  end_cleanup-IsStep :
      (reason error : Option Text) (s : StreamConversation O)
      → IsCoherent s
      → uncancelled s ≡ false
      → IsStep s (end_cleanup reason error s)
  unfolding end_cleanup
  end_cleanup-IsStep reason none s c h = marked-IsStep (
      IsStep_trans (reacted-IsStep s c) (
        settle_or_defer-IsStep cancellation (ends_cancellation reason) (reacted s)
          (reacted-IsStep s c).coherent h))
  end_cleanup-IsStep reason (some error) s c h =
      IsStep_trans (reacted-IsStep s c)
        (complete_cancellation_failure-IsStep error (reacted s) (reacted-IsStep s c).coherent h)

  cleanup_ends-IsStep :
      (error : Option Text) (s : StreamConversation O)
      → IsCoherent s
      → IsStep s (cleanup_ends error s)
  unfolding cleanup_ends
  cleanup_ends-IsStep error s c = go s.cleanup refl
    where
      after : Option (Option Text) → StreamConversation O
      after x = elim x [ none ↦ s | some reason ↦ end_cleanup reason error s ]

      go : (x : Option (Option Text)) → s.cleanup ≡ x → IsStep s (after x)
      go none e = record { coherent = c; evolves = stays }
      go (some reason) e = end_cleanup-IsStep reason error s c (c.cleanup reason e)

  release_settlement-IsStep :
      (h : ℕ) (s : StreamConversation O) → IsCoherent s → IsStep s (release_settlement h s)
  unfolding release_settlement
  release_settlement-IsStep h s c =
      let r = release h s.ledger in
      let (kept, published) = release-Released (Fits (uncancelled s)) h s.ledger c.fits in
      go r.1 published (ledger-IsStep r.0 s c kept)
    where
      t : StreamConversation O
      t = record s { ledger = (release h s.ledger).0 }

      go :
          (p : Option (Publish O))
          → ((a : Publish O) → p ≡ some a → Fits (uncancelled s) a)
          → IsStep s t
          → IsStep s (publish_if p t)
      go none f step = step
      go (some p) f step = IsStep_trans step (publish-IsStep p t step.coherent (f p refl))

  report_failure-IsStep :
      (error : Text) (s : StreamConversation O) → IsCoherent s → IsStep s (report_failure error s).0
  unfolding report_failure
  report_failure-IsStep error s c =
      if_elim (λ (r : StreamConversation O × Bool). IsStep s r.0) s.handler
        (λ registered. complete_cancellation_failure-IsStep error s c (c.handler registered))
        (λ _. record { coherent = c; evolves = stays })

  apply-IsStep :
      (call : ConversationCall O) (s : StreamConversation O)
      → IsCoherent s
      → IsStep s (apply call s)
  unfolding apply succeed reserve_settlement
  apply-IsStep (emits event) s c = emit-IsStep event s c
  apply-IsStep (succeeds result) s c =
      unless_cancelled-IsStep SettlementKind.success (success result) s c tt
  apply-IsStep (fails error) s c = fail-IsStep error s c
  apply-IsStep (cancels reason thrown) s c = cancel-IsStep reason thrown s c
  apply-IsStep (ends_cleanup error) s c = cleanup_ends-IsStep error s c
  apply-IsStep (reports error) s c = report_failure-IsStep error s c
  apply-IsStep reserves s c =
      ledger-IsStep (reserve s.ledger) s c
        (reserve-AllPending (Fits (uncancelled s)) s.ledger c.fits)
  apply-IsStep (releases handle) s c = release_settlement-IsStep handle s c
  apply-IsStep iterates s c = quiet-IsStep s (iterate s.queue).0 c
  apply-IsStep resumes s c = quiet-IsStep s (resume s.queue.woken s.queue).0 c
  apply-IsStep (takes taker) s c = quiet-IsStep s (next taker s.queue).0 c

  -- The conversation refines its abstract view: whatever calls are made of a coherent state, in whatever
  -- order, the state stays coherent, and its view moves as the view may: an open conversation is settled
  -- by its backend's success or a failure, or a cancellation begins; a cancellation ends cancelled or
  -- failed, never in success; and a settled conversation keeps its outcome.
  pub apply_all-IsStep :
      (calls : List (ConversationCall O)) (s : StreamConversation O)
      → IsCoherent s
      → IsStep s (apply_all calls s)
  unfolding apply_all
  apply_all-IsStep [] s c = record { coherent = c; evolves = stays }
  apply_all-IsStep (call ∷ calls) s c =
      let step = apply-IsStep call s c in
      IsStep_trans step (apply_all-IsStep calls (apply call s) step.coherent)

-- A new conversation is coherent.
pub open_conversation-IsCoherent :
    {O : Type 0} (backend : BackendTag) (can_ask_user : Bool) (queue : Queue ConversationEvent)
    → IsCoherent {O = O} (open_conversation backend can_ask_user queue)
open_conversation-IsCoherent backend can_ask_user queue = record {
  settled = refl;
  fits = λ k p e. absurd (cc);
  handler = λ e. absurd (cc);
  cleanup = λ r e. absurd (cc);
}
