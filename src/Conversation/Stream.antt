-- ===== src/Conversation/Stream.antt =====
-- src/conversation/conversation.ts, `StreamConversation`, with the cancellation part of
-- src/conversation/settlement-reservation.ts. A callback that settles is a value of `Publish`, run by
-- `publish`. What runs when the cleanup of a cancellation ends is a step of its own.
pub mod Phases
pub mod Pending
pub mod Settling
pub mod Refinement
use orca_ts.Model.{unsupported_feature, tag_name, BackendTag, RuntimeError}
use orca_ts.Conversation.Queue.{Effect, Queue, push, close}
use orca_ts.Conversation.Settlement.{
  failure, fresh, SettlementKind, cancellation_failure, cancellation, reserve, release, defer,
  Ledger,
}
use orca_ts.Model.Events.{
  approve_tool, user_question, ConversationEvent, backend_failed_plainly, BackendResult,
}
use orca_ts.Base.{
  is_none, not, text, ◌++◌, List, Result, ◌||◌, if◌then◌else◌, ℕ, Option, Bool, Text, none, some,
  true, false, ok, err,
}

pub data Outcome (O : Type 0) : Type 0 where
  success : BackendResult O → Outcome O
  cancelled : (reason : Option Text) → Outcome O
  failed : RuntimeError → Outcome O

-- The promise that `cancel` gives.
pub data Cancellation : Type 0 where
  pending resolved : Cancellation
  rejected : (error : Text) → Cancellation

pub data Publish (O : Type 0) : Type 0 where
  -- of `succeed` and `fail`
  settles : Outcome O → Publish O
  -- of the end of a cancellation
  ends_cancellation : (reason : Option Text) → Publish O
  fails_cancellation : RuntimeError → (error : Text) → Publish O

pub record StreamConversation (O : Type 0) : Type 0 where
  pub backend : BackendTag
  pub can_ask_user : Bool
  pub queue : Queue ConversationEvent
  pub ledger : Ledger (Publish O)
  pub settled : Bool
  pub outcome : Option (Outcome O)
  pub cancellation : Option Cancellation
  -- the abort signal
  pub aborted : Bool
  -- the reaction that waits on the cleanup, with the reason that it holds
  pub cleanup : Option (Option Text)
  -- whether a failure handler is registered, and whether the cancellation is complete
  pub handler : Bool
  pub cancellation_complete : Bool

abbrev pub no_reservation : {A : Type 0} → Ledger A
no_reservation = record {
  current = none;
  object = λ k. fresh;
  object_count = 0;
  handle = λ h. record { reservation = 0; released = true };
  handle_count = 0;
}

-- The constructor, on a queue.
abbrev pub open_conversation :
    {O : Type 0} → BackendTag → Bool → Queue ConversationEvent → StreamConversation O
open_conversation backend can_ask_user queue = record {
  backend = backend;
  can_ask_user = can_ask_user;
  queue = queue;
  ledger = no_reservation;
  settled = false;
  outcome = none;
  cancellation = none;
  aborted = false;
  cleanup = none;
  handler = false;
  cancellation_complete = false;
}

-- A promise that is settled stays as it is.
abbrev pub settle_cancellation : Cancellation → Option Cancellation → Option Cancellation
settle_cancellation c (some pending) = some c
settle_cancellation c other = other

-- Why an event is not supported, if it is not.
abbrev pub unsupported_reason : Bool → ConversationEvent → Option (Text × Text)
unsupported_reason false (user_question question) = some (
  text "user_question",
  text "Human interaction events require an explicit interactive conversation",
)
unsupported_reason can_ask_user (approve_tool id name input) =
    some (text "approve_tool", text "Live approval events are unsupported for autonomous execution")
unsupported_reason can_ask_user event = none

module _ {O : Type 0} where
  unfoldable pub complete : Outcome O → StreamConversation O → StreamConversation O
  unfolding close
  complete outcome s =
      if s.settled
      then s
      else record s { settled = true; queue = (close s.queue).0; outcome = some outcome }

  -- `complete` where there is no cancellation.
  abbrev pub complete_unless :
      Option Cancellation → Outcome O → StreamConversation O → StreamConversation O
  complete_unless none outcome s = complete outcome s
  complete_unless (some c) outcome s = s

  unfoldable pub publish : Publish O → StreamConversation O → StreamConversation O
  unfolding complete
  publish (settles outcome) s = complete_unless s.cancellation outcome s
  publish (ends_cancellation reason) s =
      let s₁ = complete (cancelled reason) s in
      record s₁ { cancellation = settle_cancellation resolved s₁.cancellation }
  publish (fails_cancellation cause error) s =
      let s₁ = complete (failed cause) s in
      record s₁ { cancellation = settle_cancellation (rejected error) s₁.cancellation }

  -- `if (!deferConversationSettlement(…)) publish()`.
  unfoldable pub settle_or_defer :
      SettlementKind → Publish O → StreamConversation O → StreamConversation O
  unfolding defer publish
  settle_or_defer kind p s =
      let (ledger, deferred) = defer (record { kind = kind; publish = p }) s.ledger in
      if deferred then record s { ledger = ledger } else publish p s

  abbrev pub unless_cancelled :
      Option Cancellation
      → (StreamConversation O → StreamConversation O)
      → StreamConversation O
      → StreamConversation O
  unless_cancelled none f s = f s
  unless_cancelled (some c) f s = s

  unfoldable pub succeed : BackendResult O → StreamConversation O → StreamConversation O
  unfolding settle_or_defer
  succeed result s =
      unless_cancelled s.cancellation
        (settle_or_defer SettlementKind.success (settles (success result))) s

  unfoldable pub fail : RuntimeError → StreamConversation O → StreamConversation O
  unfolding settle_or_defer
  fail error s =
      unless_cancelled s.cancellation (settle_or_defer failure (settles (failed error))) s

  -- What the queue does with an event, or the error.
  unfoldable pub emit :
      ConversationEvent
      → StreamConversation O
      → StreamConversation O × Result (List (Effect ConversationEvent)) RuntimeError
  unfolding fail push
  emit event s = elim (unsupported_reason s.can_ask_user event) [
    | some (feature, reason) ↦
        let error = unsupported_feature feature reason in (fail error s, err error)
    | none ↦ let (q, effects) = push event s.queue in (record s { queue = q }, ok effects)
  ]

  abbrev pub cleanup_failure : StreamConversation O → Text → RuntimeError
  cleanup_failure s message =
      backend_failed_plainly s.backend
        (tag_name s.backend ++ text " cancellation cleanup failed: " ++ message)

  unfoldable pub complete_cancellation_failure : Text → StreamConversation O → StreamConversation O
  unfolding settle_or_defer
  complete_cancellation_failure error s =
      record (settle_or_defer cancellation_failure
        (fails_cancellation (cleanup_failure s error) error) s) { cancellation_complete = true }

  -- The callback `onCancel` throws at once, or gives a cleanup to wait for.
  unfoldable pub begin_cancel :
      Option Text → Option Text → StreamConversation O → StreamConversation O
  unfolding complete_cancellation_failure
  begin_cancel reason none s = record s {
    cancellation = some pending;
    handler = true;
    aborted = true;
    cleanup = some reason;
  }
  begin_cancel reason (some thrown) s =
      complete_cancellation_failure thrown
        (record s { cancellation = some pending; handler = true; aborted = true })

  unfoldable pub cancel : Option Text → Option Text → StreamConversation O → StreamConversation O
  unfolding begin_cancel
  cancel reason thrown s =
      if s.settled || not (is_none s.cancellation) then s else begin_cancel reason thrown s

  -- The cleanup ends, well or with an error.
  unfoldable pub end_cleanup :
      Option Text → Option Text → StreamConversation O → StreamConversation O
  unfolding settle_or_defer complete_cancellation_failure
  end_cleanup reason none s =
      record (settle_or_defer cancellation (ends_cancellation reason)
        (record s { cleanup = none })) { cancellation_complete = true }
  end_cleanup reason (some error) s =
      complete_cancellation_failure error (record s { cleanup = none })

  unfoldable pub cleanup_ends : Option Text → StreamConversation O → StreamConversation O
  unfolding end_cleanup
  cleanup_ends error s = elim s.cleanup [ none ↦ s | some reason ↦ end_cleanup reason error s ]

  -- `reportConversationCancellationFailure`; whether there was a handler.
  unfoldable pub report_failure : Text → StreamConversation O → StreamConversation O × Bool
  unfolding complete_cancellation_failure
  report_failure error s =
      if s.handler then (complete_cancellation_failure error s, true) else (s, false)

  abbrev pub publish_if : Option (Publish O) → StreamConversation O → StreamConversation O
  publish_if none s = s
  publish_if (some p) s = publish p s

  -- A release function.
  unfoldable pub release_settlement : ℕ → StreamConversation O → StreamConversation O
  unfolding release publish
  release_settlement h s =
      let (ledger, p) = release h s.ledger in publish_if p (record s { ledger = ledger })

  unfoldable pub reserve_settlement : StreamConversation O → StreamConversation O
  unfolding reserve
  reserve_settlement s = record s { ledger = reserve s.ledger }
