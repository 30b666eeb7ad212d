-- ===== src/Tests/Stream.antt =====
-- Runs of a conversation of src/conversation/conversation.ts.
use orca_ts.Base.{◌≡◌}
use orca_ts.Conversation.Stream.Phases.{is_settled, phase}
use orca_ts.Conversation.Settlement.{release, defer, reserve}
use orca_ts.Model.{codex}
use orca_ts.Conversation.Stream.Refinement.{open_conversation-IsCoherent, apply_all-IsStep}
use orca_ts.Conversation.Stream.{
  cancelled, complete, publish, release_settlement, settle_or_defer, end_cleanup, cleanup_ends,
  succeed, begin_cancel, cancel, reserve_settlement, open_conversation, StreamConversation,
}
use orca_ts.Conversation.Queue.{Queue}
use orca_ts.Conversation.Stream.Phases.{
  releases, ends_cleanup, succeeds, cancels, reserves, apply, ConversationCall, apply_all,
}
use orca_ts.Conversation.Stream.Settling.{IsStep}
use orca_ts.Model.Events.{ConversationEvent, BackendResult}
use orca_ts.Base.{◌∷◌, text, ℕ, List, none, some, [], false, refl}

abbrev empty_channel : Queue ConversationEvent
empty_channel = record {
  capacity = 32;
  items = [];
  takers = [];
  push_waiters = [];
  woken = [];
  closed = false;
  iterator_started = false;
}

abbrev fine : BackendResult ℕ
fine = record {
  backend = codex;
  session_id = text "s";
  output = text "done";
  structured = none;
  usage = none;
}

-- A success that comes while the conversation is being cancelled.
abbrev late_success : List (ConversationCall ℕ)
late_success =
    reserves
    ∷ cancels (some (text "enough")) none
    ∷ succeeds fine
    ∷ ends_cleanup none
    ∷ releases 0
    ∷ []

abbrev begun : StreamConversation ℕ
begun = open_conversation codex false empty_channel

apply_all-IsStep_example : IsStep begun (apply_all late_success begun)
apply_all-IsStep_example =
    apply_all-IsStep late_success begun (open_conversation-IsCoherent codex false empty_channel)

late_success_ends :
    phase (apply_all late_success begun) ≡ is_settled (cancelled (some (text "enough")))
unfolding apply_all apply reserve_settlement reserve cancel begin_cancel succeed cleanup_ends
    end_cleanup settle_or_defer defer release_settlement release publish complete
late_success_ends = refl
