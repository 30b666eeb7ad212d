-- ===== src/Conversation/Stream/Phases.antt =====
-- The abstract view of a conversation: it is open, being cancelled, or settled for good.
use orca_ts.Conversation.Queue.{next, resume, iterate}
use orca_ts.Model.{RuntimeError}
use orca_ts.Model.Events.{BackendResult, ConversationEvent}
use orca_ts.Conversation.Stream.{
  release_settlement, reserve_settlement, report_failure, cleanup_ends, cancel, fail, succeed,
  success, cancelled, emit, StreamConversation, Outcome,
}
use orca_ts.Base.{ℕ, Text, is_none, Bool, ◌∷◌, List, Option, none, some, [], true, false}

pub data Phase (O : Type 0) : Type 0 where
  is_open is_cancelling : Phase O
  is_settled : Outcome O → Phase O

-- The outcomes that a conversation may have that is not cancelled.
abbrev pub IsOfBackend : {O : Type 0} → Outcome O → Type 0
IsOfBackend (cancelled reason) = ⊥
IsOfBackend _ = Unit

-- The outcomes that a cancellation may have.
abbrev pub IsOfCancellation : {O : Type 0} → Outcome O → Type 0
IsOfCancellation (success result) = ⊥
IsOfCancellation _ = Unit

pub data Moves {O : Type 0} : Phase O → Phase O → Type 0 where
  settled_by : (o : Outcome O) → IsOfBackend o → Moves is_open (is_settled o)
  cancel_begins : Moves is_open is_cancelling
  cancel_ends : (o : Outcome O) → IsOfCancellation o → Moves is_cancelling (is_settled o)

-- Some moves, one after the other.
pub data Evolves {O : Type 0} : Phase O → Phase O → Type 0 where
  stays : {p : Phase O} → Evolves p p
  goes : {p q r : Phase O} → Moves p q → Evolves q r → Evolves p r

pub Evolves-trans : {O : Type 0} {p q r : Phase O} → Evolves p q → Evolves q r → Evolves p r
Evolves-trans stays m = m
Evolves-trans (goes m ms) n = goes m (Evolves-trans ms n)

-- The second argument says whether there is no cancellation.
abbrev pub phase_of : {O : Type 0} → Option (Outcome O) → Bool → Phase O
phase_of (some o) b = is_settled o
phase_of none true = is_open
phase_of none false = is_cancelling

abbrev pub phase : {O : Type 0} → StreamConversation O → Phase O
phase s = phase_of s.outcome (is_none s.cancellation)

-- What can be done with a conversation; of its queue, what its consumer does.
pub data ConversationCall (O : Type 0) : Type 0 where
  emits : ConversationEvent → ConversationCall O
  succeeds : BackendResult O → ConversationCall O
  fails : RuntimeError → ConversationCall O
  cancels : (reason thrown : Option Text) → ConversationCall O
  ends_cleanup : (error : Option Text) → ConversationCall O
  reports : (error : Text) → ConversationCall O
  reserves : ConversationCall O
  releases : (handle : ℕ) → ConversationCall O
  iterates resumes : ConversationCall O
  takes : (taker : ℕ) → ConversationCall O

module _ {O : Type 0} where
  unfoldable pub apply : ConversationCall O → StreamConversation O → StreamConversation O
  unfolding emit succeed fail cancel cleanup_ends report_failure reserve_settlement
      release_settlement iterate resume next
  apply (emits event) s = (emit event s).0
  apply (succeeds result) s = succeed result s
  apply (fails error) s = fail error s
  apply (cancels reason thrown) s = cancel reason thrown s
  apply (ends_cleanup error) s = cleanup_ends error s
  apply (reports error) s = (report_failure error s).0
  apply reserves s = reserve_settlement s
  apply (releases handle) s = release_settlement handle s
  apply iterates s = record s { queue = (iterate s.queue).0 }
  apply resumes s = record s { queue = (resume s.queue.woken s.queue).0 }
  apply (takes taker) s = record s { queue = (next taker s.queue).0 }

  unfoldable pub apply_all : List (ConversationCall O) → StreamConversation O → StreamConversation O
  unfolding apply
  apply_all [] s = s
  apply_all (call ∷ calls) s = apply_all calls (apply call s)
