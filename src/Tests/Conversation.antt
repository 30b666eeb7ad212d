-- ===== src/Tests/Conversation.antt =====
-- The bounded queue at concrete inputs.
use orca_ts.Conversation.Settlement.Foremost.{release-IsForemost, IsForemost}
use orca_ts.Conversation.Settlement.{
  is_reserved, defer_all, fresh, failure, success, PendingSettlement, reserve, Ledger, release,
}
use orca_ts.Conversation.Queue.Wakeups.{
  at_rest, iterate_next, push_next, PatientRun-IsServed, PatientRun, IsServed,
}
use orca_ts.Conversation.Queue.{
  Effect, evicted, accepted, iterate, next, push, resume, make_queue, Queue,
}
use orca_ts.Conversation.Queue.Order.{Run-Balanced, lost, Balanced}
use orca_ts.Base.{some, none, false, ◌≡◌, [], ◌∷◌, List, ℕ, arith, Bool, true, refl}
use orca_ts.Conversation.Queue.Run.{
  start, then_step, pushing, iterating, Run, IsQueue, Run-IsQueue, make_queue-IsQueue,
}

abbrev queue_of : Bool → List ℕ → List ℕ → Queue ℕ
queue_of started items waiting = record {
  capacity = 1;
  items = items;
  takers = [];
  push_waiters = waiting;
  woken = [];
  closed = false;
  iterator_started = started;
}

abbrev empty_queue : Queue ℕ
empty_queue = queue_of false [] []

empty-IsQueue : IsQueue empty_queue
unfolding make_queue
empty-IsQueue = make_queue-IsQueue 1 empty_queue refl

-- Without a consumer the first item is evicted; with one the third push waits.
abbrev traffic : List (Effect ℕ)
traffic = accepted 1 ∷ evicted 1 ∷ accepted 2 ∷ []

abbrev parked : Queue ℕ
parked = queue_of true (2 ∷ []) (3 ∷ [])

abbrev busy : Run empty_queue parked traffic
unfolding push iterate
busy =
    then_step (then_step (then_step (then_step start (pushing 1)) (pushing 2)) iterating)
      (pushing 3)

Run-IsQueue_example : IsQueue parked
Run-IsQueue_example = Run-IsQueue empty_queue parked traffic busy empty-IsQueue

Run-Balanced_example : Balanced [] (parked, traffic) × (false ≡ true → lost traffic ≡ [])
Run-Balanced_example = Run-Balanced empty_queue parked traffic busy empty-IsQueue

empty-IsServed : IsServed empty_queue
empty-IsServed = record {
  well = empty-IsQueue;
  served = λ k. absurd (omega arith);
  apart = λ k. absurd (omega arith);
}

abbrev patient : PatientRun empty_queue parked
unfolding push iterate
patient = push_next 3 (iterate_next (push_next 2 at_rest))

PatientRun-IsServed_example : IsServed parked
PatientRun-IsServed_example = PatientRun-IsServed empty_queue parked patient empty-IsServed

-- Two pushes wait, and two calls of `next` come before the first of them runs: it serves the second
-- call, and the other push waits on an empty buffer, with nothing to wake it.
stranded :
    (resume (2 ∷ []) (next 1 (next 0 (queue_of true (1 ∷ []) (2 ∷ 3 ∷ []))).0).0).0
    ≡ queue_of true [] (3 ∷ [])
unfolding resume next
stranded = refl

abbrev nothing_yet : Ledger ℕ
nothing_yet = record {
  current = none;
  object = λ k. fresh;
  object_count = 0;
  handle = λ h. record { reservation = 0; released = true };
  handle_count = 0;
}

abbrev ended_well : PendingSettlement ℕ
ended_well = record { kind = success; publish = 10 }

abbrev ended_badly : PendingSettlement ℕ
ended_badly = record { kind = failure; publish = 20 }

failure_wins :
    (release 0 (defer_all (ended_well ∷ ended_badly ∷ []) (reserve nothing_yet))).1 ≡ some 20
unfolding release defer_all reserve
failure_wins = refl

release-IsForemost_example :
    let r = release 0 (defer_all (ended_well ∷ ended_badly ∷ []) (reserve nothing_yet)) in
    (x : PendingSettlement ℕ) × IsForemost (ended_well ∷ ended_badly ∷ []) x
    × (r.1 ≡ some x.publish)
    × (is_reserved r.0 ≡ false)
    × ((release 0 r.0).1 ≡ none)
unfolding reserve
release-IsForemost_example =
    release-IsForemost ended_well (ended_badly ∷ []) (reserve nothing_yet) 0 0 refl refl refl refl
      refl
