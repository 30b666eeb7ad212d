-- ===== src/Conversation/Queue/Run.antt =====
-- The runs of a queue, and what holds along them.
use orca_ts.Base.{
  if_elim, refl, ap, length-append, ◌++◌, ltb, ◌≤◌, [], ◌∷◌, leb, inr, arith, length, inl, true, ok,
  false, List, ℕ, Bool-cases, ◌<◌, ◌≡◌,
}
use orca_ts.Conversation.Queue.{
  next, resume, Effect, wake, evict, iterate, Queue, close, take_next, push, offer, deliver,
  make_queue,
}

-- A call of an operation, or a continuation; `next` belongs to the iterator, so it comes after
-- `iterate`.
pub data Step {A : Type 0} (q : Queue A) : Queue A → List (Effect A) → Type 0 where
  pushing : (x : A) → Step q (push x q).0 (push x q).1
  resuming : Step q (resume q.woken q).0 (resume q.woken q).1
  closing : Step q (close q).0 (close q).1
  iterating : Step q (iterate q).0 (iterate q).1
  taking : (t : ℕ) → q.iterator_started ≡ true → Step q (next t q).0 (next t q).1

pub data Run {A : Type 0} (q : Queue A) : Queue A → List (Effect A) → Type 0 where
  start : Run q q []
  then_step :
      {q₁ q₂ : Queue A} {es fs : List (Effect A)}
      → Run q q₁ es
      → Step q₁ q₂ fs
      → Run q q₂ (es ++ fs)

-- The buffer is within its capacity; a call of `next` waits only where the buffer is empty and the
-- queue open; calls and pushes wait only once there is a consumer; nothing waits on a closed queue.
pub record IsQueue {A : Type 0} (q : Queue A) : Type 0 where
  pub room : 0 < q.capacity
  pub within : length q.items ≤ q.capacity
  pub hungry : 0 < length q.takers → (length q.items ≡ 0) × (q.iterator_started ≡ true)
  pub consumed : 0 < length q.push_waiters → q.iterator_started ≡ true
  pub settled : q.closed ≡ true → (length q.takers ≡ 0) × (length q.push_waiters ≡ 0)

module _ {A : Type 0} where
  pub make_queue-IsQueue : (n : ℕ) (q : Queue A) → make_queue n ≡ ok q → IsQueue q
  unfolding make_queue
  make_queue-IsQueue n q e = elim (Bool-cases (ltb n 1)) [
    | inl low ↦ absurd (ground arith)
    | inr enough ↦ ground arith
  ]

  deliver-IsQueue :
      (x : A) (q : Queue A) (ts : List ℕ)
      → q.takers ≡ ts
      → length q.items < q.capacity
      → q.closed ≡ false
      → IsQueue q
      → IsQueue (deliver x q ts).0
  unfolding deliver
  deliver-IsQueue x q [] e below unshut h = record {
    room = h.room;
    within = omega (arith, length-append q.items (x ∷ []));
    hungry = λ k. absurd (omega (arith, ap length e));
    consumed = h.consumed;
    settled = λ k. cc;
  }
  deliver-IsQueue x q (t ∷ ts) e below unshut h = record {
    room = h.room;
    within = h.within;
    hungry = λ k. h.hungry (omega (arith, ap length e));
    consumed = h.consumed;
    settled = λ k. cc;
  }

  evict-IsQueue :
      (x : A) (q : Queue A) (items : List A)
      → q.items ≡ items
      → q.closed ≡ false
      → q.iterator_started ≡ false
      → IsQueue q
      → IsQueue (evict x q items).0
  unfolding evict
  evict-IsQueue x q [] e unshut free h =
      deliver-IsQueue x q q.takers refl (omega (arith, h.room, ap length e)) unshut h
  evict-IsQueue x q (old ∷ rest) e unshut free h =
      deliver-IsQueue x (record q { items = rest }) q.takers refl
        (omega (arith, h.within, ap length e)) unshut
        record {
          room = h.room;
          within = omega (arith, h.within, ap length e);
          hungry = λ k. absurd (ground (arith, h.hungry k));
          consumed = h.consumed;
          settled = h.settled;
        }

  abbrev Keeps : Queue A × List (Effect A) → Type 0
  Keeps r = IsQueue r.0

  offer-IsQueue : (x : A) (q : Queue A) → q.closed ≡ false → IsQueue q → IsQueue (offer x q).0
  unfolding offer
  offer-IsQueue x q unshut h =
      if_elim Keeps (leb q.capacity (length q.items))
        (λ full.
          if_elim Keeps q.iterator_started
            (λ consumer. record {
              room = h.room;
              within = h.within;
              hungry = h.hungry;
              consumed = λ k. consumer;
              settled = λ k. cc;
            })
            (λ free. evict-IsQueue x q q.items refl unshut free h))
        (λ room. deliver-IsQueue x q q.takers refl (ground arith) unshut h)

  pub push-IsQueue : (x : A) (q : Queue A) → IsQueue q → IsQueue (push x q).0
  unfolding push
  push-IsQueue x q h = if_elim Keeps q.closed (λ shut. h) (λ unshut. (offer-IsQueue x q unshut h))

  pub woken-IsQueue : (ws : List A) (q : Queue A) → IsQueue q → IsQueue (record q { woken = ws })
  woken-IsQueue ws q h = record {
    room = h.room;
    within = h.within;
    hungry = h.hungry;
    consumed = h.consumed;
    settled = h.settled;
  }

  resume-IsQueue : (ws : List A) (q : Queue A) → IsQueue q → IsQueue (resume ws q).0
  unfolding resume
  resume-IsQueue [] q h = h
  resume-IsQueue (x ∷ ws) q h = push-IsQueue x (record q { woken = ws }) (woken-IsQueue ws q h)

  wake-IsQueue : (q : Queue A) (ws : List A) → q.push_waiters ≡ ws → IsQueue q → IsQueue (wake q ws)
  wake-IsQueue q [] e h = h
  wake-IsQueue q (w ∷ ws) e h = record {
    room = h.room;
    within = h.within;
    hungry = h.hungry;
    consumed = λ k. h.consumed (omega (arith, ap length e));
    settled = λ k. absurd (omega (arith, h.settled k, ap length e));
  }

  take_next-IsQueue :
      (t : ℕ) (q : Queue A) (items : List A)
      → q.items ≡ items
      → q.iterator_started ≡ true
      → IsQueue q
      → IsQueue (take_next t q items).0
  unfolding take_next
  take_next-IsQueue t q (x ∷ rest) e started h =
      wake-IsQueue (record q { items = rest }) q.push_waiters refl
        record {
          room = h.room;
          within = omega (arith, h.within, ap length e);
          hungry = λ k. absurd (omega (arith, h.hungry k, ap length e));
          consumed = h.consumed;
          settled = h.settled;
        }
  take_next-IsQueue t q [] e started h =
      if_elim Keeps q.closed (λ shut. h)
        (λ unshut. record {
          room = h.room;
          within = h.within;
          hungry = λ k. (ap length e, started);
          consumed = h.consumed;
          settled = λ k. cc;
        })

  close-IsQueue : (q : Queue A) → IsQueue q → IsQueue (close q).0
  unfolding close
  close-IsQueue q h =
      if_elim Keeps q.closed (λ shut. h)
        (λ unshut. record {
          room = h.room;
          within = h.within;
          hungry = λ (k : 0 < 0). absurd (omega arith);
          consumed = λ (k : 0 < 0). absurd (omega arith);
          settled = λ k. (refl, refl);
        })

  iterate-IsQueue : (q : Queue A) → IsQueue q → IsQueue (iterate q).0
  unfolding iterate
  iterate-IsQueue q h =
      if_elim Keeps q.iterator_started (λ twice. h)
        (λ first. record {
          room = h.room;
          within = h.within;
          hungry = λ k. ((h.hungry k).0, refl);
          consumed = λ k. refl;
          settled = h.settled;
        })

  -- Every operation keeps a queue well formed: the buffer within its capacity, a call of `next`
  -- waiting only where the buffer is empty, nothing waiting on a closed queue.
  pub Step-IsQueue : (q q' : Queue A) (es : List (Effect A)) → Step q q' es → IsQueue q → IsQueue q'
  unfolding resume next
  Step-IsQueue q q' es (pushing x) h = push-IsQueue x q h
  Step-IsQueue q q' es resuming h = resume-IsQueue q.woken q h
  Step-IsQueue q q' es closing h = close-IsQueue q h
  Step-IsQueue q q' es iterating h = iterate-IsQueue q h
  Step-IsQueue q q' es (taking t started) h = take_next-IsQueue t q q.items refl started h

  -- A queue that a run leads to from a well-formed one is well formed.
  pub Run-IsQueue : (q q' : Queue A) (es : List (Effect A)) → Run q q' es → IsQueue q → IsQueue q'
  Run-IsQueue q q' es start h = h
  Run-IsQueue q q' es (then_step {q₁ = q₁} {es = es₁} {fs = fs} run step) h =
      Step-IsQueue q₁ q' fs step (Run-IsQueue q q₁ es₁ run h)
