-- ===== src/Conversation/Queue/Wakeups.antt =====
-- Whether a push that waits is woken in time.
use orca_ts.Conversation.Queue.Run.{
  pushing, resuming, closing, iterating, taking, woken-IsQueue, Step-IsQueue, Step, IsQueue,
}
use orca_ts.Base.{
  leb, false, ap, if_elim, refl, ◌∷◌, length-append, [], arith, ◌+◌, true, ◌≤◌, length, ◌≡◌, ℕ, ◌<◌,
  List,
}
use orca_ts.Conversation.Queue.{
  handed, take_next, wake, next, iterate, close, resume, Effect, push, evict, offer, deliver, Queue,
}

-- A push waits only where the pushes that are woken, with the buffer, fill the capacity; and no call
-- of `next` waits while a push is woken.
pub record IsServed {A : Type 0} (q : Queue A) : Type 0 where
  pub well : IsQueue q
  pub served : 0 < length q.push_waiters → q.capacity ≤ length q.items + length q.woken
  pub apart : 0 < length q.takers → length q.woken ≡ 0

-- The runs of a consumer that calls `next` only when no woken push is still to run, as `for await`
-- does: its next call comes after the continuations that its last call woke.
pub data PatientRun {A : Type 0} (q : Queue A) : Queue A → Type 0 where
  at_rest : PatientRun q q
  push_next : {q' : Queue A} → (x : A) → PatientRun q q' → PatientRun q (push x q').0
  resume_next : {q' : Queue A} → PatientRun q q' → PatientRun q (resume q'.woken q').0
  close_next : {q' : Queue A} → PatientRun q q' → PatientRun q (close q').0
  iterate_next : {q' : Queue A} → PatientRun q q' → PatientRun q (iterate q').0
  take_item :
      {q' : Queue A}
      → (t : ℕ) → q'.iterator_started ≡ true
      → q'.woken ≡ []
      → PatientRun q q'
      → PatientRun q (next t q').0

module _ {A : Type 0} where
  -- The parts that do not say that the queue is well formed.
  abbrev Timely : Queue A × List (Effect A) → Type 0
  Timely r =
      let q = r.0 in
      (0 < length q.push_waiters → q.capacity ≤ length q.items + length q.woken)
      × (0 < length q.takers → length q.woken ≡ 0)

  -- One push has run that was counted among the woken, or a new one: the room is what it was.
  deliver-Timely :
      (x : A) (q : Queue A) (ts : List ℕ)
      → q.takers ≡ ts
      → (0 < length q.push_waiters → q.capacity ≤ length q.items + length q.woken + 1)
      → (0 < length q.takers → (length q.woken ≡ 0) × (length q.push_waiters ≡ 0))
      → Timely (deliver x q ts)
  unfolding deliver
  deliver-Timely x q [] e s a =
      (λ k. omega (arith, s k, length-append q.items (x ∷ [])), λ k. (a k).0)
  deliver-Timely x q (t ∷ ts) e s a =
      let (none_woken, none_waiting) = a (omega (arith, ap length e)) in
      (λ k. absurd (omega arith), λ k. none_woken)

  evict-Timely :
      (x : A) (q : Queue A) (items : List A)
      → IsQueue q
      → q.iterator_started ≡ false
      → Timely (evict x q items)
  unfolding evict
  evict-Timely x q [] h free =
      deliver-Timely x q q.takers refl (λ k. absurd (ground (arith, h.consumed k)))
        (λ k. absurd (ground (arith, h.hungry k)))
  evict-Timely x q (old ∷ rest) h free =
      deliver-Timely x (record q { items = rest }) q.takers refl
        (λ k. absurd (ground (arith, h.consumed k))) (λ k. absurd (ground (arith, h.hungry k)))

  offer-Timely :
      (x : A) (q : Queue A)
      → IsQueue q
      → (0 < length q.push_waiters → q.capacity ≤ length q.items + length q.woken + 1)
      → (0 < length q.takers → (length q.woken ≡ 0) × (length q.push_waiters ≡ 0))
      → Timely (offer x q)
  unfolding offer
  offer-Timely x q h s a =
      if_elim Timely (leb q.capacity (length q.items))
        (λ full.
          if_elim Timely q.iterator_started
            (λ consumer.
              let filled : q.capacity ≤ length q.items = ground arith in
              (λ k. omega arith, λ k. (a k).0))
            (λ free. evict-Timely x q q.items h free))
        (λ room. deliver-Timely x q q.takers refl s a)

  push-Timely :
      (x : A) (q : Queue A)
      → IsQueue q
      → (0 < length q.push_waiters → q.capacity ≤ length q.items + length q.woken + 1)
      → (0 < length q.takers → (length q.woken ≡ 0) × (length q.push_waiters ≡ 0))
      → Timely (push x q)
  unfolding push
  push-Timely x q h s a =
      if_elim Timely q.closed
        (λ shut.
          let (no_taker, no_waiter) = h.settled shut in
          (λ k. absurd (omega arith), λ k. absurd (omega arith)))
        (λ unshut. offer-Timely x q h s a)

  -- Where a call of `next` waits, no push does.
  none_waiting : (q : Queue A) → IsServed q → 0 < length q.takers → length q.push_waiters ≡ 0
  none_waiting q h k =
      let (no_item, _) = h.well.hungry k in grind (arith, h.served, h.apart k, h.well.room)

  resume-Timely : (ws : List A) (q : Queue A) → q.woken ≡ ws → IsServed q → Timely (resume ws q)
  unfolding resume
  resume-Timely [] q e h = (h.served, h.apart)
  resume-Timely (x ∷ ws) q e h =
      push-Timely x (record q { woken = ws }) (woken-IsQueue ws q h.well)
        (λ k. omega (arith, h.served k, ap length e))
        (λ k. absurd (omega (arith, h.apart k, ap length e)))

  close-Timely : (q : Queue A) → IsServed q → Timely (close q)
  unfolding close
  close-Timely q h =
      if_elim Timely q.closed (λ shut. (h.served, h.apart))
        (λ unshut. (λ (k : 0 < 0). absurd (omega arith), λ (k : 0 < 0). absurd (omega arith)))

  iterate-Timely : (q : Queue A) → IsServed q → Timely (iterate q)
  unfolding iterate
  iterate-Timely q h =
      if_elim Timely q.iterator_started (λ twice. (h.served, h.apart))
        (λ first. (h.served, h.apart))

  wake-Timely :
      (x : A) (rest : List A) (q : Queue A) (ws : List A) (t : ℕ)
      → q.items ≡ x ∷ rest
      → q.push_waiters ≡ ws
      → q.woken ≡ []
      → IsServed q
      → Timely (wake (record q { items = rest }) ws, handed t x ∷ [])
  wake-Timely x rest q [] t e f idle h = (
    λ k. absurd (omega (arith, ap length f)),
    λ k. absurd (omega (arith, h.well.hungry k, ap length e)),
  )
  wake-Timely x rest q (w ∷ ws) t e f idle h = (
    λ k. omega (
      arith,
      h.served (omega (arith, ap length f)),
      ap length e,
      ap length idle,
      length-append q.woken (w ∷ []),
    ),
    λ k. absurd (omega (arith, h.well.hungry k, ap length e)),
  )

  take_next-Timely :
      (t : ℕ) (q : Queue A) (items : List A)
      → q.items ≡ items
      → q.woken ≡ []
      → IsServed q
      → Timely (take_next t q items)
  unfolding take_next
  take_next-Timely t q (x ∷ rest) e idle h = wake-Timely x rest q q.push_waiters t e refl idle h
  take_next-Timely t q [] e idle h =
      if_elim Timely q.closed (λ shut. (h.served, h.apart))
        (λ unshut. (h.served, λ k. ap length idle))

  Step-IsServed :
      (q q' : Queue A) (es : List (Effect A))
      → Step q q' es
      → IsServed q
      → Timely (q', es)
      → IsServed q'
  Step-IsServed q q' es step h timely = record {
    well = Step-IsQueue q q' es step h.well;
    served = timely.0;
    apart = timely.1;
  }

  -- No wakeup is lost: if a consumer calls `next` only once the pushes that it woke have run, a push
  -- waits only while the buffer and the woken pushes fill the capacity, in any state that is reached
  -- from one where that holds.
  pub PatientRun-IsServed : (q q' : Queue A) → PatientRun q q' → IsServed q → IsServed q'
  unfolding next
  PatientRun-IsServed q q' at_rest h = h
  PatientRun-IsServed q q' (push_next {q' = p} x run) h =
      let g = PatientRun-IsServed q p run h in
      Step-IsServed p q' _ (pushing x) g (
        push-Timely x p g.well (λ k. omega (arith, g.served k))
          (λ k. (g.apart k, none_waiting p g k)))
  PatientRun-IsServed q q' (resume_next {q' = p} run) h =
      let g = PatientRun-IsServed q p run h in
      Step-IsServed p q' _ resuming g (resume-Timely p.woken p refl g)
  PatientRun-IsServed q q' (close_next {q' = p} run) h =
      let g = PatientRun-IsServed q p run h in Step-IsServed p q' _ closing g (close-Timely p g)
  PatientRun-IsServed q q' (iterate_next {q' = p} run) h =
      let g = PatientRun-IsServed q p run h in Step-IsServed p q' _ iterating g (iterate-Timely p g)
  PatientRun-IsServed q q' (take_item {q' = p} t started idle run) h =
      let g = PatientRun-IsServed q p run h in
      Step-IsServed p q' _ (taking t started) g (take_next-Timely t p p.items refl idle g)
