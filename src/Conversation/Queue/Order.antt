-- ===== src/Conversation/Queue/Order.antt =====
-- In what order items go through a queue.
use orca_ts.Conversation.Queue.Run.{
  Run-IsQueue, start, then_step, pushing, resuming, closing, iterating, taking, woken-IsQueue,
  taking, pushing, Run, Step, IsQueue,
}
use orca_ts.Base.{
  empty_of_length, ap₂, append_assoc, sym, ◌∙◌, refl, ap, arith, leb, append-nil, map, true, ◌++◌,
  ◌∷◌, [], false, if_elim, length, ℕ, ◌≡◌, List,
}
use orca_ts.Conversation.Queue.{
  close, iterate, wake, take_next, handed, accepted, evicted, ended, next, Effect, deliver, evict,
  push, resume, offer, Queue,
}

-- The items that a push put in, those that left, by a call of `next` or by eviction, and the
-- evictions alone.
unfoldable pub entered : {A : Type 0} → List (Effect A) → List A
entered [] = []
entered (accepted x ∷ es) = x ∷ entered es
entered (_ ∷ es) = entered es

unfoldable pub departed : {A : Type 0} → List (Effect A) → List A
departed [] = []
departed (evicted x ∷ es) = x ∷ departed es
departed (handed t x ∷ es) = x ∷ departed es
departed (_ ∷ es) = departed es

unfoldable pub lost : {A : Type 0} → List (Effect A) → List A
lost [] = []
lost (evicted x ∷ es) = x ∷ lost es
lost (_ ∷ es) = lost es

module _ {A : Type 0} where
  entered-append : (es fs : List (Effect A)) → entered (es ++ fs) ≡ entered es ++ entered fs
  unfolding entered
  entered-append [] fs = refl
  entered-append (e ∷ es) fs = ground (arith, entered-append es fs)

  departed-append : (es fs : List (Effect A)) → departed (es ++ fs) ≡ departed es ++ departed fs
  unfolding departed
  departed-append [] fs = refl
  departed-append (e ∷ es) fs = ground (arith, departed-append es fs)

  lost-append : (es fs : List (Effect A)) → lost (es ++ fs) ≡ lost es ++ lost fs
  unfolding lost
  lost-append [] fs = refl
  lost-append (e ∷ es) fs = ground (arith, lost-append es fs)

  entered-map : (ts : List ℕ) → entered {A = A} (map ended ts) ≡ []
  unfolding entered
  entered-map [] = refl
  entered-map (t ∷ ts) = entered-map ts

  departed-map : (ts : List ℕ) → departed {A = A} (map ended ts) ≡ []
  unfolding departed
  departed-map [] = refl
  departed-map (t ∷ ts) = departed-map ts

  lost-map : (ts : List ℕ) → lost {A = A} (map ended ts) ≡ []
  unfolding lost
  lost-map [] = refl
  lost-map (t ∷ ts) = lost-map ts

  -- What is in the buffer and then enters is what leaves and then is in the buffer.
  abbrev pub Balanced : List A → Queue A × List (Effect A) → Type 0
  Balanced before r = before ++ entered r.1 ≡ departed r.1 ++ r.0.items

  -- A consumer stays, and loses nothing.
  abbrev Kept : Queue A → Queue A × List (Effect A) → Type 0
  Kept q r = q.iterator_started ≡ true → (r.0.iterator_started ≡ true) × (lost r.1 ≡ [])

  abbrev Fair : Queue A → Queue A × List (Effect A) → Type 0
  Fair q r = Balanced q.items r × Kept q r

  deliver-Fair :
      (x : A) (q : Queue A) (ts : List ℕ) → q.takers ≡ ts → IsQueue q → Fair q (deliver x q ts)
  unfolding deliver entered departed lost
  deliver-Fair x q [] e h = (refl, λ k. (k, refl))
  deliver-Fair x q (t ∷ ts) e h =
      let none_left = empty_of_length q.items (h.hungry (omega (arith, ap length e))).0 in
      (rw none_left refl, λ k. (k, refl))

  evict-Fair :
      (x : A) (q : Queue A) (items : List A)
      → q.items ≡ items
      → q.iterator_started ≡ false
      → IsQueue q
      → Fair q (evict x q items)
  unfolding evict entered departed
  evict-Fair x q [] e free h = deliver-Fair x q q.takers refl h
  evict-Fair x q (old ∷ rest) e free h =
      let idle = empty_of_length q.takers (ground (arith, h.hungry, ap length e)) in
      (rw (idle, e) refl, λ k. cc)

  offer-Fair : (x : A) (q : Queue A) → IsQueue q → Fair q (offer x q)
  unfolding offer entered departed lost
  offer-Fair x q h =
      if_elim (λ r. Fair q r) (leb q.capacity (length q.items))
        (λ full.
          if_elim (λ r. Fair q r) q.iterator_started
            (λ consumer. (append-nil _, λ k. (consumer, refl)))
            (λ free. evict-Fair x q q.items refl free h))
        (λ room. deliver-Fair x q q.takers refl h)

  push-Fair : (x : A) (q : Queue A) → IsQueue q → Fair q (push x q)
  unfolding push entered departed lost
  push-Fair x q h =
      if_elim (λ r. Fair q r) q.closed (λ shut. (append-nil _, λ k. (k, refl)))
        (λ unshut. offer-Fair x q h)

  resume-Fair : (ws : List A) (q : Queue A) → IsQueue q → Fair q (resume ws q)
  unfolding resume entered departed lost
  resume-Fair [] q h = (append-nil _, λ k. (k, refl))
  resume-Fair (x ∷ ws) q h = push-Fair x (record q { woken = ws }) (woken-IsQueue ws q h)

  close-Fair : (q : Queue A) → Fair q (close q)
  unfolding close entered departed lost
  close-Fair q =
      if_elim (λ r. Fair q r) q.closed (λ shut. (append-nil _, λ k. (k, refl)))
        (λ unshut. (
          rw (entered-map q.takers, departed-map q.takers) (append-nil _),
          λ k. (k, lost-map q.takers),
        ))

  iterate-Fair : (q : Queue A) → Fair q (iterate q)
  unfolding iterate entered departed lost
  iterate-Fair q =
      if_elim (λ r. Fair q r) q.iterator_started (λ twice. (append-nil _, λ k. (k, refl)))
        (λ first. (append-nil _, λ k. (refl, refl)))

  wake_keeps :
      (q : Queue A) (ws : List A)
      → ((wake q ws).items ≡ q.items) × ((wake q ws).iterator_started ≡ q.iterator_started)
  wake_keeps q [] = (refl, refl)
  wake_keeps q (w ∷ ws) = (refl, refl)

  take_next-Fair :
      (t : ℕ) (q : Queue A) (items : List A) → q.items ≡ items → Fair q (take_next t q items)
  unfolding take_next entered departed lost
  take_next-Fair t q (x ∷ rest) e =
      let (kept, started) = wake_keeps (record q { items = rest }) q.push_waiters in
      (append-nil _ ∙ e ∙ ap (λ xs. x ∷ xs) (sym kept), λ k. (started ∙ k, refl))
  take_next-Fair t q [] e =
      if_elim (λ r. Fair q r) q.closed (λ shut. (append-nil _, λ k. (k, refl)))
        (λ unshut. (append-nil _, λ k. (k, refl)))

  Step-Fair : (q q' : Queue A) (es : List (Effect A)) → Step q q' es → IsQueue q → Fair q (q', es)
  unfolding resume next entered departed lost
  Step-Fair q q' es (pushing x) h = push-Fair x q h
  Step-Fair q q' es resuming h = resume-Fair q.woken q h
  Step-Fair q q' es closing h = close-Fair q
  Step-Fair q q' es iterating h = iterate-Fair q
  Step-Fair q q' es (taking t started) h = take_next-Fair t q q.items refl

  Run-Fair : (q q' : Queue A) (es : List (Effect A)) → Run q q' es → IsQueue q → Fair q (q', es)
  unfolding entered departed lost
  Run-Fair q q' es start h = (append-nil _, λ k. (k, refl))
  Run-Fair q q' es (then_step {q₁ = q₁} {es = es₁} {fs = fs} run step) h =
      let (balance, kept) = Run-Fair q q₁ es₁ run h in
      let (balance', kept') = Step-Fair q₁ q' fs step (Run-IsQueue q q₁ es₁ run h) in
      (
        rw (entered-append es₁ fs, departed-append es₁ fs)
            (sym (append_assoc q.items (entered es₁) (entered fs))
              ∙ ap (λ xs. xs ++ entered fs) balance
              ∙ append_assoc (departed es₁) q₁.items (entered fs)
              ∙ ap (λ xs. departed es₁ ++ xs) balance'
              ∙ sym (append_assoc (departed es₁) (departed fs) q'.items)),
        λ k.
            let (on, none_before) = kept k in
            let (on', none_after) = kept' on in
            (on', lost-append es₁ fs ∙ ap₂ (λ xs ys. xs ++ ys) none_before none_after),
      )

  -- Along any run of a well-formed queue, items leave in the order in which they came: those that
  -- were in the buffer and those accepted are those handed out or evicted, followed by those in the
  -- buffer at the end. From the time that there is a consumer no item is evicted.
  pub Run-Balanced :
      (q q' : Queue A) (es : List (Effect A))
      → Run q q' es
      → IsQueue q
      → Balanced q.items (q', es) × (q.iterator_started ≡ true → lost es ≡ [])
  Run-Balanced q q' es run h =
      let (balance, kept) = Run-Fair q q' es run h in (balance, λ k. (kept k).1)
