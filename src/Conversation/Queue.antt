-- ===== src/Conversation/Queue.antt =====
-- src/conversation/queue.ts, `BoundedAsyncQueue`. A call of `next` is named by a number and a push by
-- its item. What happens at once is a function of the queue; a push that waits is in `push_waiters`,
-- and in `woken` once its promise is resolved, until its continuation runs. No item is `undefined`.
pub mod Run
pub mod Order
pub mod Wakeups
use orca_ts.Base.{
  false, ok, text, err, map, length, ltb, true, [], Text, leb, ◌∷◌, ◌++◌, if◌then◌else◌, Result,
  Bool, ℕ, List,
}

pub record Queue (A : Type 0) : Type 0 where
  pub capacity : ℕ
  pub items : List A
  pub takers : List ℕ
  pub push_waiters : List A
  pub woken : List A
  pub closed : Bool
  pub iterator_started : Bool

-- What the callers see of an operation.
pub data Effect (A : Type 0) : Type 0 where
  accepted : (item : A) → Effect A
  evicted : (item : A) → Effect A
  handed : (taker : ℕ) (item : A) → Effect A
  ended : (taker : ℕ) → Effect A
  refused : (item : A) → Effect A
  second_consumer : Effect A

-- The constructor.
unfoldable pub make_queue : {A : Type 0} → ℕ → Result (Queue A) Text
make_queue capacity =
    if ltb capacity 1
    then err (text "Queue capacity must be at least 1")
    else ok (record {
      capacity = capacity;
      items = [];
      takers = [];
      push_waiters = [];
      woken = [];
      closed = false;
      iterator_started = false;
    })

-- The end of `push`: the item goes to the first taker, or else to the back.
unfoldable pub deliver : {A : Type 0} → A → Queue A → List ℕ → Queue A × List (Effect A)
deliver x q [] = (record q { items = q.items ++ x ∷ [] }, accepted x ∷ [])
deliver x q (t ∷ ts) = (record q { takers = ts }, accepted x ∷ handed t x ∷ [])

-- `shift` without a consumer.
unfoldable pub evict : {A : Type 0} → A → Queue A → List A → Queue A × List (Effect A)
unfolding deliver
evict x q [] = deliver x q q.takers
evict x q (old ∷ rest) =
    let (q', es) = deliver x (record q { items = rest }) q.takers in (q', evicted old ∷ es)

-- `push` from the test of the `while` on, an `ensureOpen` having passed.
unfoldable pub offer : {A : Type 0} → A → Queue A → Queue A × List (Effect A)
unfolding deliver evict
offer x q =
    if leb q.capacity (length q.items)
    then if q.iterator_started
      then (record q { push_waiters = q.push_waiters ++ x ∷ [] }, [])
      else evict x q q.items
    else deliver x q q.takers

unfoldable pub push : {A : Type 0} → A → Queue A → Queue A × List (Effect A)
unfolding offer
push x q = if q.closed then (q, refused x ∷ []) else offer x q

-- The continuation of the push that was woken first.
unfoldable pub resume : {A : Type 0} → List A → Queue A → Queue A × List (Effect A)
unfolding push
resume [] q = (q, [])
resume (x ∷ rest) q = push x (record q { woken = rest })

unfoldable pub close : {A : Type 0} → Queue A → Queue A × List (Effect A)
close q = if q.closed then (q, []) else (
  record q { closed = true; woken = q.woken ++ q.push_waiters; push_waiters = []; takers = [] },
  map ended q.takers,
)

-- `[Symbol.asyncIterator]`.
unfoldable pub iterate : {A : Type 0} → Queue A → Queue A × List (Effect A)
iterate q =
    if q.iterator_started
    then (q, second_consumer ∷ [])
    else (record q { iterator_started = true }, [])

-- The first waiting push is woken.
abbrev pub wake : {A : Type 0} → Queue A → List A → Queue A
wake q [] = q
wake q (x ∷ rest) = record q { woken = q.woken ++ x ∷ []; push_waiters = rest }

unfoldable pub take_next : {A : Type 0} → ℕ → Queue A → List A → Queue A × List (Effect A)
take_next t q (x ∷ rest) = (wake (record q { items = rest }) q.push_waiters, handed t x ∷ [])
take_next t q [] =
    if q.closed then (q, ended t ∷ []) else (record q { takers = q.takers ++ t ∷ [] }, [])

-- The method `next`.
unfoldable pub next : {A : Type 0} → ℕ → Queue A → Queue A × List (Effect A)
unfolding take_next
next t q = take_next t q q.items
