-- ===== src/Conversation/Settlement.antt =====
-- src/conversation/settlement-reservation.ts, for one conversation. Its reservations are objects that
-- the release functions share, so they stand in a store, by number; so do the release functions, each
-- with its flag `released`. `A` is the type of the `publish` callbacks.
pub mod Foremost
use orca_ts.Base.{
  ap, All-append, [], append_assoc, subst, if_elim, arith, ◌-◌, append-nil, ltb, ◌≤◌, ◌==◌, ◌++◌,
  ◌∷◌, some, true, ◌≡◌, ◌<◌, if◌then◌else◌, false, All, Bool, ◌+◌, List, none, ℕ, Option,
}

pub data SettlementKind : Type 0 where
  success cancellation failure cancellation_failure : SettlementKind

abbrev pub settlement_priority : SettlementKind → ℕ
settlement_priority success = 0
settlement_priority failure = 1
settlement_priority cancellation = 2
settlement_priority cancellation_failure = 3

pub record PendingSettlement (A : Type 0) : Type 0 where
  pub kind : SettlementKind
  pub publish : A

pub record SettlementReservation (A : Type 0) : Type 0 where
  pub depth : ℕ
  pub pending : Option (PendingSettlement A)

pub record Handle : Type 0 where
  pub reservation : ℕ
  pub released : Bool

pub record Ledger (A : Type 0) : Type 0 where
  pub current : Option ℕ
  pub object : ℕ → SettlementReservation A
  pub object_count : ℕ
  pub handle : ℕ → Handle
  pub handle_count : ℕ

abbrev pub set_at : {B : Type 0} → ℕ → B → (ℕ → B) → ℕ → B
set_at k b f = λ j. if j == k then b else f j

abbrev pub deepen : {A : Type 0} → SettlementReservation A → SettlementReservation A
deepen r = record r { depth = r.depth + 1 }

abbrev pub fresh : {A : Type 0} → SettlementReservation A
fresh = record { depth = 0; pending = none }

-- The release function that is returned is the one numbered `handle_count` before.
unfoldable pub reserve_on : {A : Type 0} → Option ℕ → Ledger A → Ledger A
reserve_on (some k) l = record l {
  object = set_at k (deepen (l.object k)) l.object;
  handle = set_at l.handle_count (record { reservation = k; released = false }) l.handle;
  handle_count = l.handle_count + 1;
}
reserve_on none l = record {
  current = some l.object_count;
  object = set_at l.object_count (deepen fresh) l.object;
  object_count = l.object_count + 1;
  handle =
      set_at l.handle_count (record { reservation = l.object_count; released = false }) l.handle;
  handle_count = l.handle_count + 1;
}

unfoldable pub reserve : {A : Type 0} → Ledger A → Ledger A
unfolding reserve_on
reserve l = reserve_on l.current l

-- What the last release leaves.
abbrev pub end_reservation : {A : Type 0} → ℕ → Ledger A → Ledger A
end_reservation h l =
    let k = (l.handle h).reservation in
    record l {
      current = none;
      object = set_at k (record { depth = (l.object k).depth - 1; pending = none }) l.object;
      handle = set_at h (record { reservation = k; released = true }) l.handle;
    }

-- A release function; what it publishes, if anything.
unfoldable pub release : {A : Type 0} → ℕ → Ledger A → Ledger A × Option A
release h l =
    let k = (l.handle h).reservation in
    let r = l.object k in
    let l₁ = record l {
      handle = set_at h (record { reservation = k; released = true }) l.handle;
    } in
    if (l.handle h).released
    then (l, none)
    else if ltb 0 (r.depth - 1)
    then (record l₁ { object = set_at k (record r { depth = r.depth - 1 }) l.object }, none)
    else (end_reservation h l, elim r.pending [ some p ↦ some p.publish | none ↦ none ])

unfoldable pub is_reserved : {A : Type 0} → Ledger A → Bool
is_reserved l = elim l.current [ some k ↦ true | none ↦ false ]

-- The settlement that stays pending.
abbrev pub prefer :
    {A : Type 0} → Option (PendingSettlement A) → PendingSettlement A → PendingSettlement A
prefer none p = p
prefer (some q) p = if ltb (settlement_priority q.kind) (settlement_priority p.kind) then p else q

unfoldable pub defer_on : {A : Type 0} → Option ℕ → PendingSettlement A → Ledger A → Ledger A × Bool
defer_on none p l = (l, false)
defer_on (some k) p l =
    let r = l.object k in
    (
      record l { object = set_at k (record r { pending = some (prefer r.pending p) }) l.object },
      true,
    )

unfoldable pub defer : {A : Type 0} → PendingSettlement A → Ledger A → Ledger A × Bool
unfolding defer_on
defer p l = defer_on l.current p l

unfoldable pub defer_all : {A : Type 0} → List (PendingSettlement A) → Ledger A → Ledger A
unfolding defer
defer_all [] l = l
defer_all (p ∷ ps) l = defer_all ps (defer p l).0
