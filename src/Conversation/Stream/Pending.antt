-- ===== src/Conversation/Stream/Pending.antt =====
-- What may be pending in the reservations of a conversation.
use orca_ts.Conversation.Settlement.{
  settlement_priority, defer_on, prefer, set_at, reserve_on, PendingSettlement,
  SettlementReservation, release, Ledger, defer, reserve,
}
use orca_ts.Base.{◌-◌, ◌==◌, some_injective, ltb, if_elim, subst, ◌≡◌, ℕ, Option, none, some, refl}

module _ {A : Type 0} (P : A → Type 0) where
  -- Every pending callback of a ledger has a property.
  abbrev pub AllPending : Ledger A → Type 0
  AllPending l = (k : ℕ) (p : PendingSettlement A) → (l.object k).pending ≡ some p → P p.publish

  abbrev Keeps : Option (PendingSettlement A) → Type 0
  Keeps o = (p : PendingSettlement A) → o ≡ some p → P p.publish

  prefer-Keeps :
      (o : Option (PendingSettlement A)) (p : PendingSettlement A)
      → Keeps o
      → P p.publish
      → P (prefer o p).publish
  prefer-Keeps none p h k = k
  prefer-Keeps (some q) p h k =
      if_elim (λ (r : PendingSettlement A). P r.publish)
        (ltb (settlement_priority q.kind) (settlement_priority p.kind)) (λ _. k) (λ _. h q refl)

  set_at-Keeps :
      (k : ℕ) (r : SettlementReservation A) (object : ℕ → SettlementReservation A)
      → Keeps r.pending
      → ((j : ℕ) → Keeps (object j).pending)
      → (j : ℕ) → Keeps (set_at k r object j).pending
  set_at-Keeps k r object h hs j =
      if_elim (λ (x : SettlementReservation A). Keeps x.pending) (j == k) (λ _. h) (λ _. hs j)

  pub defer-AllPending :
      (p : PendingSettlement A) (l : Ledger A)
      → AllPending l
      → P p.publish
      → AllPending (defer p l).0
  unfolding defer
  defer-AllPending p l h k = go l.current
    where
      go : (c : Option ℕ) → AllPending (defer_on c p l).0
      go none = h
      go (some i) =
          set_at-Keeps i _ l.object
            (λ q e.
              subst (λ (q : PendingSettlement A). P q.publish) (some_injective _ _ e)
                (prefer-Keeps (l.object i).pending p (h i) k))
            h

  pub reserve-AllPending : (l : Ledger A) → AllPending l → AllPending (reserve l)
  unfolding reserve reserve_on
  reserve-AllPending l h = go l.current
    where
      go : (c : Option ℕ) → AllPending (reserve_on c l)
      go none = set_at-Keeps l.object_count _ l.object (λ q e. absurd (cc)) h
      go (some i) = set_at-Keeps i _ l.object (h i) h

  abbrev Released : Ledger A × Option A → Type 0
  Released (l, x) = AllPending l × ((a : A) → x ≡ some a → P a)

  published-Keeps :
      (o : Option (PendingSettlement A))
      → Keeps o
      → (a : A) → elim o [ some p ↦ some p.publish | none ↦ none ] ≡ some a
      → P a
  published-Keeps none h a e = absurd (cc)
  published-Keeps (some p) h a e = subst P (some_injective _ _ e) (h p refl)

  pub release-Released : (h : ℕ) (l : Ledger A) → AllPending l → Released (release h l)
  unfolding release
  release-Released h l all =
      let k = (l.handle h).reservation in
      if_elim Released (l.handle h).released (λ _. (all, λ a e. absurd (cc)))
        (λ _.
          if_elim Released (ltb 0 ((l.object k).depth - 1))
            (λ _. (set_at-Keeps k _ l.object (all k) all, λ a e. absurd (cc)))
            (λ _. (
              set_at-Keeps k _ l.object (λ p e. absurd (cc)) all,
              published-Keeps (l.object k).pending (all k),
            )))
