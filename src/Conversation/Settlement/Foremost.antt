-- ===== src/Conversation/Settlement/Foremost.antt =====
-- What the last release of a reservation publishes.
use orca_ts.Conversation.Settlement.{
  end_reservation, set_at, settlement_priority, prefer, is_reserved, defer_on, Ledger, release,
  PendingSettlement, defer, defer_all,
}
use orca_ts.Base.{
  ◌==◌, true, ◌-◌, All-append, append_assoc, subst, ltb, ap, ◌∙◌, append-nil, arith, Option, false,
  ◌++◌, ◌≤◌, ◌<◌, ◌≡◌, All, ◌∷◌, ℕ, List, refl, [], some, none, if_elim,
}

set_at_here : {B : Type 0} (j k : ℕ) (b : B) (f : ℕ → B) → j ≡ k → set_at j b f k ≡ b
set_at_here j k b f e = if_elim (λ x. x ≡ b) (k == j) (λ here. refl) (λ away. absurd (ground arith))

some_injective : {A : Type 0} (x y : A) → some x ≡ some y → x ≡ y
some_injective x y e = cc

module _ {A : Type 0} where
  abbrev pub priority : PendingSettlement A → ℕ
  priority p = settlement_priority p.kind

  -- The first of the settlements of the greatest priority.
  pub record IsForemost (ps : List (PendingSettlement A)) (p : PendingSettlement A) : Type 0 where
    pub before : List (PendingSettlement A)
    pub after : List (PendingSettlement A)
    pub split : ps ≡ before ++ p ∷ after
    pub lower : All (λ q. priority q < priority p) before
    pub no_higher : All (λ q. priority q ≤ priority p) after

  abbrev prefer_all : PendingSettlement A → List (PendingSettlement A) → PendingSettlement A
  prefer_all q [] = q
  prefer_all q (p ∷ ps) = prefer_all (prefer (some q) p) ps

  All-lt_trans :
      (p q : PendingSettlement A) (ps : List (PendingSettlement A))
      → priority q < priority p
      → All (λ r. priority r ≤ priority q) ps
      → All (λ r. priority r < priority p) ps
  All-lt_trans p q [] h a = tt
  All-lt_trans p q (r ∷ ps) h (a, as') = (omega arith, All-lt_trans p q ps h as')

  All-le_of_lt :
      (q : PendingSettlement A) (ps : List (PendingSettlement A))
      → All (λ r. priority r < priority q) ps
      → All (λ r. priority r ≤ priority q) ps
  All-le_of_lt q [] a = tt
  All-le_of_lt q (r ∷ ps) (a, as') = (omega arith, All-le_of_lt q ps as')

  prefer_all-IsForemost :
      (before mid ps : List (PendingSettlement A)) (q : PendingSettlement A)
      → All (λ r. priority r < priority q) before
      → All (λ r. priority r ≤ priority q) mid
      → IsForemost (before ++ q ∷ (mid ++ ps)) (prefer_all q ps)
  prefer_all-IsForemost before mid [] q b m = record {
    before = before;
    after = mid;
    split = rw (append-nil mid) refl;
    lower = b;
    no_higher = m;
  }
  prefer_all-IsForemost before mid (p ∷ ps) q b m =
      if_elim (λ w. IsForemost (before ++ q ∷ (mid ++ p ∷ ps)) (prefer_all w ps))
        (ltb (priority q) (priority p))
        (λ more.
          let lt : priority q < priority p = ground arith in
          subst (λ xs. IsForemost xs (prefer_all p ps)) (append_assoc before (q ∷ mid) (p ∷ ps))
            (prefer_all-IsForemost (before ++ q ∷ mid) [] ps p
              (All-append _ before (q ∷ mid) (All-lt_trans p q before lt (All-le_of_lt q before b))
                (lt, All-lt_trans p q mid lt m))
              tt))
        (λ less.
          subst (λ xs. IsForemost xs (prefer_all q ps))
            (ap (λ l. before ++ q ∷ l) (append_assoc mid (p ∷ []) ps))
            (prefer_all-IsForemost before (mid ++ p ∷ []) ps q b
              (All-append _ mid (p ∷ []) m (ground arith, tt))))

  defer_lem :
      (p : PendingSettlement A) (l : Ledger A) (k : ℕ)
      → l.current ≡ some k
      → let m = (defer p l).0 in
        (m.current ≡ some k)
        × ((m.object k).pending ≡ some (prefer (l.object k).pending p))
        × ((m.object k).depth ≡ (l.object k).depth)
        × (m.handle ≡ l.handle)
  unfolding defer defer_on
  defer_lem p l k c = go l.current c refl
    where
      go :
          (o : Option ℕ)
          → o ≡ some k
          → l.current ≡ o
          → let m = (defer_on o p l).0 in
            (m.current ≡ some k)
            × ((m.object k).pending ≡ some (prefer (l.object k).pending p))
            × ((m.object k).depth ≡ (l.object k).depth)
            × (m.handle ≡ l.handle)
      go none e c = cc
      go (some j) e c =
          let at : j ≡ k = some_injective j k e in
          let put = set_at_here j k _ l.object at in
          (
            c ∙ e,
            ap (λ r. r.pending) put ∙ ap (λ i. some (prefer (l.object i).pending p)) at,
            ap (λ r. r.depth) put ∙ ap (λ i. (l.object i).depth) at,
            refl,
          )

  -- Deferring changes the pending settlement of the reservation and nothing else.
  defer_all_lem :
      (ps : List (PendingSettlement A)) (l : Ledger A) (k : ℕ) (q : PendingSettlement A)
      → l.current ≡ some k
      → (l.object k).pending ≡ some q
      → let m = defer_all ps l in
        ((m.object k).pending ≡ some (prefer_all q ps))
        × ((m.object k).depth ≡ (l.object k).depth)
        × (m.handle ≡ l.handle)
  unfolding defer_all defer
  defer_all_lem [] l k q c e = (e, refl, refl)
  defer_all_lem (p ∷ ps) l k q c e =
      let (current, pending, depth, handle) = defer_lem p l k c in
      let (pending', depth', handle') =
        defer_all_lem ps (defer p l).0 k (prefer (some q) p) current
          (pending ∙ ap (λ o. some (prefer o p)) e) in
      (pending', depth' ∙ depth, handle' ∙ handle)

  abbrev published : Option (PendingSettlement A) → Option A
  published o = elim o [ some p ↦ some p.publish | none ↦ none ]

  release_again : (h : ℕ) (l : Ledger A) → (l.handle h).released ≡ true → (release h l).1 ≡ none
  unfolding release
  release_again h l f =
      if_elim (λ (r : Ledger A × Option A). r.1 ≡ none) (l.handle h).released (λ gone. refl)
        (λ held. absurd (ground arith))

  release_lem :
      (h k : ℕ) (l : Ledger A) (p : PendingSettlement A)
      → (l.handle h).reservation ≡ k
      → (l.handle h).released ≡ false
      → (l.object k).depth ≡ 1
      → (l.object k).pending ≡ some p
      → let r = release h l in
        (r.1 ≡ some p.publish) × (is_reserved r.0 ≡ false) × ((release h r.0).1 ≡ none)
  unfolding release is_reserved
  release_lem h k l p t f d e =
      let Spent : Ledger A × Option A → Type 0 =
        λ r. (r.1 ≡ some p.publish) × (is_reserved r.0 ≡ false) × ((release h r.0).1 ≡ none) in
      if_elim Spent (l.handle h).released (λ gone. absurd (ground arith))
        (λ held.
          if_elim Spent (ltb 0 ((l.object (l.handle h).reservation).depth - 1))
            (λ deeper. absurd (ground (arith, ap (λ i. (l.object i).depth) t, d)))
            (λ last. (
              ap published (ap (λ i. (l.object i).pending) t ∙ e),
              refl,
              release_again h (end_reservation h l) (
                  ap (λ g. g.released)
                    (set_at_here h h
                      (record { reservation = (l.handle h).reservation; released = true }) l.handle
                      refl)),
            )))

  -- Settlements that are deferred under a reservation with one release left: that release publishes
  -- the first of those of the greatest priority, and ends the reservation; called again it
  -- publishes nothing.
  pub release-IsForemost :
      (p : PendingSettlement A) (ps : List (PendingSettlement A)) (l : Ledger A) (h k : ℕ)
      → l.current ≡ some k
      → (l.object k).pending ≡ none
      → (l.object k).depth ≡ 1
      → (l.handle h).reservation ≡ k
      → (l.handle h).released ≡ false
      → let r = release h (defer_all (p ∷ ps) l) in
        (x : PendingSettlement A) × IsForemost (p ∷ ps) x
        × (r.1 ≡ some x.publish)
        × (is_reserved r.0 ≡ false)
        × ((release h r.0).1 ≡ none)
  unfolding defer_all
  release-IsForemost p ps l h k c e d t f =
      let (current, pending, depth, handle) = defer_lem p l k c in
      let (pending', depth', handle') =
        defer_all_lem ps (defer p l).0 k p current (pending ∙ ap (λ o. some (prefer o p)) e) in
      let same_handle = ap (λ g. g h) (handle' ∙ handle) in
      let (published_one, freed, no_more) =
        release_lem h k (defer_all ps (defer p l).0) (prefer_all p ps)
          (ap (λ g. g.reservation) same_handle ∙ t) (ap (λ g. g.released) same_handle ∙ f)
          (depth' ∙ depth ∙ d) pending' in
      (prefer_all p ps, prefer_all-IsForemost [] [] ps p tt tt, published_one, freed, no_more)
