-- ===== src/Loop/FanOut/Quorum.antt =====
-- What the vote of `selectQuorum` finds.
use orca_ts.Base.{
  ℕ, ◌≤◌, ◌<◌, ◌≡◌, refl, sym, ap, ◌∙◌, subst, max, false, List, [], ◌∷◌, ◌++◌, Result, ok, err,
  some, leb, ltb, if◌then◌else◌, arith, inl, inr, length, filter, filter-append, length-append,
  Bool-cases, append_assoc, append-nil, Text, same, same_iff, same_refl,
}
use orca_ts.Loop.FanOut.Join.{
  Success, Groups, group_of, set_group, vote, select_quorum, FanInError, no_quorum,
}

group_of-set_group :
    (j k : Text) (g : List Success) (m : Groups)
    → group_of j (set_group k g m) ≡ (if same k j then g else group_of j m)
unfolding group_of set_group
group_of-set_group j k g [] = refl
group_of-set_group j k g ((i, h) ∷ m) =
    ground (arith, group_of-set_group j k g m, same_iff i k, same_iff i j, same_iff k j)

module _ (key : Success → Text) where
  -- The branches that voted for a key.
  abbrev pub votes : Text → List Success → List Success
  votes k = filter (λ o. same (key o) k)

  votes-one :
      (k : Text) (xs : List Success) (o : Success)
      → votes k (xs ++ o ∷ []) ≡ (if same (key o) k then votes k xs ++ o ∷ [] else votes k xs)
  votes-one k xs o = elim (Bool-cases (same (key o) k)) [
    | inl e ↦ rw (filter-append (λ x. same (key x) k) xs (o ∷ []), e) refl
    | inr e ↦ rw (filter-append (λ x. same (key x) k) xs (o ∷ []), e) (append-nil _)
  ]

  -- The map while no key has a quorum yet.
  record IsTallied (q : ℕ) (seen : List Success) (groups : Groups) (largest : ℕ) : Type 0 where
    grouped : (k : Text) → group_of k groups ≡ votes k seen
    short : (k : Text) → length (votes k seen) < q
    top : (k : Text) → length (votes k seen) ≤ largest

  IsTallied-next :
      (q : ℕ) (seen : List Success) (o : Success) (groups : Groups) (largest : ℕ)
      → IsTallied q seen groups largest
      → let group = group_of (key o) groups ++ o ∷ [] in
        leb q (length group) ≡ false
        → IsTallied q (seen ++ o ∷ []) (set_group (key o) group groups) (max largest (length group))
  IsTallied-next q seen o groups largest h few = record {
    grouped = λ k. ground (
      arith,
      group_of-set_group k (key o) (group_of (key o) groups ++ o ∷ []) groups,
      votes-one k seen o,
      h.grouped k,
      h.grouped (key o),
      same_iff (key o) k,
    );
    short = λ k. fst_bound k;
    top = λ k. ground (arith, votes-one k seen o, h.grouped (key o), h.top k, same_iff (key o) k);
  }
    where
      fst_bound : (k : Text) → length (votes k (seen ++ o ∷ [])) < q
      fst_bound k =
          ground (arith, votes-one k seen o, h.grouped (key o), h.short k, same_iff (key o) k)

  -- The winners: the branches with the key of the last of them, up to that one; and before it no key
  -- had enough.
  pub record IsQuorum (q : ℕ) (xs g : List Success) : Type 0 where
    pub before : List Success
    pub winner : Success
    pub after : List Success
    pub split : xs ≡ before ++ winner ∷ after
    pub group : g ≡ votes (key winner) (before ++ winner ∷ [])
    pub size : length g ≡ q
    pub first : (k : Text) → length (votes k before) < q

  pub record IsSplit (q : ℕ) (xs : List Success) (e : FanInError) : Type 0 where
    pub largest : ℕ
    pub report : e ≡ no_quorum q largest
    pub short : (k : Text) → length (votes k xs) < q
    pub top : (k : Text) → length (votes k xs) ≤ largest

  abbrev pub Verdict : ℕ → List Success → Result (List Success) FanInError → Type 0
  Verdict q xs (ok g) = IsQuorum q xs g
  Verdict q xs (err e) = IsSplit q xs e

  vote-Verdict :
      (q : ℕ) (seen os : List Success) (groups : Groups) (largest : ℕ)
      → IsTallied q seen groups largest
      → Verdict q (seen ++ os) (vote key q os groups largest)
  unfolding vote
  vote-Verdict q seen [] groups largest h =
      rw append-nil (record { largest = largest; report = refl; short = h.short; top = h.top })
  vote-Verdict q seen (o ∷ os) groups largest h =
      let group = group_of (key o) groups ++ o ∷ [] in
      let mine =
        votes-one (key o) seen o
        ∙ ap (λ b. if b then votes (key o) seen ++ o ∷ [] else votes (key o) seen)
            (same_refl (key o)) in
      let joined = ap (λ (g : List Success). g ++ o ∷ []) (h.grouped (key o)) ∙ sym mine in
      elim (Bool-cases (leb q (length group))) [
        | inl enough ↦
            rw (enough, vote)
              (record {
                before = seen;
                winner = o;
                after = os;
                split = refl;
                group = joined;
                size = ground (
                  arith,
                  h.short (key o),
                  h.grouped (key o),
                  length-append (group_of (key o) groups) (o ∷ []),
                );
                first = h.short;
              })
        | inr few ↦
            rw (few, vote)
              (subst
                (λ l.
                  Verdict q l
                    (vote key q os (set_group (key o) group groups) (max largest (length group))))
                (append_assoc seen (o ∷ []) os)
                (vote-Verdict q (seen ++ o ∷ []) os (set_group (key o) group groups)
                  (max largest (length group)) (IsTallied-next q seen o groups largest h few)))
      ]

  -- With a positive quorum, the vote either gives the first group to reach it, of exactly that many
  -- branches, all those with one key up to the last of them; or it fails, no key has that many votes
  -- at all, and the error bounds the votes of every key.
  pub select_quorum-Verdict :
      (q : ℕ) (xs : List Success) → 0 < q → Verdict q xs (select_quorum key xs (some q))
  unfolding select_quorum
  select_quorum-Verdict q xs h = elim (Bool-cases (ltb q 1)) [
    | inl none ↦ absurd (ground arith)
    | inr enough ↦ rw enough (
        vote-Verdict q [] xs [] 0 (
          unfold group_of in
          record { grouped = λ k. refl; short = λ k. h; top = λ k. omega arith }))
  ]
