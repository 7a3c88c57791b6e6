-- ===== src/Scheduler/Placement.antt =====
-- What a placement is (internal/scheduler/scheduler.go, PlaceVM).
use ussycode.Base.{
  ℕ, ◌≡◌, refl, ap, sym, subst, ◌↔◌, ◌⊎◌, inl, inr, ◌≢◌, Bool, true, false, List, [], ◌∷◌, here,
  there, Mem, All-Mem, Ordered, ok, err,
}
use ussycode.Scheduler.{
  Float, VmSpec, NodeStatus, ScoreWeights, no_nodes, filter, score, ScoredNode, before, score_all,
  first, place_among, place_vm,
}
use ussycode.Scheduler.Filter.{Qualifies, filter_iff}

-- What `sort.Slice` asks of its less function: a strict weak order.
pub record IsStrictWeak {ℓ} {A : Type ℓ} (less : A → A → Bool) : Type ℓ where
  pub irreflexive : (a : A) → less a a ≡ false
  pub transitive : (a b c : A) → less a b ≡ true → less b c ≡ true → less a c ≡ true
  pub comparable : (a b c : A) → less a c ≡ true → (less a b ≡ true) ⊎ (less b c ≡ true)

-- What `sort.Slice` documents: the same elements, ordered if the less function is a strict weak
-- order. Nothing is said of elements that compare as equal.
pub record IsSort {ℓ} {A : Type ℓ} (less : A → A → Bool) (sort : List A → List A) : Type ℓ where
  pub same_elements : (xs : List A) (a : A) → Mem a (sort xs) ↔ Mem a xs
  pub ordered : IsStrictWeak less → (xs : List A) → Ordered less (sort xs)

module _ (float : Float) (sort : List (ScoredNode float) → List (ScoredNode float))
    (sorts : IsSort (before float) sort) (now : ℕ) (w : ScoreWeights (float.F))
    (spec : VmSpec) where
  open float use {F, gt}

  score_all-Mem :
      (cs ns : List (NodeStatus F)) (n : NodeStatus F)
      → Mem n ns
      → Mem
          (record { node = n; value = score float now w n spec cs })
          (score_all float now w spec cs ns)
  unfolding score_all
  score_all-Mem cs [] n m = elim m [ ]
  score_all-Mem cs (x ∷ ns) n (here e) =
      here (ap (λ y. record { node = y; value = score float now w y spec cs }) e)
  score_all-Mem cs (x ∷ ns) n (there m) = there (score_all-Mem cs ns n m)

  score_all-only :
      (cs ns : List (NodeStatus F)) (s : ScoredNode float)
      → Mem s (score_all float now w spec cs ns)
      → Mem s.node ns × (s.value ≡ score float now w s.node spec cs)
  unfolding score_all
  score_all-only cs [] s m = elim m [ ]
  score_all-only cs (x ∷ ns) s (here e) =
      subst (λ t. Mem t.node (x ∷ ns) × (t.value ≡ score float now w t.node spec cs)) e
        (here refl, refl)
  score_all-only cs (x ∷ ns) s (there m) =
      let (among, e) = score_all-only cs ns s m in (there among, e)

  -- The slice that `PlaceVM` sorts, and the first of it.
  abbrev ranked : List (NodeStatus F) → List (ScoredNode float)
  ranked cs = sort (score_all float now w spec cs cs)

  abbrev IsBest : List (NodeStatus F) → NodeStatus F → Type 0
  IsBest cs n =
      Mem n cs
      × ((m : NodeStatus F)
          → Mem m cs
          → gt (score float now w m spec cs) (score float now w n spec cs) ≡ false)

  IsBest-first :
      IsStrictWeak (before float)
      → (cs : List (NodeStatus F)) (s : ScoredNode float) (ss : List (ScoredNode float))
      → ranked cs ≡ s ∷ ss
      → IsBest cs s.node
  unfolding before
  IsBest-first weak cs s ss e =
      let sorted : Ordered (before float) (s ∷ ss) =
        subst (Ordered (before float)) e (sorts.ordered weak (score_all float now w spec cs cs)) in
      let own =
        score_all-only cs cs s ((sorts.same_elements _ s).0 (subst (Mem s) (sym e) (here refl))) in
      (
        own.0,
        λ m among.
            let entry : ScoredNode float = record {
              node = m;
              value = score float now w m spec cs;
            } in
            let there_too : Mem entry (s ∷ ss) =
              subst (Mem entry) e ((sorts.same_elements _ entry).1 (score_all-Mem cs cs m among)) in
            subst (λ v. gt entry.value v ≡ false) own.1
              (All-Mem (λ t. before float t s ≡ false) (s ∷ ss) (weak.irreflexive s, sorted.0)
                there_too),
      )

  ranked-nonempty : (c : NodeStatus F) (cs : List (NodeStatus F)) → ranked (c ∷ cs) ≢ []
  ranked-nonempty c cs e =
      let entry : ScoredNode float = record {
        node = c;
        value = score float now w c spec (c ∷ cs);
      } in
      let kept : Mem entry [] =
        subst (Mem entry) e
          ((sorts.same_elements _ entry).1 (score_all-Mem (c ∷ cs) (c ∷ cs) c (here refl))) in
      elim kept [ ]

  -- A placement from a slice of candidates finds a best one, and fails on the empty slice alone.
  place_among-cases :
      IsStrictWeak (before float)
      → (cs : List (NodeStatus F))
      → ((n : NodeStatus F) × (place_among float sort now w spec cs ≡ ok n) × IsBest cs n)
        ⊎ ((cs ≡ []) × (place_among float sort now w spec cs ≡ err (no_nodes spec)))
  unfolding place_among
  place_among-cases weak [] = inr (refl, refl)
  place_among-cases weak (c ∷ cs) = inl (found (ranked (c ∷ cs)) refl)
    where
      found :
          (r : List (ScoredNode float))
          → ranked (c ∷ cs) ≡ r
          → (n : NodeStatus F) × (first float r ≡ ok n) × IsBest (c ∷ cs) n
      found [] e = absurd (ranked-nonempty c cs e)
      found (s ∷ ss) e = (s.node, refl, IsBest-first weak (c ∷ cs) s ss e)

-- With the nodes that the provider returns, `PlaceVM` either places the VM on a node of theirs that
-- qualifies by the tests that the filter makes, none of which looks at the CPU, such that no other
-- qualifying node scores higher, or it fails because no node qualifies. (The less function on the scores is taken to be
-- a strict weak order: no score is NaN.)
pub place_vm_correct :
    (float : Float) (sort : List (ScoredNode float) → List (ScoredNode float))
    → IsSort (before float) sort
    → IsStrictWeak (before float)
    → (now : ℕ) (w : ScoreWeights (float.F)) (nodes : List (NodeStatus (float.F))) (spec : VmSpec)
    → ((n : NodeStatus (float.F)) × (place_vm float sort now w (ok nodes) spec ≡ ok n)
        × Mem n nodes
        × Qualifies spec n
        × ((m : NodeStatus (float.F))
            → Mem m nodes
            → Qualifies spec m
            → float.gt
                (score float now w m spec (filter nodes spec))
                (score float now w n spec (filter nodes spec))
              ≡ false))
      ⊎ ((place_vm float sort now w (ok nodes) spec ≡ err (no_nodes spec))
          × ((m : NodeStatus (float.F)) → Mem m nodes → ¬ Qualifies spec m))
unfolding place_vm
place_vm_correct float sort sorts weak now w nodes spec =
    elim (place_among-cases float sort sorts now w spec weak (filter nodes spec)) [
      | inl (n, placed, best) ↦
          let (member, q) = (filter_iff nodes spec n).0 best.0 in
          inl (n, placed, member, q, λ m mem qm. best.1 m ((filter_iff nodes spec m).1 (mem, qm)))
      | inr (empty, failed) ↦ inr (
        failed,
        λ m mem qm. elim (subst (Mem m) empty ((filter_iff nodes spec m).1 (mem, qm))) [ ],
      )
    ]
