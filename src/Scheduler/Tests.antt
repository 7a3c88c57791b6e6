-- ===== src/Scheduler/Tests.antt =====
-- The scheduler's theorems at concrete inputs: scores in ten-thousandths, and an insertion sort.
use ussycode.Base.{
  ℕ, ◌+◌, ◌-◌, ◌*◌, ◌/◌, ◌≡◌, refl, ◌↔◌, ◌⊎◌, inl, inr, Bool, true, false, List, [], ◌∷◌, Mem,
  Mem-under, Mem-swap, All, All-imp, Ordered, arith, ok, err, none, ltb, if◌then◌else◌, Bool-cases,
}
use ussycode.Scheduler.{
  Float, VmSpec, NodeStatus, filter, score, before, place_vm, default_weights, no_nodes, passes,
  max_vms_from,
}
use ussycode.Scheduler.Filter.{Qualifies}
use ussycode.Scheduler.Placement.{IsSort, IsStrictWeak, place_vm_correct}

-- The number n stands for n / 10000.
abbrev scaled : Float
scaled = record {
  F = ℕ;
  lit = λ a b. a * 10000 / b;
  of_int = λ n. n * 10000;
  hours = λ t. t / 3_600_000_000_000 * 10000;
  add = λ a b. a + b;
  sub = λ a b. a - b;
  mul = λ a b. a * b / 10000;
  div = λ a b. a * 10000 / b;
  max = λ a b. if ltb a b then b else a;
  min = λ a b. if ltb b a then b else a;
  gt = λ a b. ltb b a;
}

module _ {ℓ} {A : Type ℓ} (less : A → A → Bool) where
  put : A → List A → List A
  put x [] = x ∷ []
  put x (y ∷ ys) = let rest = put x ys in if less x y then x ∷ y ∷ ys else y ∷ rest

  insertion_sort : List A → List A
  unfolding put
  insertion_sort [] = []
  insertion_sort (x ∷ xs) = put x (insertion_sort xs)

  put-Mem : (x a : A) (ys : List A) → Mem a (put x ys) ↔ Mem a (x ∷ ys)
  unfolding put
  put-Mem x a [] = (λ m. m, λ m. m)
  put-Mem x a (y ∷ ys) =
      let (to, from) = put-Mem x a ys in
      elim (Bool-cases (less x y)) [
        | inl t ↦ rw t (λ m. m, λ m. m)
        | inr f ↦ rw f (λ m. Mem-swap (Mem-under y to m), λ m. Mem-under y from (Mem-swap m))
      ]

  insertion_sort-Mem : (xs : List A) (a : A) → Mem a (insertion_sort xs) ↔ Mem a xs
  unfolding insertion_sort
  insertion_sort-Mem [] a = (λ m. m, λ m. m)
  insertion_sort-Mem (x ∷ xs) a =
      let (to, from) = insertion_sort-Mem xs a in
      let (out, into) = put-Mem x a (insertion_sort xs) in
      (λ m. Mem-under x to (out m), λ m. into (Mem-under x from m))

  put-All {κ} : (P : A → Type κ) (x : A) (ys : List A) → P x → All P ys → All P (put x ys)
  unfolding put
  put-All P x [] p all = (p, tt)
  put-All P x (y ∷ ys) p all = elim (Bool-cases (less x y)) [
    | inl t ↦ rw t (p, all)
    | inr f ↦ rw f (all.0, put-All P x ys p all.1)
  ]

  put-Ordered :
      IsStrictWeak less → (x : A) (ys : List A) → Ordered less ys → Ordered less (put x ys)
  unfolding put
  put-Ordered weak x [] o = (tt, tt)
  put-Ordered weak x (y ∷ ys) o = elim (Bool-cases (less x y)) [
    | inr f ↦ rw f (put-All (λ t. less t y ≡ false) x ys f o.0, put-Ordered weak x ys o.1)
    | inl t ↦ rw t (
      (
        ground (arith, weak.transitive x y x, weak.irreflexive x),
        All-imp ys (λ z h. ground (arith, weak.transitive z x y)) o.0,
      ),
      o,
    )
  ]

  insertion_sort-Ordered : IsStrictWeak less → (xs : List A) → Ordered less (insertion_sort xs)
  unfolding insertion_sort
  insertion_sort-Ordered weak [] = tt
  insertion_sort-Ordered weak (x ∷ xs) =
      put-Ordered weak x (insertion_sort xs) (insertion_sort-Ordered weak xs)

  insertion_sort-IsSort : IsSort less insertion_sort
  insertion_sort-IsSort = record {
    same_elements = insertion_sort-Mem;
    ordered = insertion_sort-Ordered;
  }

scaled-IsStrictWeak : IsStrictWeak (before scaled)
unfolding before
scaled-IsStrictWeak = record {
  irreflexive = λ a. ground arith;
  transitive = λ a b c h k. ground arith;
  comparable = λ a b c h. ground arith;
}

abbrev one_cpu : VmSpec
one_cpu = record {
  vm_id = "vm";
  user_id = "ann";
  base_image = "ussyuntu";
  vcpus = 1;
  mem_bytes = 100;
  disk_bytes = 50;
  prefer_node_ids = [];
  min_trust_level = 10;
}

abbrev roomy : NodeStatus ℕ
roomy = record {
  id = "roomy";
  ready = true;
  health = "healthy";
  trust_level = 50;
  cpu_cores = 8;
  ram_total = 1000;
  disk_total = 1000;
  cpu_used = 0;
  ram_used = 200;
  disk_used = 100;
  vm_count = 3;
  registered_at = none;
  user_ids = "ann" ∷ [];
  draining = false;
}

abbrev pool : List (NodeStatus ℕ)
pool =
    record roomy { id = "full"; ram_used = 950 }
    ∷ record roomy { id = "bare"; user_ids = [] }
    ∷ roomy
    ∷ []

place_roomy :
    place_vm scaled (insertion_sort (before scaled)) 0 (default_weights scaled) (ok pool) one_cpu
    ≡ ok roomy
unfolding place_vm insertion_sort before default_weights score filter passes max_vms_from
place_roomy = refl

place_vm_correct_example :
    ((n : NodeStatus ℕ) × (place_vm scaled
          (insertion_sort (before scaled))
          0
          (default_weights scaled)
          (ok pool)
          one_cpu
        ≡ ok n)
      × Mem n pool
      × Qualifies one_cpu n
      × ((m : NodeStatus ℕ)
          → Mem m pool
          → Qualifies one_cpu m
          → ltb
              (score scaled 0 (default_weights scaled) n one_cpu (filter pool one_cpu))
              (score scaled 0 (default_weights scaled) m one_cpu (filter pool one_cpu))
            ≡ false))
    ⊎ ((place_vm scaled
            (insertion_sort (before scaled))
            0
            (default_weights scaled)
            (ok pool)
            one_cpu
          ≡ err (no_nodes one_cpu))
        × ((m : NodeStatus ℕ) → Mem m pool → ¬ Qualifies one_cpu m))
place_vm_correct_example =
    place_vm_correct scaled (insertion_sort (before scaled)) (insertion_sort-IsSort (before scaled))
      scaled-IsStrictWeak 0 (default_weights scaled) pool one_cpu
