-- ===== src/Db/Counts.antt =====
-- How many rows a query counts (SELECT COUNT(*)), and what deleting and adding change of it.
use ussycode.Base.{
  ℕ, ◌+◌, ◌≤◌, ◌≡◌, refl, Bool, true, false, ◌&&◌, List, [], ◌∷◌, ◌++◌, if◌then◌else◌, length,
  Bool-cases, inl, inr, arith, Mem, here, there,
}
use ussycode.Db.Vms.{select_where, delete_where, exists_where}

abbrev pub count_where {ℓ} : {A : Type ℓ} → (A → Bool) → List A → ℕ
count_where p xs = length (select_where p xs)

module _ {ℓ} {A : Type ℓ} (p q : A → Bool) where
  pub count-delete :
      (xs : List A)
      → count_where p (delete_where q xs) + count_where (λ x. p x && q x) xs ≡ count_where p xs
  unfolding select_where delete_where
  count-delete [] = refl
  count-delete (x ∷ xs) =
      let rest = count-delete xs in
      elim (Bool-cases (p x)) [
        | inl hit ↦ elim (Bool-cases (q x)) [
          | inl gone ↦ rw (gone, hit) (omega arith)
          | inr stays ↦ rw (stays, hit) (omega arith)
        ]
        | inr miss ↦ elim (Bool-cases (q x)) [
          | inl gone ↦ rw (gone, miss) (omega arith)
          | inr stays ↦ rw (stays, miss) (omega arith)
        ]
      ]

  pub count-both : (xs : List A) → count_where (λ x. p x && q x) xs ≤ count_where q xs
  unfolding select_where
  count-both [] = omega arith
  count-both (x ∷ xs) =
      let rest = count-both xs in
      elim (Bool-cases (p x)) [
        | inl hit ↦ elim (Bool-cases (q x)) [
          | inl both ↦ rw (hit, both) (omega arith)
          | inr first ↦ rw (hit, first) (omega arith)
        ]
        | inr miss ↦ elim (Bool-cases (q x)) [
          | inl second ↦ rw (miss, second) (omega arith)
          | inr neither ↦ rw (miss, neither) (omega arith)
        ]
      ]

  pub exists-count :
      (xs : List A)
      → exists_where q (select_where p xs) ≡ true
      → 1 ≤ count_where (λ x. p x && q x) xs
  unfolding select_where exists_where
  exists-count [] h = cc
  exists-count (x ∷ xs) h = elim (Bool-cases (p x)) [
    | inl hit ↦ elim (Bool-cases (q x)) [
      | inl both ↦ rw (hit, both) (omega arith)
      | inr first ↦ rw (hit, first) (exists-count xs (rw (hit, first) at h))
    ]
    | inr miss ↦ rw miss (exists-count xs (rw miss at h))
  ]

-- Two tests that no row passes both.
pub count-disjoint {ℓ} :
    {A : Type ℓ} (p r q : A → Bool) (xs : List A)
    → ((x : A) → p x ≡ true → r x ≡ false)
    → count_where (λ x. p x && q x) xs + count_where (λ x. r x && q x) xs ≤ count_where q xs
unfolding select_where
count-disjoint p r q [] apart = omega arith
count-disjoint p r q (x ∷ xs) apart =
    let rest = count-disjoint p r q xs apart in
    elim (Bool-cases (q x)) [
      | inr other ↦ elim (Bool-cases (p x)) [
        | inl first ↦ elim (Bool-cases (r x)) [
          | inl second ↦ rw (first, second, other) rest
          | inr alone ↦ rw (first, alone, other) rest
        ]
        | inr not_first ↦ elim (Bool-cases (r x)) [
          | inl second ↦ rw (not_first, second, other) rest
          | inr neither ↦ rw (not_first, neither, other) rest
        ]
      ]
      | inl hit ↦ elim (Bool-cases (p x)) [
        | inl first ↦ rw (hit, first, apart x first) (omega arith)
        | inr not_first ↦ elim (Bool-cases (r x)) [
          | inl second ↦ rw (hit, not_first, second) (omega arith)
          | inr neither ↦ rw (hit, not_first, neither) (omega arith)
        ]
      ]
    ]

pub count-append {ℓ} :
    {A : Type ℓ} (p : A → Bool) (xs : List A) (x : A)
    → count_where p (xs ++ x ∷ []) ≡ count_where p xs + (if p x then 1 else 0)
unfolding select_where
count-append p [] x = elim (Bool-cases (p x)) [ inl hit ↦ rw hit refl | inr miss ↦ rw miss refl ]
count-append p (y ∷ xs) x =
    let rest = count-append p xs x in
    elim (Bool-cases (p y)) [ inl hit ↦ rw hit (omega arith) | inr miss ↦ rw miss rest ]

pub count-none {ℓ} :
    {A : Type ℓ} (p : A → Bool) (xs : List A)
    → ((x : A) → Mem x xs → p x ≡ false)
    → count_where p xs ≡ 0
unfolding select_where
count-none p [] miss = refl
count-none p (x ∷ xs) miss = rw (miss x (here refl)) (count-none p xs (λ y mem. miss y (there mem)))
