-- ===== src/Db/Select.antt =====
-- Statements that change no row of those that a query selects (internal/db/queries.go).
use ussycode.Base.{
  ◌⊎◌, Mem-under, ◌≡◌, refl, ap, subst, Bool, true, false, List, [], ◌∷◌, ◌++◌, Bool-cases, inl,
  inr, Mem, here, there,
}
use ussycode.Db.Vms.{select_where, delete_where, update_where, exists_where}

module _ {ℓ} {A : Type ℓ} (p : A → Bool) where
  pub select-append_miss :
      (x : A) (xs : List A) → p x ≡ false → select_where p (xs ++ x ∷ []) ≡ select_where p xs
  unfolding select_where
  select-append_miss x [] h = rw h refl
  select-append_miss x (y ∷ xs) h = elim (Bool-cases (p y)) [
    | inl hit ↦ rw hit (ap (λ rest. y ∷ rest) (select-append_miss x xs h))
    | inr miss ↦ rw miss (select-append_miss x xs h)
  ]

  pub select-delete_miss :
      (q : A → Bool) (xs : List A)
      → ((x : A) → Mem x xs → q x ≡ true → p x ≡ false)
      → select_where p (delete_where q xs) ≡ select_where p xs
  unfolding select_where delete_where
  select-delete_miss q [] miss = refl
  select-delete_miss q (x ∷ xs) miss =
      let rest = select-delete_miss q xs (λ y mem. miss y (there mem)) in
      elim (Bool-cases (q x)) [
        | inl gone ↦ rw (gone, miss x (here refl) gone) rest
        | inr stays ↦ rw (stays, rest) refl
      ]

  pub select-update_miss :
      (q : A → Bool) (f : A → A) (xs : List A)
      → ((x : A) → Mem x xs → q x ≡ true → p x ≡ false)
      → ((x : A) → p (f x) ≡ p x)
      → select_where p (update_where q f xs) ≡ select_where p xs
  unfolding select_where update_where
  select-update_miss q f [] miss same = refl
  select-update_miss q f (x ∷ xs) miss same =
      let rest = select-update_miss q f xs (λ y mem. miss y (there mem)) same in
      elim (Bool-cases (q x)) [
        | inl hit ↦ rw (hit, same x, miss x (here refl) hit) rest
        | inr other ↦ rw (other, rest) refl
      ]

missed {ℓ} :
    {A : Type ℓ} (p : A → Bool) (y x : A) (xs : List A)
    → p y ≡ false
    → (Mem x xs → p x ≡ false)
    → Mem x (y ∷ xs)
    → p x ≡ false
missed p y x xs h later (here e) = subst (λ z. p z ≡ false) e h
missed p y x xs h later (there mem) = later mem

-- A row that no test finds.
pub exists_where-miss {ℓ} :
    {A : Type ℓ} (p : A → Bool) (xs : List A)
    → exists_where p xs ≡ false
    → (x : A) → Mem x xs
    → p x ≡ false
unfolding exists_where
exists_where-miss p [] h x mem = elim mem [ ]
exists_where-miss p (y ∷ xs) h x mem = elim (Bool-cases (p y)) [
  | inl found ↦ absurd (cc (rw found at h))
  | inr other ↦ missed p y x xs other (exists_where-miss p xs (rw other at h) x) mem
]

-- A row at the end of the table.
pub Mem-append_last {ℓ} :
    {A : Type ℓ} (xs : List A) (x y : A) → Mem y (xs ++ x ∷ []) → Mem y xs ⊎ (x ≡ y)
Mem-append_last [] x y (here e) = inr e
Mem-append_last [] x y (there mem) = elim mem [ ]
Mem-append_last (z ∷ xs) x y (here e) = inl (here e)
Mem-append_last (z ∷ xs) x y (there mem) = elim (Mem-append_last xs x y mem) [
  | inl before ↦ inl (there before)
  | inr last ↦ inr last
]

pub Mem-delete {ℓ} :
    {A : Type ℓ} (q : A → Bool) (xs : List A) (x : A) → Mem x (delete_where q xs) → Mem x xs
unfolding delete_where
Mem-delete q [] x mem = mem
Mem-delete q (y ∷ xs) x mem = elim (Bool-cases (q y)) [
  | inl gone ↦ there (Mem-delete q xs x (rw gone at mem))
  | inr stays ↦ Mem-under y (Mem-delete q xs x) (rw stays at mem)
]
