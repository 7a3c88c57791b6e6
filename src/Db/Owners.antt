-- ===== src/Db/Owners.antt =====
-- Whose rows the statements on the table vms touch (internal/db/queries.go).
pub mod Creation
use ussycode.Base.{
  ℕ, suc, ◌<◌, ◌≡◌, ◌≢◌, refl, ◌∙◌, sym, ap, Bool, true, false, not, ◌&&◌, ◌||◌, String, Option,
  none, some, List, [], ◌∷◌, ◌++◌, ◌⊎◌, inl, inr, if◌then◌else◌, nat_eq, list_eq, string_eq, ◌==◌,
  Result, ok, err, Text, subst, ok-injective, Mem, here, there, arith, beq_iff, Bool-cases,
}
use ussycode.Db.Models.{Vm, Db, DbError, constraint_failed, stored}
use ussycode.Db.Vms.{
  first_where, first_where-Mem, select_where, delete_where, update_where, exists_where, row, row-ok,
  vms_by_user, vm_by_user_and_name, create_vm, update_vm_status, delete_vm, rename_vm,
}

-- An id belongs to one user, and no id is as large as the next one.
pub record Sound (db : Db) : Type 0 where
  pub one_owner : (v w : Vm) → Mem v db.vms → Mem w db.vms → v.id ≡ w.id → v.user_id ≡ w.user_id
  pub below : (v : Vm) → Mem v db.vms → v.id < db.next_vm_id

-- The rows with the id are the user's.
abbrev pub Owns : ℕ → ℕ → Db → Type 0
Owns user_id id db = (v : Vm) → Mem v db.vms → v.id ≡ id → v.user_id ≡ user_id

-- What the user's statements leave alone.
pub record Kept (user_id : ℕ) (before after : Db) : Type 0 where
  pub others : (other : ℕ) → other ≢ user_id → vms_by_user after other ≡ vms_by_user before other
  pub sound : Sound after
  pub owns : (id : ℕ) → Owns user_id id before → Owns user_id id after

pub Kept-same : (user_id : ℕ) (db : Db) → Sound db → Kept user_id db db
Kept-same user_id db sound = record { others = λ other h. refl; sound = sound; owns = λ id h. h }

pub Kept-next :
    {user_id : ℕ} {first second third : Db}
    → Kept user_id first second
    → Kept user_id second third
    → Kept user_id first third
Kept-next h k = record {
  others = λ other ne. k.others other ne ∙ h.others other ne;
  sound = k.sound;
  owns = λ id own. k.owns id (h.owns id own);
}

-- Each row of the second list has its id and its owner from a row of the first.
abbrev From : List Vm → List Vm → Type 0
From xs ys = (y : Vm) → Mem y ys → (x : Vm) × Mem x xs × (y.id ≡ x.id) × (y.user_id ≡ x.user_id)

Sound-From : (d d' : Db) → Sound d → d.next_vm_id ≡ d'.next_vm_id → From d.vms d'.vms → Sound d'
Sound-From d d' sound next from = record {
  one_owner = λ v w mv mw same.
      let (x, mx, idx, ownx) = from v mv in
      let (y, my, idy, owny) = from w mw in
      ownx ∙ sound.one_owner x y mx my (sym idx ∙ same ∙ idy) ∙ sym owny;
  below = λ v mv. let (x, mx, idx, ownx) = from v mv in let small = sound.below x mx in omega arith;
}

Owns-From :
    (user_id id : ℕ) (xs ys : List Vm)
    → From xs ys
    → ((v : Vm) → Mem v xs → v.id ≡ id → v.user_id ≡ user_id)
    → (v : Vm) → Mem v ys
    → v.id ≡ id
    → v.user_id ≡ user_id
Owns-From user_id id xs ys from own v mem same =
    let (x, mx, idx, ownx) = from v mem in ownx ∙ own x mx (sym idx ∙ same)

From-head :
    (x x' : Vm) (xs ys : List Vm)
    → x'.id ≡ x.id
    → x'.user_id ≡ x.user_id
    → From xs ys
    → From (x ∷ xs) (x' ∷ ys)
From-head x x' xs ys same_id same_owner h y (here e) =
    (x, here refl, ap (λ v. v.id) (sym e) ∙ same_id, ap (λ v. v.user_id) (sym e) ∙ same_owner)
From-head x x' xs ys same_id same_owner h y (there mem) =
    let (z, mz, idz, ownz) = h y mem in (z, there mz, idz, ownz)

From-skip : (x : Vm) (xs ys : List Vm) → From xs ys → From (x ∷ xs) ys
From-skip x xs ys h y mem = let (z, mz, idz, ownz) = h y mem in (z, there mz, idz, ownz)

From-delete : (p : Vm → Bool) (xs : List Vm) → From xs (delete_where p xs)
unfolding delete_where
From-delete p [] = λ y mem. elim mem [ ]
From-delete p (x ∷ xs) = elim (Bool-cases (p x)) [
  | inl gone ↦ rw gone (From-skip x xs _ (From-delete p xs))
  | inr stays ↦ rw stays (From-head x x xs _ refl refl (From-delete p xs))
]

-- A change of rows that leaves ids and owners alone.
abbrev pub KeepsOwner : (Vm → Vm) → Type 0
KeepsOwner f = (v : Vm) → ((f v).id ≡ v.id) × ((f v).user_id ≡ v.user_id)

From-update :
    (p : Vm → Bool) (f : Vm → Vm) (xs : List Vm) → KeepsOwner f → From xs (update_where p f xs)
unfolding update_where
From-update p f [] keeps = λ y mem. elim mem [ ]
From-update p f (x ∷ xs) keeps = elim (Bool-cases (p x)) [
  | inl hit ↦ rw hit (From-head x (f x) xs _ (keeps x).0 (keeps x).1 (From-update p f xs keeps))
  | inr miss ↦ rw miss (From-head x x xs _ refl refl (From-update p f xs keeps))
]

-- The rows of another user are not among those with the id.
module _ (user_id id other : ℕ) (ne : other ≢ user_id) where
  not_other :
      (x : Vm) (xs : List Vm)
      → ((v : Vm) → Mem v (x ∷ xs) → v.id ≡ id → v.user_id ≡ user_id)
      → (x.id == id) ≡ true
      → (x.user_id == other) ≡ false
  not_other x xs own hit = elim (Bool-cases (x.user_id == other)) [
    | inr differs ↦ differs
    | inl same ↦
        let mine = own x (here refl) ((beq_iff x.id id).0 hit) in
        absurd (ne (sym ((beq_iff x.user_id other).0 same) ∙ mine))
  ]

  select-delete :
      (xs : List Vm)
      → ((v : Vm) → Mem v xs → v.id ≡ id → v.user_id ≡ user_id)
      → select_where (λ v. v.user_id == other) (delete_where (λ v. v.id == id) xs)
        ≡ select_where (λ v. v.user_id == other) xs
  unfolding select_where delete_where
  select-delete [] own = refl
  select-delete (x ∷ xs) own =
      let rest = select-delete xs (λ v mem. own v (there mem)) in
      elim (Bool-cases (x.id == id)) [
        | inl hit ↦ rw (hit, not_other x xs own hit) rest
        | inr miss ↦ rw (miss, rest) refl
      ]

  select-update :
      (f : Vm → Vm) (xs : List Vm)
      → KeepsOwner f
      → ((v : Vm) → Mem v xs → v.id ≡ id → v.user_id ≡ user_id)
      → select_where (λ v. v.user_id == other) (update_where (λ v. v.id == id) f xs)
        ≡ select_where (λ v. v.user_id == other) xs
  unfolding select_where update_where
  select-update f [] keeps own = refl
  select-update f (x ∷ xs) keeps own =
      let rest = select-update f xs keeps (λ v mem. own v (there mem)) in
      elim (Bool-cases (x.id == id)) [
        | inl hit ↦ rw (hit, (keeps x).1, not_other x xs own hit) rest
        | inr miss ↦ rw (miss, rest) refl
      ]

module _ (user_id id : ℕ) (d : Db) (sound : Sound d) (own : Owns user_id id d) where
  pub updated-Kept :
      (d' : Db) (f : Vm → Vm)
      → KeepsOwner f
      → d'.vms ≡ update_where (λ v. v.id == id) f d.vms
      → d.next_vm_id ≡ d'.next_vm_id
      → Kept user_id d d'
  unfolding vms_by_user
  updated-Kept d' f keeps rows next =
      let from = subst (From d.vms) (sym rows) (From-update (λ v. v.id == id) f d.vms keeps) in
      record {
        others = λ other ne.
            ap (select_where (λ v. v.user_id == other)) rows
            ∙ select-update user_id id other ne f d.vms keeps own;
        sound = Sound-From d d' sound next from;
        owns = λ k. Owns-From user_id k d.vms d'.vms from;
      }

  pub delete_vm-Kept : Kept user_id d (delete_vm d id)
  unfolding vms_by_user delete_vm
  delete_vm-Kept = record {
    others = λ other ne. select-delete user_id id other ne d.vms own;
    sound = Sound-From d (delete_vm d id) sound refl (From-delete (λ v. v.id == id) d.vms);
    owns = λ k. Owns-From user_id k d.vms _ (From-delete (λ v. v.id == id) d.vms);
  }

  pub update_vm_status-Kept :
      (now : ℕ) (status : String) (tap ip mac : Option Text) (pid : Option ℕ)
      → Kept user_id d (update_vm_status now d id status tap ip mac pid)
  unfolding update_vm_status
  update_vm_status-Kept now status tap ip mac pid = updated-Kept _ _ (λ v. (refl, refl)) refl refl

  pub rename_vm-Kept : (now : ℕ) (name : Text) → Kept user_id d (rename_vm now d id name).1
  unfolding rename_vm
  rename_vm-Kept now name =
      elim (Bool-cases (
        exists_where
          (λ v.
            v.id == id
            && exists_where (λ w. w.user_id == v.user_id && w.name == name && not (w.id == id))
                d.vms)
          d.vms)) [
            | inl clash ↦ rw clash (Kept-same user_id d sound)
            | inr free ↦ rw free (updated-Kept _ _ (λ v. (refl, refl)) refl refl)
          ]

-- Other tables.
pub Kept-rows :
    (user_id : ℕ) (d d' : Db)
    → Sound d
    → d'.vms ≡ d.vms
    → d.next_vm_id ≡ d'.next_vm_id
    → Kept user_id d d'
unfolding vms_by_user
Kept-rows user_id d d' sound rows next =
    let from : From d.vms d'.vms =
      λ y mem. (y, subst (λ (vms : List Vm). Mem y vms) rows mem, refl, refl) in
    record {
      others = λ other ne. ap (select_where (λ v. v.user_id == other)) rows;
      sound = Sound-From d d' sound next from;
      owns = λ k. Owns-From user_id k d.vms d'.vms from;
    }
