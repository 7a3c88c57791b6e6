-- ===== src/Db/Owners/Creation.antt =====
-- Whose row a new VM is, and whose VM a name finds (internal/db/queries.go: CreateVM,
-- VMByUserAndName).
use ussycode.Base.{
  ℕ, suc, ◌≡◌, refl, ◌∙◌, sym, ap, true, not, ◌&&◌, [], ◌∷◌, ◌++◌, inl, inr, nat_eq, list_eq,
  string_eq, ◌==◌, ok, Text, subst, ok-injective, Mem, arith, beq_iff, Bool-cases,
}
use ussycode.Db.Models.{Vm, Db}
use ussycode.Db.Vms.{
  first_where-Mem, select_where, exists_where, row-ok, vms_by_user, vm_by_user_and_name, create_vm,
}
use ussycode.Db.Select.{select-append_miss, Mem-append_last}
use ussycode.Db.Owners.{Sound, Owns, Kept, Kept-same}

-- A row with the next id.
appended-Sound :
    (d d' : Db) (vm : Vm)
    → Sound d
    → vm.id ≡ d.next_vm_id
    → d'.vms ≡ d.vms ++ vm ∷ []
    → d'.next_vm_id ≡ suc d.next_vm_id
    → Sound d'
appended-Sound d d' vm sound fresh rows next =
    let split =
      λ (v : Vm) (mem : Mem v d'.vms). Mem-append_last d.vms vm v (subst (Mem v) rows mem) in
    record {
      one_owner = λ v w mv mw same. elim (split v mv) [
        | inl bv ↦ elim (split w mw) [
          | inl bw ↦ sound.one_owner v w bv bw same
          | inr ew ↦
              let small = sound.below v bv in
              let at_end = ap (λ x. x.id) ew in absurd (ground (arith, small, at_end, same, fresh))
        ]
        | inr ev ↦ elim (split w mw) [
          | inl bw ↦
              let small = sound.below w bw in
              let at_end = ap (λ x. x.id) ev in absurd (ground (arith, small, at_end, same, fresh))
          | inr ew ↦ ap (λ x. x.user_id) (sym ev ∙ ew)
        ]
      ];
      below = λ v mv. elim (split v mv) [
        | inl before ↦ let small = sound.below v before in omega arith
        | inr last ↦ let at_end = ap (λ x. x.id) last in omega arith
      ];
    }

module _ (user_id : ℕ) (d : Db) (sound : Sound d) where
  appended-Kept :
      (d' : Db) (vm : Vm)
      → vm.id ≡ d.next_vm_id
      → vm.user_id ≡ user_id
      → d'.vms ≡ d.vms ++ vm ∷ []
      → d'.next_vm_id ≡ suc d.next_vm_id
      → Kept user_id d d'
  unfolding vms_by_user
  appended-Kept d' vm fresh mine rows next = record {
    others = λ other ne.
        ap (select_where (λ v. v.user_id == other)) rows
        ∙ select-append_miss (λ v. v.user_id == other) vm d.vms
            (elim (Bool-cases (vm.user_id == other)) [
              | inr differs ↦ differs
              | inl same ↦ absurd (ne (sym ((beq_iff vm.user_id other).0 same) ∙ mine))
            ]);
    sound = appended-Sound d d' vm sound fresh rows next;
    owns = λ id own v mem same. elim (Mem-append_last d.vms vm v (subst (Mem v) rows mem)) [
      | inl before ↦ own v before same
      | inr last ↦ ap (λ x. x.user_id) (sym last) ∙ mine
    ];
  }

  -- A row that `CreateVM` makes is the user's; nothing is changed where it makes none.
  pub create_vm-Kept :
      (now : ℕ) (name image : Text) (cpus memory disk : ℕ)
      → (Kept user_id d (create_vm now d user_id name image cpus memory disk).1)
        × ((vm : Vm)
            → (create_vm now d user_id name image cpus memory disk).0 ≡ ok vm
            → Owns user_id vm.id (create_vm now d user_id name image cpus memory disk).1)
  unfolding create_vm
  create_vm-Kept now name image cpus memory disk =
      elim (Bool-cases (
        exists_where (λ u. u.id == user_id) d.users
        && not (exists_where (λ v. v.user_id == user_id && v.name == name) d.vms))) [
          | inr broken ↦ rw broken (Kept-same user_id d sound, λ vm h. cc)
          | inl new ↦ rw new (
            appended-Kept _ _ refl refl refl refl,
            (λ vm h v mem same. elim (Mem-append_last d.vms _ v mem) [
              | inl before ↦
                  let small = sound.below v before in
                  let at_end : d.next_vm_id ≡ vm.id = ap (λ x. x.id) (ok-injective h) in
                  absurd (ground (arith, small, at_end, same))
              | inr last ↦ ap (λ x. x.user_id) (sym last)
            ]),
          )
        ]

-- A row that the user finds by its name.
pub found-Owns :
    (user_id : ℕ) (d : Db) (name : Text) (vm : Vm)
    → Sound d
    → vm_by_user_and_name d user_id name ≡ ok vm
    → Owns user_id vm.id d
unfolding vm_by_user_and_name
found-Owns user_id d name vm sound found v mem same =
    let (there_is, hit) =
      first_where-Mem (λ v. v.user_id == user_id && v.name == name) d.vms (row-ok _ found) in
    let mine : (vm.user_id == user_id) ≡ true = ground (arith, hit) in
    sound.one_owner v vm mem there_is same ∙ (beq_iff vm.user_id user_id).0 mine
