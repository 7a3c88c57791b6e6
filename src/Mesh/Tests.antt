-- ===== src/Mesh/Tests.antt =====
-- The allocator's theorems at concrete calls.
use ussycode.Base.{
  suc, ◌-◌, ◌^◌, ◌<◌, ◌≡◌, refl, ◌≢◌, ◌⊎◌, true, String, none, some, List, [], ◌∷◌, lookup, insert,
  delete, string_eq, nat_eq, ok, err, is_ok, arith,
}
use ussycode.Mesh.Net.{IpNet, mask_size}
use ussycode.Mesh.Allocator.{
  Allocator, no_free_subnets, max_subnet_index, subnet_for_index, new_allocator_custom, free_index,
  allocate, index_of, release_index, release, get_allocation, free_count, subnet_size, allocate_new,
  take_index,
}
use ussycode.Mesh.Allocator.Numbering.{IsNetwork, IsNumbered}
use ussycode.Mesh.Allocator.History.{
  Call, allocates, releases, step, run, subnets_disjoint, Within, Apart,
}
use ussycode.Mesh.Allocator.Counting.{allocate-free_count}
use ussycode.Mesh.Allocator.Answers.{allocate-get_allocation, overlong_subnets_collide}

-- 10.0.0.0/8.
abbrev ten : IpNet
ten = record { ip = 167772160; mask = some 8 }

abbrev fresh : Allocator
fresh = record { base_net = ten; subnet_bits = 10; allocated = []; used = [] }

abbrev calls : List Call
calls = allocates "a" ∷ allocates "b" ∷ releases "a" ∷ allocates "c" ∷ []

fresh_new : new_allocator_custom (some ten) 10 ≡ ok fresh
unfolding new_allocator_custom mask_size
fresh_new = refl

-- "c" takes the index that "a" gave back.
calls_answer :
    (get_allocation (run fresh calls) "a" ≡ none)
    × (get_allocation (run fresh calls) "b" ≡ some (subnet_for_index fresh 1))
    × (get_allocation (run fresh calls) "c" ≡ some (subnet_for_index fresh 0))
unfolding run step allocate allocate_new take_index release release_index index_of get_allocation
    free_index lookup insert delete max_subnet_index subnet_for_index subnet_size
calls_answer = (refl, refl, refl)

abbrev b_name : String
b_name = "b"

ten-IsNetwork : IsNetwork ten 8
ten-IsNetwork = record { masked = refl; word = omega arith; aligned = omega arith }

abbrev later : Allocator
later = run fresh calls

b_held : get_allocation later "b" ≡ some (subnet_for_index fresh 1)
b_held = calls_answer.1

c_held : get_allocation later "c" ≡ some (subnet_for_index fresh 0)
c_held = calls_answer.2

subnets_disjoint_example :
    Within (2 ^ (32 - 10)) (subnet_for_index fresh 1) (2 ^ (32 - 8)) ten
    × ((◌≡◌ {A = String} "b" "c")
        ⊎ Apart (2 ^ (32 - 10)) (subnet_for_index fresh 1) (subnet_for_index fresh 0))
subnets_disjoint_example =
    subnets_disjoint ten 8 10 {a = fresh} calls ten-IsNetwork (omega arith) fresh_new "b" "c"
      (subnet_for_index fresh 1) (subnet_for_index fresh 0) b_held c_held

a_gone : get_allocation later "a" ≡ none
a_gone = calls_answer.0

allocate-free_count_example :
    ((free_count later ≡ 0)
      × (allocate later "a" ≡ (err (no_free_subnets (max_subnet_index later)), later)))
    ⊎ ((0 < free_count later)
        × (is_ok (allocate later "a").0 ≡ true)
        × (suc (free_count (allocate later "a").1) ≡ free_count later))
allocate-free_count_example = allocate-free_count ten 10 {a = fresh} calls "a" fresh_new a_gone

-- The next node gets the lowest index left.
a_answer : (allocate later "a").0 ≡ ok (subnet_for_index fresh 2)
unfolding run step allocate allocate_new take_index release release_index index_of free_index lookup
    insert delete max_subnet_index subnet_for_index subnet_size
a_answer = refl

allocate-get_allocation_example :
    let b = (allocate later "a").1 in
    (get_allocation b "a" ≡ some (subnet_for_index fresh 2))
    × (allocate b "a" ≡ (ok (subnet_for_index fresh 2), b))
    × ("a" ≢ b_name → get_allocation b "b" ≡ get_allocation later "b")
allocate-get_allocation_example =
    allocate-get_allocation later "a" "b" (subnet_for_index fresh 2) a_answer

fresh-IsNumbered : IsNumbered fresh 8
fresh-IsNumbered = record { network = ten-IsNetwork; longer = omega arith; fits = omega arith }

three_fits : 3 < max_subnet_index fresh
unfolding max_subnet_index
three_fits = omega arith

-- Subnets of 34 bits, for two nodes.
abbrev overlong : Allocator
overlong = record fresh { subnet_bits = 34 }

overlong_new : new_allocator_custom (some ten) 34 ≡ ok overlong
unfolding new_allocator_custom mask_size
overlong_new = refl

abbrev two_calls : List Call
two_calls = allocates "a" ∷ allocates "b" ∷ []

overlong_held :
    (get_allocation (run overlong two_calls) "a" ≡ some (subnet_for_index overlong 0))
    × (get_allocation (run overlong two_calls) "b" ≡ some (subnet_for_index overlong 1))
unfolding run step allocate allocate_new take_index get_allocation free_index lookup insert
    max_subnet_index subnet_for_index subnet_size
overlong_held = (refl, refl)

overlong_subnets_collide_example : subnet_for_index overlong 0 ≡ subnet_for_index overlong 1
overlong_subnets_collide_example =
    overlong_subnets_collide ten 34 {a = overlong} two_calls "a" "b" (subnet_for_index overlong 0)
      (subnet_for_index overlong 1) overlong_new (omega arith) overlong_held.0 overlong_held.1
