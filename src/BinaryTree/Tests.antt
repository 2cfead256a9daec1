-- ===== src/BinaryTree/Tests.antt =====
-- A tree of service names, as the name-value server keeps one, and the theorems at it.
use tlpi_exercises.Prelude.{
  ℕ, ◌≡◌, ◌≢◌, refl, Bytes, strcmp, true, false, none, some, List, [], ◌∷◌, length, codes, arith,
  done, fault,
}
use tlpi_exercises.BinaryTree.{
  Tree, null, node, success, failure, enomem, Alloc, read_at, write_at, bt_create_node, bt_add_rec,
  bt_add, bt_find_node, bt_find_parent, leftmost, unlink, bt_delete, bt_initialize,
}
use tlpi_exercises.BinaryTree.Spec.{get, IsOrdered, remove}
use tlpi_exercises.BinaryTree.Lookup.{bt_find_parent_present, IsParent, root_key}
use tlpi_exercises.BinaryTree.Delete.{bt_delete-remove}
use tlpi_exercises.BinaryTree.Map.{
  Call, add, delete, perform_all, perform_all_spec, perform_all-SimulatesAll, SimulatesAll,
  bt_initialize-Represents,
}
use tlpi_exercises.BinaryTree.Walk.{bt_free, size, times, found, bt_free-size}
use tlpi_exercises.BinaryTree.Print.{bt_print, Restores, bt_print-Restores}
use tlpi_exercises.BinaryTree.Memory.{graft, bt_add_keyless}

abbrev key_b : Bytes
key_b = codes "b"

abbrev key_d : Bytes
key_d = codes "d"

abbrev key_f : Bytes
key_f = codes "f"

abbrev key_g : Bytes
key_g = codes "g"

abbrev key_m : Bytes
key_m = codes "m"

abbrev sample : Tree ℕ
sample = node (node null null key_b 2) (node (node null null key_f 6) null key_g 7) key_d 4

abbrev memory : Alloc
memory = record { node_memory = true; key_memory = true }

abbrev no_key_memory : Alloc
no_key_memory = record { node_memory = true; key_memory = false }

ordered : IsOrdered sample
unfolding strcmp
ordered = (
  (tt, tt, refl),
  ((tt, tt, refl), tt, refl),
  (tt, tt, tt, tt),
  ((tt, tt, refl), tt, (tt, tt, tt, tt), tt),
)

holds_d : get sample key_d ≡ some 4
unfolding get strcmp
holds_d = refl

lacks_m : get sample key_m ≡ none
unfolding get strcmp
lacks_m = refl

-- The node with two children takes over its successor's entry.
delete_d :
    bt_delete sample key_d
    ≡ done (node (node null null key_b 2) (node null null key_g 7) key_f 6, success)
unfolding bt_delete bt_find_node read_at write_at leftmost unlink strcmp
delete_d = refl

add_m :
    bt_add memory sample key_m 9
    ≡ done (
      node
          (node null null key_b 2)
          (node (node null null key_f 6) (node null null key_m 9) key_g 7)
          key_d
          4,
      success,
    )
unfolding bt_add bt_add_rec bt_create_node strcmp
add_m = refl

abbrev calls : List (Call ℕ)
calls = add key_d 4 ∷ add key_b 2 ∷ add key_d 5 ∷ delete key_d ∷ delete key_d ∷ []

perform_all-SimulatesAll_example :
    SimulatesAll (perform_all calls bt_initialize) (perform_all_spec calls (λ _. none))
perform_all-SimulatesAll_example =
    perform_all-SimulatesAll calls bt_initialize (λ _. none) bt_initialize-Represents (omega arith)

bt_delete-remove_example : bt_delete sample key_d ≡ done (remove sample key_d, success)
bt_delete-remove_example = bt_delete-remove sample key_d 4 ordered holds_d

holds_f : get sample key_f ≡ some 6
unfolding get strcmp
holds_f = refl

not_root : root_key sample ≢ some key_f
unfolding root_key
not_root = ground arith

bt_find_parent_present_example :
    (s : Tree ℕ) × (bt_find_parent sample key_f ≡ done s) × IsParent s key_f 6
bt_find_parent_present_example = bt_find_parent_present sample key_f 6 ordered holds_f not_root

bt_free-size_example :
    ((bt_free sample).0 ≡ null)
    × (length (bt_free sample).1 ≡ size sample)
    × ((q : Bytes) → times q (bt_free sample).1 ≡ found (get sample q))
bt_free-size_example = bt_free-size sample ordered

bt_print-Restores_example : Restores 0 (bt_print (λ _. false) sample 0)
bt_print-Restores_example = bt_print-Restores (λ _. false) sample 0 ordered (omega arith)

bt_add_keyless_example :
    (bt_add no_key_memory sample key_m 9 ≡ done (graft sample key_m 9, failure (some enomem)))
    × (bt_add memory (graft sample key_m 9) key_m 10 ≡ fault)
bt_add_keyless_example =
    bt_add_keyless no_key_memory memory sample key_m 9 10 refl refl ordered lacks_m
