-- ===== src/SharedTree/Tests.antt =====
-- A tree with three nodes, and the theorems at it.
use tlpi_exercises.Prelude.{ℕ, Bytes, codes, strcmp, ◌≡◌, refl, true, false, some, done, [], ◌∷◌}
use tlpi_exercises.BinaryTree
use tlpi_exercises.BinaryTree.Print
use tlpi_exercises.BinaryTree.{success, failure, einval, go_left, go_right}
use tlpi_exercises.SharedTree.{
  Tree, null, node, of_tree, of_node, lock, unlock, Alloc, Done, bt_add_rec_ts, bt_add_ts,
  bt_find_node_ts, bt_delete_ts,
}
use tlpi_exercises.SharedTree.Erasure.{erase, erase_result, erase_alloc, bt_add_ts-erase}
use tlpi_exercises.SharedTree.Coupling.{present, WalksFromTree, bt_add_ts-WalksFromTree}
use tlpi_exercises.SharedTree.Lifecycle.{
  locked, bt_initialize_ts, bt_free_ts, bt_print_rec_ts, bt_print_ts, bt_print_ts-erase,
}
use tlpi_exercises.SharedTree.Deletion.{bt_delete_ts_unchanged}

abbrev key_a : Bytes
key_a = codes "a"

abbrev key_m : Bytes
key_m = codes "m"

abbrev key_z : Bytes
key_z = codes "z"

abbrev shared : Tree ℕ
shared = node (node null null key_a 1) (node null null key_z 3) key_m 2

abbrev memory : Alloc
memory = record { node_memory = true; mutex_memory = true; key_memory = true }

-- The mutex of the root stays locked.
add_twice :
    bt_add_ts memory shared key_m 9
    ≡ done (record {
      result = (shared, failure (some einval));
      events = lock of_tree ∷ lock (of_node []) ∷ unlock of_tree ∷ [];
    })
unfolding bt_add_ts bt_add_rec_ts strcmp
add_twice = refl

abbrev deleted : Done (Tree ℕ × BinaryTree.Reply)
deleted = record {
  result = (shared, success);
  events =
      lock of_tree
      ∷ lock (of_node [])
      ∷ unlock of_tree
      ∷ lock (of_node (go_left ∷ []))
      ∷ lock (of_node (go_right ∷ []))
      ∷ unlock (of_node (go_left ∷ []))
      ∷ unlock (of_node (go_right ∷ []))
      ∷ [];
}

delete_m : bt_delete_ts true shared key_m ≡ done deleted
unfolding bt_delete_ts bt_find_node_ts strcmp
delete_m = refl

lacks_b : present shared (codes "b") ≡ false
unfolding present strcmp
lacks_b = refl

free_new : bt_free_ts true (bt_initialize_ts {V = ℕ} true).0 ≡ done (null, [], true)
unfolding bt_free_ts bt_initialize_ts
free_new = refl

print_shared :
    bt_print_ts (λ n. true) shared 0
    ≡ done (record {
      result = (codes "['m'] ['z'] \n['a'] \n", 0);
      events = lock of_tree ∷ unlock of_tree ∷ [];
    })
unfolding bt_print_ts bt_print_rec_ts
print_shared = refl

bt_print_ts-erase_example :
    bt_print_ts (λ n. true) shared 0 ≡ locked (Print.bt_print (λ n. true) (erase shared) 0)
bt_print_ts-erase_example = bt_print_ts-erase (λ n. true) shared 0

bt_add_ts-erase_example :
    erase_result (bt_add_ts memory shared key_m 9)
    ≡ BinaryTree.bt_add (erase_alloc memory) (erase shared) key_m 9
bt_add_ts-erase_example = bt_add_ts-erase memory shared key_m 9

bt_add_ts-WalksFromTree_example :
    WalksFromTree (present shared key_m) (bt_add_ts memory shared key_m 9)
bt_add_ts-WalksFromTree_example = bt_add_ts-WalksFromTree memory shared key_m 9

bt_delete_ts_unchanged_example : deleted.result.0 ≡ shared
bt_delete_ts_unchanged_example = bt_delete_ts_unchanged true shared key_m deleted delete_m
