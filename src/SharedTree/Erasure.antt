-- ===== src/SharedTree/Erasure.antt =====
-- Without its mutexes, `bt_add_ts` is the `bt_add` of lib/binary_tree.c, and a search is a search.
use tlpi_exercises.Prelude.{Bytes, ◌≡◌, refl, ◌&&◌, Outcome, done, fault, arith, [], ◌∷◌}
use tlpi_exercises.BinaryTree
use tlpi_exercises.BinaryTree.{Location, Reply, go_left, go_right}
use tlpi_exercises.SharedTree.{
  Tree, null, keyless, node, Mutex, of_tree, of_node, Alloc, Done, is_null, bt_create_node_ts,
  bt_add_rec_ts, bt_add_ts, create_and_unlock,
}

-- The mutex is one more allocation on which a node may stay half made.
abbrev pub erase_alloc : Alloc → BinaryTree.Alloc
erase_alloc a = record { node_memory = a.node_memory; key_memory = a.mutex_memory && a.key_memory }

module _ {ℓ} {V : Type ℓ} where
  abbrev pub erase : Tree V → BinaryTree.Tree V
  erase null = BinaryTree.null
  erase (keyless b w) = BinaryTree.keyless w
  erase (node l r k w) = BinaryTree.node (erase l) (erase r) k w

  abbrev pub erase_result : Outcome (Done (Tree V × Reply)) → Outcome (BinaryTree.Tree V × Reply)
  erase_result (done d) = done (erase d.result.0, d.result.1)
  erase_result fault = fault

  pub is_null-erase : (t : Tree V) → BinaryTree.is_null (erase t) ≡ is_null t
  is_null-erase null = refl
  is_null-erase (keyless b w) = refl
  is_null-erase (node l r k w) = refl

  create-erase :
      (a : Alloc) (q : Bytes) (w : V) (m : Mutex)
      → erase_result (create_and_unlock m (bt_create_node_ts a q w))
        ≡ BinaryTree.bt_create_node (erase_alloc a) q w
  unfolding bt_create_node_ts BinaryTree.bt_create_node
  create-erase a q w m = ground arith

  add_rec-erase :
      (a : Alloc) (t : Tree V) (up : Location) (m : Mutex) (q : Bytes) (w : V)
      → erase_result (bt_add_rec_ts a t up m q w)
        ≡ BinaryTree.bt_add_rec (erase_alloc a) (erase t) q w
  unfolding bt_add_rec_ts BinaryTree.bt_add_rec
  add_rec-erase a null up m q w = refl
  add_rec-erase a (keyless b u) up m q w = refl
  add_rec-erase a (node l r k u) up m q w = ground (
    arith,
    is_null-erase l,
    is_null-erase r,
    create-erase a q w (of_node up),
    add_rec-erase a l (go_left ∷ up) (of_node up) q w,
    add_rec-erase a r (go_right ∷ up) (of_node up) q w,
  )

  -- `bt_add_ts` stores what `bt_add` stores and returns what it returns, faults included.
  pub bt_add_ts-erase :
      (a : Alloc) (t : Tree V) (q : Bytes) (w : V)
      → erase_result (bt_add_ts a t q w) ≡ BinaryTree.bt_add (erase_alloc a) (erase t) q w
  unfolding bt_add_ts BinaryTree.bt_add
  bt_add_ts-erase a t q w =
      ground (arith, is_null-erase t, create-erase a q w of_tree, add_rec-erase a t [] of_tree q w)
