-- ===== src/BinaryTree/Memory.antt =====
-- `bt_add` when memory runs out between the two allocations of `bt_create_node`.
use tlpi_exercises.Prelude.{
  Bytes, strcmp, lt, eq, gt, ◌≡◌, arith, none, some, refl, true, false, done, fault,
}
use tlpi_exercises.BinaryTree.{
  Tree, null, keyless, node, failure, enomem, Alloc, bt_create_node, bt_add_rec, bt_add, is_null,
}
use tlpi_exercises.BinaryTree.Spec.{get, IsOrdered}
use tlpi_exercises.BinaryTree.Order.{eq_null}

module _ {ℓ} {V : Type ℓ} where
  -- The tree with a node without a key where `q` belongs.
  unfoldable pub graft : Tree V → Bytes → V → Tree V
  graft null q w = keyless w
  graft (keyless u) q w = keyless u
  graft (node l r k u) q w = elim (strcmp q k) [
    | lt ↦ node (graft l q w) r k u
    | eq ↦ node l r k u
    | gt ↦ node l (graft r q w) k u
  ]

  create-keyless :
      (a : Alloc) (q : Bytes) (w : V)
      → a.node_memory ≡ true
      → a.key_memory ≡ false
      → bt_create_node a q w ≡ done (keyless w, failure (some enomem))
  unfolding bt_create_node
  create-keyless a q w n m = ground arith

  bt_add_rec-graft :
      (a : Alloc) (t : Tree V) (q : Bytes) (w : V)
      → a.node_memory ≡ true
      → a.key_memory ≡ false
      → IsOrdered t
      → get t q ≡ none
      → is_null t ≡ false
      → bt_add_rec a t q w ≡ done (graft t q w, failure (some enomem))
  unfolding bt_add_rec get graft
  bt_add_rec-graft a null q w n m s g e = cc
  bt_add_rec-graft a (keyless u) q w n m s g e = absurd s
  bt_add_rec-graft a (node l r k u) q w n m s g e = ground (
    arith,
    create-keyless a q w n m,
    eq_null l,
    eq_null r,
    bt_add_rec-graft a l q w n m s.2,
    bt_add_rec-graft a r q w n m s.3,
  )

  graft_not_null : (t : Tree V) (q : Bytes) (w : V) → is_null (graft t q w) ≡ false
  unfolding graft
  graft_not_null null q w = refl
  graft_not_null (keyless u) q w = refl
  graft_not_null (node l r k u) q w = ground arith

  add_again :
      (a : Alloc) (t : Tree V) (q : Bytes) (w v : V)
      → IsOrdered t
      → get t q ≡ none
      → bt_add_rec a (graft t q w) q v ≡ fault
  unfolding bt_add_rec get graft
  add_again a null q w v s g = refl
  add_again a (keyless u) q w v s g = refl
  add_again a (node l r k u) q w v s g = ground (
    arith,
    graft_not_null l q w,
    graft_not_null r q w,
    add_again a l q w v s.2,
    add_again a r q w v s.3,
  )

  -- If in an ordered tree the node of an absent key is allocated and its key is not, `bt_add` fails
  -- with `ENOMEM` and leaves a node without a key in the tree: a `bt_add` of that key to the tree
  -- that is left reads through its null pointer, with or without memory.
  pub bt_add_keyless :
      (a b : Alloc) (t : Tree V) (q : Bytes) (w v : V)
      → a.node_memory ≡ true
      → a.key_memory ≡ false
      → IsOrdered t
      → get t q ≡ none
      → (bt_add a t q w ≡ done (graft t q w, failure (some enomem)))
        × (bt_add b (graft t q w) q v ≡ fault)
  unfolding bt_add
  bt_add_keyless a b null q w v n m s g =
      unfold graft bt_add_rec in (create-keyless a q w n m, refl)
  bt_add_keyless a b (keyless u) q w v n m s g = absurd s
  bt_add_keyless a b (node l r k u) q w v n m s g =
      let t : Tree V = node l r k u in
      (
        bt_add_rec-graft a t q w n m s g refl,
        ground (arith, graft_not_null t q w, add_again b t q w v s g),
      )
