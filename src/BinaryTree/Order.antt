-- ===== src/BinaryTree/Order.antt =====
-- The search order, and that `bt_add` keeps it.
use tlpi_exercises.Prelude.{
  Bytes, strcmp, lt, eq, gt, ◌≡◌, ◌≺◌, strcmp-lt_of_gt, arith, done, none, some, refl, ◌≤◌, length,
  true, false, strcmp_refl, eq_of_strcmp, ◌≢◌,
}
use tlpi_exercises.BinaryTree.{
  Tree, null, keyless, node, success, failure, einval, Alloc, bt_create_node, bt_add_rec, bt_add,
  is_null, bt_key_max,
}
use tlpi_exercises.BinaryTree.Spec.{get, All, IsOrdered}

module _ {ℓ} {V : Type ℓ} where
  -- The textbook insertion of a key that the tree lacks.
  unfoldable pub insert : Tree V → Bytes → V → Tree V
  insert null q w = node null null q w
  insert (keyless u) q w = keyless u
  insert (node l r k u) q w = elim (strcmp q k) [
    | lt ↦ node (insert l q w) r k u
    | eq ↦ node l r k u
    | gt ↦ node l (insert r q w) k u
  ]

  All-insert :
      (P : Bytes → Type 0) (t : Tree V) (q : Bytes) (w : V) → P q → All P t → All P (insert t q w)
  unfolding insert
  All-insert P null q w p a = (tt, tt, p)
  All-insert P (keyless u) q w p a = a
  All-insert P (node l r k u) q w p a = ground (arith, All-insert P l q w, All-insert P r q w)

  pub insert-IsOrdered : (t : Tree V) (q : Bytes) (w : V) → IsOrdered t → IsOrdered (insert t q w)
  unfolding insert
  insert-IsOrdered null q w s = (tt, tt, tt, tt)
  insert-IsOrdered (keyless u) q w s = s
  insert-IsOrdered (node l r k u) q w s = ground (
    arith,
    insert-IsOrdered l q w,
    insert-IsOrdered r q w,
    All-insert (λ x. x ≺ k) l q w,
    All-insert (λ x. k ≺ x) r q w,
    strcmp-lt_of_gt q k,
  )

  pub get-insert_self :
      (t : Tree V) (q : Bytes) (w : V)
      → IsOrdered t
      → get t q ≡ none
      → get (insert t q w) q ≡ some w
  unfolding get insert
  get-insert_self null q w s h = ground (arith, strcmp_refl q)
  get-insert_self (keyless u) q w s h = absurd s
  get-insert_self (node l r k u) q w s h =
      ground (arith, get-insert_self l q w s.2, get-insert_self r q w s.3)

  pub get-insert_ne : (t : Tree V) (q p : Bytes) (w : V) → p ≢ q → get (insert t q w) p ≡ get t p
  unfolding get insert
  get-insert_ne null q p w n = ground (arith, eq_of_strcmp p q)
  get-insert_ne (keyless u) q p w n = refl
  get-insert_ne (node l r k u) q p w n =
      ground (arith, get-insert_ne l q p w n, get-insert_ne r q p w n)

  -- With memory and a key that fits, the code inserts a key that is not there.
  bt_create_node-insert :
      (a : Alloc) (q : Bytes) (w : V)
      → a.node_memory ≡ true
      → a.key_memory ≡ true
      → length q ≤ bt_key_max
      → bt_create_node a q w ≡ done (node null null q w, success)
  unfolding bt_create_node
  bt_create_node-insert a q w n m h = ground arith

  pub eq_null : (t : Tree V) → is_null t ≡ true → t ≡ null
  eq_null null h = refl
  eq_null (keyless u) h = cc
  eq_null (node l r k u) h = cc

  bt_add_rec-insert :
      (a : Alloc) (t : Tree V) (q : Bytes) (w : V)
      → a.node_memory ≡ true
      → a.key_memory ≡ true
      → length q ≤ bt_key_max
      → IsOrdered t
      → get t q ≡ none
      → is_null t ≡ false
      → bt_add_rec a t q w ≡ done (insert t q w, success)
  unfolding bt_add_rec get insert
  bt_add_rec-insert a null q w n m h s g e = cc
  bt_add_rec-insert a (keyless u) q w n m h s g e = absurd s
  bt_add_rec-insert a (node l r k u) q w n m h s g e = ground (
    arith,
    bt_create_node-insert a q w n m h,
    eq_null l,
    eq_null r,
    bt_add_rec-insert a l q w n m h s.2,
    bt_add_rec-insert a r q w n m h s.3,
  )

  -- `bt_add` of an absent key that fits, with memory, is the textbook insertion.
  pub bt_add-insert :
      (a : Alloc) (t : Tree V) (q : Bytes) (w : V)
      → a.node_memory ≡ true
      → a.key_memory ≡ true
      → length q ≤ bt_key_max
      → IsOrdered t
      → get t q ≡ none
      → bt_add a t q w ≡ done (insert t q w, success)
  unfolding bt_add insert
  bt_add-insert a null q w n m h s g = bt_create_node-insert a q w n m h
  bt_add-insert a (keyless u) q w n m h s g = absurd s
  bt_add-insert a (node l r k u) q w n m h s g =
      bt_add_rec-insert a (node l r k u) q w n m h s g refl

  -- `bt_add` of a key that is there: `EINVAL`, and the tree as it was.
  bt_add_rec_present :
      (a : Alloc) (t : Tree V) (q : Bytes) (w : V) {u : V}
      → IsOrdered t
      → get t q ≡ some u
      → bt_add_rec a t q w ≡ done (t, failure (some einval))
  unfolding bt_add_rec get
  bt_add_rec_present a null q w s g = cc
  bt_add_rec_present a (keyless u) q w s g = absurd s
  bt_add_rec_present a (node l r k _) q w {u = x} s g = ground (
    arith,
    eq_null l,
    eq_null r,
    bt_add_rec_present a l q w {u = x} s.2,
    bt_add_rec_present a r q w {u = x} s.3,
  )

  -- In an ordered tree, `bt_add` of a key that is there fails with `EINVAL` and leaves the tree.
  pub bt_add_present :
      (a : Alloc) (t : Tree V) (q : Bytes) (w : V) {u : V}
      → IsOrdered t
      → get t q ≡ some u
      → bt_add a t q w ≡ done (t, failure (some einval))
  unfolding bt_add get
  bt_add_present a null q w s g = cc
  bt_add_present a (keyless u) q w s g = absurd s
  bt_add_present a (node l r k u) q w s g = bt_add_rec_present a (node l r k u) q w s g
