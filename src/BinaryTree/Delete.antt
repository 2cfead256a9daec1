-- ===== src/BinaryTree/Delete.antt =====
-- The pointer code of `bt_delete` is the textbook removal.
use tlpi_exercises.Prelude.{Bytes, ◌≡◌, none, some, refl, false, done}
use tlpi_exercises.BinaryTree.{Tree, null, success, failure, einval, is_null, bt_delete}
use tlpi_exercises.BinaryTree.Spec.{get, IsOrdered, remove}
use tlpi_exercises.BinaryTree.Find.{bt_find_node_absent, bt_find_node-IsUnlinked, not_null_of_get}

module _ {ℓ} {V : Type ℓ} where
  -- In an ordered tree, for a key that is there, `bt_delete` returns 0 and leaves the tree that the
  -- textbook removal gives, whatever number of children the node has.
  pub bt_delete-remove :
      (t : Tree V) (q : Bytes) (w : V)
      → IsOrdered t
      → get t q ≡ some w
      → bt_delete t q ≡ done (remove t q, success)
  unfolding bt_delete
  bt_delete-remove t q w s g =
      let (p, rest, x) = bt_find_node-IsUnlinked t q w s g in
      rw (not_null_of_get t q w g, x.found, x.unlinked, x.removed)

  -- For a key that is not there, `bt_delete` fails and leaves the tree; `errno` is set to
  -- `EINVAL` unless the tree is empty.
  pub bt_delete_absent :
      (t : Tree V) (q : Bytes)
      → IsOrdered t
      → is_null t ≡ false
      → get t q ≡ none
      → bt_delete t q ≡ done (t, failure (some einval))
  unfolding bt_delete
  bt_delete_absent t q s n g = rw (n, bt_find_node_absent t q s n g)

  pub bt_delete_null : (q : Bytes) → bt_delete {V = V} null q ≡ done (null, failure none)
  unfolding bt_delete
  bt_delete_null q = refl
