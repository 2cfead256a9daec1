-- ===== src/BinaryTree/Walk.antt =====
-- The walk of `bt_free`: every node is freed, and freed once.
use tlpi_exercises.Prelude.{
  ℕ, ◌+◌, ◌≡◌, Bytes, Option, none, some, List, [], ◌∷◌, ◌++◌, length, if◌then◌else◌, arith, refl,
  eq, lt, gt, strcmp, strcmp-lt_of_gt, eq_of_strcmp, length-append,
}
use tlpi_exercises.BinaryTree.{Tree, null, keyless, node, is_null}
use tlpi_exercises.BinaryTree.Spec.{get, IsOrdered}
use tlpi_exercises.BinaryTree.Removal.{get_under, get_over, get_below, get_above}
use tlpi_exercises.BinaryTree.Order.{eq_null}

-- How often a key is in a log.
abbrev pub times : Bytes → List (Option Bytes) → ℕ
times q [] = 0
times q (none ∷ log) = times q log
times q (some k ∷ log) = elim (strcmp q k) [ lt ↦ 0 | eq ↦ 1 | gt ↦ 0 ] + times q log

times-append :
    (q : Bytes) (xs ys : List (Option Bytes)) → times q (xs ++ ys) ≡ times q xs + times q ys
times-append q [] ys = omega arith
times-append q (none ∷ xs) ys = times-append q xs ys
times-append q (some k ∷ xs) ys = omega (arith, times-append q xs ys)

module _ {ℓ} {V : Type ℓ} where
  -- `bt_free_node` frees the key, then the node, and stores `NULL`. The log has one entry for each
  -- node that is freed: its key.
  unfoldable pub bt_free_rec : Tree V → Tree V × List (Option Bytes)
  bt_free_rec null = (null, [])
  bt_free_rec (keyless u) = (null, none ∷ [])
  bt_free_rec (node l r k u) =
      let freed_left = bt_free_rec l in
      let freed_right = bt_free_rec r in
      let below =
        (if is_null l then [] else freed_left.1) ++ (if is_null r then [] else freed_right.1) in
      (null, below ++ some k ∷ [])

  unfoldable pub bt_free : Tree V → Tree V × List (Option Bytes)
  bt_free t = if is_null t then (t, []) else bt_free_rec t

  abbrev pub found : Option V → ℕ
  found none = 0
  found (some u) = 1

  abbrev pub size : Tree V → ℕ
  size null = 0
  size (keyless u) = 1
  size (node l r k u) = size l + size r + 1

  free_rec-times :
      (t : Tree V) (q : Bytes) → IsOrdered t → times q (bt_free_rec t).1 ≡ found (get t q)
  unfolding bt_free_rec get
  free_rec-times null q s = refl
  free_rec-times (keyless u) q s = absurd s
  free_rec-times (node l r k u) q s =
      let left_log : List (Option Bytes) = if is_null l then [] else (bt_free_rec l).1 in
      let right_log : List (Option Bytes) = if is_null r then [] else (bt_free_rec r).1 in
      ground (
        arith,
        times-append q (left_log ++ right_log) (some k ∷ []),
        times-append q left_log right_log,
        free_rec-times l q s.2,
        free_rec-times r q s.3,
        eq_null l,
        eq_null r,
        get_under r k q s.1,
        get_over l k q s.0,
        get_below r k s.1,
        get_above l k s.0,
        eq_of_strcmp q k,
        strcmp-lt_of_gt q k,
      )

  free_rec-size : (t : Tree V) → ((bt_free_rec t).0 ≡ null) × (length (bt_free_rec t).1 ≡ size t)
  unfolding bt_free_rec
  free_rec-size null = (refl, refl)
  free_rec-size (keyless u) = (refl, refl)
  free_rec-size (node l r k u) =
      let left_log : List (Option Bytes) = if is_null l then [] else (bt_free_rec l).1 in
      let right_log : List (Option Bytes) = if is_null r then [] else (bt_free_rec r).1 in
      ground (
        arith,
        length-append (left_log ++ right_log) (some k ∷ []),
        length-append left_log right_log,
        (free_rec-size l).1,
        (free_rec-size r).1,
        eq_null l,
        eq_null r,
      )

  -- `bt_free` of an ordered tree leaves an empty tree; it frees as many nodes as the tree has, the
  -- node of each key that the tree holds once, and of no other key.
  pub bt_free-size :
      (t : Tree V)
      → IsOrdered t
      → ((bt_free t).0 ≡ null)
        × (length (bt_free t).1 ≡ size t)
        × ((q : Bytes) → times q (bt_free t).1 ≡ found (get t q))
  unfolding bt_free bt_free_rec
  bt_free-size null s = (refl, refl, λ q. free_rec-times null q s)
  bt_free-size (keyless u) s = absurd s
  bt_free-size (node l r k u) s =
      let t : Tree V = node l r k u in
      ((free_rec-size t).0, (free_rec-size t).1, λ q. free_rec-times t q s)
