-- ===== src/BinaryTree/Spec.antt =====
-- What a tree stands for: the finite map that a search from the root reads, and the textbook
-- removal that the pointer code of `bt_delete` is compared with.
use tlpi_exercises.Prelude.{Bytes, strcmp, lt, eq, gt, Option, none, some, ◌≺◌}
use tlpi_exercises.BinaryTree.{Tree, null, keyless, node}

module _ {ℓ} {V : Type ℓ} where
  unfoldable pub get : Tree V → Bytes → Option V
  get null q = none
  get (keyless w) q = none
  get (node l r k w) q = elim (strcmp q k) [ lt ↦ get l q | eq ↦ some w | gt ↦ get r q ]

  -- Every key of the tree satisfies `P`, and every node has its key.
  abbrev pub All : (Bytes → Type 0) → Tree V → Type 0
  All P null = Unit
  All P (keyless w) = ⊥
  All P (node l r k w) = All P l × All P r × P k

  abbrev pub IsOrdered : Tree V → Type 0
  IsOrdered null = Unit
  IsOrdered (keyless w) = ⊥
  IsOrdered (node l r k w) = All (λ q. q ≺ k) l × All (λ q. k ≺ q) r × IsOrdered l × IsOrdered r

  -- The entry with the least key, and the tree without it.
  unfoldable pub pop_min : Tree V → Bytes → V → Tree V → Bytes × V × Tree V
  pop_min null k w r = (k, w, r)
  pop_min (keyless u) k w r = (k, w, r)
  pop_min (node ll lr lk lw) k w r =
      let (key, value, rest) = pop_min ll lk lw lr in (key, value, node rest r k w)

  unfoldable pub join : Tree V → Tree V → Tree V
  join null r = r
  join (keyless u) r = r
  join (node ll lr lk lw) null = node ll lr lk lw
  join (node ll lr lk lw) (keyless u) = node ll lr lk lw
  join (node ll lr lk lw) (node rl rr rk rw) =
      let (key, value, rest) = pop_min rl rk rw rr in node (node ll lr lk lw) rest key value

  unfoldable pub remove : Tree V → Bytes → Tree V
  remove null q = null
  remove (keyless w) q = keyless w
  remove (node l r k w) q = elim (strcmp q k) [
    | lt ↦ node (remove l q) r k w
    | eq ↦ join l r
    | gt ↦ node l (remove r q) k w
  ]
