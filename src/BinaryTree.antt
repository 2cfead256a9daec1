-- ===== src/BinaryTree.antt =====
-- The search tree of lib/binary_tree.c and lib/binary_tree.h.
--
-- A `BTNode *` is a value of `Tree`: the functions never share a node, so a tree is a term. A
-- `BTNode **` is a `Location`, the turns from the root pointer to the pointer that is meant. The
-- key of a node is a pointer to memory that `bt_create_node` allocates; where that allocation
-- fails the node stays in the tree with a null key, and since `strcmp` is called on every key that
-- is passed, such a node never gets children: it is the constructor `keyless`.
-- Undefined behaviour (a null pointer that is read, a key that overruns its buffer) is `fault`.
-- `malloc` is not under the repository's control: what it answers is the argument `Alloc`.
pub mod Spec
pub mod Order
pub mod Find
pub mod Removal
pub mod Lookup
pub mod Delete
pub mod Map
pub mod Walk
pub mod Memory
pub mod Print
pub mod Tests
use tlpi_exercises.Prelude.{
  ℕ, ◌+◌, Bytes, strcmp, lt, eq, gt, Bool, true, false, Option, none, some, List, [], ◌∷◌, ◌++◌,
  leb, length, if◌then◌else◌, Outcome, done, fault, ◌>>=◌, codes, replicate, not,
}

-- `BT_KEY_MAX`
abbrev pub bt_key_max : ℕ
bt_key_max = 255

-- `struct BTNode`, with its fields in the order of the declaration; `null` is `NULL`.
pub data Tree {ℓ} (V : Type ℓ) : Type ℓ where
  null : Tree V
  keyless : V → Tree V
  node : Tree V → Tree V → Bytes → V → Tree V

-- A call's return value and `errno` where the code or `malloc` sets it.
pub data Errno : Type 0 where
  einval : Errno
  enomem : Errno

pub data Reply : Type 0 where
  success : Reply
  failure : Option Errno → Reply

-- Whether the two calls of `malloc` in `bt_create_node` succeed.
pub record Alloc : Type 0 where
  pub node_memory : Bool
  pub key_memory : Bool

pub data Turn : Type 0 where
  go_left : Turn
  go_right : Turn

abbrev pub Location : Type 0
Location = List Turn

-- What the recursive call finds, seen from the node above.
abbrev pub step : Turn → Outcome (Option Location) → Outcome (Option Location)
step d (done (some p)) = done (some (d ∷ p))
step d (done none) = done none
step d fault = fault

module _ {ℓ} {V : Type ℓ} where
  abbrev pub is_null : Tree V → Bool
  is_null null = true
  is_null (keyless v) = false
  is_null (node l r k v) = false

  -- `*p`, the subtree that the pointer at `p` points to.
  unfoldable pub read_at : Tree V → Location → Tree V
  read_at t [] = t
  read_at null (d ∷ p) = null
  read_at (keyless v) (d ∷ p) = null
  read_at (node l r k v) (go_left ∷ p) = read_at l p
  read_at (node l r k v) (go_right ∷ p) = read_at r p

  -- `*p = s`
  unfoldable pub write_at : Tree V → Location → Tree V → Tree V
  write_at t [] s = s
  write_at null (d ∷ p) s = null
  write_at (keyless v) (d ∷ p) s = keyless v
  write_at (node l r k v) (go_left ∷ p) s = node (write_at l p s) r k v
  write_at (node l r k v) (go_right ∷ p) s = node l (write_at r p s) k v

  unfoldable pub bt_initialize : Tree V
  bt_initialize = null

  unfoldable pub bt_create_node : Alloc → Bytes → V → Outcome (Tree V × Reply)
  bt_create_node a key value =
      if not a.node_memory
      then fault
      else if not a.key_memory
      then done (keyless value, failure (some enomem))
      else if leb (length key) bt_key_max
      then done (node null null key value, success)
      else fault

  -- What the caller stores back through `nextDirection`.
  abbrev pub into : (Tree V → Tree V) → Outcome (Tree V × Reply) → Outcome (Tree V × Reply)
  into f (done (t, r)) = done (f t, r)
  into f fault = fault

  unfoldable pub bt_add_rec : Alloc → Tree V → Bytes → V → Outcome (Tree V × Reply)
  bt_add_rec a null key value = fault
  bt_add_rec a (keyless w) key value = fault
  bt_add_rec a (node l r k w) key value = elim (strcmp key k) [
    | eq ↦ done (node l r k w, failure (some einval))
    | lt ↦
        into (λ t. node t r k w)
          (if is_null l then bt_create_node a key value else bt_add_rec a l key value)
    | gt ↦
        into (λ t. node l t k w)
          (if is_null r then bt_create_node a key value else bt_add_rec a r key value)
  ]

  unfoldable pub bt_add : Alloc → Tree V → Bytes → V → Outcome (Tree V × Reply)
  bt_add a t key value = if is_null t then bt_create_node a key value else bt_add_rec a t key value

  unfoldable pub bt_find_node : Tree V → Bytes → Outcome (Option Location)
  bt_find_node null key = fault
  bt_find_node (keyless w) key = fault
  bt_find_node (node l r k w) key = elim (strcmp key k) [
    | lt ↦ if is_null l then done none else step go_left (bt_find_node l key)
    | gt ↦ if is_null r then done none else step go_right (bt_find_node r key)
    | eq ↦ done (some [])
  ]

  abbrev value_of : Tree V → Outcome (Reply × Option V)
  value_of null = done (failure none, none)
  value_of (keyless w) = done (success, some w)
  value_of (node l r k w) = done (success, some w)

  -- `*bt_find_node(...)` reads through the pointer that is null when the key is not there.
  unfoldable pub bt_lookup : Tree V → Bytes → Outcome (Reply × Option V)
  bt_lookup t key = if is_null t then done (failure none, none) else do
    found ← bt_find_node t key
    elim found [ none ↦ fault | some p ↦ value_of (read_at t p) ]

  -- `strcmp(child->key, child_key) == 0` behind the test that `child` is not null.
  abbrev pub has_key : Tree V → Bytes → Outcome Bool
  has_key null key = done false
  has_key (keyless w) key = fault
  has_key (node l r k w) key = done (elim (strcmp k key) [ eq ↦ true | lt ↦ false | gt ↦ false ])

  -- `bt_find_parent` returns a node: here the subtree that the node heads.
  unfoldable pub bt_find_parent : Tree V → Bytes → Outcome (Tree V)
  bt_find_parent null key = fault
  bt_find_parent (keyless w) key = fault
  bt_find_parent (node l r k w) key = do
    left_hit ← has_key l key
    right_hit ← if left_hit then done true else has_key r key
    let below_left = bt_find_parent l key
    let below_right = bt_find_parent r key
    if right_hit then done (node l r k w) else (elim (strcmp key k) [
      | lt ↦ if is_null l then done null else below_left
      | gt ↦ if is_null r then done null else below_right
      | eq ↦ done null
    ])

  -- The loop of case 2: from `&node->right` down the left pointers.
  unfoldable pub leftmost : Tree V → Location
  leftmost null = []
  leftmost (keyless w) = []
  leftmost (node l r k w) = if is_null l then [] else go_left ∷ leftmost l

  -- Case 2: the successor's value and key are copied up, and its right child takes its place.
  abbrev pub copy_up : Tree V → Tree V → Location → Tree V → Outcome (Tree V)
  copy_up l r p null = fault
  copy_up l r p (keyless w) = fault
  copy_up l r p (node sl sr sk sv) = done (node l (write_at r p sr) sk sv)

  -- The `switch` on the number of children: what `*target` holds afterwards.
  unfoldable pub unlink : Tree V → Outcome (Tree V)
  unlink null = fault
  unlink (keyless w) = done null
  unlink (node l r k w) =
      if is_null l
      then (if is_null r then done null else done r)
      else (if is_null r then done l else copy_up l r (leftmost r) (read_at r (leftmost r)))

  unfoldable pub bt_delete : Tree V → Bytes → Outcome (Tree V × Reply)
  bt_delete t key = if is_null t then done (t, failure none) else do
    found ← bt_find_node t key
    elim found [
      | none ↦ done (t, failure (some einval))
      | some p ↦ do s ← unlink (read_at t p); done (write_at t p s, success)
    ]
