-- ===== src/SharedTree.antt =====
-- The search tree with a mutex in every node, 30_Thread_Synchronhization/ts_btree.h.
--
-- One call is modelled at a time, with the sequence of its calls of `pthread_mutex_lock` and
-- `pthread_mutex_unlock` as part of its result; these return 0, as they do for initialised mutexes.
-- A node's mutex is named by the turns that lead from the node up to the root. Where an allocation
-- in `bt_create_node_ts` fails the node stays half made: `keyless has_mutex`. Undefined behaviour
-- is `fault`. `malloc` is an argument.
pub mod Erasure
pub mod Coupling
pub mod Deletion
pub mod Lifecycle
pub mod Tests
use tlpi_exercises.Prelude.{
  ◌+◌, ◌==◌, Bytes, strcmp, lt, eq, gt, Bool, true, false, Option, none, some, List, [], ◌∷◌, ◌++◌,
  leb, length, if◌then◌else◌, Outcome, done, fault, ◌>>=◌, not,
}
use tlpi_exercises.BinaryTree.{
  Turn, go_left, go_right, Location, Reply, success, failure, einval, enomem, bt_key_max,
}

-- `struct BTNode_ts`
pub data Tree {ℓ} (V : Type ℓ) : Type ℓ where
  null : Tree V
  keyless : Bool → V → Tree V
  node : Tree V → Tree V → Bytes → V → Tree V

pub data Mutex : Type 0 where
  of_tree : Mutex
  of_node : Location → Mutex

pub data Event : Type 0 where
  lock : Mutex → Event
  unlock : Mutex → Event

-- Whether the calls of `malloc` succeed, in their order in `bt_create_node_ts`.
pub record Alloc : Type 0 where
  pub node_memory : Bool
  pub mutex_memory : Bool
  pub key_memory : Bool

pub record Done {ℓ} (A : Type ℓ) : Type ℓ where
  pub result : A
  pub events : List Event

-- The events of a part of a call, before those of the rest.
abbrev pub after {ℓ} : {A : Type ℓ} → List Event → Outcome (Done A) → Outcome (Done A)
after es (done d) = done (record d { events = es ++ d.events })
after es fault = fault

-- `NodeMutex`, with the subtree that `*node` points to.
pub record NodeMutex {ℓ} (V : Type ℓ) : Type ℓ where
  pub target : Tree V
  pub mutex : Mutex
  pub par_mutex : Mutex

-- The mutex of a child.
abbrev pub below : Turn → Mutex → Mutex
below d of_tree = of_tree
below d (of_node up) = of_node (d ∷ up)

-- The pointer to the node of a mutex.
abbrev top_down : Location → Location → Location
top_down [] p = p
top_down (d ∷ up) p = top_down up (d ∷ p)

abbrev pub pointer_to : Mutex → Location
pointer_to of_tree = []
pointer_to (of_node up) = top_down up []

module _ {ℓ} {V : Type ℓ} where
  abbrev pub is_null : Tree V → Bool
  is_null null = true
  is_null (keyless m w) = false
  is_null (node l r k w) = false

  unfoldable pub bt_create_node_ts : Alloc → Bytes → V → Outcome (Tree V × Reply)
  bt_create_node_ts a key value =
      if not a.node_memory
      then fault
      else if not a.mutex_memory
      then done (keyless false value, failure (some enomem))
      else if not a.key_memory
      then done (keyless true value, failure (some enomem))
      else if leb (length key) bt_key_max
      then done (node null null key value, success)
      else fault

  -- A node is made, and then the mutex of its parent is released.
  abbrev pub create_and_unlock : Mutex → Outcome (Tree V × Reply) → Outcome (Done (Tree V × Reply))
  create_and_unlock m (done r) = done (record { result = r; events = unlock m ∷ [] })
  create_and_unlock m fault = fault

  abbrev pub into :
      (Tree V → Tree V) → Outcome (Done (Tree V × Reply)) → Outcome (Done (Tree V × Reply))
  into f (done d) = done (record d { result = (f d.result.0, d.result.1) })
  into f fault = fault

  -- `up` leads from the node to the root; `m` is the mutex that the caller holds.
  unfoldable pub bt_add_rec_ts :
      Alloc → Tree V → Location → Mutex → Bytes → V → Outcome (Done (Tree V × Reply))
  bt_add_rec_ts a null up m key value = fault
  bt_add_rec_ts a (keyless b w) up m key value = fault
  bt_add_rec_ts a (node l r k w) up m key value =
      after (lock (of_node up) ∷ unlock m ∷ []) (elim (strcmp key k) [
        | eq ↦ done (record { result = (node l r k w, failure (some einval)); events = [] })
        | lt ↦
            into (λ t. node t r k w)
              (if is_null l
                then create_and_unlock (of_node up) (bt_create_node_ts a key value)
                else bt_add_rec_ts a l (go_left ∷ up) (of_node up) key value)
        | gt ↦
            into (λ t. node l t k w)
              (if is_null r
                then create_and_unlock (of_node up) (bt_create_node_ts a key value)
                else bt_add_rec_ts a r (go_right ∷ up) (of_node up) key value)
      ])

  unfoldable pub bt_add_ts : Alloc → Tree V → Bytes → V → Outcome (Done (Tree V × Reply))
  bt_add_ts a t key value = after (lock of_tree ∷ []) (
      if is_null t
      then create_and_unlock of_tree (bt_create_node_ts a key value)
      else bt_add_rec_ts a t [] of_tree key value)

  -- `ok` says whether `malloc(sizeof(NodeMutex))` succeeds.
  unfoldable pub bt_find_node_ts :
      Bool → Tree V → Location → Mutex → Bytes → Outcome (Done (Option (NodeMutex V)))
  bt_find_node_ts ok null up m key = fault
  bt_find_node_ts ok (keyless b w) up m key = fault
  bt_find_node_ts ok (node l r k w) up m key =
      after (lock (of_node up) ∷ unlock m ∷ []) (elim (strcmp key k) [
        | lt ↦
            if is_null l
            then done (record { result = none; events = unlock (of_node up) ∷ [] })
            else bt_find_node_ts ok l (go_left ∷ up) (of_node up) key
        | gt ↦
            if is_null r
            then done (record { result = none; events = unlock (of_node up) ∷ [] })
            else bt_find_node_ts ok r (go_right ∷ up) (of_node up) key
        | eq ↦ done (record {
          result =
              if ok
              then some (record { target = node l r k w; mutex = of_node up; par_mutex = m })
              else none;
          events = [];
        })
      ])

  abbrev value_of : Tree V → Option V
  value_of null = none
  value_of (keyless b w) = some w
  value_of (node l r k w) = some w

  -- The last lines read `(*target->node)->mtx` also where `target` is null.
  unfoldable pub bt_lookup_ts : Bool → Tree V → Bytes → Outcome (Done (Reply × Option V))
  bt_lookup_ts ok t key = after (lock of_tree ∷ []) (
      if is_null t
      then done (record { result = (failure none, none); events = unlock of_tree ∷ [] })
      else (elim (bt_find_node_ts ok t [] of_tree key) [
        | fault ↦ fault
        | done d ↦ elim d.result [
          | none ↦ fault
          | some f ↦ done (record {
            result = (success, value_of f.target);
            events = d.events ++ unlock f.mutex ∷ [];
          })
        ]
      ]))

  -- Whether the mutex that `child->mtx` names can be locked: `child` may be null.
  abbrev pub has_mutex : Tree V → Bool
  has_mutex null = false
  has_mutex (keyless b w) = b
  has_mutex (node l r k w) = true

  abbrev pub children : Tree V → Tree V × Tree V
  children null = (null, null)
  children (keyless b w) = (null, null)
  children (node l r k w) = (l, r)

  -- `*p = s`, from the root down.
  abbrev pub store_at : Tree V → Location → Tree V → Tree V
  store_at t [] s = s
  store_at null (d ∷ p) s = null
  store_at (keyless b w) (d ∷ p) s = keyless b w
  store_at (node l r k w) (go_left ∷ p) s = node (store_at l p s) r k w
  store_at (node l r k w) (go_right ∷ p) s = node l (store_at r p s) k w

  -- The `switch`: the tree and the events of its case. The case of two children is empty.
  unfoldable pub unlink_ts : Tree V → NodeMutex V → (left right : Tree V) → Tree V × List Event
  unlink_ts t f left right =
      let num_children = (if is_null left then 0 else 1) + (if is_null right then 0 else 1) in
      if num_children == 0
      then (store_at t (pointer_to f.mutex) null, lock f.par_mutex ∷ unlock f.par_mutex ∷ [])
      else if num_children == 1
      then (
        store_at t (pointer_to f.mutex) (if is_null left then right else left),
        lock f.par_mutex ∷ unlock f.par_mutex ∷ [],
      )
      else (t, [])

  -- What follows a search that found a node. Both children are locked before they are counted. The
  -- mutex of the target is not released.
  unfoldable pub delete_found : Tree V → NodeMutex V → List Event → Outcome (Done (Tree V × Reply))
  unfolding unlink_ts
  delete_found t f events =
      let target_left = (children f.target).0 in
      let target_right = (children f.target).1 in
      let left = below go_left f.mutex in
      let right = below go_right f.mutex in
      let unlinked = unlink_ts t f target_left target_right in
      if not (has_mutex target_left)
      then fault
      else if not (has_mutex target_right)
      then fault
      else done (record {
        result = (unlinked.0, success);
        events = events ++ lock left ∷ lock right ∷ (unlinked.1 ++ unlock left ∷ unlock right ∷ []);
      })

  unfoldable pub bt_delete_ts : Bool → Tree V → Bytes → Outcome (Done (Tree V × Reply))
  unfolding delete_found
  bt_delete_ts ok t key = after (lock of_tree ∷ []) (
      if is_null t
      then done (record { result = (t, failure none); events = unlock of_tree ∷ [] })
      else (elim (bt_find_node_ts ok t [] of_tree key) [
        | fault ↦ fault
        | done d ↦ elim d.result [
          | none ↦ done (record { result = (t, failure (some einval)); events = d.events })
          | some f ↦ delete_found t f d.events
        ]
      ]))
