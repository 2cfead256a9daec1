-- ===== src/SharedTree/Coupling.antt =====
-- The order in which `bt_add_ts` takes and gives back mutexes.
use tlpi_exercises.Prelude.{
  Bytes, strcmp, Ordering, lt, eq, gt, ◌≡◌, refl, Bool, true, false, Option, none, some, Outcome,
  done, fault, if◌then◌else◌, List, [], ◌∷◌,
}
use tlpi_exercises.BinaryTree.{Location, Turn, Reply, go_left, go_right}
use tlpi_exercises.SharedTree.{
  Tree, null, keyless, node, Mutex, of_tree, of_node, Event, lock, unlock, Alloc, Done, is_null,
  bt_create_node_ts, bt_add_rec_ts, bt_add_ts, create_and_unlock, into, after,
}

-- The mutex of a child and that of its parent.
pub data ChildOf : Mutex → Mutex → Type 0 where
  root : ChildOf (of_node []) of_tree
  child : (d : Turn) (up : Location) → ChildOf (of_node (d ∷ up)) (of_node up)

-- A walk by a thread that holds just `m`: it locks the mutex of a child, releases `m`, and goes on;
-- at the end it holds just what the second index names.
pub data Coupled : Mutex → Option Mutex → List Event → Type 0 where
  keep : (m : Mutex) → Coupled m (some m) []
  release : (m : Mutex) → Coupled m none (unlock m ∷ [])
  descend :
      {m n : Mutex} {o : Option Mutex} {es : List Event}
      → ChildOf n m
      → Coupled n o es
      → Coupled m o (lock n ∷ unlock m ∷ es)

module _ {ℓ} {V : Type ℓ} where
  -- What the search for the key finds.
  unfoldable pub present : Tree V → Bytes → Bool
  present null q = false
  present (keyless b u) q = false
  present (node l r k u) q = elim (strcmp q k) [ lt ↦ present l q | eq ↦ true | gt ↦ present r q ]

  -- A call that returns has walked this way, and holds a mutex at its end just if `held` says so.
  abbrev pub Walks : Mutex → Bool → Outcome (Done (Tree V × Reply)) → Type 0
  Walks m held fault = Unit
  Walks m true (done d) = (n : Mutex) × Coupled m (some n) d.events
  Walks m false (done d) = Coupled m none d.events

  Walks-create :
      (a : Alloc) (q : Bytes) (w : V) (m : Mutex)
      → Walks m false (create_and_unlock m (bt_create_node_ts a q w))
  Walks-create a q w m = by_cases (bt_create_node_ts a q w)
    where
      by_cases : (o : Outcome (Tree V × Reply)) → Walks m false (create_and_unlock m o)
      by_cases (done r) = Coupled.release m
      by_cases fault = tt

  Walks-into :
      (f : Tree V → Tree V) (m : Mutex) (held : Bool) (o : Outcome (Done (Tree V × Reply)))
      → Walks m held o
      → Walks m held (into f o)
  Walks-into f m held fault h = tt
  Walks-into f m true (done d) h = h
  Walks-into f m false (done d) h = h

  Walks-after :
      (m n : Mutex) (held : Bool) (o : Outcome (Done (Tree V × Reply)))
      → ChildOf n m
      → Walks n held o
      → Walks m held (after (lock n ∷ unlock m ∷ []) o)
  Walks-after m n held fault c h = tt
  Walks-after m n true (done d) c (e, h) = (e, Coupled.descend c h)
  Walks-after m n false (done d) c h = Coupled.descend c h

  -- The call on the next node, or the new node.
  Walks-next :
      (a : Alloc) (t : Tree V) (up : Location) (d : Turn) (q : Bytes) (w : V)
      → Walks (of_node up) (present t q) (bt_add_rec_ts a t (d ∷ up) (of_node up) q w)
      → Walks (of_node up) (present t q) (
          if is_null t
          then create_and_unlock (of_node up) (bt_create_node_ts a q w)
          else bt_add_rec_ts a t (d ∷ up) (of_node up) q w)
  unfolding present
  Walks-next a null up d q w h = Walks-create a q w (of_node up)
  Walks-next a (keyless b u) up d q w h = h
  Walks-next a (node l r k u) up d q w h = h

  Walks-branch :
      (o : Ordering) (m : Mutex) (b c : Bool) (found : Tree V × Reply)
      (x y : Outcome (Done (Tree V × Reply)))
      → Walks m b x
      → Walks m c y
      → Walks m
          (elim o [ lt ↦ b | eq ↦ true | gt ↦ c ])
          (elim o [ eq ↦ done (record { result = found; events = [] }) | lt ↦ x | gt ↦ y ])
  Walks-branch lt m b c found x y h k = h
  Walks-branch eq m b c found x y h k = (m, Coupled.keep m)
  Walks-branch gt m b c found x y h k = k

  Walks-add_rec :
      (a : Alloc) (t : Tree V) (up : Location) (m : Mutex) (q : Bytes) (w : V)
      → ChildOf (of_node up) m
      → Walks m (present t q) (bt_add_rec_ts a t up m q w)
  unfolding bt_add_rec_ts present
  Walks-add_rec a null up m q w c = tt
  Walks-add_rec a (keyless b u) up m q w c = tt
  Walks-add_rec a (node l r k u) up m q w c =
      let below_left =
        Walks-next a l up go_left q w
          (Walks-add_rec a l (go_left ∷ up) (of_node up) q w (ChildOf.child go_left up)) in
      let below_right =
        Walks-next a r up go_right q w
          (Walks-add_rec a r (go_right ∷ up) (of_node up) q w (ChildOf.child go_right up)) in
      Walks-after m (of_node up) (present (node l r k u) q) _ c (
        Walks-branch (strcmp q k) (of_node up) (present l q) (present r q) _ _ _
          (Walks-into (λ t. node t r k u) (of_node up) (present l q) _ below_left)
          (Walks-into (λ t. node l t k u) (of_node up) (present r q) _ below_right))

  -- The lock on the tree, and the walk from there.
  abbrev pub WalksFromTree : Bool → Outcome (Done (Tree V × Reply)) → Type 0
  WalksFromTree held fault = Unit
  WalksFromTree true (done d) =
      (es : List Event) × (n : Mutex) × (d.events ≡ lock of_tree ∷ es) × Coupled of_tree (some n) es
  WalksFromTree false (done d) =
      (es : List Event) × (d.events ≡ lock of_tree ∷ es) × Coupled of_tree none es

  from_tree :
      (held : Bool) (o : Outcome (Done (Tree V × Reply)))
      → Walks of_tree held o
      → WalksFromTree held (after (lock of_tree ∷ []) o)
  from_tree held fault h = tt
  from_tree true (done d) (n, h) = (d.events, n, refl, h)
  from_tree false (done d) h = (d.events, refl, h)

  -- A call of `bt_add_ts` that returns has locked the tree's mutex and then walked hand over hand:
  -- it locks the mutex of a child while it holds just the parent's, and then releases the parent's,
  -- so mutexes are always taken in the order from the root to the leaves. For a key that the search
  -- does not find it ends with no mutex held; for a key that it finds, it returns with a node's
  -- mutex still locked.
  pub bt_add_ts-WalksFromTree :
      (a : Alloc) (t : Tree V) (q : Bytes) (w : V) → WalksFromTree (present t q) (bt_add_ts a t q w)
  unfolding bt_add_ts present
  bt_add_ts-WalksFromTree a null q w = from_tree false _ (Walks-create a q w of_tree)
  bt_add_ts-WalksFromTree a (keyless b u) q w =
      from_tree false _ (Walks-add_rec a (keyless b u) [] of_tree q w ChildOf.root)
  bt_add_ts-WalksFromTree a (node l r k u) q w =
      from_tree (present (node l r k u) q) _
        (Walks-add_rec a (node l r k u) [] of_tree q w ChildOf.root)
