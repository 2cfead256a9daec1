-- ===== src/SharedTree/Lifecycle.antt =====
-- `bt_initialize_ts`, `bt_free_ts` and `bt_print_ts`, and the calls of lib/binary_tree.c that they are
-- without their mutexes.
use tlpi_exercises.Prelude.{
  ℕ, ◌-◌, ◌≡◌, refl, sym, ap, ◌∙◌, Bytes, codes, Bool, true, false, Option, none, some, List, [],
  ◌∷◌, ◌++◌, length, if◌then◌else◌, Outcome, done, fault, ◌>>=◌, arith,
}
use std.Path.{fun_ext}
use tlpi_exercises.BinaryTree
use tlpi_exercises.BinaryTree.Print
use tlpi_exercises.BinaryTree.Print.{
  Traversal, root, left_traversal, right_traversal, label, heading, indent,
}
use tlpi_exercises.BinaryTree.Walk
use tlpi_exercises.SharedTree.{Tree, null, keyless, node, of_tree, lock, unlock, Done, is_null}
use tlpi_exercises.SharedTree.Erasure.{erase, is_null-erase}

abbrev pub locked : Outcome (Bytes × ℕ) → Outcome (Done (Bytes × ℕ))
locked (done r) = done (record { result = r; events = lock of_tree ∷ unlock of_tree ∷ [] })
locked fault = fault

-- The shape of both functions that print a node.
abbrev print_node :
    (ℕ → Bool)
    → Bytes
    → Traversal
    → ℕ
    → (no_right no_left : Bool) (right left : ℕ → Outcome (Bytes × ℕ)) → Outcome (Bytes × ℕ)
print_node malloc_ok k traversal space_count no_right no_left right left =
    elim (heading malloc_ok space_count traversal k) [
      | none ↦ done ([], space_count)
      | some head ↦ do
        (right_out, count) ← if no_right then done ([], space_count) else (do
          deeper ← indent k space_count
          (out, back) ← right deeper
          done (out, back - length (label k)))
        (left_out, count') ← if no_left then done ([], count) else left count
        done (head ++ right_out ++ left_out, count')
    ]

module _ {ℓ} {V : Type ℓ} where
  -- `malloc_ok` is whether the mutex of the tree gets memory: the new tree, and whether 0 is returned.
  unfoldable pub bt_initialize_ts : (malloc_ok : Bool) → Tree V × Bool
  bt_initialize_ts malloc_ok = (null, malloc_ok)

  -- `bt_free_node_ts` destroys and frees the mutex, frees the key and the node, and stores `NULL`. The
  -- log has one entry for each node: its key. In a node that was left without a mutex the other fields
  -- were never written; in one that was left without a key only, the children are `NULL`.
  unfoldable pub bt_free_rec_ts : Tree V → Outcome (Tree V × List (Option Bytes))
  bt_free_rec_ts null = fault
  bt_free_rec_ts (keyless false u) = fault
  bt_free_rec_ts (keyless true u) = done (null, none ∷ [])
  bt_free_rec_ts (node l r k u) = do
    (l', left_log) ← if is_null l then done (l, []) else bt_free_rec_ts l
    (r', right_log) ← if is_null r then done (r, []) else bt_free_rec_ts r
    done (null, (left_log ++ right_log) ++ some k ∷ [])

  -- `destroyed` is whether `pthread_mutex_destroy` of the mutex of the tree returns 0.
  unfoldable pub bt_free_ts :
      (destroyed : Bool) → Tree V → Outcome (Tree V × List (Option Bytes) × Bool)
  bt_free_ts destroyed t = do
    (t', log) ← if is_null t then done (t, []) else bt_free_rec_ts t
    done (t', log, destroyed)

  module _ (malloc_ok : ℕ → Bool) where
    -- The output and the static `space_count` that is left.
    unfoldable pub bt_print_rec_ts : Tree V → Traversal → ℕ → Outcome (Bytes × ℕ)
    bt_print_rec_ts null traversal space_count = fault
    bt_print_rec_ts (keyless b u) traversal space_count = fault
    bt_print_rec_ts (node l r k u) traversal space_count =
        elim (heading malloc_ok space_count traversal k) [
          | none ↦ done ([], space_count)
          | some head ↦ do
            (right_out, count) ← if is_null r then done ([], space_count) else (do
              deeper ← indent k space_count
              (out, back) ← bt_print_rec_ts r right_traversal deeper
              done (out, back - length (label k)))
            (left_out, count') ←
                if is_null l then done ([], count) else bt_print_rec_ts l left_traversal count
            done (head ++ right_out ++ left_out, count')
        ]

    -- Both calls for the mutex return 0.
    unfoldable pub bt_print_ts : Tree V → ℕ → Outcome (Done (Bytes × ℕ))
    bt_print_ts t space_count = locked (
        if is_null t
        then done (codes "Tree is empty.\n", space_count)
        else do (out, count) ← bt_print_rec_ts t root space_count; done (out ++ codes "\n", count))

    print_rec-erase :
        (t : Tree V) (v : Traversal) (n : ℕ)
        → bt_print_rec_ts t v n ≡ Print.bt_print_rec malloc_ok (erase t) v n
    unfolding bt_print_rec_ts Print.bt_print_rec
    print_rec-erase null v n = refl
    print_rec-erase (keyless b u) v n = refl
    print_rec-erase (node l r k u) v n =
        let right = λ (m : ℕ). bt_print_rec_ts r right_traversal m in
        let left = λ (m : ℕ). bt_print_rec_ts l left_traversal m in
        ap (λ f. print_node malloc_ok k v n (is_null r) (is_null l) f left)
          (fun_ext (λ m. print_rec-erase r right_traversal m))
        ∙ ap
            (λ f.
              print_node malloc_ok k v n (is_null r) (is_null l)
                (Print.bt_print_rec malloc_ok (erase r) right_traversal) f)
            (fun_ext (λ m. print_rec-erase l left_traversal m))
        ∙ ap
            (λ b.
              print_node malloc_ok k v n b (is_null l)
                (Print.bt_print_rec malloc_ok (erase r) right_traversal)
                (Print.bt_print_rec malloc_ok (erase l) left_traversal))
            (sym (is_null-erase r))
        ∙ ap
            (λ b.
              print_node malloc_ok k v n (BinaryTree.is_null (erase r)) b
                (Print.bt_print_rec malloc_ok (erase r) right_traversal)
                (Print.bt_print_rec malloc_ok (erase l) left_traversal))
            (sym (is_null-erase l))

    -- `bt_print_ts` returns exactly where `bt_print` does, with its output and the indentation that it
    -- leaves, and locks the mutex of the tree before and unlocks it after.
    pub bt_print_ts-erase :
        (t : Tree V) (n : ℕ) → bt_print_ts t n ≡ locked (Print.bt_print malloc_ok (erase t) n)
    unfolding bt_print_ts Print.bt_print
    bt_print_ts-erase t n = simp (is_null-erase t, print_rec-erase t root n)

  -- Every node has its mutex.
  abbrev pub HasMutexes : Tree V → Type 0
  HasMutexes null = Unit
  HasMutexes (keyless b u) = b ≡ true
  HasMutexes (node l r k u) = HasMutexes l × HasMutexes r

  free_rec-erase :
      (t : Tree V)
      → HasMutexes t
      → is_null t ≡ false
      → bt_free_rec_ts t ≡ done (null, (Walk.bt_free_rec (erase t)).1)
  unfolding bt_free_rec_ts Walk.bt_free_rec
  free_rec-erase null h n = cc
  free_rec-erase (keyless true u) h n = refl
  free_rec-erase (keyless false u) h n = cc
  free_rec-erase (node l r k u) h n =
      ground (arith, is_null-erase l, is_null-erase r, free_rec-erase l h.0, free_rec-erase r h.1)

  -- If every node has its mutex, `bt_free_ts` leaves the empty tree and frees the nodes that `bt_free`
  -- frees, in the same order, and returns 0 where the mutex of the tree can be destroyed.
  pub bt_free_ts-erase :
      (destroyed : Bool) (t : Tree V)
      → HasMutexes t
      → bt_free_ts destroyed t ≡ done (null, (Walk.bt_free (erase t)).1, destroyed)
  unfolding bt_free_ts Walk.bt_free
  bt_free_ts-erase destroyed null h = refl
  bt_free_ts-erase destroyed (keyless b u) h = rw (free_rec-erase (keyless b u) h refl) refl
  bt_free_ts-erase destroyed (node l r k u) h = rw (free_rec-erase (node l r k u) h refl) refl
