-- ===== src/SharedTree/Deletion.antt =====
-- `bt_lookup_ts` of a key that is not there, and what `bt_delete_ts` does.
use tlpi_exercises.Prelude.{
  Bytes, ◌≡◌, refl, List, some, if◌then◌else◌, Bool-cases, inl, inr, Bool, true, false, Option,
  none, Outcome, done, fault, arith, [], ◌∷◌,
}
use tlpi_exercises.BinaryTree.{Location, failure, einval, Reply, go_left, go_right}
use mathlib.Core.Path.{subst}
use tlpi_exercises.SharedTree.{
  Tree, null, keyless, node, Mutex, of_tree, of_node, Done, is_null, NodeMutex, bt_find_node_ts,
  bt_lookup_ts, bt_delete_ts, Event, lock, unlock, after, children, delete_found, has_mutex,
  unlink_ts,
}
use tlpi_exercises.SharedTree.Coupling.{present}

module _ {ℓ} {V : Type ℓ} where
  -- A call that finds nothing.
  abbrev FindsNothing : Outcome (Done (Option (NodeMutex V))) → Type ℓ
  FindsNothing fault = Unit
  FindsNothing (done d) = d.result ≡ none

  find_absent :
      (ok : Bool) (t : Tree V) (up : Location) (m : Mutex) (q : Bytes)
      → present t q ≡ false
      → FindsNothing (bt_find_node_ts ok t up m q)
  unfolding bt_find_node_ts present
  find_absent ok null up m q h = tt
  find_absent ok (keyless b u) up m q h = tt
  find_absent ok (node l r k u) up m q h = ground (
    arith,
    find_absent ok l (go_left ∷ up) (of_node up) q,
    find_absent ok r (go_right ∷ up) (of_node up) q,
  )

  -- In a tree that is not empty, `bt_lookup_ts` of a key that the search does not find reads
  -- through a null pointer.
  pub bt_lookup_ts_absent :
      (ok : Bool) (t : Tree V) (q : Bytes)
      → is_null t ≡ false
      → present t q ≡ false
      → bt_lookup_ts ok t q ≡ fault
  unfolding bt_lookup_ts
  bt_lookup_ts_absent ok t q n h = ground (arith, find_absent ok t [] of_tree q h)

  not_null : (t : Tree V) → has_mutex t ≡ true → is_null t ≡ false
  not_null null h = cc
  not_null (keyless b u) h = refl
  not_null (node l r k u) h = refl

  -- Where both children have a mutex, nothing is unlinked.
  unlink_ts-both :
      (t : Tree V) (f : NodeMutex V) (left right : Tree V)
      → has_mutex left ≡ true
      → has_mutex right ≡ true
      → unlink_ts t f left right ≡ (t, [])
  unfolding unlink_ts
  unlink_ts-both t f left right l r = rw (not_null left l, not_null right r) refl

  -- A call that returns has left the tree as it was.
  abbrev Keeps : Tree V → Outcome (Done (Tree V × Reply)) → Type ℓ
  Keeps t fault = Unit
  Keeps t (done d) = d.result.0 ≡ t

  delete_found-Keeps :
      (t : Tree V) (f : NodeMutex V) (events : List Event) → Keeps t (delete_found t f events)
  unfolding delete_found
  delete_found-Keeps t f events =
      let (left, right) = children f.target in
      elim (Bool-cases (has_mutex left)) [
        | inr without ↦ rw without tt
        | inl l ↦ elim (Bool-cases (has_mutex right)) [
          | inr without ↦ rw (l, without) tt
          | inl r ↦ rw (l, r, unlink_ts-both t f left right l r) refl
        ]
      ]

  after-Keeps :
      (t : Tree V) (es : List Event) (o : Outcome (Done (Tree V × Reply)))
      → Keeps t o
      → Keeps t (after es o)
  after-Keeps t es fault h = h
  after-Keeps t es (done d) h = h

  find-Keeps :
      (t : Tree V) (o : Outcome (Done (Option (NodeMutex V))))
      → Keeps t (elim o [
        | fault ↦ fault
        | done d ↦ elim d.result [
          | none ↦ done (record { result = (t, failure (some einval)); events = d.events })
          | some f ↦ delete_found t f d.events
        ]
      ])
  find-Keeps t fault = tt
  find-Keeps t (done d) = by_result d.result
    where
      by_result :
          (o : Option (NodeMutex V))
          → Keeps t (elim o [
            | none ↦ done (record { result = (t, failure (some einval)); events = d.events })
            | some f ↦ delete_found t f d.events
          ])
      by_result none = refl
      by_result (some f) = delete_found-Keeps t f d.events

  bt_delete_ts-Keeps : (ok : Bool) (t : Tree V) (q : Bytes) → Keeps t (bt_delete_ts ok t q)
  unfolding bt_delete_ts
  bt_delete_ts-Keeps ok t q = after-Keeps t (lock of_tree ∷ []) _ (by_root (is_null t))
    where
      by_root :
          (b : Bool)
          → Keeps t (
              if b
              then done (record { result = (t, failure none); events = unlock of_tree ∷ [] })
              else (elim (bt_find_node_ts ok t [] of_tree q) [
                | fault ↦ fault
                | done d ↦ elim d.result [
                  | none ↦ done (record { result = (t, failure (some einval)); events = d.events })
                  | some f ↦ delete_found t f d.events
                ]
              ]))
      by_root true = refl
      by_root false = find-Keeps t (bt_find_node_ts ok t [] of_tree q)

  -- `bt_delete_ts` removes no key, although two cases of its `switch` would: both children of the target
  -- are locked first, which is undefined behaviour where there is none. A call that returns leaves the
  -- tree as it was, also where it returns 0.
  pub bt_delete_ts_unchanged :
      (ok : Bool) (t : Tree V) (q : Bytes) (d : Done (Tree V × Reply))
      → bt_delete_ts ok t q ≡ done d
      → d.result.0 ≡ t
  bt_delete_ts_unchanged ok t q d h = subst (Keeps t) h (bt_delete_ts-Keeps ok t q)
