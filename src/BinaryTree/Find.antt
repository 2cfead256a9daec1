-- ===== src/BinaryTree/Find.antt =====
-- The locations that `bt_find_node` returns, and `unlink` at them.
use tlpi_exercises.Prelude.{
  Bytes, strcmp, lt, gt, ◌≡◌, arith, done, none, some, refl, inl, inr, Ordering-cases, false, ap,
  [], ◌∷◌,
}
use tlpi_exercises.BinaryTree.{
  Tree, null, keyless, node, Location, go_left, go_right, is_null, read_at, write_at, bt_find_node,
  leftmost, unlink, value_of, success,
}
use tlpi_exercises.BinaryTree.Spec.{get, IsOrdered, pop_min, join, remove}

module _ {ℓ} {V : Type ℓ} where
  pub bt_find_node_absent :
      (t : Tree V) (q : Bytes)
      → IsOrdered t
      → is_null t ≡ false
      → get t q ≡ none
      → bt_find_node t q ≡ done none
  unfolding bt_find_node get
  bt_find_node_absent null q s n g = cc
  bt_find_node_absent (keyless u) q s n g = absurd s
  bt_find_node_absent (node l r k u) q s n g =
      ground (arith, bt_find_node_absent l q s.2, bt_find_node_absent r q s.3)

  -- The loop of case 2 ends at the entry with the least key.
  record IsLeast (l : Tree V) (k : Bytes) (w : V) (r : Tree V) (sr : Tree V) : Type ℓ where
    found :
        read_at (node l r k w) (leftmost (node l r k w))
        ≡ node null sr (pop_min l k w r).0 (pop_min l k w r).1
    rest : write_at (node l r k w) (leftmost (node l r k w)) sr ≡ (pop_min l k w r).2

  leftmost-IsLeast :
      (l : Tree V) (k : Bytes) (w : V) (r : Tree V)
      → IsOrdered l
      → (sr : Tree V) × IsLeast l k w r sr
  unfolding leftmost read_at write_at pop_min
  leftmost-IsLeast null k w r s = (r, record { found = refl; rest = refl })
  leftmost-IsLeast (keyless u) k w r s = absurd s
  leftmost-IsLeast (node ll lr lk lw) k w r s =
      let (sr, ih) = leftmost-IsLeast ll lk lw lr s.2 in
      (sr, record { found = ih.found; rest = ap (λ t. node t r k w) ih.rest })

  unlink-join :
      (l r : Tree V) (k : Bytes) (w : V)
      → IsOrdered (node l r k w)
      → unlink (node l r k w) ≡ done (join l r)
  unfolding unlink join
  unlink-join null null k w s = refl
  unlink-join null (keyless u) k w s = absurd s.3
  unlink-join null (node rl rr rk ru) k w s = refl
  unlink-join (keyless u) r k w s = absurd s.2
  unlink-join (node ll lr lk lw) null k w s = refl
  unlink-join (node ll lr lk lw) (keyless u) k w s = absurd s.3
  unlink-join (node ll lr lk lw) (node rl rr rk ru) k w s =
      let (sr, least) = leftmost-IsLeast rl rk ru rr s.3.2 in rw (least.found, least.rest)

  -- What `bt_find_node` and `unlink` do together, seen from any node on the way down.
  pub record IsUnlinked (t : Tree V) (q : Bytes) (w : V) (p : Location) (s : Tree V) : Type ℓ where
    pub found : bt_find_node t q ≡ done (some p)
    pub holds : value_of (read_at t p) ≡ done (success, some w)
    pub unlinked : unlink (read_at t p) ≡ done s
    pub removed : write_at t p s ≡ remove t q

  IsUnlinked-left :
      (l r : Tree V) (k : Bytes) (u : V) (q : Bytes) (w : V) (p : Location) (s : Tree V)
      → strcmp q k ≡ lt
      → is_null l ≡ false
      → IsUnlinked l q w p s
      → IsUnlinked (node l r k u) q w (go_left ∷ p) s
  unfolding bt_find_node remove read_at write_at
  IsUnlinked-left l r k u q w p s less some_left x = record {
    found = ground arith;
    holds = x.holds;
    unlinked = x.unlinked;
    removed = ground arith;
  }

  IsUnlinked-right :
      (l r : Tree V) (k : Bytes) (u : V) (q : Bytes) (w : V) (p : Location) (s : Tree V)
      → strcmp q k ≡ gt
      → is_null r ≡ false
      → IsUnlinked r q w p s
      → IsUnlinked (node l r k u) q w (go_right ∷ p) s
  unfolding bt_find_node remove read_at write_at
  IsUnlinked-right l r k u q w p s more some_right x = record {
    found = ground arith;
    holds = x.holds;
    unlinked = x.unlinked;
    removed = ground arith;
  }

  pub not_null_of_get : (t : Tree V) (q : Bytes) (w : V) → get t q ≡ some w → is_null t ≡ false
  unfolding get
  not_null_of_get null q w g = cc
  not_null_of_get (keyless u) q w g = refl
  not_null_of_get (node l r k u) q w g = refl

  pub bt_find_node-IsUnlinked :
      (t : Tree V) (q : Bytes) (w : V)
      → IsOrdered t
      → get t q ≡ some w
      → (p : Location) × (s : Tree V) × IsUnlinked t q w p s
  unfolding bt_find_node get remove read_at write_at
  bt_find_node-IsUnlinked null q w s g = cc
  bt_find_node-IsUnlinked (keyless u) q w s g = absurd s
  bt_find_node-IsUnlinked (node l r k u) q w s g =
      let below_left = bt_find_node-IsUnlinked l q w s.2 in
      let below_right = bt_find_node-IsUnlinked r q w s.3 in
      elim (Ordering-cases (strcmp q k)) [
        | inl less ↦
            let h : get l q ≡ some w = ground arith in
            let (p, t, x) = below_left h in
            (go_left ∷ p, t, IsUnlinked-left l r k u q w p t less (not_null_of_get l q w h) x)
        | inr (inl same) ↦ (
          [],
          join l r,
          record {
            found = ground arith;
            holds = ground arith;
            unlinked = unlink-join l r k u s;
            removed = ground arith;
          },
        )
        | inr (inr more) ↦
            let h : get r q ≡ some w = ground arith in
            let (p, t, x) = below_right h in
            (go_right ∷ p, t, IsUnlinked-right l r k u q w p t more (not_null_of_get r q w h) x)
      ]
