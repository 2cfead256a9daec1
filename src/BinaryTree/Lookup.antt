-- ===== src/BinaryTree/Lookup.antt =====
-- `bt_lookup` and `bt_find_parent` against the map that the tree stands for.
use tlpi_exercises.Prelude.{
  Bytes, strcmp, ◌≡◌, ◌≢◌, ◌≺◌, arith, none, some, refl, true, false, Option, done, fault, ◌⊎◌, inl,
  inr, ap, Ordering-cases, eq_of_strcmp, strcmp_refl, strcmp-gt_of_lt,
}
use mathlib.Core.Path.{subst}
use mathlib.Core.Option.{get_or}
use tlpi_exercises.BinaryTree.{
  Tree, null, keyless, node, success, is_null, bt_lookup, bt_find_parent, has_key,
}
use tlpi_exercises.BinaryTree.Spec.{get, All, IsOrdered}
use tlpi_exercises.BinaryTree.Find.{bt_find_node_absent, bt_find_node-IsUnlinked, not_null_of_get}

module _ {ℓ} {V : Type ℓ} where
  -- In an ordered tree, `bt_lookup` of a key that is there stores its value and returns 0.
  pub bt_lookup_present :
      (t : Tree V) (q : Bytes) (w : V)
      → IsOrdered t
      → get t q ≡ some w
      → bt_lookup t q ≡ done (success, some w)
  unfolding bt_lookup
  bt_lookup_present t q w s g =
      let (p, rest, x) = bt_find_node-IsUnlinked t q w s g in
      rw (not_null_of_get t q w g, x.found, x.holds)

  -- In an ordered tree that is not empty, `bt_lookup` of a key that is not there reads through a
  -- null pointer.
  pub bt_lookup_absent :
      (t : Tree V) (q : Bytes)
      → IsOrdered t
      → is_null t ≡ false
      → get t q ≡ none
      → bt_lookup t q ≡ fault
  unfolding bt_lookup
  bt_lookup_absent t q s n g = rw (n, bt_find_node_absent t q s n g)

  -- The key of the node at the top.
  unfoldable pub root_key : Tree V → Option Bytes
  root_key null = none
  root_key (keyless u) = none
  root_key (node l r k u) = some k

  -- `s` is a node, and one of its children holds the key `q` with the value `w`.
  pub record IsParent (s : Tree V) (q : Bytes) (w : V) : Type ℓ where
    pub left : Tree V
    pub right : Tree V
    pub key : Bytes
    pub value : V
    pub whole : s ≡ node left right key value
    pub child : (root_key left ≡ some q) ⊎ (root_key right ≡ some q)
    pub reads : get s q ≡ some w

  has_key-root :
      (t : Tree V) (q : Bytes)
      → IsOrdered t
      → (has_key t q ≡ done true) × (root_key t ≡ some q)
        ⊎ (has_key t q ≡ done false) × (root_key t ≢ some q)
  unfolding root_key
  has_key-root null q s = inr (refl, cc)
  has_key-root (keyless u) q s = absurd s
  has_key-root (node l r k u) q s = ground (arith, eq_of_strcmp k q, strcmp_refl q)

  All-root : (P : Bytes → Type 0) (t : Tree V) (q : Bytes) → All P t → root_key t ≡ some q → P q
  unfolding root_key
  All-root P null q a e = cc
  All-root P (keyless u) q a e = absurd a
  All-root P (node l r k u) q a e = subst P (ap (λ o. get_or o k) e) a.2

  get-root : (t : Tree V) (q : Bytes) → root_key t ≡ some q → get t q ≢ none
  unfolding root_key get
  get-root null q e g = cc
  get-root (keyless u) q e g = cc
  get-root (node l r k u) q e g = ground (arith, strcmp_refl k)

  -- In an ordered tree, a key that is there and not at the top has a parent, which
  -- `bt_find_parent` returns.
  pub bt_find_parent_present :
      (t : Tree V) (q : Bytes) (w : V)
      → IsOrdered t
      → get t q ≡ some w
      → root_key t ≢ some q
      → (s : Tree V) × (bt_find_parent t q ≡ done s) × IsParent s q w
  unfolding bt_find_parent get root_key
  bt_find_parent_present null q w s g n = cc
  bt_find_parent_present (keyless u) q w s g n = absurd s
  bt_find_parent_present (node l r k u) q w s g n =
      let below_left = bt_find_parent_present l q w s.2 in
      let below_right = bt_find_parent_present r q w s.3 in
      let here = λ (c : (root_key l ≡ some q) ⊎ (root_key r ≡ some q)).
        (let x : IsParent (node l r k u) q w = record {
          left = l;
          right = r;
          key = k;
          value = u;
          whole = refl;
          child = c;
          reads = g;
        } in
          x) in
      elim (has_key-root l q s.2) [
        | inl (h, e) ↦ (node l r k u, ground arith, here (inl e))
        | inr (h, e) ↦ elim (has_key-root r q s.3) [
          | inl (h', e') ↦ (node l r k u, ground arith, here (inr e'))
          | inr (h', e') ↦ elim (Ordering-cases (strcmp q k)) [
            | inl less ↦
                let g' : get l q ≡ some w = ground arith in
                let (p, f, x) = below_left g' e in (p, ground (arith, not_null_of_get l q w g'), x)
            | inr (inl same) ↦ absurd (ground (arith, eq_of_strcmp q k))
            | inr (inr more) ↦
                let g' : get r q ≡ some w = ground arith in
                let (p, f, x) = below_right g' e' in
                (p, ground (arith, not_null_of_get r q w g'), x)
          ]
        ]
      ]

  -- For a key that is not there the result is null.
  pub bt_find_parent_absent :
      (t : Tree V) (q : Bytes)
      → IsOrdered t
      → is_null t ≡ false
      → get t q ≡ none
      → bt_find_parent t q ≡ done null
  unfolding bt_find_parent get
  bt_find_parent_absent null q s n g = cc
  bt_find_parent_absent (keyless u) q s n g = absurd s
  bt_find_parent_absent (node l r k u) q s n g = ground (
    arith,
    has_key-root l q s.2,
    has_key-root r q s.3,
    All-root (λ x. x ≺ k) l q s.0,
    All-root (λ x. k ≺ x) r q s.1,
    get-root l q,
    get-root r q,
    strcmp-gt_of_lt k q,
    bt_find_parent_absent l q s.2,
    bt_find_parent_absent r q s.3,
  )
