-- ===== src/BinaryTree/Map.antt =====
-- The contract of the tree: over any sequence of calls it behaves as a finite map.
use tlpi_exercises.Prelude.{
  Bytes, strcmp, lt, eq, gt, ◌≡◌, ◌≤◌, arith, none, some, refl, true, false, Bool, Option, done,
  Outcome, ◌>>=◌, List, [], ◌∷◌, length, eq_of_strcmp, strcmp_refl, inl, inr, Option-cases,
}
use tlpi_exercises.BinaryTree.{
  Tree, Reply, success, failure, Alloc, bt_key_max, bt_add, bt_delete, bt_initialize,
}
use tlpi_exercises.BinaryTree.Spec.{get, IsOrdered, remove}
use tlpi_exercises.BinaryTree.Order.{
  insert, insert-IsOrdered, get-insert_self, get-insert_ne, bt_add-insert, bt_add_present, eq_null,
}
use tlpi_exercises.BinaryTree.Removal.{remove-IsOrdered, get-remove_self, get-remove_ne}
use tlpi_exercises.BinaryTree.Delete.{bt_delete-remove, bt_delete_absent, bt_delete_null}

pub data Call {ℓ} (V : Type ℓ) : Type ℓ where
  add : Bytes → V → Call V
  delete : Bytes → Call V

abbrev memory : Alloc
memory = record { node_memory = true; key_memory = true }

-- Whether the call returned 0.
abbrev pub returned : Reply → Bool
returned success = true
returned (failure e) = false

module _ {ℓ} {V : Type ℓ} where
  -- The map, changed at one key.
  abbrev pub update : (Bytes → Option V) → Bytes → Option V → Bytes → Option V
  update f q o p = elim (strcmp p q) [ lt ↦ f p | eq ↦ o | gt ↦ f p ]

  -- One call as the code makes it, while memory lasts: the new tree, and whether it returned 0.
  pub perform : Call V → Tree V → Outcome (Tree V × Bool)
  perform (add q w) t = do (t', r) ← bt_add memory t q w; done (t', returned r)
  perform (delete q) t = do (t', r) ← bt_delete t q; done (t', returned r)

  -- The same call on a map.
  abbrev add_to : Option V → (Bytes → Option V) → Bytes → V → (Bytes → Option V) × Bool
  add_to none f q w = (update f q (some w), true)
  add_to (some u) f q w = (f, false)

  abbrev delete_from : Option V → (Bytes → Option V) → Bytes → (Bytes → Option V) × Bool
  delete_from none f q = (f, false)
  delete_from (some u) f q = (update f q none, true)

  pub perform_spec : Call V → (Bytes → Option V) → (Bytes → Option V) × Bool
  perform_spec (add q w) f = add_to (f q) f q w
  perform_spec (delete q) f = delete_from (f q) f q

  -- A key that `bt_add` can store.
  abbrev pub Fits : Call V → Type 0
  Fits (add q w) = length q ≤ bt_key_max
  Fits (delete q) = Unit

  pub record Represents (t : Tree V) (f : Bytes → Option V) : Type ℓ where
    pub ordered : IsOrdered t
    pub reads : (p : Bytes) → get t p ≡ f p

  get-insert :
      (t : Tree V) (q p : Bytes) (w : V)
      → IsOrdered t
      → get t q ≡ none
      → get (insert t q w) p ≡ update (get t) q (some w) p
  get-insert t q p w s g =
      ground
        (arith, get-insert_self t q w s g, get-insert_ne t q p w, eq_of_strcmp p q, strcmp_refl q)

  get-remove :
      (t : Tree V) (q p : Bytes) → IsOrdered t → get (remove t q) p ≡ update (get t) q none p
  get-remove t q p s =
      ground (arith, get-remove_self t q s, get-remove_ne t q p s, eq_of_strcmp p q, strcmp_refl q)

  -- What one call owes: it does not fault, and its results are those of the map.
  abbrev pub Simulates : Outcome (Tree V × Bool) → (Bytes → Option V) × Bool → Type ℓ
  Simulates o (f, b) = (t : Tree V) × (o ≡ done (t, b)) × Represents t f

  perform-Simulates :
      (c : Call V) (t : Tree V) (f : Bytes → Option V)
      → Represents t f
      → Fits c
      → Simulates (perform c t) (perform_spec c f)
  unfolding perform perform_spec
  perform-Simulates (add q w) t f r h =
      let known : get t q ≡ f q = r.reads q in
      elim (Option-cases (f q)) [
        | inl e ↦
            let absent : get t q ≡ none = ground arith in
            rw (e, bt_add-insert memory t q w refl refl h r.ordered absent)
              (
                insert t q w,
                refl,
                record {
                  ordered = insert-IsOrdered t q w r.ordered;
                  reads = λ p. ground (arith, get-insert t q p w, r.reads p);
                },
              )
        | inr (u, e) ↦
            let present : get t q ≡ some u = ground arith in
            rw (e, bt_add_present memory t q w r.ordered present) (t, refl, r)
      ]
  perform-Simulates (delete q) t f r h =
      let known : get t q ≡ f q = r.reads q in
      elim (Option-cases (f q)) [
        | inl e ↦
            let absent : get t q ≡ none = ground arith in
            rw e (
              t,
              ground (arith, eq_null t, bt_delete_null {V = V} q, bt_delete_absent t q r.ordered),
              r,
            )
        | inr (u, e) ↦
            let present : get t q ≡ some u = ground arith in
            rw (e, bt_delete-remove t q u r.ordered present)
              (
                remove t q,
                refl,
                record {
                  ordered = remove-IsOrdered t q r.ordered;
                  reads = λ p. ground (arith, get-remove t q p, r.reads p);
                },
              )
      ]

  -- A sequence of calls, with the results of all.
  unfoldable pub perform_all : List (Call V) → Tree V → Outcome (Tree V × List Bool)
  unfolding perform
  perform_all [] t = done (t, [])
  perform_all (c ∷ cs) t = do
    (t', b) ← perform c t
    (t'', bs) ← perform_all cs t'
    done (t'', b ∷ bs)

  pub perform_all_spec : List (Call V) → (Bytes → Option V) → (Bytes → Option V) × List Bool
  unfolding perform_spec
  perform_all_spec [] f = (f, [])
  perform_all_spec (c ∷ cs) f =
      let (f', b) = perform_spec c f in let (f'', bs) = perform_all_spec cs f' in (f'', b ∷ bs)

  abbrev pub AllFit : List (Call V) → Type 0
  AllFit [] = Unit
  AllFit (c ∷ cs) = Fits c × AllFit cs

  abbrev pub SimulatesAll : Outcome (Tree V × List Bool) → (Bytes → Option V) × List Bool → Type ℓ
  SimulatesAll o (f, bs) = (t : Tree V) × (o ≡ done (t, bs)) × Represents t f

  -- Any sequence of `bt_add` and `bt_delete` on a tree that represents a map never faults while
  -- memory lasts and the added keys fit; every call succeeds where it does on the map and fails
  -- where it does, and the tree that is left represents the map that is left.
  pub perform_all-SimulatesAll :
      (cs : List (Call V)) (t : Tree V) (f : Bytes → Option V)
      → Represents t f
      → AllFit cs
      → SimulatesAll (perform_all cs t) (perform_all_spec cs f)
  unfolding perform_all perform_all_spec
  perform_all-SimulatesAll [] t f r h = (t, refl, r)
  perform_all-SimulatesAll (c ∷ cs) t f r h =
      let (t', e, r') = perform-Simulates c t f r h.0 in
      let (t'', e', r'') = perform_all-SimulatesAll cs t' (perform_spec c f).0 r' h.1 in
      (t'', rw (e, e'), r'')

  pub bt_initialize-Represents : Represents (bt_initialize {V = V}) (λ _. none)
  unfolding bt_initialize get
  bt_initialize-Represents = record { ordered = tt; reads = λ p. refl }
