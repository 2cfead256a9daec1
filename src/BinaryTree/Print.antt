-- ===== src/BinaryTree/Print.antt =====
-- The walk of `bt_print`, with the static `space_count` as state.
use tlpi_exercises.Prelude.{
  ℕ, ◌+◌, ◌-◌, ◌≡◌, ◌≤◌, Bytes, Bool, false, Option, none, some, [], ◌++◌, length, codes, replicate,
  ltb, if◌then◌else◌, Outcome, done, fault, ◌>>=◌, arith, refl, Bool-cases, inl, inr, length-append,
}
use tlpi_exercises.BinaryTree.{bt_key_max, Tree, null, keyless, node, is_null}
use tlpi_exercises.BinaryTree.Spec.{All, IsOrdered}

pub data Traversal : Type 0 where
  root : Traversal
  left_traversal : Traversal
  right_traversal : Traversal

-- `['key'] `
abbrev pub label : Bytes → Bytes
label k = codes "['" ++ k ++ codes "'] "

-- What is printed before the children. `malloc_ok n` says whether `malloc(n)` succeeds; if it
-- fails the function returns, which `none` says.
abbrev pub heading : (ℕ → Bool) → ℕ → Traversal → Bytes → Option Bytes
heading malloc_ok space_count root k = some (label k)
heading malloc_ok space_count left_traversal k =
    if malloc_ok (space_count + 1)
    then some (codes "\n" ++ replicate space_count b' ' ++ label k)
    else none
heading malloc_ok space_count right_traversal k = some (label k)

-- `sprintf` into `buf[1000]`, whose length is added to the indentation.
abbrev pub indent : Bytes → ℕ → Outcome ℕ
indent k space_count =
    if ltb (length (label k)) 1000 then done (space_count + length (label k)) else fault

length-label : (k : Bytes) → length (label k) ≡ length k + 5
length-label k =
    omega (arith, length-append (codes "['" ++ k) (codes "'] "), length-append (codes "['") k)

indent_lem : (k : Bytes) (n : ℕ) → length k ≤ bt_key_max → indent k n ≡ done (n + length (label k))
indent_lem k n h = ground (arith, length-label k)

-- A call that returns, with the counter at `n`.
abbrev pub Restores : ℕ → Outcome (Bytes × ℕ) → Type 0
Restores n (done (out, m)) = m ≡ n
Restores n fault = ⊥

module _ {ℓ} {V : Type ℓ} (malloc_ok : ℕ → Bool) where
  -- The output and the static `space_count` that is left.
  unfoldable pub bt_print_rec : Tree V → Traversal → ℕ → Outcome (Bytes × ℕ)
  bt_print_rec null traversal space_count = fault
  bt_print_rec (keyless u) traversal space_count = fault
  bt_print_rec (node l r k u) traversal space_count =
      elim (heading malloc_ok space_count traversal k) [
        | none ↦ done ([], space_count)
        | some head ↦ do
          (right_out, count) ← if is_null r then done ([], space_count) else (do
            deeper ← indent k space_count
            (out, back) ← bt_print_rec r right_traversal deeper
            done (out, back - length (label k)))
          (left_out, count') ←
              if is_null l then done ([], count) else bt_print_rec l left_traversal count
          done (head ++ right_out ++ left_out, count')
      ]

  unfoldable pub bt_print : Tree V → ℕ → Outcome (Bytes × ℕ)
  bt_print t space_count =
      if is_null t
      then done (codes "Tree is empty.\n", space_count)
      else do (out, count) ← bt_print_rec t root space_count; done (out ++ codes "\n", count)

  bt_print_rec-Restores :
      (t : Tree V) (v : Traversal) (n : ℕ)
      → IsOrdered t
      → All (λ k. length k ≤ bt_key_max) t
      → is_null t ≡ false
      → Restores n (bt_print_rec t v n)
  unfolding bt_print_rec
  bt_print_rec-Restores null v n s f e = cc
  bt_print_rec-Restores (keyless u) v n s f e = absurd s
  bt_print_rec-Restores (node l r k u) v n s f e = ground (
    arith,
    indent_lem k n f.2,
    bt_print_rec-Restores l left_traversal n s.2 f.0,
    bt_print_rec-Restores r right_traversal (n + length (label k)) s.3 f.1,
  )

  -- On an ordered tree whose keys fit, `bt_print` returns, whether or not its allocations succeed,
  -- and leaves the static counter of the indentation as it was.
  pub bt_print-Restores :
      (t : Tree V) (n : ℕ)
      → IsOrdered t
      → All (λ k. length k ≤ bt_key_max) t
      → Restores n (bt_print t n)
  unfolding bt_print
  bt_print-Restores t n s f = elim (Bool-cases (is_null t)) [
    | inl e ↦ rw e refl
    | inr e ↦ ground (arith, bt_print_rec-Restores t root n s f e)
  ]
