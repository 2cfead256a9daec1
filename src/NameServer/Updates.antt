-- ===== src/NameServer/Updates.antt =====
-- A tree after the string of one key is overwritten.
use tlpi_exercises.Prelude.{Bytes, strcmp, lt, eq, gt, ◌≡◌, some, arith}
use tlpi_exercises.BinaryTree.{Tree, null, keyless, node}
use tlpi_exercises.BinaryTree.Spec.{get, All, IsOrdered}
use tlpi_exercises.NameServer.{set_value}

set_value-All :
    (P : Bytes → Type 0) (t : Tree Bytes) (key value : Bytes)
    → All P t
    → All P (set_value t key value)
unfolding set_value
set_value-All P null key value a = tt
set_value-All P (keyless u) key value a = absurd a
set_value-All P (node l r k u) key value a =
    elim (strcmp key k)
      as (λ o. All P (elim o as (λ _. Tree Bytes) [
        | lt ↦ node (set_value l key value) r k u
        | eq ↦ node l r k value
        | gt ↦ node l (set_value r key value) k u
      ])) [
        | lt ↦ (set_value-All P l key value a.0, a.1, a.2)
        | eq ↦ a
        | gt ↦ (a.0, set_value-All P r key value a.1, a.2)
      ]

pub set_value-IsOrdered :
    (t : Tree Bytes) (key value : Bytes) → IsOrdered t → IsOrdered (set_value t key value)
unfolding set_value
set_value-IsOrdered null key value s = tt
set_value-IsOrdered (keyless u) key value s = absurd s
set_value-IsOrdered (node l r k u) key value s =
    elim (strcmp key k)
      as (λ o. IsOrdered (elim o as (λ _. Tree Bytes) [
        | lt ↦ node (set_value l key value) r k u
        | eq ↦ node l r k value
        | gt ↦ node l (set_value r key value) k u
      ])) [
        | lt ↦ (set_value-All _ l key value s.0, s.1, set_value-IsOrdered l key value s.2, s.3)
        | eq ↦ s
        | gt ↦ (s.0, set_value-All _ r key value s.1, s.2, set_value-IsOrdered r key value s.3)
      ]

pub get-set_value_self :
    (t : Tree Bytes) (key value : Bytes) {old : Bytes}
    → get t key ≡ some old
    → get (set_value t key value) key ≡ some value
unfolding get set_value
get-set_value_self null key value g = cc
get-set_value_self (keyless u) key value g = cc
get-set_value_self (node l r k u) key value {old = o} g =
    ground
      (arith, get-set_value_self l key value {old = o}, get-set_value_self r key value {old = o})
