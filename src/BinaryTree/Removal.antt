-- ===== src/BinaryTree/Removal.antt =====
-- The textbook removal keeps the search order and removes one key from the map.
use tlpi_exercises.Prelude.{
  Bytes, ◌≡◌, ◌≢◌, ◌≺◌, arith, none, refl, ≺-trans, strcmp-lt_of_gt, strcmp-gt_of_lt, eq_of_strcmp,
}
use tlpi_exercises.BinaryTree.{Tree, null, keyless, node}
use tlpi_exercises.BinaryTree.Spec.{get, All, IsOrdered, pop_min, join, remove}

module _ {ℓ} {V : Type ℓ} where
  All-imp : {P Q : Bytes → Type 0} → ((k : Bytes) → P k → Q k) → (t : Tree V) → All P t → All Q t
  All-imp f null a = tt
  All-imp f (keyless u) a = a
  All-imp f (node l r k u) (al, ar, ak) = (All-imp f l al, All-imp f r ar, f k ak)

  All-pop_min :
      (P : Bytes → Type 0) (l : Tree V) (k : Bytes) (u : V) (r : Tree V)
      → All P (node l r k u)
      → P (pop_min l k u r).0 × All P (pop_min l k u r).2
  unfolding pop_min
  All-pop_min P null k u r a = (a.2, a.1)
  All-pop_min P (keyless v) k u r a = absurd a.0
  All-pop_min P (node ll lr lk lu) k u r a =
      let (least, rest) = All-pop_min P ll lk lu lr a.0 in (least, (rest, a.1, a.2))

  All-join : (P : Bytes → Type 0) (l r : Tree V) → All P l → All P r → All P (join l r)
  unfolding join
  All-join P null r a b = b
  All-join P (keyless u) r a b = absurd a
  All-join P (node ll lr lk lu) null a b = a
  All-join P (node ll lr lk lu) (keyless v) a b = absurd b
  All-join P (node ll lr lk lu) (node rl rr rk ru) a b =
      let (least, rest) = All-pop_min P rl rk ru rr b in (a, rest, least)

  All-remove : (P : Bytes → Type 0) (t : Tree V) (q : Bytes) → All P t → All P (remove t q)
  unfolding remove
  All-remove P null q a = tt
  All-remove P (keyless u) q a = a
  All-remove P (node l r k u) q a =
      ground (arith, All-remove P l q, All-remove P r q, All-join P l r)

  pop_min-IsOrdered :
      (l : Tree V) (k : Bytes) (u : V) (r : Tree V)
      → IsOrdered (node l r k u)
      → All (λ q. (pop_min l k u r).0 ≺ q) (pop_min l k u r).2 × IsOrdered (pop_min l k u r).2
  unfolding pop_min
  pop_min-IsOrdered null k u r s = (s.1, s.3)
  pop_min-IsOrdered (keyless v) k u r s = absurd s.2
  pop_min-IsOrdered (node ll lr lk lu) k u r s =
      let (above, ordered) = pop_min-IsOrdered ll lk lu lr s.2 in
      let low = All-pop_min (λ q. q ≺ k) ll lk lu lr s.0 in
      ((above, All-imp (λ q. ≺-trans _ k q low.0) r s.1, low.0), (low.1, s.1, ordered, s.3))

  join-IsOrdered :
      (l r : Tree V) (k : Bytes) (u : V) → IsOrdered (node l r k u) → IsOrdered (join l r)
  unfolding join
  join-IsOrdered null r k u s = s.3
  join-IsOrdered (keyless v) r k u s = absurd s.2
  join-IsOrdered (node ll lr lk lu) null k u s = s.2
  join-IsOrdered (node ll lr lk lu) (keyless v) k u s = absurd s.3
  join-IsOrdered (node ll lr lk lu) (node rl rr rk ru) k u s =
      let (above, ordered) = pop_min-IsOrdered rl rk ru rr s.3 in
      let high = All-pop_min (λ q. k ≺ q) rl rk ru rr s.1 in
      (All-imp (λ q h. ≺-trans q k _ h high.0) (node ll lr lk lu) s.0, above, s.2, ordered)

  pub remove-IsOrdered : (t : Tree V) (q : Bytes) → IsOrdered t → IsOrdered (remove t q)
  unfolding remove
  remove-IsOrdered null q s = tt
  remove-IsOrdered (keyless u) q s = s
  remove-IsOrdered (node l r k u) q s = ground (
    arith,
    remove-IsOrdered l q s.2,
    remove-IsOrdered r q s.3,
    join-IsOrdered l r k u s,
    All-remove (λ x. x ≺ k) l q s.0,
    All-remove (λ x. k ≺ x) r q s.1,
  )

  -- A key below, or above, all keys of a tree is not in it.
  pub get_below : (t : Tree V) (p : Bytes) → All (λ q. p ≺ q) t → get t p ≡ none
  unfolding get
  get_below null p a = refl
  get_below (keyless u) p a = refl
  get_below (node l r k u) p a = ground (arith, get_below l p a.0)

  pub get_above : (t : Tree V) (p : Bytes) → All (λ q. q ≺ p) t → get t p ≡ none
  unfolding get
  get_above null p a = refl
  get_above (keyless u) p a = refl
  get_above (node l r k u) p a = ground (arith, get_above r p a.1, strcmp-gt_of_lt k p)

  -- A tree reads like its least entry with the rest hung on the right.
  get-pop_min :
      (l : Tree V) (k : Bytes) (u : V) (r : Tree V) (p : Bytes)
      → IsOrdered (node l r k u)
      → get (node null (pop_min l k u r).2 (pop_min l k u r).0 (pop_min l k u r).1) p
        ≡ get (node l r k u) p
  unfolding get pop_min
  get-pop_min null k u r p s = refl
  get-pop_min (keyless v) k u r p s = absurd s.2
  get-pop_min (node ll lr lk lu) k u r p s =
      let m = (pop_min ll lk lu lr).0 in
      ground (
        arith,
        get-pop_min ll lk lu lr p s.2,
        (All-pop_min (λ q. q ≺ k) ll lk lu lr s.0).0,
        ≺-trans p m k,
        eq_of_strcmp p m,
      )

  -- Beyond a bound of all keys there is nothing.
  pub get_under : (t : Tree V) (k p : Bytes) → All (λ q. k ≺ q) t → p ≺ k → get t p ≡ none
  get_under t k p a h = get_below t p (All-imp (λ q. ≺-trans p k q h) t a)

  pub get_over : (t : Tree V) (k p : Bytes) → All (λ q. q ≺ k) t → k ≺ p → get t p ≡ none
  get_over t k p a h = get_above t p (All-imp (λ q x. ≺-trans q k p x h) t a)

  get-join_ne :
      (l r : Tree V) (k : Bytes) (u : V) (p : Bytes)
      → IsOrdered (node l r k u)
      → p ≢ k
      → get (join l r) p ≡ get (node l r k u) p
  unfolding get join
  get-join_ne null r k u p s n = ground (arith, eq_of_strcmp p k, get_under r k p s.1)
  get-join_ne (keyless v) r k u p s n = absurd s.2
  get-join_ne (node ll lr lk lu) null k u p s n =
      ground (arith, eq_of_strcmp p k, strcmp-lt_of_gt p k, get_over (node ll lr lk lu) k p s.0)
  get-join_ne (node ll lr lk lu) (keyless v) k u p s n = absurd s.3
  get-join_ne (node ll lr lk lu) (node rl rr rk ru) k u p s n = ground (
    arith,
    eq_of_strcmp p k,
    strcmp-lt_of_gt p k,
    get_over (node ll lr lk lu) k p s.0,
    get-pop_min rl rk ru rr p s.3,
    (All-pop_min (λ x. k ≺ x) rl rk ru rr s.1).0,
    ≺-trans p k (pop_min rl rk ru rr).0,
  )

  get-join_self :
      (l r : Tree V) (k : Bytes) (u : V) → IsOrdered (node l r k u) → get (join l r) k ≡ none
  unfolding get join
  get-join_self null r k u s = get_below r k s.1
  get-join_self (keyless v) r k u s = absurd s.2
  get-join_self (node ll lr lk lu) null k u s = get_above (node ll lr lk lu) k s.0
  get-join_self (node ll lr lk lu) (keyless v) k u s = absurd s.3
  get-join_self (node ll lr lk lu) (node rl rr rk ru) k u s =
      ground
        (arith, get_above (node ll lr lk lu) k s.0, (All-pop_min (λ x. k ≺ x) rl rk ru rr s.1).0)

  pub get-remove_self : (t : Tree V) (q : Bytes) → IsOrdered t → get (remove t q) q ≡ none
  unfolding get remove
  get-remove_self null q s = refl
  get-remove_self (keyless u) q s = refl
  get-remove_self (node l r k u) q s = ground (
    arith,
    get-remove_self l q s.2,
    get-remove_self r q s.3,
    get-join_self l r k u s,
    eq_of_strcmp q k,
  )

  pub get-remove_ne :
      (t : Tree V) (q p : Bytes) → IsOrdered t → p ≢ q → get (remove t q) p ≡ get t p
  unfolding get remove
  get-remove_ne null q p s n = refl
  get-remove_ne (keyless u) q p s n = refl
  get-remove_ne (node l r k u) q p s n = ground (
    arith,
    get-remove_ne l q p s.2 n,
    get-remove_ne r q p s.3 n,
    get-join_ne l r k u p s,
    eq_of_strcmp q k,
  )
