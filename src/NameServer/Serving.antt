-- ===== src/NameServer/Serving.antt =====
-- The requests for a key that the server has.
use tlpi_exercises.Prelude.{
  Bytes, ◌≡◌, refl, true, not, some, ◌==◌, if◌then◌else◌, done, arith, Bool-cases, inl, inr,
}
use tlpi_exercises.BinaryTree.Spec.{get, IsOrdered, remove}
use tlpi_exercises.BinaryTree.Order.{bt_add_present}
use tlpi_exercises.BinaryTree.Lookup.{bt_lookup_present}
use tlpi_exercises.BinaryTree.Delete.{bt_delete-remove}
use tlpi_exercises.NameServer.{
  cmd_del, cmd_mod, Request, Memory, State, set_value, same, authenticate, add_request, del_request,
  mod_request, get_request, serve_request,
}

-- What a request does to the value of a key whose password is `password`.
unfoldable pub answer : Request → (password : Bytes) → State → State
answer req password s =
    if not (same password req.password)
    then s
    else if req.command == cmd_del
    then record s { tree = remove s.tree req.key }
    else if req.command == cmd_mod
    then record s { tree = set_value s.tree req.key req.value }
    else s

module _ (memory : Memory) (req : Request) (s : State) (value password : Bytes)
    (tree_ordered : IsOrdered s.tree) (auth_ordered : IsOrdered s.auth_tree)
    (has_value : get s.tree req.key ≡ some value)
    (has_password : get s.auth_tree req.key ≡ some password) where
  authenticate-same : authenticate s.auth_tree req ≡ done (same password req.password)
  unfolding authenticate
  authenticate-same =
      rw (bt_lookup_present s.auth_tree req.key password auth_ordered has_password) refl

  add_request_known :
      memory.value ≡ true → memory.password ≡ true → add_request memory req s ≡ done (some s)
  unfolding add_request
  add_request_known m n =
      rw
        (
          m,
          n,
          bt_add_present memory.tree s.tree req.key req.value tree_ordered has_value,
          bt_add_present memory.auth_tree s.auth_tree req.key req.password auth_ordered
              has_password,
        )
        refl

  del_request_known :
      del_request req s
      ≡ done (
          some
            (if same password req.password then record s { tree = remove s.tree req.key } else s))
  unfolding del_request
  del_request_known = elim (Bool-cases (same password req.password)) [
    | inl e ↦
        rw (authenticate-same, e, bt_delete-remove s.tree req.key value tree_ordered has_value) refl
    | inr e ↦ rw (authenticate-same, e) refl
  ]

  mod_request_known :
      mod_request req s
      ≡ done (
          some (
            if same password req.password
            then record s { tree = set_value s.tree req.key req.value }
            else s))
  unfolding mod_request
  mod_request_known = elim (Bool-cases (same password req.password)) [
    | inl e ↦
        rw (authenticate-same, e, bt_lookup_present s.tree req.key value tree_ordered has_value)
          refl
    | inr e ↦ rw (authenticate-same, e) refl
  ]

  get_request_known : get_request req s ≡ done (some s)
  unfolding get_request
  get_request_known = rw (bt_lookup_present s.tree req.key value tree_ordered has_value) refl

-- In ordered trees, for a key that has a value and a password, a request of any command is served
-- without undefined behaviour as long as the server gets memory. With the password, `CMD_DEL` removes
-- the key from the tree of the values and `CMD_MOD` overwrites its value; every other request, and
-- any with a wrong password, leaves both trees as they are, also a second `CMD_ADD`.
pub serve_request-answer :
    (memory : Memory) (req : Request) (s : State) (value password : Bytes)
    → IsOrdered s.tree
    → IsOrdered s.auth_tree
    → get s.tree req.key ≡ some value
    → get s.auth_tree req.key ≡ some password
    → memory.value ≡ true
    → memory.password ≡ true
    → serve_request memory req s ≡ done (some (answer req password s))
unfolding serve_request answer
serve_request-answer memory req s value password t a v p m n = ground (
  arith,
  add_request_known memory req s value password t a v p m n,
  del_request_known memory req s value password t a v p,
  mod_request_known memory req s value password t a v p,
  get_request_known memory req s value password t a v p,
)
