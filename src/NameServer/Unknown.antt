-- ===== src/NameServer/Unknown.antt =====
-- The requests for a key that the server does not have.
use tlpi_exercises.Prelude.{
  ◌≡◌, ◌≤◌, refl, true, false, Option, none, some, length, ◌==◌, if◌then◌else◌, Outcome, done,
  fault, arith,
}
use tlpi_exercises.BinaryTree.{is_null, bt_key_max}
use tlpi_exercises.BinaryTree.Spec.{get, IsOrdered}
use tlpi_exercises.BinaryTree.Order.{insert, bt_add-insert}
use tlpi_exercises.BinaryTree.Lookup.{bt_lookup_absent}
use tlpi_exercises.NameServer.{
  cmd_del, cmd_add, cmd_mod, cmd_get, Request, Memory, State, authenticate, add_request,
  del_request, mod_request, get_request, serve_request,
}

-- Every allocation of a round succeeds.
pub record IsSufficient (memory : Memory) : Type 0 where
  pub value : memory.value ≡ true
  pub password : memory.password ≡ true
  pub tree_node : memory.tree.node_memory ≡ true
  pub tree_key : memory.tree.key_memory ≡ true
  pub auth_node : memory.auth_tree.node_memory ≡ true
  pub auth_key : memory.auth_tree.key_memory ≡ true

pub answer_unknown : Request → State → Outcome (Option State)
answer_unknown req s =
    if req.command == cmd_add
    then done (
        some record {
          tree = insert s.tree req.key req.value;
          auth_tree = insert s.auth_tree req.key req.password;
        })
    else if req.command == cmd_del
    then fault
    else if req.command == cmd_mod
    then fault
    else if req.command == cmd_get
    then fault
    else done (some s)

module _ (memory : Memory) (req : Request) (s : State) (tree_ordered : IsOrdered s.tree)
    (auth_ordered : IsOrdered s.auth_tree) (no_value : get s.tree req.key ≡ none)
    (no_password : get s.auth_tree req.key ≡ none) where
  add_request_unknown :
      IsSufficient memory
      → length req.key ≤ bt_key_max
      → add_request memory req s
        ≡ done (
            some record {
              tree = insert s.tree req.key req.value;
              auth_tree = insert s.auth_tree req.key req.password;
            })
  unfolding add_request
  add_request_unknown m h =
      rw
        (
          m.value,
          m.password,
          bt_add-insert memory.tree s.tree req.key req.value m.tree_node m.tree_key h tree_ordered
              no_value,
          bt_add-insert memory.auth_tree s.auth_tree req.key req.password m.auth_node m.auth_key h
              auth_ordered no_password,
        )
        refl

  authenticate_unknown : is_null s.auth_tree ≡ false → authenticate s.auth_tree req ≡ fault
  unfolding authenticate
  authenticate_unknown n = rw (bt_lookup_absent s.auth_tree req.key auth_ordered n no_password) refl

  del_request_unknown : is_null s.auth_tree ≡ false → del_request req s ≡ fault
  unfolding del_request
  del_request_unknown n = rw (authenticate_unknown n) refl

  mod_request_unknown : is_null s.auth_tree ≡ false → mod_request req s ≡ fault
  unfolding mod_request
  mod_request_unknown n = rw (authenticate_unknown n) refl

  get_request_unknown : is_null s.tree ≡ false → get_request req s ≡ fault
  unfolding get_request
  get_request_unknown n = rw (bt_lookup_absent s.tree req.key tree_ordered n no_value) refl

-- In ordered trees that are not empty, for a key of at most 255 bytes that is in neither: with memory,
-- `CMD_ADD` inserts the value and the password. `CMD_DEL`, `CMD_MOD` and `CMD_GET` do not report that
-- the key is unknown: `bt_lookup` reads through a null pointer. Other commands change nothing.
pub serve_request-answer_unknown :
    (memory : Memory) (req : Request) (s : State)
    → IsOrdered s.tree
    → IsOrdered s.auth_tree
    → is_null s.tree ≡ false
    → is_null s.auth_tree ≡ false
    → get s.tree req.key ≡ none
    → get s.auth_tree req.key ≡ none
    → length req.key ≤ bt_key_max
    → IsSufficient memory
    → serve_request memory req s ≡ answer_unknown req s
unfolding serve_request answer_unknown
serve_request-answer_unknown memory req s t a tn an v p h m = ground (
  arith,
  add_request_unknown memory req s t a v p m h,
  del_request_unknown memory req s t a v p an,
  mod_request_unknown memory req s t a v p an,
  get_request_unknown memory req s t a v p tn,
)
