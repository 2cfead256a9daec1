-- ===== src/NameServer.antt =====
-- The name-value server: 59_Sockets_Internet_Domain/nv_sv.c and the requests of nv.h.
--
-- The two trees are those of lib/binary_tree.c, with strings as values. What `accept` and `read` give
-- is a list of arrivals, and with each comes what `malloc` answers in that round. The text fields of a
-- request are strings, each with its null inside of its field. What is printed is left out.
pub mod Updates
pub mod Serving
pub mod Unknown
pub mod Runs
mod Tests
use tlpi_exercises.Prelude.{
  ℕ, Bool, true, false, not, Option, none, some, List, [], ◌∷◌, Bytes, strcmp, lt, eq, gt, ◌==◌,
  if◌then◌else◌, Outcome, done, fault, ◌>>=◌,
}
use tlpi_exercises.BinaryTree.{
  Tree, null, keyless, node, Alloc, Reply, success, failure, bt_initialize, bt_add, bt_lookup,
  bt_delete,
}

abbrev pub cmd_del : ℕ
cmd_del = 0

abbrev pub cmd_add : ℕ
cmd_add = 1

abbrev pub cmd_mod : ℕ
cmd_mod = 2

abbrev pub cmd_get : ℕ
cmd_get = 3

-- `struct request_msg`
pub record Request : Type 0 where
  pub command : ℕ
  pub password : Bytes
  pub key : Bytes
  pub value : Bytes

-- What the allocations of a round answer, those of the server and those of its calls of `bt_add`.
pub record Memory : Type 0 where
  pub value : Bool
  pub password : Bool
  pub tree : Alloc
  pub auth_tree : Alloc

pub record State : Type 0 where
  pub tree : Tree Bytes
  pub auth_tree : Tree Bytes

-- `strcpy` to the string that `bt_lookup` found for a key: the other nodes do not share it.
unfoldable pub set_value : Tree Bytes → Bytes → Bytes → Tree Bytes
set_value null key value = null
set_value (keyless old) key value = keyless old
set_value (node l r k old) key value = elim (strcmp key k) [
  | lt ↦ node (set_value l key value) r k old
  | eq ↦ node l r k value
  | gt ↦ node l (set_value r key value) k old
]

abbrev pub same : Bytes → Bytes → Bool
same s t = elim (strcmp s t) [ eq ↦ true | lt ↦ false | gt ↦ false ]

-- The lookup and the comparison of the password, in `CMD_DEL` and `CMD_MOD`.
unfoldable pub authenticate : Tree Bytes → Request → Outcome Bool
authenticate auth_tree req = do
  (reply, lookup_pass) ← bt_lookup auth_tree req.key
  elim lookup_pass [ none ↦ done false | some password ↦ done (same password req.password) ]

-- The cases of the `switch`; `none` is the end of the program by `errExit`.
unfoldable pub add_request : Memory → Request → State → Outcome (Option State)
add_request memory req s = if not memory.value then done none else do
  (tree, added) ← bt_add memory.tree s.tree req.key req.value
  if not memory.password then done none else do
    (auth_tree, protected) ← bt_add memory.auth_tree s.auth_tree req.key req.password
    done (some record { tree = tree; auth_tree = auth_tree })

unfoldable pub del_request : Request → State → Outcome (Option State)
del_request req s = do
  authentic ← authenticate s.auth_tree req
  if not authentic
      then done (some s)
      else do (tree, deleted) ← bt_delete s.tree req.key; done (some record s { tree = tree })

unfoldable pub mod_request : Request → State → Outcome (Option State)
mod_request req s = do
  authentic ← authenticate s.auth_tree req
  if not authentic then done (some s) else do
    (reply, lookup) ← bt_lookup s.tree req.key
    done (
        some (elim lookup [
          | none ↦ s
          | some value ↦ record s { tree = set_value s.tree req.key req.value }
        ]))

unfoldable pub get_request : Request → State → Outcome (Option State)
get_request req s = do (reply, lookup) ← bt_lookup s.tree req.key; done (some s)

unfoldable pub serve_request : Memory → Request → State → Outcome (Option State)
serve_request memory req s =
    if req.command == cmd_add
    then add_request memory req s
    else if req.command == cmd_del
    then del_request req s
    else if req.command == cmd_mod
    then mod_request req s
    else if req.command == cmd_get
    then get_request req s
    else done (some s)

pub data Arrival : Type 0 where
  no_connection : Arrival
  dropped : Arrival
  request : Request → Arrival

abbrev pub arrive : Memory → Arrival → State → Outcome (Option State)
arrive memory no_connection s = done (some s)
arrive memory dropped s = done (some s)
arrive memory (request req) s = serve_request memory req s

-- The loop of `main`, over the arrivals of its first rounds.
unfoldable pub serve : List (Memory × Arrival) → State → Outcome (Option State)
serve [] s = done (some s)
serve ((memory, arrival) ∷ arrivals) s = do
  result ← arrive memory arrival s
  elim result [ none ↦ done none | some s' ↦ serve arrivals s' ]

unfoldable pub main : List (Memory × Arrival) → Outcome (Option State)
main arrivals = serve arrivals record { tree = bt_initialize; auth_tree = bt_initialize }
