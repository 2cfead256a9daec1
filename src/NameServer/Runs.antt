-- ===== src/NameServer/Runs.antt =====
-- Rounds of the server that are about one key.
use tlpi_exercises.Prelude.{
  Bytes, ◌≡◌, refl, Bool, true, false, not, ◌&&◌, some, List, [], ◌∷◌, ◌==◌, if◌then◌else◌, done,
}
use tlpi_exercises.BinaryTree.Spec.{get, IsOrdered, remove}
use tlpi_exercises.NameServer.{
  cmd_del, cmd_mod, Request, Memory, State, set_value, same, Arrival, no_connection, dropped,
  request, serve,
}
use tlpi_exercises.NameServer.Updates.{set_value-IsOrdered, get-set_value_self}
use tlpi_exercises.NameServer.Serving.{answer, serve_request-answer}

-- The server has the key, with this value and this password.
pub record Stores (s : State) (key value password : Bytes) : Type 0 where
  pub tree_ordered : IsOrdered s.tree
  pub auth_ordered : IsOrdered s.auth_tree
  pub has_value : get s.tree key ≡ some value
  pub has_password : get s.auth_tree key ≡ some password

-- A round with memory, with a request for the key, if any, that does not delete it by its password.
abbrev pub IsAbout : (key password : Bytes) → Memory → Arrival → Type 0
IsAbout key password memory no_connection = Unit
IsAbout key password memory dropped = Unit
IsAbout key password memory (request req) =
    (req.key ≡ key)
    × (memory.value ≡ true)
    × (memory.password ≡ true)
    × ((same password req.password && req.command == cmd_del) ≡ false)

abbrev pub AreAbout : (key password : Bytes) → List (Memory × Arrival) → Type 0
AreAbout key password [] = Unit
AreAbout key password ((memory, arrival) ∷ rounds) =
    IsAbout key password memory arrival × AreAbout key password rounds

-- The value after a request.
abbrev pub value_after : (password value : Bytes) → Arrival → Bytes
value_after password value no_connection = value
value_after password value dropped = value
value_after password value (request req) =
    if same password req.password && req.command == cmd_mod then req.value else value

abbrev pub last_value : (password value : Bytes) → List (Memory × Arrival) → Bytes
last_value password value [] = value
last_value password value ((memory, arrival) ∷ rounds) =
    last_value password (value_after password value arrival) rounds

answer-Stores :
    (req : Request) (s : State) (value password : Bytes)
    → Stores s req.key value password
    → (same password req.password && req.command == cmd_del) ≡ false
    → Stores (answer req password s) req.key (value_after password value (request req)) password
unfolding answer
answer-Stores req s value password h kept =
    by_test (same password req.password) (req.command == cmd_del) (req.command == cmd_mod) kept
  where
    by_test :
        (authentic is_del is_mod : Bool)
        → (authentic && is_del) ≡ false
        → Stores
            (if not authentic
              then s
              else if is_del
              then record s { tree = remove s.tree req.key }
              else if is_mod
              then record s { tree = set_value s.tree req.key req.value }
              else s)
            req.key
            (if authentic && is_mod then req.value else value)
            password
    by_test false is_del is_mod e = h
    by_test true true is_mod e = cc
    by_test true false false e = h
    by_test true false true e = record {
      tree_ordered = set_value-IsOrdered s.tree req.key req.value h.tree_ordered;
      auth_ordered = h.auth_ordered;
      has_value = get-set_value_self s.tree req.key req.value h.has_value;
      has_password = h.has_password;
    }

-- If the server has a key, and there is memory in all rounds, and every request is for that key and
-- none deletes it with its password: the server serves them all, and then has the key with its old
-- password and with the value of the last `CMD_MOD` that had the password, or with its first value.
pub serve-Stores :
    (rounds : List (Memory × Arrival)) (s : State) (key value password : Bytes)
    → Stores s key value password
    → AreAbout key password rounds
    → (s' : State) × (serve rounds s ≡ done (some s'))
      × Stores s' key (last_value password value rounds) password
unfolding serve
serve-Stores [] s key value password h a = (s, refl, h)
serve-Stores ((memory, no_connection) ∷ rounds) s key value password h a =
    serve-Stores rounds s key value password h a.1
serve-Stores ((memory, dropped) ∷ rounds) s key value password h a =
    serve-Stores rounds s key value password h a.1
serve-Stores ((memory, request req) ∷ rounds) s key value password h a =
    let here : Stores s req.key value password = rw (a.0.0) h in
    let next : Stores (answer req password s) key (value_after password value (request req))
        password =
      rw (← a.0.0) (answer-Stores req s value password here a.0.3) in
    let (s', run, stores) =
      serve-Stores rounds (answer req password s) key (value_after password value (request req))
        password next a.1 in
    (
      s',
      rw
          (
            serve_request-answer memory req s value password here.tree_ordered here.auth_ordered
                here.has_value here.has_password a.0.1 a.0.2,
            run,
          )
          refl,
      stores,
    )
