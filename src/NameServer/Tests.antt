-- ===== src/NameServer/Tests.antt =====
-- A server with one key, and the theorems at it.
use tlpi_exercises.Prelude.{
  ℕ, List, ◌≡◌, refl, arith, Bytes, codes, strcmp, true, some, done, none, [], ◌∷◌,
}
use tlpi_exercises.BinaryTree.{
  null, node, Alloc, bt_initialize, bt_add, bt_create_node, bt_find_node, bt_lookup, read_at,
}
use tlpi_exercises.BinaryTree.Spec.{get}
use tlpi_exercises.NameServer.{
  cmd_del, cmd_add, cmd_mod, Request, Memory, State, serve_request, Arrival, dropped, request,
  serve, main, add_request, mod_request, authenticate, set_value,
}
use tlpi_exercises.NameServer.Serving.{answer, serve_request-answer}
use tlpi_exercises.NameServer.Runs.{Stores, AreAbout, last_value, serve-Stores}
use tlpi_exercises.NameServer.Unknown.{IsSufficient, answer_unknown, serve_request-answer_unknown}

abbrev working : Alloc
working = record { node_memory = true; key_memory = true }

abbrev memory : Memory
memory = record { value = true; password = true; tree = working; auth_tree = working }

abbrev asking : ℕ → Bytes → Bytes → Request
asking command password key = record {
  command = command;
  password = password;
  key = key;
  value = codes "10.0.0.2";
}

abbrev one_key : State
one_key = record {
  tree = node null null (codes "host") (codes "10.0.0.1");
  auth_tree = node null null (codes "host") (codes "secret");
}

has_value : get one_key.tree (codes "host") ≡ some (codes "10.0.0.1")
unfolding get strcmp
has_value = refl

has_password : get one_key.auth_tree (codes "host") ≡ some (codes "secret")
unfolding get strcmp
has_password = refl

no_value : get one_key.tree (codes "mail") ≡ none
unfolding get strcmp
no_value = refl

no_password : get one_key.auth_tree (codes "mail") ≡ none
unfolding get strcmp
no_password = refl

sufficient : IsSufficient memory
sufficient = record {
  value = refl;
  password = refl;
  tree_node = refl;
  tree_key = refl;
  auth_node = refl;
  auth_key = refl;
}

serve_request-answer_example :
    serve_request memory (asking cmd_mod (codes "secret") (codes "host")) one_key
    ≡ done (some (answer (asking cmd_mod (codes "secret") (codes "host")) (codes "secret") one_key))
serve_request-answer_example =
    serve_request-answer memory (asking cmd_mod (codes "secret") (codes "host")) one_key
      (codes "10.0.0.1") (codes "secret") (tt, tt, tt, tt) (tt, tt, tt, tt) has_value has_password
      refl refl

serve_request-answer_unknown_example :
    serve_request memory (asking cmd_add (codes "guess") (codes "mail")) one_key
    ≡ answer_unknown (asking cmd_add (codes "guess") (codes "mail")) one_key
serve_request-answer_unknown_example =
    serve_request-answer_unknown memory (asking cmd_add (codes "guess") (codes "mail")) one_key
      (tt, tt, tt, tt) (tt, tt, tt, tt) refl refl no_value no_password (omega arith) sufficient

-- The loop of the server: a key is added, a wrong password changes nothing, the right one its value.
run :
    main (
      (
        memory,
        request
            (record (asking cmd_add (codes "secret") (codes "host")) { value = codes "10.0.0.1" }),
      )
      ∷ (memory, request (asking cmd_mod (codes "guess") (codes "host")))
      ∷ (memory, request (asking cmd_mod (codes "secret") (codes "host")))
      ∷ [])
    ≡ done (some record one_key { tree = node null null (codes "host") (codes "10.0.0.2") })
unfolding main serve serve_request add_request mod_request authenticate set_value bt_initialize
    bt_add bt_create_node bt_find_node bt_lookup strcmp read_at
run = refl

abbrev rounds : List (Memory × Arrival)
rounds =
    (memory, dropped)
    ∷ (memory, request (asking cmd_mod (codes "secret") (codes "host")))
    ∷ (memory, request (asking cmd_del (codes "guess") (codes "host")))
    ∷ []

known : Stores one_key (codes "host") (codes "10.0.0.1") (codes "secret")
known = record {
  tree_ordered = (tt, tt, tt, tt);
  auth_ordered = (tt, tt, tt, tt);
  has_value = has_value;
  has_password = has_password;
}

about_host : AreAbout (codes "host") (codes "secret") rounds
unfolding strcmp
about_host = (tt, ((refl, refl, refl, refl), ((refl, refl, refl, refl), tt)))

serve-Stores_example :
    (s' : State) × (serve rounds one_key ≡ done (some s'))
    × Stores s'
        (codes "host")
        (last_value (codes "secret") (codes "10.0.0.1") rounds)
        (codes "secret")
serve-Stores_example =
    serve-Stores rounds one_key (codes "host") (codes "10.0.0.1") (codes "secret") known about_host
