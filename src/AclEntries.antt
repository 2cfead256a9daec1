-- ===== src/AclEntries.antt =====
-- The entries of an access control list that concern a user or a group:
-- 17_Access_Control_Lists/get_named_acl_entry.c.
--
-- What the library for such lists answers is an argument: for each entry that `acl_get_entry` gives its
-- tag, qualifier and permissions, each absent where the call fails. The list is read once by `main`, and
-- again by `getMaskPermset`. `getopt` gives a list of options, `strtol` a number and the rest of the
-- text, `stat` the owner and the group. Ids are numbers below 2 ^ 32. The few bytes that `malloc` is
-- asked for are there. `exited` is the end of the program by an error, `fault` is undefined behaviour.
pub mod Report
mod Tests
use tlpi_exercises.Prelude.{
  ℕ, ◌-◌, ◌^◌, Bool, true, false, not, ◌&&◌, Option, none, some, List, [], ◌∷◌, ◌++◌, Bytes, ◌==◌,
  if◌then◌else◌,
}

pub data Result {ℓ} (A : Type ℓ) : Type ℓ where
  ok : A → Result A
  exited : Result A
  fault : Result A

infixl 5 ◌>>=◌
abbrev pub ◌>>=◌ {ℓ κ} : {A : Type ℓ} {B : Type κ} → Result A → (A → Result B) → Result B
ok a >>= f = f a
exited >>= f = exited
fault >>= f = fault

-- A call whose failure is `errExit`.
abbrev pub need {ℓ} : {A : Type ℓ} → Option A → Result A
need none = exited
need (some a) = ok a

pub data Tag : Type 0 where
  user_obj : Tag
  user : Tag
  group_obj : Tag
  group : Tag
  mask : Tag
  other : Tag

-- What `acl_get_perm` says for each permission.
pub record Permset : Type 0 where
  pub read : Option Bool
  pub write : Option Bool
  pub execute : Option Bool

pub record AclEntry : Type 0 where
  pub tag : Option Tag
  pub qualifier : Option ℕ
  pub permset : Option Permset

-- `getPermChar` for the permission that `perm` selects
unfoldable pub get_perm_char : Permset → Option Permset → (Permset → Option Bool) → Result Bool
get_perm_char permset none perm = need (perm permset)
get_perm_char permset (some m) perm = do
  perm_val ← need (perm permset)
  mask_val ← need (perm m)
  ok (perm_val && mask_val)

unfoldable pub get_perm_string : Permset → Option Permset → Result Bytes
get_perm_string permset m = do
  r ← get_perm_char permset m (λ (p : Permset). p.read)
  w ← get_perm_char permset m (λ (p : Permset). p.write)
  x ← get_perm_char permset m (λ (p : Permset). p.execute)
  ok ((if r then b'r' else b'-') ∷ (if w then b'w' else b'-') ∷ (if x then b'x' else b'-') ∷ [])

-- The entries as they are read, and whether `acl_get_entry` fails in the end.
pub record Reading : Type 0 where
  pub entries : List AclEntry
  pub fails : Bool

unfoldable pub find_mask : List AclEntry → Bool → Result (Option Permset)
find_mask [] fails = if fails then exited else ok none
find_mask (entry ∷ entries) fails =
    let rest = find_mask entries fails in
    need entry.tag >>= λ tag. elim tag [
      | mask ↦ (need entry.permset >>= λ permset. ok (some permset))
      | user_obj ↦ rest
      | user ↦ rest
      | group_obj ↦ rest
      | group ↦ rest
      | other ↦ rest
    ]

-- `acl` is what `acl_get_file` gives.
unfoldable pub get_mask_permset : (acl : Option Reading) → Result (Option Permset)
get_mask_permset none = exited
get_mask_permset (some reading) = find_mask reading.entries reading.fails

-- The lines that are printed.
pub data Line : Type 0 where
  acl_user_obj : Bytes → Line
  acl_user : (permissions effective : Bytes) → Line
  acl_group_obj : (permissions effective : Bytes) → Line
  acl_group : (permissions effective : Bytes) → Line
  acl_other : Bytes → Line

-- Whom the program is asked about, and whether that is the owner or the group of the file.
pub record Subject : Type 0 where
  pub uid : ℕ
  pub gid : ℕ
  pub is_file_owner : Bool
  pub is_group_owner : Bool

pub record Walk : Type 0 where
  pub has_named_entry : Bool
  pub other_perm_string : Option Bytes
  pub out : List Line

abbrev pub print : Line → Walk → Walk
print line walk = record walk { out = walk.out ++ line ∷ [] }

abbrev pub print_named : Line → Walk → Walk
print_named line walk = record walk { has_named_entry = true; out = walk.out ++ line ∷ [] }

-- The permissions and, by the mask that is read again, the effective ones.
unfoldable pub both_strings : Option Reading → AclEntry → Result (Bytes × Bytes)
both_strings acl entry = do
  permset ← need entry.permset
  perm_string ← get_perm_string permset none
  mask_permset ← get_mask_permset acl
  masked_string ← get_perm_string permset mask_permset
  ok (perm_string, masked_string)

-- One round of the loop of `main`.
unfoldable pub show_entry : Subject → Option Reading → Tag → AclEntry → Walk → Result Walk
show_entry subject acl user_obj entry walk = if not subject.is_file_owner then ok walk else do
  permset ← need entry.permset
  perm_string ← get_perm_string permset none
  ok (print (acl_user_obj perm_string) walk)
show_entry subject acl user entry walk = do
  tag_qualifier ← need entry.qualifier
  if not (tag_qualifier == subject.uid) then ok walk else do
    (perm_string, masked_string) ← both_strings acl entry
    ok (print_named (acl_user perm_string masked_string) walk)
show_entry subject acl group_obj entry walk = if not subject.is_group_owner then ok walk else do
  (perm_string, masked_string) ← both_strings acl entry
  ok (print (acl_group_obj perm_string masked_string) walk)
show_entry subject acl group entry walk = do
  tag_qualifier ← need entry.qualifier
  if not (tag_qualifier == subject.gid) then ok walk else do
    (perm_string, masked_string) ← both_strings acl entry
    ok (print_named (acl_group perm_string masked_string) walk)
show_entry subject acl mask entry walk = ok walk
show_entry subject acl other entry walk = do
  permset ← need entry.permset
  perm_string ← get_perm_string permset none
  ok record walk { other_perm_string = some perm_string }

unfoldable pub show_entries : Subject → Option Reading → List AclEntry → Walk → Result Walk
show_entries subject acl [] walk = ok walk
show_entries subject acl (entry ∷ entries) walk = do
  tag ← need entry.tag
  walk' ← show_entry subject acl tag entry walk
  show_entries subject acl entries walk'

-- Behind the loop: the string for the others is printed where no other entry was, and freed.
unfoldable pub finish : Subject → Walk → Result (List Line)
finish subject walk = elim (walk.other_perm_string) [
  | none ↦ fault
  | some perm_string ↦ ok (
      if not subject.is_file_owner && not subject.is_group_owner && not walk.has_named_entry
      then walk.out ++ acl_other perm_string ∷ []
      else walk.out)
]

pub data Opt : Type 0 where
  opt_u : Bytes → Opt
  opt_g : Bytes → Opt
  unknown : Opt

-- The loop over the options.
unfoldable pub parse_ids : (Bytes → ℕ × Bytes) → List Opt → (uid gid : ℕ) → Result (ℕ × ℕ)
parse_ids strtol [] uid gid = ok (uid, gid)
parse_ids strtol (opt_u optarg ∷ opts) uid gid =
    let (id, rest) = strtol optarg in
    elim rest [ [] ↦ parse_ids strtol opts id gid | c ∷ cs ↦ exited ]
parse_ids strtol (opt_g optarg ∷ opts) uid gid =
    let (id, rest) = strtol optarg in
    elim rest [ [] ↦ parse_ids strtol opts uid id | c ∷ cs ↦ exited ]
parse_ids strtol (unknown ∷ opts) uid gid = exited

-- `(uid_t) -1`
abbrev pub no_id : ℕ
no_id = 2 ^ 32 - 1

-- `owners` is what `stat` gives, `acl` and `again` what `acl_get_file` does, in `main` and later.
unfoldable pub main :
    (argc : ℕ) (strtol : Bytes → ℕ × Bytes) (opts : List Opt) (owners : Option (ℕ × ℕ))
    (acl again : Option Reading)
    → Result (List Line)
main argc strtol opts owners acl again = if not (argc == 4) then exited else do
  (uid, gid) ← parse_ids strtol opts no_id no_id
  (st_uid, st_gid) ← need owners
  reading ← need acl
  let subject : Subject = record {
    uid = uid;
    gid = gid;
    is_file_owner = st_uid == uid;
    is_group_owner = st_gid == gid;
  }
  walk ←
      show_entries subject again reading.entries
        record { has_named_entry = false; other_perm_string = none; out = [] }
  finish subject walk
