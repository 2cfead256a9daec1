-- ===== src/AclEntries/Report.antt =====
-- What the program prints for a list whose entries can all be read.
use tlpi_exercises.Prelude.{
  ℕ, ◌≡◌, refl, sym, ap, ◌∙◌, Bool, true, false, not, ◌&&◌, ◌||◌, Option, none, some, List, [], ◌∷◌,
  ◌++◌, map, Bytes, ◌==◌, if◌then◌else◌, arith, append_assoc, append-nil,
}
use tlpi_exercises.AclEntries.{
  Result, ok, Tag, user_obj, user, group_obj, group, mask, other, Permset, AclEntry, get_perm_char,
  get_perm_string, Reading, find_mask, get_mask_permset, Line, acl_user_obj, acl_user,
  acl_group_obj, acl_group, acl_other, Subject, Walk, both_strings, show_entry, show_entries,
  finish, Opt, parse_ids, no_id, main,
}

-- An entry that can be read.
pub record Grant : Type 0 where
  pub tag : Tag
  pub id : ℕ
  pub read : Bool
  pub write : Bool
  pub execute : Bool

abbrev pub permset_of : Grant → Permset
permset_of g = record { read = some g.read; write = some g.write; execute = some g.execute }

abbrev pub entry_of : Grant → AclEntry
entry_of g = record { tag = some g.tag; qualifier = some g.id; permset = some (permset_of g) }

abbrev pub letters : Grant → Bytes
letters g =
    (if g.read then b'r' else b'-')
    ∷ (if g.write then b'w' else b'-')
    ∷ (if g.execute then b'x' else b'-')
    ∷ []

-- The permissions that are in the mask, too.
abbrev pub effective : Option Grant → Grant → Grant
effective none g = g
effective (some m) g = record g {
  read = g.read && m.read;
  write = g.write && m.write;
  execute = g.execute && m.execute;
}

-- The first mask of the list.
abbrev pub if_mask : Tag → Grant → Option Grant → Option Grant
if_mask user_obj g rest = rest
if_mask user g rest = rest
if_mask group_obj g rest = rest
if_mask group g rest = rest
if_mask mask g rest = some g
if_mask other g rest = rest

abbrev pub mask_of : List Grant → Option Grant
mask_of [] = none
mask_of (g ∷ gs) = if_mask g.tag g (mask_of gs)

-- The line for an entry, if it concerns the subject.
abbrev pub line_of : Subject → Option Grant → Tag → Grant → List Line
line_of subject m user_obj g = if subject.is_file_owner then acl_user_obj (letters g) ∷ [] else []
line_of subject m user g =
    if g.id == subject.uid then acl_user (letters g) (letters (effective m g)) ∷ [] else []
line_of subject m group_obj g =
    if subject.is_group_owner then acl_group_obj (letters g) (letters (effective m g)) ∷ [] else []
line_of subject m group g =
    if g.id == subject.gid then acl_group (letters g) (letters (effective m g)) ∷ [] else []
line_of subject m mask g = []
line_of subject m other g = []

abbrev pub report : Subject → Option Grant → List Grant → List Line
report subject m [] = []
report subject m (g ∷ gs) = line_of subject m g.tag g ++ report subject m gs

-- The last entry for the others.
abbrev pub if_other : Tag → Grant → Option Grant → Option Grant
if_other user_obj g before = before
if_other user g before = before
if_other group_obj g before = before
if_other group g before = before
if_other mask g before = before
if_other other g before = some g

abbrev pub last_other : Option Grant → List Grant → Option Grant
last_other before [] = before
last_other before (g ∷ gs) = last_other (if_other g.tag g before) gs

abbrev is_named : Subject → Tag → Grant → Bool
is_named subject user_obj g = false
is_named subject user g = g.id == subject.uid
is_named subject group_obj g = false
is_named subject group g = g.id == subject.gid
is_named subject mask g = false
is_named subject other g = false

abbrev any_named : Subject → List Grant → Bool
any_named subject [] = false
any_named subject (g ∷ gs) = is_named subject g.tag g || any_named subject gs

abbrev permsets : Option Grant → Option Permset
permsets none = none
permsets (some m) = some (permset_of m)

abbrev strings : Option Grant → Option Bytes
strings none = none
strings (some g) = some (letters g)

get_perm_string-letters :
    (g : Grant) (m : Option Grant)
    → get_perm_string (permset_of g) (permsets m) ≡ ok (letters (effective m g))
unfolding get_perm_string get_perm_char
get_perm_string-letters g none = refl
get_perm_string-letters g (some m) = refl

find_mask-mask_of :
    (gs : List Grant) → find_mask (map entry_of gs) false ≡ ok (permsets (mask_of gs))
unfolding find_mask
find_mask-mask_of [] = refl
find_mask-mask_of (g ∷ gs) = by_tag g.tag (find_mask-mask_of gs)
  where
    by_tag :
        (tag : Tag)
        → find_mask (map entry_of gs) false ≡ ok (permsets (mask_of gs))
        → (elim tag as (λ _. Result (Option Permset)) [
          | mask ↦ ok (some (permset_of g))
          | user_obj ↦ find_mask (map entry_of gs) false
          | user ↦ find_mask (map entry_of gs) false
          | group_obj ↦ find_mask (map entry_of gs) false
          | group ↦ find_mask (map entry_of gs) false
          | other ↦ find_mask (map entry_of gs) false
        ])
          ≡ ok (permsets (if_mask tag g (mask_of gs)))
    by_tag mask e = refl
    by_tag user_obj e = e
    by_tag user e = e
    by_tag group_obj e = e
    by_tag group e = e
    by_tag other e = e

-- What `acl_get_file` gives for such a list.
abbrev pub readable : List Grant → Option Reading
readable all = some record { entries = map entry_of all; fails = false }

module _ (subject : Subject) (all : List Grant) where
  both_strings-letters :
      (g : Grant)
      → both_strings (readable all) (entry_of g)
        ≡ ok (letters g, letters (effective (mask_of all) g))
  unfolding both_strings get_mask_permset
  both_strings-letters g =
      rw
        (
          find_mask-mask_of all,
          get_perm_string-letters g none,
          get_perm_string-letters g (mask_of all),
        )
        refl

  abbrev walked : Bool → Option Grant → List Line → Walk
  walked named o out = record { has_named_entry = named; other_perm_string = strings o; out = out }

  show_entry-line_of :
      (tag : Tag) (g : Grant) (named : Bool) (o : Option Grant) (out : List Line)
      → show_entry subject (readable all) tag (entry_of g) (walked named o out)
        ≡ ok (
            walked
              (is_named subject tag g || named)
              (if_other tag g o)
              (out ++ line_of subject (mask_of all) tag g))
  unfolding show_entry
  show_entry-line_of user_obj g named o out =
      ground (arith, append-nil out, get_perm_string-letters g none)
  show_entry-line_of user g named o out = ground (arith, append-nil out, both_strings-letters g)
  show_entry-line_of group_obj g named o out =
      ground (arith, append-nil out, both_strings-letters g)
  show_entry-line_of group g named o out = ground (arith, append-nil out, both_strings-letters g)
  show_entry-line_of mask g named o out = ground (arith, append-nil out)
  show_entry-line_of other g named o out =
      ground (arith, append-nil out, get_perm_string-letters g none)

  or_assoc : (a b c : Bool) → (a || (b || c)) ≡ ((b || a) || c)
  or_assoc a b c = ground arith

  show_entries-report :
      (gs : List Grant) (named : Bool) (o : Option Grant) (out : List Line)
      → show_entries subject (readable all) (map entry_of gs) (walked named o out)
        ≡ ok (
            walked
              (named || any_named subject gs)
              (last_other o gs)
              (out ++ report subject (mask_of all) gs))
  unfolding show_entries
  show_entries-report [] named o out = ground (arith, append-nil out)
  show_entries-report (g ∷ gs) named o out =
      let line : List Line = line_of subject (mask_of all) g.tag g in
      rw (show_entry-line_of g.tag g named o out) (
        show_entries-report gs (is_named subject g.tag g || named) (if_other g.tag g o)
          (out ++ line)
        ∙ ap
            (λ b. ok (
              walked b (last_other (if_other g.tag g o) gs)
                ((out ++ line) ++ report subject (mask_of all) gs)))
            (sym (or_assoc named (is_named subject g.tag g) (any_named subject gs)))
        ∙ ap
            (λ l. ok (
              walked (named || (is_named subject g.tag g || any_named subject gs))
                (last_other (if_other g.tag g o) gs) l))
            (append_assoc out line (report subject (mask_of all) gs)))

-- The list has entries for the owner and for the group of the file, as every such list has.
abbrev pub is_tag : Tag → Tag → Bool
is_tag user_obj t = elim t [ user_obj ↦ true | _ ↦ false ]
is_tag user t = elim t [ user ↦ true | _ ↦ false ]
is_tag group_obj t = elim t [ group_obj ↦ true | _ ↦ false ]
is_tag group t = elim t [ group ↦ true | _ ↦ false ]
is_tag mask t = elim t [ mask ↦ true | _ ↦ false ]
is_tag other t = elim t [ other ↦ true | _ ↦ false ]

abbrev pub has_tag : Tag → List Grant → Bool
has_tag t [] = false
has_tag t (g ∷ gs) = is_tag t g.tag || has_tag t gs

abbrev pub is_empty : List Line → Bool
is_empty [] = true
is_empty (line ∷ lines) = false

is_empty-append : (xs ys : List Line) → is_empty (xs ++ ys) ≡ (is_empty xs && is_empty ys)
is_empty-append [] ys = refl
is_empty-append (x ∷ xs) ys = refl

is_empty-line_of :
    (subject : Subject) (m : Option Grant) (t : Tag) (g : Grant)
    → is_empty (line_of subject m t g)
      ≡ not (
          (subject.is_file_owner && is_tag user_obj t)
          || (subject.is_group_owner && is_tag group_obj t)
          || is_named subject t g)
is_empty-line_of subject m t g = ground arith

is_empty-report :
    (subject : Subject) (m : Option Grant) (gs : List Grant)
    → is_empty (report subject m gs)
      ≡ not (
          (subject.is_file_owner && has_tag user_obj gs)
          || (subject.is_group_owner && has_tag group_obj gs)
          || any_named subject gs)
is_empty-report subject m [] = ground arith
is_empty-report subject m (g ∷ gs) =
    is_empty-append (line_of subject m g.tag g) (report subject m gs)
    ∙ ground (arith, is_empty-line_of subject m g.tag g, is_empty-report subject m gs)

finish-report :
    (subject : Subject) (named : Bool) (o : Grant) (out : List Line)
    → is_empty out ≡ not (subject.is_file_owner || subject.is_group_owner || named)
    → finish subject
        (record { has_named_entry = named; other_perm_string = some (letters o); out = out })
      ≡ ok (if is_empty out then acl_other (letters o) ∷ [] else out)
unfolding finish
finish-report subject named o [] h = ground arith
finish-report subject named o (line ∷ lines) h = ground arith

abbrev pub subject_of : (uid gid st_uid st_gid : ℕ) → Subject
subject_of uid gid st_uid st_gid = record {
  uid = uid;
  gid = gid;
  is_file_owner = st_uid == uid;
  is_group_owner = st_gid == gid;
}

-- The program on a file whose list can be read, twice with the same result, and has entries for the
-- owner, the group and the others: it prints the entry of the owner, if the user is the owner, and
-- those named for the user or the group and that of the group, if the group is the file's, each with
-- the permissions that the first mask of the list, if any, leaves, and in the order of the list. If
-- there is none, it prints the last entry for the others, and only then.
pub main-report :
    (strtol : Bytes → ℕ × Bytes) (opts : List Opt) (uid gid st_uid st_gid : ℕ) (gs : List Grant)
    (o : Grant)
    → parse_ids strtol opts no_id no_id ≡ ok (uid, gid)
    → last_other none gs ≡ some o
    → has_tag user_obj gs ≡ true
    → has_tag group_obj gs ≡ true
    → main 4 strtol opts (some (st_uid, st_gid)) (readable gs) (readable gs)
      ≡ ok (
          if is_empty (report (subject_of uid gid st_uid st_gid) (mask_of gs) gs)
          then acl_other (letters o) ∷ []
          else report (subject_of uid gid st_uid st_gid) (mask_of gs) gs)
unfolding main
main-report strtol opts uid gid st_uid st_gid gs o parsed others has_owner has_group =
    let subject : Subject = subject_of uid gid st_uid st_gid in
    let lines : List Line = report subject (mask_of gs) gs in
    rw (parsed, show_entries-report subject gs gs false none [], others)
      (finish-report subject (any_named subject gs) o lines
        (is_empty-report subject (mask_of gs) gs ∙ ground arith))
