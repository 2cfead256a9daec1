-- ===== src/AclEntries/Tests.antt =====
-- A list with an entry for the user 1000, which the mask cuts.
use tlpi_exercises.Prelude.{
  ℕ, ◌≡◌, refl, Bool, true, false, some, List, [], ◌∷◌, Bytes, codes, if◌then◌else◌,
}
use tlpi_exercises.AclEntries.{
  ok, Tag, user_obj, user, group_obj, mask, other, get_perm_char, get_perm_string, find_mask,
  get_mask_permset, acl_user, acl_other, both_strings, show_entry, show_entries, finish, Opt, opt_u,
  parse_ids, no_id, main,
}
use tlpi_exercises.AclEntries.Report.{
  Grant, letters, mask_of, report, is_empty, subject_of, readable, main-report,
}

abbrev grant : Tag → ℕ → Bool → Bool → Grant
grant tag id write execute = record {
  tag = tag;
  id = id;
  read = true;
  write = write;
  execute = execute;
}

abbrev everyone : Grant
everyone = grant other 0 false false

abbrev grants : List Grant
grants =
    grant user_obj 0 true true
    ∷ grant user 1000 true false
    ∷ grant group_obj 0 false true
    ∷ grant mask 0 false true
    ∷ everyone
    ∷ []

abbrev strtol : Bytes → ℕ × Bytes
strtol text = (1000, [])

abbrev opts : List Opt
opts = opt_u (codes "1000") ∷ []

parsed : parse_ids strtol opts no_id no_id ≡ ok (1000, no_id)
unfolding parse_ids
parsed = refl

main-report_example :
    main 4 strtol opts (some (0, 0)) (readable grants) (readable grants)
    ≡ ok (
        if is_empty (report (subject_of 1000 no_id 0 0) (mask_of grants) grants)
        then acl_other (letters everyone) ∷ []
        else report (subject_of 1000 no_id 0 0) (mask_of grants) grants)
main-report_example = main-report strtol opts 1000 no_id 0 0 grants everyone parsed refl refl refl

run :
    main 4 strtol opts (some (0, 0)) (readable grants) (readable grants)
    ≡ ok (acl_user (codes "rw-") (codes "r--") ∷ [])
unfolding main parse_ids show_entries show_entry both_strings get_mask_permset find_mask
    get_perm_string get_perm_char finish
run = refl
