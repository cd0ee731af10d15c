-- ===== src/Tests/AclTests.antt =====
-- Instances for the groups: a backend in memory, whose files are a function of user and path.
use fair_os_dfs.Prelude.{
  ◌≡◌, ◌≢◌, inl, refl, false, ◌&&◌, [], ◌∷◌, Option, none, some, arith, if◌then◌else◌,
}
use fair_os_dfs.Prelude.Result.{Result, ok, err}
use fair_os_dfs.Prelude.Text.{
  text_eq, text_eq_iff, text_eq_refl, codes, trim_prefix, has_prefix, strip,
}
use fair_os_dfs.Prelude.Map.{find, assign, delete}
use fair_os_dfs.Utils.Paths.{combine_path_and_file}
use fair_os_dfs.Acl.{
  Text, Permissions, no_permission, permission_write, Backend, IsBackend, Acl, new_acl, listed,
  store_permissions, get_permission, add_member, remove_member, remove_group,
}
use fair_os_dfs.Acl.Permissions.{
  add_member-get_permission, remove_member-get_permission, remove_member_unloaded,
  remove_group-get_permission,
}

data Missing : Type 0 where
  missing : Missing

abbrev Files : Type 0
Files = Text → Text → Option Permissions

abbrev found : Option Permissions → Result Missing Permissions
found none = err missing
found (some m) = ok m

abbrev memory : Backend Files Permissions Missing
memory = record {
  download = λ u p s. found (s u p);
  upload = λ u p d s. (ok tt, λ v q. if text_eq u v && text_eq p q then some d else s v q);
  marshal = λ m. m;
  unmarshal = λ m. ok m;
  is_empty = λ m. false;
}

memory-IsBackend : IsBackend memory
memory-IsBackend = record {
  download-upload = λ u p d s h. rw (text_eq_refl u, text_eq_refl p);
  download_other = λ u p v q d s h. ground (arith, text_eq_iff u v, text_eq_iff p q);
  unmarshal-marshal = λ m. (m, refl, λ k. refl);
  marshal_full = λ m. refl;
}

abbrev alice : Text
alice = codes "a1"

abbrev bob : Text
bob = codes "b2"

abbrev team : Text
team = codes "team"

abbrev started : Acl Files
started = record { list_map = (team, (alice, 2) ∷ []) ∷ []; files = λ u p. none }

abbrev with_bob : Acl Files
with_bob = (add_member memory team alice bob 1 started).1

added : add_member memory team alice bob 1 started ≡ (ok tt, with_bob)
unfolding add_member store_permissions find assign text_eq
added = refl

add_member-get_permission_example :
    (get_permission memory team alice bob with_bob).0
    ≡ ok (if text_eq bob bob then 1 else listed started team bob)
add_member-get_permission_example =
    add_member-get_permission memory memory-IsBackend team alice bob bob 1 started with_bob added

-- the answer itself, with bob allowed to read
bob_reads : (get_permission memory team alice bob with_bob).0 ≡ ok 1
unfolding text_eq
bob_reads = add_member-get_permission_example

abbrev without_alice : Acl Files
without_alice = (remove_member memory team alice alice started).1

removed : remove_member memory team alice alice started ≡ (ok tt, without_alice)
unfolding remove_member store_permissions find assign delete text_eq
removed = refl

held : find team started.list_map ≡ some ((alice, 2) ∷ [])
unfolding find text_eq
held = refl

remove_member-get_permission_example :
    (get_permission memory team alice alice without_alice).0
    ≡ ok (if text_eq alice alice then no_permission else listed started team alice)
remove_member-get_permission_example =
    remove_member-get_permission memory memory-IsBackend team alice alice alice ((alice, 2) ∷ [])
      started without_alice held removed

-- A controller made anew over the files in which bob is a member.
abbrev restarted : Acl Files
restarted = new_acl with_bob.files

abbrev restarted_without : Acl Files
restarted_without = (remove_member memory team alice alice restarted).1

not_held : find team restarted.list_map ≡ none
unfolding new_acl find
not_held = refl

removed_unheld : remove_member memory team alice alice restarted ≡ (ok tt, restarted_without)
unfolding remove_member store_permissions new_acl find assign text_eq
removed_unheld = refl

remove_member_unloaded_example :
    (get_permission memory team alice bob restarted_without).0
    ≡ ok (if text_eq alice bob then permission_write else no_permission)
remove_member_unloaded_example =
    remove_member_unloaded memory memory-IsBackend team alice alice bob restarted restarted_without
      not_held (inl removed_unheld)

abbrev disbanded : Acl Files
disbanded = (remove_group memory team alice started).1

group_removed : remove_group memory team alice started ≡ (ok tt, disbanded)
unfolding remove_group store_permissions find assign delete text_eq
group_removed = refl

remove_group-get_permission_example :
    (get_permission memory team alice alice disbanded).0
    ≡ ok (if text_eq alice alice then permission_write else no_permission)
remove_group-get_permission_example =
    remove_group-get_permission memory memory-IsBackend team alice alice started disbanded
      group_removed

abbrev crew : Text
crew = codes "crew"

other_file : combine_path_and_file alice crew ≢ combine_path_and_file alice team
unfolding combine_path_and_file text_eq trim_prefix has_prefix strip
other_file h = ground arith
