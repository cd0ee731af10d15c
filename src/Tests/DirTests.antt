-- ===== src/Tests/DirTests.antt =====
-- Instances for the directories: files in memory, and a root directory that is in the cache.
use fair_os_dfs.Prelude.{
  ◌≡◌, refl, List, true, false, [], ◌∷◌, ◌++◌, Option, none, some, if◌then◌else◌,
}
use fair_os_dfs.Prelude.Result.{Result, ok, err}
use fair_os_dfs.Prelude.Text.{text_eq, text_eq_refl, codes, trim_prefix, has_prefix, strip}
use fair_os_dfs.Prelude.Map.{find, assign, delete}
use fair_os_dfs.Utils.Paths.{combine_path_and_file}
use fair_os_dfs.Dir.{
  Text, Inode, index_file_name, Backend, Directory, entry_name, without_name, total_path, get_inode,
  get_from_feed, remove_from_directory_map, get_dir_from_directory_map, add_to_directory_map,
  set_inode, added, add_entry_to_dir, remove_entry_from_dir,
}
use fair_os_dfs.Prelude.Filepath.{dir, base}
use fair_os_dfs.Dir.Make.{new_inode, mk_dir, removed_path, remove_inode}
use fair_os_dfs.Dir.MkDir.{mk_dir-Holds, remove_inode-Holds}
use fair_os_dfs.Dir.Names.{IsWithout}
use fair_os_dfs.Dir.Entries.{IsBackend, Holds, add_entry_to_dir-Holds, remove_entry_from_dir-Holds}

data Missing : Type 0 where
  missing : Missing

abbrev Files : Type 0
Files = Text → Option Inode

abbrev or_missing : Option Inode → Result Missing Inode
or_missing none = err missing
or_missing (some i) = ok i

abbrev put : Text → Inode → Files → Files
put p x s q = if text_eq (combine_path_and_file p index_file_name) q then some x else s q

abbrev memory : Backend Files Inode Missing
memory = record {
  download = λ p s. or_missing (s p);
  upload_index = λ p x s. (ok tt, put p x s);
  feed_data = λ p s. err missing;
  delete_feed = λ p s. s;
  marshal = λ i. i;
  unmarshal = λ i. ok i;
  is_deleted_magic = λ i. false;
}

memory-IsBackend : IsBackend memory
memory-IsBackend = record {
  download-upload = λ p x s h. rw (text_eq_refl (combine_path_and_file p index_file_name));
  unmarshal-marshal = λ i. refl;
  marshal_not_magic = λ i. refl;
}

abbrev root : Text
root = codes "/"

abbrev root_inode : Inode
root_inode = record {
  meta = record {
    version = 2;
    path = [];
    name = root;
    mode = 0;
    creation_time = 1;
    modification_time = 1;
    access_time = 1;
  };
  file_or_dir_names = [];
}

abbrev cached : Directory Files
cached = record { dir_map = (root, root_inode) ∷ []; files = λ p. none }

abbrev a_file : Text
a_file = codes "a"

abbrev with_file : Directory Files
with_file = (add_entry_to_dir memory root a_file true 5 cached).1

abbrev without_file : Directory Files
without_file = (remove_entry_from_dir memory root a_file true 6 with_file).1

got_root : get_inode memory root cached ≡ (ok root_inode, cached)
unfolding get_inode get_dir_from_directory_map find text_eq
got_root = refl

root_path : total_path memory root_inode ≡ root
unfolding combine_path_and_file text_eq trim_prefix has_prefix strip
root_path = refl

file_added : add_entry_to_dir memory root a_file true 5 cached ≡ (ok tt, with_file)
unfolding add_entry_to_dir get_inode get_dir_from_directory_map set_inode find text_eq
file_added = refl

file_removed : remove_entry_from_dir memory root a_file true 6 with_file ≡ (ok tt, without_file)
unfolding add_entry_to_dir remove_entry_from_dir get_inode get_dir_from_directory_map set_inode
    add_to_directory_map find assign text_eq combine_path_and_file trim_prefix has_prefix strip
file_removed = refl

add_entry_to_dir-Holds_example :
    Holds memory memory-IsBackend root
      (record {
        meta = record root_inode.meta { modification_time = 5 };
        file_or_dir_names = [] ++ (codes "_F_" ++ a_file) ∷ [];
      })
      with_file
add_entry_to_dir-Holds_example =
    add_entry_to_dir-Holds memory memory-IsBackend root a_file true 5 root_inode cached cached
      with_file got_root root_path file_added

abbrev root_with_file : Inode
root_with_file = added memory (entry_name a_file true) 5 root_inode

got_changed : get_inode memory root with_file ≡ (ok root_with_file, with_file)
unfolding add_entry_to_dir get_inode get_dir_from_directory_map set_inode add_to_directory_map find
    assign text_eq combine_path_and_file trim_prefix has_prefix strip
got_changed = refl

remove_entry_from_dir-Holds_example :
    (after : Inode) × IsWithout (codes "_F_" ++ a_file) 6 root_with_file after
    × Holds memory memory-IsBackend root after without_file
remove_entry_from_dir-Holds_example =
    remove_entry_from_dir-Holds memory memory-IsBackend root a_file true 6 root_with_file with_file
      with_file without_file got_changed root_path file_removed

nothing_there : without_name (entry_name a_file true) [] ≡ []
unfolding without_name
nothing_there = refl

abbrev below_root : Text
below_root = codes "/b"

abbrev with_dir : Directory Files
with_dir = (mk_dir memory below_root 0 5 6 cached).1

dir_made : mk_dir memory below_root 0 5 6 cached ≡ (ok tt, with_dir)
unfolding mk_dir add_entry_to_dir get_inode get_from_feed get_dir_from_directory_map set_inode
    add_to_directory_map find assign text_eq combine_path_and_file trim_prefix has_prefix strip dir
    base
dir_made = refl

mk_dir-Holds_example :
    (get_dir_from_directory_map (combine_path_and_file (dir below_root) (base below_root)) with_dir
      ≡ some (new_inode (dir below_root) (base below_root) 0 5))
    × Holds memory memory-IsBackend
        (dir below_root)
        (added memory (entry_name (base below_root) false) 6 root_inode)
        with_dir
unfolding get_inode get_dir_from_directory_map find text_eq dir base combine_path_and_file
    trim_prefix has_prefix strip
mk_dir-Holds_example =
    mk_dir-Holds memory memory-IsBackend below_root 0 5 6 root_inode cached cached with_dir refl
      refl dir_made

abbrev rm_none : Text → Files → Result Missing (Unit {0}) × Files
rm_none p s = (ok tt, s)

abbrev without_dir : Directory Files
without_dir = (remove_inode memory rm_none below_root 7 with_dir).1

abbrev root_with_dir : Inode
root_with_dir = added memory (entry_name (codes "b") false) 6 root_inode

abbrev root_alone : Directory Files
root_alone = remove_from_directory_map below_root with_dir

remove_inode-Holds_example :
    (after : Inode) × IsWithout
      (codes "_D_" ++ base (removed_path memory rm_none below_root))
      7
      root_with_dir
      after
    × Holds memory memory-IsBackend (dir (dir below_root)) after without_dir
unfolding remove_inode remove_entry_from_dir remove_from_directory_map mk_dir add_entry_to_dir
    get_inode get_from_feed get_dir_from_directory_map set_inode add_to_directory_map find assign
    delete text_eq combine_path_and_file trim_prefix has_prefix strip dir base
remove_inode-Holds_example =
    remove_inode-Holds memory memory-IsBackend rm_none below_root 7 with_dir.files root_with_dir
      with_dir root_alone without_dir refl refl refl refl refl

-- Two levels down, the entry is looked for in the root and stays in its directory.
abbrev two_down : Directory Files
two_down =
    (remove_inode memory rm_none (codes "/b/c") 9 (mk_dir memory (codes "/b/c") 0 7 8 with_dir).1).1

abbrev names_of : Option Inode → List Text
names_of none = []
names_of (some i) = i.file_or_dir_names

entry_stays : names_of (get_dir_from_directory_map below_root two_down) ≡ codes "_D_c" ∷ []
unfolding remove_inode remove_entry_from_dir remove_from_directory_map mk_dir add_entry_to_dir
    get_inode get_from_feed get_dir_from_directory_map set_inode add_to_directory_map find assign
    delete text_eq combine_path_and_file trim_prefix has_prefix strip dir base without_name
entry_stays = refl
