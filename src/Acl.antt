-- ===== src/Acl.antt =====
-- pkg/acl/acl/controller.go: groups of members and their permissions. The files of the user
-- (pkg/file) and encoding/json are the interface `Backend`; the lock is held by one call at a time.
pub mod Permissions
use fair_os_dfs.Prelude.{
  ℕ, ◌≡◌, ◌⊎◌, ◌≢◌, Bool, false, List, [], ◌∷◌, Option, none, some, if◌then◌else◌,
}
use fair_os_dfs.Prelude.Result.{Result, ok, err}
use fair_os_dfs.Prelude.Map.{GoMap, find, assign, delete}
use fair_os_dfs.Utils.Paths.{combine_path_and_file}
use fair_os_dfs.Utils.Address.{hex_to_address}

abbrev pub Text : Type 0
Text = List ℕ

-- no_permission is what a missing key of the map reads as
abbrev pub no_permission : ℕ
no_permission = 0

abbrev pub permission_write : ℕ
permission_write = 2

abbrev pub Permissions : Type 0
Permissions = GoMap ℕ

-- The calls of file.Download with io.ReadAll, file.Upload, json.Marshal and json.Unmarshal. `S` is
-- what a user's files are, `D` the contents of one.
pub record Backend (S : Type 0) (D : Type 0) (E : Type 0) : Type 0 where
  pub download : Text → Text → S → Result E D
  pub upload : Text → Text → D → S → Result E (Unit {0}) × S
  pub marshal : Permissions → D
  pub unmarshal : D → Result E Permissions
  pub is_empty : D → Bool

-- What the controller relies on: a successful upload is read back, and leaves other files alone;
-- JSON keeps a map's entries, and is never empty.
pub record IsBackend {S : Type 0} {D : Type 0} {E : Type 0} (b : Backend S D E) : Type 0 where
  pub download-upload :
      (u p : Text) (d : D) (s : S)
      → (b.upload u p d s).0 ≡ ok tt
      → b.download u p (b.upload u p d s).1 ≡ ok d
  pub download_other :
      (u p u' p' : Text) (d : D) (s : S)
      → (u' ≢ u) ⊎ (p' ≢ p)
      → b.download u' p' (b.upload u p d s).1 ≡ b.download u' p' s
  pub unmarshal-marshal :
      (m : Permissions)
      → (m' : Permissions) × (b.unmarshal (b.marshal m) ≡ ok m')
        × ((k : Text) → find k m' ≡ find k m)
  pub marshal_full : (m : Permissions) → b.is_empty (b.marshal m) ≡ false

-- A call fails with an error of the backend, or panics: assignment to an entry of a nil map.
pub data AclError (E : Type 0) : Type 0 where
  failed : E → AclError E
  panicked : AclError E

-- type ACL struct
pub record Acl (S : Type 0) : Type 0 where
  pub list_map : GoMap Permissions
  pub files : S

-- func NewACL
unfoldable pub new_acl : {S : Type 0} → S → Acl S
new_acl files = record { list_map = []; files = files }

-- permissions[member], 0 where there is none
pub permission_of : Permissions → Text → ℕ
permission_of m member = elim (find member m) [ none ↦ no_permission | some p ↦ p ]

-- listMap[group][member], on a nil map too
unfoldable pub listed : {S : Type 0} → Acl S → Text → Text → ℕ
unfolding permission_of
listed a group member = elim (find group a.list_map) [
  | none ↦ no_permission
  | some m ↦ permission_of m member
]

module _ {S : Type 0} {D : Type 0} {E : Type 0} (b : Backend S D E) where
  abbrev reported : Result E (Unit {0}) → Result (AclError E) (Unit {0})
  reported (ok t) = ok tt
  reported (err e) = err (failed e)

  -- the permissions that storePermissions writes
  abbrev pub to_store : Option Permissions → Text → Permissions
  to_store none owner = (owner, permission_write) ∷ []
  to_store (some m) owner = m

  abbrev with_group : Option Permissions → Text → Text → GoMap Permissions → GoMap Permissions
  with_group none group owner m = assign group ((owner, permission_write) ∷ []) m
  with_group (some p) group owner m = m

  -- func (a *ACL) storePermissions(group, ownerAddress string) error
  unfoldable pub store_permissions : Text → Text → Acl S → Result (AclError E) (Unit {0}) × Acl S
  store_permissions group owner a =
      let permissions = to_store (find group a.list_map) owner in
      let (r, files) =
        b.upload (hex_to_address owner) (combine_path_and_file owner group) (b.marshal permissions)
          a.files in
      (
        reported r,
        record {
          list_map = with_group (find group a.list_map) group owner a.list_map;
          files = files;
        },
      )

  abbrev loaded : Result E Permissions → Text → Acl S → Result (AclError E) (Unit {0}) × Acl S
  loaded (err e) group a = (err (failed e), a)
  loaded (ok m) group a = (ok tt, record a { list_map = assign group m a.list_map })

  -- func (a *ACL) loadPermissions(group, ownerAddress string) error
  unfoldable pub load_permissions : Text → Text → Acl S → Result (AclError E) (Unit {0}) × Acl S
  load_permissions group owner a =
      elim (b.download (hex_to_address owner) (combine_path_and_file owner group) a.files) [
        | err e ↦ (err (failed e), a)
        | ok d ↦ if b.is_empty d then loaded (ok []) group a else loaded (b.unmarshal d) group a
      ]

  abbrev after_load :
      {V : Type 0}
      → (Acl S → V)
      → Result (AclError E) (Unit {0}) × Acl S
      → Result (AclError E) V × Acl S
  after_load f (ok t, a) = (ok (f a), a)
  after_load f (err e, a) = (err e, a)

  -- func (a *ACL) GetGroupMembers(groupName, ownerAddress string) (map[string]uint8, error)
  pub get_group_members : Text → Text → Acl S → Result (AclError E) (Option Permissions) × Acl S
  unfolding load_permissions
  get_group_members group owner a =
      after_load (λ a'. find group a'.list_map) (load_permissions group owner a)

  -- func (a *ACL) GetPermission(groupName, ownerAddress, memberAddress string) (uint8, error)
  unfoldable pub get_permission : Text → Text → Text → Acl S → Result (AclError E) ℕ × Acl S
  unfolding load_permissions listed
  get_permission group owner member a =
      after_load (λ a'. listed a' group member) (load_permissions group owner a)

  -- func (a *ACL) CreateGroup(groupName, ownerAddress string) error
  pub create_group : Text → Text → Acl S → Result (AclError E) (Unit {0}) × Acl S
  unfolding store_permissions
  create_group group owner a = store_permissions group owner a

  -- func (a *ACL) AddMember and func (a *ACL) UpdatePermission: the two have one body
  unfoldable pub add_member :
      Text → Text → Text → ℕ → Acl S → Result (AclError E) (Unit {0}) × Acl S
  unfolding store_permissions
  add_member group owner member permission a = elim (find group a.list_map) [
    | none ↦ (err panicked, a)
    | some m ↦
        store_permissions group owner
          (record a { list_map = assign group (assign member permission m) a.list_map })
  ]

  -- func (a *ACL) RemoveMember(groupName, ownerAddress, memberAddress string) error
  unfoldable pub remove_member : Text → Text → Text → Acl S → Result (AclError E) (Unit {0}) × Acl S
  unfolding store_permissions
  remove_member group owner member a = elim (find group a.list_map) [
    | none ↦ store_permissions group owner a
    | some m ↦
        store_permissions group owner
          (record a { list_map = assign group (delete member m) a.list_map })
  ]

  -- func (a *ACL) RemoveGroup(groupName, ownerAddress string) error
  unfoldable pub remove_group : Text → Text → Acl S → Result (AclError E) (Unit {0}) × Acl S
  unfolding store_permissions
  remove_group group owner a =
      store_permissions group owner (record a { list_map = delete group a.list_map })
