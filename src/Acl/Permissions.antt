-- ===== src/Acl/Permissions.antt =====
-- What GetPermission answers after each change of a group (pkg/acl/acl/controller.go).
use fair_os_dfs.Prelude.{
  Bool-cases, ℕ, ◌≡◌, ◌≢◌, ◌⊎◌, inl, inr, refl, sym, ◌∙◌, none, some, [], arith, if◌then◌else◌,
  Option-cases, ap,
}
use fair_os_dfs.Prelude.Result.{Result, ok, err, Result-cases}
use fair_os_dfs.Prelude.Text.{text_eq, text_eq_refl}
use fair_os_dfs.Prelude.Map.{find, assign, delete, find-assign, find-delete}
use fair_os_dfs.Utils.Paths.{combine_path_and_file}
use fair_os_dfs.Utils.Address.{hex_to_address}
use fair_os_dfs.Acl.{
  Text, Permissions, no_permission, permission_write, Backend, IsBackend, AclError, panicked,
  failed, Acl, permission_of, listed, to_store, store_permissions, load_permissions, get_permission,
  create_group, add_member, remove_member, remove_group,
}

-- What a member may do before the change: what the controller has listed for the group.
module _ {S : Type 0} {D : Type 0} {E : Type 0} (b : Backend S D E) (laws : IsBackend b) where
  refused : (e : E) (r : Result (AclError E) (Unit {0})) → r ≡ err (failed e) → r ≡ ok tt → ⊥
  refused e r h g = ground arith

  stored :
      (group owner : Text) (a a' : Acl S)
      → store_permissions b group owner a ≡ (ok tt, a')
      → b.download (hex_to_address owner) (combine_path_and_file owner group) a'.files
        ≡ ok (b.marshal (to_store b (find group a.list_map) owner))
  unfolding store_permissions
  stored group owner a a' h =
      let u = hex_to_address owner in
      let p = combine_path_and_file owner group in
      let d = b.marshal (to_store b (find group a.list_map) owner) in
      let same : (b.upload u p d a.files).1 ≡ a'.files = ap (λ x. x.1.files) h in
      elim (Result-cases (b.upload u p d a.files).0) [
        | inl (t, e) ↦ rw (sym same) (laws.download-upload u p d a.files e)
        | inr (e', e) ↦ absurd (refused e' (ok tt) (sym (rw e at (ap (λ x. x.0) h))) refl)
      ]

  -- After a successful store GetPermission answers from what was stored.
  get_permission_stored :
      (group owner member : Text) (a a' : Acl S)
      → store_permissions b group owner a ≡ (ok tt, a')
      → (get_permission b group owner member a').0
        ≡ ok (permission_of (to_store b (find group a.list_map) owner) member)
  unfolding get_permission load_permissions listed permission_of
  get_permission_stored group owner member a a' h =
      let (m', same, keys) = laws.unmarshal-marshal (to_store b (find group a.list_map) owner) in
      let full = laws.marshal_full (to_store b (find group a.list_map) owner) in
      rw (
        get_permission,
        load_permissions,
        stored group owner a a' h,
        full,
        same,
        listed,
        permission_of,
        find-assign,
        text_eq_refl,
        keys member,
      )

  panics :
      (a a' : Acl S) (x : Result (AclError E) (Unit {0}) × Acl S)
      → x ≡ (err panicked, a)
      → x ≡ (ok tt, a')
      → ⊥
  panics a a' x h g = ground arith

  abbrev owner_only : Text → Text → ℕ
  owner_only owner member = if text_eq owner member then permission_write else no_permission

  permission_of-fresh :
      (owner member : Text) → permission_of (to_store b none owner) member ≡ owner_only owner member
  unfolding permission_of find
  permission_of-fresh owner member = ground arith

  permission_of-assign :
      (m : Permissions) (key member : Text) (p : ℕ)
      → permission_of (assign key p m) member
        ≡ (if text_eq key member then p else permission_of m member)
  unfolding permission_of
  permission_of-assign m key member p =
      rw (permission_of, find-assign key member p m) (ground arith)

  permission_of-delete :
      (m : Permissions) (key member : Text)
      → permission_of (delete key m) member
        ≡ (if text_eq key member then no_permission else permission_of m member)
  unfolding permission_of
  permission_of-delete m key member = rw (permission_of, find-delete key member m) (ground arith)

  -- A group put into the controller and stored answers by its entries.
  changed :
      (group owner member : Text) (m : Permissions) (a a' : Acl S)
      → store_permissions b group owner (record a { list_map = assign group m a.list_map })
        ≡ (ok tt, a')
      → (get_permission b group owner member a').0 ≡ ok (permission_of m member)
  changed group owner member m a a' h =
      let there : find group (assign group m a.list_map) ≡ some m =
        rw (find-assign group group m a.list_map, text_eq_refl group) in
      get_permission_stored group owner member (record a { list_map = assign group m a.list_map })
        a' h
      ∙ ap (λ x. ok (permission_of (to_store b x owner) member)) there

  -- A group that the controller does not hold is stored anew, with its owner only.
  fresh :
      (group owner member : Text) (a a' : Acl S)
      → find group a.list_map ≡ none
      → store_permissions b group owner a ≡ (ok tt, a')
      → (get_permission b group owner member a').0 ≡ ok (owner_only owner member)
  fresh group owner member a a' e h =
      get_permission_stored group owner member a a' h
      ∙ ap (λ x. ok (permission_of (to_store b x owner) member)) e
      ∙ ap (λ (x : ℕ). ok x) (permission_of-fresh owner member)

  -- Over a backend that reads back what was uploaded, keeps the entries of a map in JSON and
  -- leaves other files alone, after AddMember or UpdatePermission has succeeded GetPermission
  -- gives the new permission of that member, and for every other member what was listed for the
  -- group before.
  pub add_member-get_permission :
      (group owner member other : Text) (permission : ℕ) (a a' : Acl S)
      → add_member b group owner member permission a ≡ (ok tt, a')
      → (get_permission b group owner other a').0
        ≡ ok (if text_eq member other then permission else listed a group other)
  unfolding add_member listed
  add_member-get_permission group owner member other permission a a' h =
      elim (Option-cases (find group a.list_map)) [
        | inl e ↦ absurd (panics a a' (ok tt, a') (sym (rw (add_member, e) at h)) refl)
        | inr (m, e) ↦
            rw (listed, e)
              (changed group owner other (assign member permission m) a a' (rw (add_member, e) at h)
                ∙ ap (λ (x : ℕ). ok x) (permission_of-assign m member other permission))
      ]

  -- Over a backend that reads back what was uploaded, keeps the entries of a map in JSON and
  -- leaves other files alone, after RemoveMember has succeeded on a group that the controller
  -- holds GetPermission gives the removed member no permission, and every other member what was
  -- listed before.
  pub remove_member-get_permission :
      (group owner member other : Text) (m : Permissions) (a a' : Acl S)
      → find group a.list_map ≡ some m
      → remove_member b group owner member a ≡ (ok tt, a')
      → (get_permission b group owner other a').0
        ≡ ok (if text_eq member other then no_permission else listed a group other)
  unfolding remove_member listed
  remove_member-get_permission group owner member other m a a' e h =
      rw (listed, e)
        (changed group owner other (delete member m) a a' (rw (remove_member, e) at h)
          ∙ ap (λ (x : ℕ). ok x) (permission_of-delete m member other))

  -- Over a backend that reads back what was uploaded, keeps the entries of a map in JSON and
  -- leaves other files alone, on a group that the controller does not hold a successful
  -- RemoveMember or CreateGroup stores the group anew, whatever was stored of it: only its owner
  -- has a permission, to write.
  pub remove_member_unloaded :
      (group owner member other : Text) (a a' : Acl S)
      → find group a.list_map ≡ none
      → (remove_member b group owner member a ≡ (ok tt, a'))
        ⊎ (create_group b group owner a ≡ (ok tt, a'))
      → (get_permission b group owner other a').0
        ≡ ok (if text_eq owner other then permission_write else no_permission)
  unfolding remove_member create_group
  remove_member_unloaded group owner member other a a' e (inl h) =
      fresh group owner other a a' e (rw (remove_member, e) at h)
  remove_member_unloaded group owner member other a a' e (inr h) = fresh group owner other a a' e h

  -- Over a backend that reads back what was uploaded, keeps the entries of a map in JSON and
  -- leaves other files alone, a group that RemoveGroup has removed with success is still there:
  -- its owner has the permission to write, and nobody else has one.
  pub remove_group-get_permission :
      (group owner other : Text) (a a' : Acl S)
      → remove_group b group owner a ≡ (ok tt, a')
      → (get_permission b group owner other a').0
        ≡ ok (if text_eq owner other then permission_write else no_permission)
  unfolding remove_group
  remove_group-get_permission group owner other a a' h =
      let gone : find group (delete group a.list_map) ≡ none =
        rw (find-delete group group a.list_map, text_eq_refl group) in
      fresh group owner other (record a { list_map = delete group a.list_map }) a' gone h

  -- What GetPermission makes of the contents of the group's file.
  abbrev parsed : Result E Permissions → Text → Result (AclError E) ℕ
  parsed (err e) member = err (failed e)
  parsed (ok m) member = ok (permission_of m member)

  abbrev answer : Result E D → Text → Result (AclError E) ℕ
  answer (err e) member = err (failed e)
  answer (ok d) member = if b.is_empty d then ok no_permission else parsed (b.unmarshal d) member

  get_permission_lem :
      (group owner member : Text) (a : Acl S)
      → (get_permission b group owner member a).0
        ≡ answer
            (b.download (hex_to_address owner) (combine_path_and_file owner group) a.files)
            member
  unfolding get_permission load_permissions listed permission_of find
  get_permission_lem group owner member a =
      elim (Result-cases
        (b.download (hex_to_address owner) (combine_path_and_file owner group) a.files)) [
          | inr (e', e) ↦ rw (e, get_permission, load_permissions)
          | inl (d, e) ↦ elim (Bool-cases (b.is_empty d)) [
            | inl empty ↦ rw (
              e,
              get_permission,
              load_permissions,
              empty,
              listed,
              find-assign group group [] a.list_map,
              text_eq_refl group,
              permission_of,
              find,
            )
            | inr full ↦ elim (Result-cases (b.unmarshal d)) [
              | inl (m, u) ↦ rw (
                e,
                get_permission,
                load_permissions,
                full,
                u,
                listed,
                find-assign group group m a.list_map,
                text_eq_refl group,
              )
              | inr (m, u) ↦ rw (e, get_permission, load_permissions, full, u)
            ]
          ]
        ]

  -- Over a backend that reads back what was uploaded, keeps the entries of a map in JSON and
  -- leaves other files alone, storing one group, with success or not, changes no answer about a
  -- group whose file has another path.
  pub get_permission_other :
      (group owner group' owner' member : Text) (a : Acl S)
      → combine_path_and_file owner' group' ≢ combine_path_and_file owner group
      → (get_permission b group' owner' member (store_permissions b group owner a).1).0
        ≡ (get_permission b group' owner' member a).0
  unfolding get_permission load_permissions store_permissions listed
  get_permission_other group owner group' owner' member a differ =
      get_permission_lem group' owner' member (store_permissions b group owner a).1
      ∙ ap (λ x. answer x member)
          (laws.download_other (hex_to_address owner) (combine_path_and_file owner group)
            (hex_to_address owner') (combine_path_and_file owner' group')
            (b.marshal (to_store b (find group a.list_map) owner)) a.files (inr differ))
      ∙ sym (get_permission_lem group' owner' member a)
