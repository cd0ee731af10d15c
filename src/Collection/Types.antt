-- ===== src/Collection/Types.antt =====
-- The types of an index (pkg/collection/index.go) as text.
use fair_os_dfs.Prelude.{◌≡◌, refl, if◌then◌else◌}
use fair_os_dfs.Prelude.Text.{Text, text_eq, codes}
use fair_os_dfs.Collection.Manifests.{
  IndexType, invalid_index, bytes_index, string_index, number_index, map_index, list_index,
  vector_index,
}

-- func (e IndexType) String
unfoldable pub show : IndexType → Text
show bytes_index = codes "BytesIndex"
show string_index = codes "StringIndex"
show number_index = codes "NumberIndex"
show map_index = codes "MapIndex"
show list_index = codes "ListIndex"
show vector_index = codes "VectorIndex"
show invalid_index = codes "InvalidIndex"

-- func toIndexTypeEnum
unfoldable pub to_index_type_enum : Text → IndexType
unfolding text_eq
to_index_type_enum s =
    if text_eq s (codes "BytesIndex")
    then bytes_index
    else if text_eq s (codes "StringIndex")
    then string_index
    else if text_eq s (codes "NumberIndex")
    then number_index
    else if text_eq s (codes "MapIndex")
    then map_index
    else if text_eq s (codes "ListIndex")
    then list_index
    else if text_eq s (codes "VectorIndex")
    then vector_index
    else invalid_index

-- The text of an index type is read back as the type.
pub to_index_type_enum-show : (t : IndexType) → to_index_type_enum (show t) ≡ t
unfolding to_index_type_enum show text_eq
to_index_type_enum-show invalid_index = refl
to_index_type_enum-show bytes_index = refl
to_index_type_enum-show string_index = refl
to_index_type_enum-show number_index = refl
to_index_type_enum-show map_index = refl
to_index_type_enum-show list_index = refl
to_index_type_enum-show vector_index = refl
