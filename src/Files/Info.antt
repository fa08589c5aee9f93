-- ===== src/Files/Info.antt =====
-- The metadata of a file: `FileInfo` and `GetAttr` of sn_api/src/app/files/files_map.rs and `FileMeta`
-- of sn_api/src/app/files/metadata.rs.
pub mod Items
use safe_network_archive.Prelude.{
  Bool, not, List, [], ◌∷◌, Option, none, some, Result, ok, err, ok_or, ◌>>=◌, ◌||◌, ◌=?◌,
}
use safe_network_archive.Prelude.Map
use safe_network_archive.Text.{Text, codes, text_ord}

-- A panic, of an index or of a slice, is `panicked`.
pub data FilesError : Type 0 where
  invalid_input content_not_found content_error invalid_media_type file_system_error : FilesError
  not_enough_chunks_retrieved client_error panicked : FilesError
  entry_not_found file_name_conflict file_already_exists content_upload_verification_failed :
      Text → FilesError

abbrev pub FileInfo : Type 0
FileInfo = List (Text × Text)

abbrev pub FilesMap : Type 0
FilesMap = List (Text × FileInfo)

unfoldable pub getattr : FileInfo → Text → Result FilesError Text
getattr self key = ok_or (Map.get key self) (entry_not_found key)

abbrev pub predicate_link : Text
predicate_link = codes "link"

abbrev pub predicate_type : Text
predicate_type = codes "type"

abbrev pub predicate_size : Text
predicate_size = codes "size"

abbrev pub predicate_modified : Text
predicate_modified = codes "modified"

abbrev pub predicate_created : Text
predicate_created = codes "created"

abbrev pub predicate_original_modified : Text
predicate_original_modified = codes "o_modified"

abbrev pub predicate_original_created : Text
predicate_original_created = codes "o_created"

abbrev pub predicate_readonly : Text
predicate_readonly = codes "readonly"

abbrev pub predicate_mode_bits : Text
predicate_mode_bits = codes "mode_bits"

abbrev pub mimetype_filesystem_dir : Text
mimetype_filesystem_dir = codes "inode/directory"

abbrev pub mimetype_filesystem_symlink : Text
mimetype_filesystem_symlink = codes "inode/symlink"

pub record FileMeta : Type 0 where
  pub created : Text
  pub modified : Text
  pub file_size : Text
  pub file_type : Text
  pub readonly : Option Text
  pub mode_bits : Option Text
  pub original_created : Option Text
  pub original_modified : Option Text

unfoldable pub filetype_is_symlink : Text → Bool
filetype_is_symlink file_type = file_type =? mimetype_filesystem_symlink

unfoldable pub filetype_is_dir : Text → Bool
filetype_is_dir file_type = file_type =? mimetype_filesystem_dir

unfoldable pub filetype_is_file : Text → Bool
filetype_is_file file_type =
    not (file_type =? mimetype_filesystem_dir || file_type =? mimetype_filesystem_symlink)

abbrev pub is_symlink : FileMeta → Bool
is_symlink self = filetype_is_symlink self.file_type

abbrev pub is_dir : FileMeta → Bool
is_dir self = filetype_is_dir self.file_type

abbrev pub is_file : FileMeta → Bool
is_file self = filetype_is_file self.file_type

-- `file_item[key]`.
abbrev pub index : FileInfo → Text → Result FilesError Text
index file_item key = ok_or (Map.get key file_item) panicked

unfoldable pub from_file_item : FileInfo → Result FilesError FileMeta
from_file_item file_item = do
  created ← index file_item predicate_created
  modified ← index file_item predicate_modified
  file_size ← index file_item predicate_size
  file_type ← index file_item predicate_type
  ok (record {
    created = created;
    modified = modified;
    file_size = file_size;
    file_type = file_type;
    readonly = Map.get predicate_readonly file_item;
    mode_bits = Map.get predicate_mode_bits file_item;
    original_created = Map.get predicate_original_created file_item;
    original_modified = Map.get predicate_original_modified file_item;
  })

-- The first argument is the time now.
unfoldable pub from_type_and_size : Text → Text → Text → FileMeta
from_type_and_size now file_type file_size = record {
  created = now;
  modified = now;
  file_size = file_size;
  file_type = file_type;
  readonly = none;
  mode_bits = none;
  original_created = none;
  original_modified = none;
}

unfoldable pub add_to_fileitem : FileInfo → Text → Option Text → FileInfo
add_to_fileitem file_item key none = file_item
add_to_fileitem file_item key (some val) = Map.insert key val file_item

unfoldable pub to_file_item : FileMeta → FileInfo
unfolding add_to_fileitem
to_file_item self =
    let file_item = add_to_fileitem [] predicate_created (some self.created) in
    let file_item = add_to_fileitem file_item predicate_modified (some self.modified) in
    let file_item = add_to_fileitem file_item predicate_size (some self.file_size) in
    let file_item = add_to_fileitem file_item predicate_type (some self.file_type) in
    let file_item = add_to_fileitem file_item predicate_readonly self.readonly in
    let file_item = add_to_fileitem file_item predicate_mode_bits self.mode_bits in
    let file_item = add_to_fileitem file_item predicate_original_created self.original_created in
    add_to_fileitem file_item predicate_original_modified self.original_modified
