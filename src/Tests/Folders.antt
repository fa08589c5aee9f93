-- ===== src/Tests/Folders.antt =====
-- A platform's paths, entries of a container, and a local folder of which the network loses a chunk.
use safe_network_archive.Files.Changes.{Paths, Local, added, ProcessedFiles}
use safe_network_archive.Files.Info.{
  FilesError, not_enough_chunks_retrieved, FileInfo, FilesMap, FileMeta, from_type_and_size,
  mimetype_filesystem_dir, mimetype_filesystem_symlink,
}
use safe_network_archive.Prelude.{
  Bool, true, false, [], ◌∷◌, ◌++◌, Option, none, some, Result, ok, err, if◌then◌else◌, ◌=?◌,
}
use safe_network_archive.Text.{Text, codes, text_ord, strip_prefix}

instance abbrev pub toy_paths : Paths
toy_paths = record {
  PathBuf = Text;
  path_ord = text_ord;
  path_of = λ name. name;
  display = λ path. path;
  file_name = λ path. none;
  ends_with_root = λ path. path =? codes "/";
}

abbrev pub item_of : Text → FileInfo
item_of file_type =
    (codes "created", codes "1")
    ∷ (codes "modified", codes "2")
    ∷ (codes "size", codes "0")
    ∷ (codes "type", file_type)
    ∷ []

abbrev pub folder_item : FileInfo
folder_item = item_of mimetype_filesystem_dir

abbrev pub link_item : Text → FileInfo
link_item target = (codes "symlink_target", target) ∷ item_of mimetype_filesystem_symlink

abbrev pub file_item : Text → FileInfo
file_item link = (codes "link", link) ∷ item_of (codes "text/x-markdown")

-- A local folder with two files, of which the network loses a chunk of one.
abbrev pub broken_md : Text
broken_md = codes "./broken.md"

abbrev pub toy_from_path : Text → Bool → Result FilesError FileMeta
toy_from_path path follow_links = ok (from_type_and_size (codes "3") (codes "Raw") (codes "9"))

abbrev pub toy_store : Bool → Text → Option Text → Result FilesError Text
toy_store true content mime = ok (codes "safe://" ++ content)
toy_store false content mime =
    if content =? broken_md
    then err not_enough_chunks_retrieved
    else ok (codes "safe://" ++ content)

abbrev pub toy_local : Local
toy_local = record {
  Content = Text;
  read = λ path. some path;
  guess_mime = λ path. none;
  store_bytes = toy_store;
  target_is_dir = λ path. none;
  read_link = λ path. none;
  from_path = toy_from_path;
  gen_timestamp_secs = codes "3";
  normalize = λ name. elim (strip_prefix (codes "/") name) [ none ↦ name | some rest ↦ rest ];
}

abbrev pub local_files : ProcessedFiles
local_files = (broken_md, added []) ∷ (codes "./new.md", added []) ∷ []

abbrev pub container : FilesMap
container =
    (codes "/broken.md", file_item (codes "safe://before")) ∷ (codes "/docs", folder_item) ∷ []
