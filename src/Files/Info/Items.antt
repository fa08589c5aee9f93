-- ===== src/Files/Info/Items.antt =====
-- The metadata of a file is kept in its entry.
use safe_network_archive.Files.Info.{FileMeta, from_file_item, add_to_fileitem, to_file_item}
use safe_network_archive.Prelude.{◌≡◌, refl, some, none, Option, ok}
use safe_network_archive.Prelude.Map
use safe_network_archive.Text.{Text, text_ord}

abbrev meta_of :
    Text → Text → Text → Text → Option Text → Option Text → Option Text → Option Text → FileMeta
meta_of created modified file_size file_type readonly mode_bits original_created original_modified =
    record {
      created = created;
      modified = modified;
      file_size = file_size;
      file_type = file_type;
      readonly = readonly;
      mode_bits = mode_bits;
      original_created = original_created;
      original_modified = original_modified;
    }

read_back :
    (created modified file_size file_type : Text)
    (readonly mode_bits original_created original_modified : Option Text)
    → (let meta =
          meta_of created modified file_size file_type readonly mode_bits original_created
            original_modified in
        from_file_item (to_file_item meta) ≡ ok meta)
unfolding from_file_item to_file_item add_to_fileitem Map.get Map.insert
read_back c m s t none none none none = refl
read_back c m s t none none none (some n) = refl
read_back c m s t none none (some o) none = refl
read_back c m s t none none (some o) (some n) = refl
read_back c m s t none (some b) none none = refl
read_back c m s t none (some b) none (some n) = refl
read_back c m s t none (some b) (some o) none = refl
read_back c m s t none (some b) (some o) (some n) = refl
read_back c m s t (some r) none none none = refl
read_back c m s t (some r) none none (some n) = refl
read_back c m s t (some r) none (some o) none = refl
read_back c m s t (some r) none (some o) (some n) = refl
read_back c m s t (some r) (some b) none none = refl
read_back c m s t (some r) (some b) none (some n) = refl
read_back c m s t (some r) (some b) (some o) none = refl
read_back c m s t (some r) (some b) (some o) (some n) = refl

-- The metadata that to_file_item writes into an entry is what from_file_item reads from it, the parts that
-- may be missing among them.
pub from_file_item-to_file_item : (self : FileMeta) → from_file_item (to_file_item self) ≡ ok self
from_file_item-to_file_item self =
    read_back self.created self.modified self.file_size self.file_type self.readonly self.mode_bits
      self.original_created self.original_modified
