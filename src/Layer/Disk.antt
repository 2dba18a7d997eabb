-- ===== src/Layer/Disk.antt =====
-- The file system below the layer roots, as the engine's Win32 probes see it, and the kind of a
-- component (LayerPath.cpp: IsDirectoryLink, EntryKindOf, ComponentKindInLayer).
use layer_mount.Base.{ℕ, Bool, true, false, ◌&&◌, ◌||◌, Option, List}
use layer_mount.Base.{Outcome, ok, failed, nat_eq, if◌then◌else◌}

-- A std::wstring, as its code units.
abbrev pub WString : Type 0
WString = List ℕ

-- A path below a layer root, as the components that std::filesystem::path iterates.
abbrev pub RelPath : Type 0
RelPath = List WString

-- FILE_ATTRIBUTE_DIRECTORY and FILE_ATTRIBUTE_REPARSE_POINT of a DWORD of attributes.
pub record Attributes : Type 0 where
  pub directory : Bool
  pub reparse_point : Bool

-- WIN32_FIND_DATAW, by the name and the attributes.
pub record FindData : Type 0 where
  pub name : WString
  pub found_attributes : Attributes

-- One enumeration of a directory: FindFirstFileW fails with an error, or the entries come in
-- order and the last FindNextFileW fails with an error.
pub data Enumeration : Type 0 where
  not_opened : ℕ → Enumeration
  read : List FindData → ℕ → Enumeration

-- What Win32 answers about the entry at a path below a layer root. It is not code of the engine.
pub record Disk : Type 0 where
  -- GetFileAttributesW, with GetLastError where it gives INVALID_FILE_ATTRIBUTES.
  pub attributes : WString → RelPath → Outcome Attributes
  -- The tag that ReadReparseTag reads, or the NTSTATUS of the failed open or query.
  pub reparse_tag : WString → RelPath → Outcome ℕ
  -- The enumeration of all names in the directory at the path.
  pub enumerate : WString → RelPath → Enumeration
  -- IsReparseTagNameSurrogate.
  pub name_surrogate : ℕ → Bool
  -- GetFileAttributesW of a named stream of the entry.
  pub stream_attributes : WString → RelPath → WString → Outcome Attributes
  -- GetFileAttributesW of the sidecar record of the entry with the given suffix. There is none
  -- where BCrypt gives no digest for the key.
  pub record_attributes : WString → RelPath → WString → Option (Outcome Attributes)

-- The layers of a LayerConfig, by the text of their roots.
pub record LayerConfig : Type 0 where
  pub upper_path : WString
  pub lower_paths : List WString

pub data EntryKind : Type 0 where
  file directory link : EntryKind

pub data ComponentKind : Type 0 where
  missing directory file link unreadable : ComponentKind

abbrev pub error_file_not_found : ℕ
error_file_not_found = 2

abbrev pub error_path_not_found : ℕ
error_path_not_found = 3

abbrev pub is_gone : ℕ → Bool
is_gone error = nat_eq error error_file_not_found || nat_eq error error_path_not_found

module _ (disk : Disk) (layer : WString) where
  unfoldable pub is_directory_link : RelPath → Attributes → Outcome Bool
  is_directory_link path attrs =
      if attrs.directory && attrs.reparse_point
      then elim (disk.reparse_tag layer path) [
        | ok tag ↦ ok (disk.name_surrogate tag)
        | failed status ↦ failed status
      ]
      else ok false

  unfoldable pub entry_kind_of : RelPath → Attributes → Outcome EntryKind
  entry_kind_of path attrs =
      if attrs.directory
      then elim (is_directory_link path attrs) [
        | ok is_link ↦ ok (if is_link then EntryKind.link else EntryKind.directory)
        | failed status ↦ failed status
      ]
      else ok EntryKind.file

  abbrev kind_of_entry : Outcome EntryKind → ComponentKind
  kind_of_entry (failed status) = unreadable
  kind_of_entry (ok EntryKind.file) = ComponentKind.file
  kind_of_entry (ok EntryKind.link) = ComponentKind.link
  kind_of_entry (ok EntryKind.directory) = ComponentKind.directory

  unfoldable pub component_kind_in_layer : RelPath → ComponentKind
  component_kind_in_layer path = elim (disk.attributes layer path) [
    | failed error ↦ if is_gone error then missing else unreadable
    | ok attrs ↦ kind_of_entry (entry_kind_of path attrs)
  ]

  -- Whether the layer holds an entry at a path. An error other than a missing path counts.
  unfoldable pub holds_entry_in_layer : RelPath → Bool
  holds_entry_in_layer path = elim (disk.attributes layer path) [
    | ok attrs ↦ true
    | failed error ↦ if is_gone error then false else true
  ]
