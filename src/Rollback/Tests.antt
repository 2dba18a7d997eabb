-- ===== src/Rollback/Tests.antt =====
-- A rename whose whiteout cannot be written, with the property of the undo applied to it.
use layer_mount.Base.{
  ◌++◌, ◌≡◌, refl, true, false, none, some, [], ◌∷◌, ◌==◌, eq_nat, eq_list, ==_false_ne,
  if◌then◌else◌, codes, Option, ℕ, ◌⊎◌, ◌≢◌, arith,
}
use layer_mount.Layer.Disk.{WString}
use layer_mount.Links.{join_all}
use layer_mount.Layer.Tests.{ascii, config, flat}
use layer_mount.Rollback.{
  RollbackState, up_to_last_separator, build_upper_path_preserve_case, UpperRename,
  UndoOpaqueMarker, remove_destination_whiteout_or_undo, white_out_source,
}
use layer_mount.Rollback.Kept.{IsKept}
use layer_mount.Rollback.Places.{IsTold, white_out_source-IsTold}
use layer_mount.Sidecar.Tests.{files}
use layer_mount.Status.Win32Error.{error_access_denied}
use layer_mount.Upper.Tests.{
  IsApart, Upper, records, upper_disk, upper_disk-IsUpperDisk, upper_service,
}
use layer_mount.Whiteouts.{MarkerService, WhiteoutType}

-- No marker can be created, and each delete finds its marker.
abbrev markers : MarkerService Upper
markers = record {
  disk = λ upper. flat;
  ensure_directory_exists = λ upper layer path. upper;
  create_file = λ upper layer path. (upper, some error_access_denied);
  delete_file = λ upper layer path. (upper, none);
  set_opaque_metadata = λ upper layer path. (upper, false);
  remove_opaque_metadata = λ upper layer path. (upper, true);
  read_entry_times = λ upper layer path. none;
  write_entry_times = λ upper layer path times. upper;
}

abbrev renamed : UpperRename
renamed = record {
  old_norm = codes "a" ∷ [];
  new_norm = codes "b" ∷ [];
  old_upper_path = codes "u\\a";
  opaque_marker = UndoOpaqueMarker.keep;
}

-- The path at which the file system stores the new name.
abbrev new_upper_path : WString
new_upper_path =
    up_to_last_separator (build_upper_path_preserve_case config.upper_path renamed.new_norm)
    ++ codes "B"

-- The stored name is found while the entry is there.
abbrev stored_name : Upper → WString → Option WString
stored_name upper path = elim (upper.entries new_upper_path) [
  | none ↦ none
  | some id ↦ some (codes "B")
]

abbrev state : RollbackState Upper
state = record {
  manager = record {
    world = record {
      records = files;
      entries = λ path. if path == new_upper_path then some 7 else none;
    };
    cache = none;
    has_emitter = true;
    created = [];
  };
  warnings = [];
}

all_kept :
    (path : WString) (held : Option ℕ)
    → (path ≡ new_upper_path) ⊎ (path ≡ codes "u\\a")
    → IsKept markers (codes "a" ∷ []) (λ upper. upper_disk.entry_at upper path ≡ held)
all_kept path held which = record {
  on_ensure = λ upper layer h. h;
  on_create = λ upper layer marker h. h;
  on_delete = λ upper layer marker h. h;
  on_delete_opaque = λ upper layer dir h. h;
  on_remove_opaque = λ upper layer marker h. h;
}

is_file : WhiteoutType.file ≢ WhiteoutType.opaque
is_file same = ground (arith, same)

name_kept : IsKept markers (codes "a" ∷ []) (λ upper.
    stored_name upper (build_upper_path_preserve_case config.upper_path renamed.new_norm)
    ≡ some (codes "B"))
name_kept = record {
  on_ensure = λ upper layer h. h;
  on_create = λ upper layer marker h. h;
  on_delete = λ upper layer marker h. h;
  on_delete_opaque = λ upper layer dir h. h;
  on_remove_opaque = λ upper layer marker h. h;
}

apart : IsApart new_upper_path (codes "u\\a")
unfolding up_to_last_separator build_upper_path_preserve_case join_all
apart = ==_false_ne new_upper_path (codes "u\\a") refl

white_out_source-IsTold_example :
    IsTold upper_service upper_disk markers records ascii config stored_name IsApart
      upper_disk-IsUpperDisk renamed
      (codes "B")
      7
      name_kept
      apart
      all_kept
      (white_out_source upper_service upper_disk markers records ascii config stored_name state
        renamed WhiteoutType.file)
    × IsTold upper_service upper_disk markers records ascii config stored_name IsApart
        upper_disk-IsUpperDisk renamed
        (codes "B")
        7
        name_kept
        apart
        all_kept
        (remove_destination_whiteout_or_undo upper_service upper_disk markers records ascii config
          stored_name state renamed)
unfolding up_to_last_separator build_upper_path_preserve_case join_all
white_out_source-IsTold_example =
    white_out_source-IsTold upper_service upper_disk markers records ascii config stored_name
      IsApart upper_disk-IsUpperDisk renamed (codes "B") 7 name_kept apart all_kept state
      WhiteoutType.file is_file refl (refl, refl)
