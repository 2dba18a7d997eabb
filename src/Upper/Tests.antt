-- ===== src/Upper/Tests.antt =====
-- An upper of entries beside the directory of records, with the property of the moves applied to it.
use layer_mount.Base.{
  ◌≡◌, ◌≢◌, refl, sym, ℕ, true, false, Option, none, some, if◌then◌else◌, arith, ◌==◌, eq_nat,
  eq_list, ◌++◌, ◌||◌, ne-==_false, ==_false_ne, ==_refl, codes,
}
use layer_mount.Layer.Disk.{WString, EntryKind}
use layer_mount.Sidecar.{FileService, base_of, meta_suffix, move, move_record_file}
use layer_mount.Sidecar.Records.{
  for_each_moved_entry, move_back, move_sidecar_records, move_sidecar_records_back,
}
use layer_mount.Sidecar.Records.Listing.{ended}
use layer_mount.Sidecar.Tests.{Files, file_service, files, name, sidecar}
use layer_mount.Status.{Win32Error}
use layer_mount.Status.Mapping.{nt_status_from_win32}
use layer_mount.Status.NtStatus.{status_success}
use layer_mount.Status.Win32Error.{error_file_not_found, error_access_denied, error_already_exists}
use layer_mount.Upper.{
  ReplaceExisting, UpperDisk, RecordConfig, move_upper_entry, move_upper_entry_on_disk,
  move_upper_entry_leaving_stuck_records,
}
use layer_mount.Upper.Moves.{IsUpperDisk, MovesAs, RenamesAs, move_upper_entry-MovesAs}
use layer_mount.Upper.ReplaceExisting.{no, yes}

pub record Upper : Type 0 where
  pub records : Files
  pub entries : WString → Option ℕ

abbrev with_records : Upper → Files × Option Win32Error → Upper × Option Win32Error
with_records upper (files, error) = (record upper { records = files }, error)

abbrev pub upper_service : FileService Upper
upper_service = record {
  move_file = λ upper from to. with_records upper (file_service.move_file upper.records from to);
  delete_file = λ upper file. with_records upper (file_service.delete_file upper.records file);
  create_file = λ upper file. (upper, some error_access_denied);
  ensure_directory = λ upper directory. (upper, true);
  has_attributes = λ upper file. file_service.has_attributes upper.records file;
  file_at = λ upper file. file_service.file_at upper.records file;
}

abbrev renamed_entries : (WString → Option ℕ) → WString → WString → WString → Option ℕ
renamed_entries entries from to path =
    if path == to then entries from else if path == from then none else entries path

abbrev rename_found :
    Upper → WString → WString → ReplaceExisting → Option ℕ → Option ℕ → Upper × Option Win32Error
rename_found upper from to replace none there = (upper, some error_file_not_found)
rename_found upper from to no (some id) (some old) = (upper, some error_already_exists)
rename_found upper from to no (some id) none =
    (record upper { entries = renamed_entries upper.entries from to }, none)
rename_found upper from to yes (some id) there =
    (record upper { entries = renamed_entries upper.entries from to }, none)

abbrev pub upper_disk : UpperDisk Upper
upper_disk = record {
  open_entry = λ upper path. none;
  rename_entry = λ upper from to replace.
      rename_found upper from to replace (upper.entries from) (upper.entries to);
  remove_all = λ upper path. (upper, some error_access_denied);
  remove_directory = λ upper path. (upper, some error_access_denied);
  delete_entry = λ upper path. (upper, some error_access_denied);
  probe =
      λ upper path. elim (upper.entries path) [ none ↦ some error_file_not_found | some id ↦ none ];
  entry_kind_of = λ upper path. (status_success, EntryKind.file);
  entry_below = λ upper path. record { is_directory_but_not_link = false; listing = ended };
  entry_at = λ upper path. upper.entries path;
}

found-RenamesAs :
    (upper : Upper) (from to : WString) (replace : ReplaceExisting) (held there : Option ℕ)
    → from ≢ to
    → upper.entries to ≡ there
    → RenamesAs upper_disk upper from to replace (rename_found upper from to replace held there)
found-RenamesAs upper from to replace none there other is = (λ path. refl, refl)
found-RenamesAs upper from to no (some id) (some old) other is = (λ path. refl, refl)
found-RenamesAs upper from to no (some id) none other is =
    ((rw (==_refl to) refl, rw (ne-==_false from to other, ==_refl from) refl), λ same. is)
found-RenamesAs upper from to yes (some id) there other is = (
  (rw (==_refl to) refl, rw (ne-==_false from to other, ==_refl from) refl),
  λ same. ground (arith, same),
)

abbrev pub IsApart : WString → WString → Type 0
IsApart a b = a ≢ b

pub upper_disk-IsUpperDisk : IsUpperDisk upper_disk IsApart sidecar upper_service
upper_disk-IsUpperDisk = record {
  apart_sym = λ a b other same. other (sym same);
  opens = λ upper path error is. ground (arith, is);
  renames = λ upper from to replace other.
      found-RenamesAs upper from to replace (upper.entries from) (upper.entries to) other refl;
  keeps_entries_on_move = λ upper from to path at at_to. refl;
  keeps_entries_on_delete = λ upper file path at. refl;
}

-- The entry a, whose opaque marker is locked, so that its records go back and it does too.
abbrev stuck : Upper
stuck = record { records = files; entries = λ path. if path == codes "a" then some 7 else none }

abbrev pub records : RecordConfig
records = record { use_sidecar = true; sidecar = sidecar }

move_upper_entry-MovesAs_example :
    MovesAs upper_disk stuck
      (codes "a")
      (codes "b")
      no
      (move_upper_entry upper_service upper_disk records stuck (codes "a") (codes "b") no)
    × MovesAs upper_disk stuck (codes "a") (codes "b") no (
        move_upper_entry_leaving_stuck_records upper_service upper_disk records stuck
          (codes "a")
          (codes "b")
          no)
move_upper_entry-MovesAs_example =
    move_upper_entry-MovesAs upper_disk IsApart upper_service records upper_disk-IsUpperDisk
      (codes "a") (codes "b") (==_false_ne (codes "a") (codes "b") refl) stuck no

-- Here the record cannot go back either. It stays at the new path's name, the entry is at the old
-- path, and no record counts as left behind.
abbrev stuck_twice : Upper
stuck_twice = record {
  records = record {
    contents = files.contents;
    is_locked = λ file. files.is_locked file || file == name (codes "b") ++ meta_suffix;
  };
  entries = stuck.entries;
}

left_unnoticed :
    let moved =
      move_upper_entry upper_service upper_disk records stuck_twice (codes "a") (codes "b") no in
    (moved.0.entries (codes "a") ≡ some 7)
    × (moved.0.records.contents (name (codes "b") ++ meta_suffix) ≡ some (codes "m"))
    × (moved.1.record_left_behind ≡ status_success)
unfolding move_upper_entry move_upper_entry_on_disk move_sidecar_records move_sidecar_records_back
    move base_of move_record_file for_each_moved_entry move_back nt_status_from_win32
left_unnoticed = (refl, refl, refl)
