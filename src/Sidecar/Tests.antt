-- ===== src/Sidecar/Tests.antt =====
-- A directory of files, with the properties of the sidecar records applied to it.
use layer_mount.Base.{
  ◌≡◌, ◌≢◌, refl, Bool, true, false, Option, none, some, [], ◌∷◌, if◌then◌else◌, arith, ◌==◌,
  eq_nat, eq_list, ne-==_false, ==_false_ne, ==_refl, codes,
}
use layer_mount.Layer.Disk.{WString}
use layer_mount.Status.{Win32Error}
use layer_mount.Status.Win32Error.{error_file_not_found, error_access_denied}
use layer_mount.Base.{◌++◌, map}
use layer_mount.Layer.Tests.{ascii}
use layer_mount.Sidecar.{
  FileService, SidecarMetadata, base_of, meta_suffix, opaque_suffix, move, move_record_file,
}
use layer_mount.Sidecar.Moves.{AreMovedAs, move-AreMovedAs}
use layer_mount.Sidecar.Records.{
  EntryBelow, for_each_moved_entry, visit_entries_below, visit_listed, move_back,
  move_sidecar_records, move_sidecar_records_back, for_each_entry_below, list_path,
}
use layer_mount.Sidecar.Records.Noted.{move_sidecar_records_back-move_sidecar_records}
use layer_mount.Sidecar.Records.Listing.{ended, found}
use layer_mount.Sidecar.Records.Walks.{
  for_each_entry_below-run_visits, listing_errors, paths_below, run_result, run_visits,
}
use layer_mount.Sidecar.Effects.{IsFileService, MovesAs, DeletesAs}

-- What each name holds, and the names that cannot be moved or deleted.
pub record Files : Type 0 where
  pub contents : WString → Option WString
  pub is_locked : WString → Bool

abbrev moved_contents : (WString → Option WString) → WString → WString → WString → Option WString
moved_contents contents from to file =
    if file == to then contents from else if file == from then none else contents file

abbrev gone_contents : (WString → Option WString) → WString → WString → Option WString
gone_contents contents gone file = if file == gone then none else contents file

abbrev move_found : Files → WString → WString → Bool → Option WString → Files × Option Win32Error
move_found files from to locked none = (files, some error_file_not_found)
move_found files from to true (some text) = (files, some error_access_denied)
move_found files from to false (some text) =
    (record files { contents = moved_contents files.contents from to }, none)

abbrev delete_found : Files → WString → Bool → Option WString → Files × Option Win32Error
delete_found files gone locked none = (files, some error_file_not_found)
delete_found files gone true (some text) = (files, some error_access_denied)
delete_found files gone false (some text) =
    (record files { contents = gone_contents files.contents gone }, none)

abbrev pub file_service : FileService Files
file_service = record {
  move_file =
      λ files from to. move_found files from to (files.is_locked from) (files.contents from);
  delete_file = λ files gone. delete_found files gone (files.is_locked gone) (files.contents gone);
  create_file = λ files file. (files, some error_access_denied);
  ensure_directory = λ files directory. (files, true);
  has_attributes = λ files file. elim (files.contents file) [ none ↦ false | some text ↦ true ];
  file_at = λ files file. files.contents file;
}

found-MovesAs :
    (files : Files) (from to : WString) (locked : Bool) (held : Option WString)
    → from ≢ to
    → files.contents from ≡ held
    → MovesAs file_service files from to (move_found files from to locked held)
found-MovesAs files from to locked none other is = (λ file. refl, refl, λ gone. is)
found-MovesAs files from to true (some text) other is =
    (λ file. refl, refl, λ gone. ground (arith, gone))
found-MovesAs files from to false (some text) other is = (
  rw (==_refl to) refl,
  rw (ne-==_false from to other, ==_refl from) refl,
  λ file no_from no_to. rw (ne-==_false file to no_to, ne-==_false file from no_from) refl,
)

found-DeletesAs :
    (files : Files) (gone : WString) (locked : Bool) (held : Option WString)
    → files.contents gone ≡ held
    → DeletesAs file_service files gone (delete_found files gone locked held)
found-DeletesAs files gone locked none is = (λ file. refl, refl, λ none_there. is)
found-DeletesAs files gone true (some text) is =
    (λ file. refl, refl, λ none_there. ground (arith, none_there))
found-DeletesAs files gone false (some text) is =
    (rw (==_refl gone) refl, λ file other. rw (ne-==_false file gone other) refl)

pub file_service-IsFileService : IsFileService file_service
file_service-IsFileService = record {
  moves = λ files from to other.
      found-MovesAs files from to (files.is_locked from) (files.contents from) other refl;
  deletes =
      λ files gone. found-DeletesAs files gone (files.is_locked gone) (files.contents gone) refl;
}

abbrev pub sidecar : SidecarMetadata
sidecar = record { directory = codes "d"; text = ascii; sha1_hex = λ t. 0 ∷ t }

abbrev pub name : WString → WString
name path = codes "d" ++ (codes "\\" ++ (0 ∷ map ascii.lower path))

named : (path : WString) → base_of sidecar path ≡ some (name path)
unfolding base_of
named path = refl

-- The record and the opaque marker of an entry a, of which the marker is locked.
abbrev pub files : Files
files = record {
  contents = λ file.
      if file == name (codes "a") ++ meta_suffix
      then some (codes "m")
      else if file == name (codes "a") ++ opaque_suffix
      then some []
      else none;
  is_locked = λ file. file == name (codes "a") ++ opaque_suffix;
}

move-AreMovedAs_example :
    AreMovedAs file_service files
      (name (codes "A"))
      (name (codes "b"))
      (move file_service sidecar files (codes "A") (codes "b"))
move-AreMovedAs_example =
    move-AreMovedAs file_service file_service-IsFileService sidecar files (codes "A") (codes "b")
      (name (codes "A")) (name (codes "b")) (named (codes "A")) (named (codes "b"))
      (==_false_ne (name (codes "A")) (name (codes "b")) refl)

-- The record went back.
undone :
    (move file_service sidecar files (codes "A") (codes "b")).0.contents
      (name (codes "a") ++ meta_suffix)
    ≡ some (codes "m")
unfolding move base_of move_record_file
undone = refl

for_each_entry_below-run_visits_example :
    for_each_entry_below list_path
      (codes "d")
      (found (codes "x") true false (found (codes "y") false false ended ended) ended)
      []
    ≡ run_result list_path
        (listing_errors
          (found (codes "x") true false (found (codes "y") false false ended ended) ended))
        (run_visits list_path
          (paths_below
            (codes "d")
            (found (codes "x") true false (found (codes "y") false false ended ended) ended))
          [])
for_each_entry_below-run_visits_example =
    for_each_entry_below-run_visits list_path (codes "d")
      (found (codes "x") true false (found (codes "y") false false ended ended) ended) []

abbrev free_files : Files
free_files = record { contents = files.contents; is_locked = λ file. false }

abbrev one_below : EntryBelow
one_below = record {
  is_directory_but_not_link = true;
  listing = found (codes "x") false false ended ended;
}

move_sidecar_records_back-move_sidecar_records_example :
    let there =
      move_sidecar_records file_service sidecar true free_files (codes "a") (codes "b") one_below in
    let back = move_sidecar_records_back file_service sidecar there.0.0 there.0.1 in
    file_service.file_at back.0 (name (codes "a") ++ meta_suffix)
    ≡ file_service.file_at free_files (name (codes "a") ++ meta_suffix)
unfolding move_sidecar_records move_sidecar_records_back move base_of move_record_file
    for_each_moved_entry for_each_entry_below visit_entries_below visit_listed move_back
move_sidecar_records_back-move_sidecar_records_example =
    move_sidecar_records_back-move_sidecar_records file_service sidecar name
      file_service-IsFileService named free_files (codes "a") (codes "b") one_below refl
      (
        ==_false_ne (name (codes "a")) (name (codes "b")) refl,
        (==_false_ne (name (codes "b")) (name (codes "b\\x")) refl, tt),
        (==_false_ne (name (codes "a\\x")) (name (codes "b\\x")) refl, tt, tt),
      )
      refl (name (codes "a") ++ meta_suffix)
      (==_false_ne _ _ refl, ==_false_ne _ _ refl, (==_false_ne _ _ refl, ==_false_ne _ _ refl, tt))
