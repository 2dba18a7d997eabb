-- ===== src/Sidecar/Records.antt =====
-- The records of a moved or removed entry and of those below it
-- (src/LayerMount.dll/impl/MetadataStore.cpp). What the walk lists is a parameter: the moves and
-- deletes of records change nothing that it lists.
pub mod Back
pub mod Walks
pub mod Invariants
pub mod Noted
use layer_mount.Base.{
  ℕ, Bool, true, false, not, ◌&&◌, ◌||◌, Option, none, some, List, [], ◌∷◌, ◌++◌, if◌then◌else◌,
  codes, length, drop, ◌==◌, eq_nat,
}
use layer_mount.Layer.Disk.{WString}
use layer_mount.Status.{Win32Error, NtStatus}
use layer_mount.Status.Mapping.{nt_success}
use layer_mount.Status.NtStatus.{status_success}
use layer_mount.Sidecar.{
  FileService, SidecarMetadata, move, remove, remove_opaque, has_record, is_not_found,
}

abbrev pub ends_with_separator : WString → Bool
ends_with_separator [] = false
ends_with_separator (c ∷ []) = c == 92
ends_with_separator (c ∷ d ∷ rest) = ends_with_separator (d ∷ rest)

abbrev pub dir_with_separator : WString → WString
dir_with_separator dir_path =
    if ends_with_separator dir_path then dir_path else dir_path ++ codes "\\"

abbrev pub join_dir_path : WString → WString → WString
join_dir_path dir_path relative_path = dir_with_separator dir_path ++ relative_path

-- What the enumeration of a directory gives, in its order: it cannot start, it ends, it breaks off,
-- or it finds an entry (its name, whether it is a directory, whether it is a link, and what the
-- enumeration of the entry gives). The entries `.` and `..` are left out, and an enumeration that
-- cannot start is not the rest of another.
pub data Listing : Type 0 where
  unlistable : NtStatus → Listing
  ended : Listing
  broken : NtStatus → Listing
  found : WString → Bool → Bool → Listing → Listing → Listing

-- The state of a walk: what the visits work on, and the first listing error.
pub record Walk (S : Type 0) : Type 0 where
  pub state : S
  pub listing_error : NtStatus

module _ {S : Type 0} (visit : S → WString → S × NtStatus) where
  abbrev pub keep_first_listing_error : Walk S → NtStatus → Walk S
  keep_first_listing_error walk status =
      if nt_success walk.listing_error then record walk { listing_error = status } else walk

  -- The rest of a loop, where the status of the last step is a success.
  abbrev pub continue_if :
      (Walk S → NtStatus → Walk S × NtStatus) → Walk S × NtStatus → Walk S × NtStatus
  continue_if rest (walk, status) = if nt_success status then rest walk status else (walk, status)

  abbrev pub visit_one : Walk S → WString → Walk S × NtStatus
  visit_one walk path =
      let visited = visit walk.state path in (record walk { state = visited.0 }, visited.1)

  -- The status is the one of the last step of the loop.
  unfoldable pub visit_listed : WString → Listing → Walk S → NtStatus → Walk S × NtStatus
  visit_listed dir_path (unlistable error) walk status =
      (keep_first_listing_error walk error, status_success)
  visit_listed dir_path ended walk status = (walk, status)
  visit_listed dir_path (broken error) walk status = (keep_first_listing_error walk error, status)
  visit_listed dir_path (found name is_directory is_link below rest) walk status =
      let child_path = join_dir_path dir_path name in
      let enter = visit_listed child_path below in
      let others = visit_listed dir_path rest in
      continue_if
        (λ walk status.
          continue_if others
            (if is_directory && not is_link then enter walk status_success else (walk, status)))
        (visit_one walk child_path)

  unfoldable pub visit_entries_below : WString → Listing → Walk S → Walk S × NtStatus
  visit_entries_below dir_path listing walk = visit_listed dir_path listing walk status_success

  abbrev pub walk_result : Walk S × NtStatus → S × NtStatus
  walk_result (walk, status) =
      (walk.state, if nt_success status then walk.listing_error else status)

  unfoldable pub for_each_entry_below : WString → Listing → S → S × NtStatus
  for_each_entry_below dir_path listing state = walk_result (
      visit_entries_below dir_path listing
        (record { state = state; listing_error = status_success }))

-- What the disk says of the entry that moved or is to go: whether IsDirectoryButNotLink holds, and
-- what lies below.
pub record EntryBelow : Type 0 where
  pub is_directory_but_not_link : Bool
  pub listing : Listing

module _ {S : Type 0} (visit : S → WString → WString → S × NtStatus) where
  abbrev pub below_moved : WString → WString → EntryBelow → S × NtStatus → S × NtStatus
  below_moved from to entry (state, status) =
      if not (nt_success status) || not entry.is_directory_but_not_link
      then (state, status)
      else for_each_entry_below
          (λ state moved_path. visit state (from ++ drop (length to) moved_path) moved_path) to
          entry.listing state

  unfoldable pub for_each_moved_entry : WString → WString → EntryBelow → S → S × NtStatus
  for_each_moved_entry from to entry state = below_moved from to entry (visit state from to)

-- A path that an entry had, and the path to which its records moved.
abbrev pub MovedSidecarRecord : Type 0
MovedSidecarRecord = WString × WString

module _ {W : Type 0} (service : FileService W) (sidecar : SidecarMetadata) where
  unfoldable pub remove_records_of_replaced_entry : W → WString → WString → W
  remove_records_of_replaced_entry w from_path to_path =
      let cleared =
        if has_record service sidecar w from_path
        then (remove service sidecar w to_path).0
        else w in
      (remove_opaque service sidecar cleared to_path).0

  abbrev pub note_moved :
      List MovedSidecarRecord
      → WString
      → WString
      → W × NtStatus
      → (W × List MovedSidecarRecord) × NtStatus
  note_moved moved from_path to_path (w, status) =
      ((w, if nt_success status then moved ++ (from_path, to_path) ∷ [] else moved), status)

  abbrev pub move_and_note :
      W × List MovedSidecarRecord → WString → WString → (W × List MovedSidecarRecord) × NtStatus
  move_and_note (w, moved) from_path to_path =
      note_moved moved from_path to_path (move service sidecar w from_path to_path)

  -- The list starts empty at its one caller.
  unfoldable pub move_sidecar_records :
      Bool → W → WString → WString → EntryBelow → (W × List MovedSidecarRecord) × NtStatus
  move_sidecar_records use_sidecar w from to entry =
      if not use_sidecar
      then ((w, []), status_success)
      else for_each_moved_entry move_and_note from to entry (w, [])

  abbrev pub leave_stuck : NtStatus → WString → WString → W × NtStatus → (W × NtStatus) × NtStatus
  leave_stuck first_error from_path to_path (w, status) =
      if nt_success status then ((w, first_error), status_success) else (
        (
          remove_records_of_replaced_entry w from_path to_path,
          if nt_success first_error then status else first_error,
        ),
        status_success,
      )

  abbrev pub move_or_leave : W × NtStatus → WString → WString → (W × NtStatus) × NtStatus
  move_or_leave (w, first_error) from_path to_path =
      leave_stuck first_error from_path to_path (move service sidecar w from_path to_path)

  abbrev pub first_or_walk : (W × NtStatus) × NtStatus → W × NtStatus
  first_or_walk ((w, first_error), walk_status) =
      (w, if nt_success first_error then walk_status else first_error)

  unfoldable pub move_sidecar_records_leaving_stuck_ones :
      Bool → W → WString → WString → EntryBelow → W × NtStatus
  move_sidecar_records_leaving_stuck_ones use_sidecar w from to entry =
      if not use_sidecar
      then (w, status_success)
      else first_or_walk (for_each_moved_entry move_or_leave from to entry (w, status_success))

  abbrev pub keep_first_error : NtStatus → W × NtStatus → W × NtStatus
  keep_first_error first_error (w, status) =
      (w, if not (nt_success status) && nt_success first_error then status else first_error)

  -- The records are handled from the last to the first, so the tail of the list comes before its
  -- head.
  unfoldable pub move_back : List MovedSidecarRecord → W → W × NtStatus
  move_back [] w = (w, status_success)
  move_back ((from_path, to_path) ∷ moved) w =
      let later = move_back moved w in
      keep_first_error later.1 (move service sidecar later.0 to_path from_path)

  unfoldable pub move_sidecar_records_back : W → List MovedSidecarRecord → W × NtStatus
  move_sidecar_records_back w moved = move_back moved w

-- The visit that lists, which never fails.
abbrev pub list_path : List WString → WString → List WString × NtStatus
list_path entries entry_path = (entries ++ entry_path ∷ [], status_success)

unfoldable pub list_sidecar_keyed_entries : Bool → WString → EntryBelow → List WString
list_sidecar_keyed_entries use_sidecar path entry =
    if not use_sidecar
    then []
    else if entry.is_directory_but_not_link
    then (for_each_entry_below list_path path entry.listing (path ∷ [])).0
    else path ∷ []

module _ {W : Type 0} (service : FileService W) (sidecar : SidecarMetadata) where
  -- The probe of an entry: none where it is there, or the error.
  abbrev pub remove_gone : W → WString → Option Win32Error → W
  remove_gone w entry_path none = w
  remove_gone w entry_path (some error) =
      if is_not_found error
      then (remove_opaque service sidecar (remove service sidecar w entry_path).0 entry_path).0
      else w

  unfoldable pub remove_each_gone : (WString → Option Win32Error) → List WString → W → W
  remove_each_gone probe [] w = w
  remove_each_gone probe (entry_path ∷ entries) w =
      remove_each_gone probe entries (remove_gone w entry_path (probe entry_path))

  unfoldable pub remove_sidecar_records_of_gone_entries :
      Bool → (WString → Option Win32Error) → W → List WString → W
  remove_sidecar_records_of_gone_entries use_sidecar probe w entries =
      if not use_sidecar then w else remove_each_gone probe entries w
