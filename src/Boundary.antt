-- ===== src/Boundary.antt =====
-- The check that a rename does not cross a link (src/LayerMount.dll/impl/RenameLinkBoundary.cpp). What
-- the merged view shows at a path, with a link followed, is a parameter, and so is the copy-up of a
-- directory.
pub mod Crossing
mod Tests
use layer_mount.Base.{
  Bool, true, false, not, ◌&&◌, ◌||◌, Option, none, some, List, [], ◌∷◌, ◌==◌, eq_nat, eq_list,
  if◌then◌else◌, drop_last,
}
use layer_mount.Layer.Disk.{Disk, LayerConfig, RelPath}
use layer_mount.Layer.Source.{LayerSource}
use layer_mount.Layer.View.{LinkInView, find_link_above}
use layer_mount.Layer.Walk.{LinkStop, is_link_stop}
use layer_mount.Status.{NtStatus}
use layer_mount.Status.NtStatus.{status_success, status_access_denied, status_not_same_device}

pub record RenameLinks : Type 0 where
  pub source_in_link_target : Bool
  pub destination_in_link_target : Bool
  pub lower_link_to_copy_up : Option RelPath

-- A directory, or an entry that is none, or the failure of a read.
pub data LinkTarget : Type 0 where
  no_directory is_directory : LinkTarget
  unknown : NtStatus → LinkTarget

abbrev pub same_stop : LinkStop → LinkStop → Bool
same_stop LinkStop.none LinkStop.none = true
same_stop LinkStop.link LinkStop.link = true
same_stop LinkStop.unreadable LinkStop.unreadable = true
same_stop _ _ = false

abbrev pub is_unreadable : LinkStop → Bool
is_unreadable LinkStop.unreadable = true
is_unreadable _ = false

abbrev pub is_lower : LayerSource → Bool
is_lower LayerSource.lower = true
is_lower _ = false

unfoldable pub is_same_link : LinkInView → LinkInView → Bool
is_same_link source destination =
    same_stop source.stop destination.stop && source.path == destination.path

unfoldable pub is_within_lower_link : LinkInView → LinkInView → Bool
is_within_lower_link source destination =
    is_same_link source destination && (is_link_stop source.stop && is_lower source.source)

-- The parent of a path that has none is the root of the overlay.
abbrev pub shown_at : (RelPath → LinkTarget) → RelPath → LinkTarget
shown_at shown_link_target [] = is_directory
shown_at shown_link_target (name ∷ rest) = shown_link_target (name ∷ rest)

unfoldable pub shown_parent_target : (RelPath → LinkTarget) → RelPath → LinkTarget
shown_parent_target shown_link_target path = shown_at shown_link_target (drop_last path)

abbrev pub by_parent : RenameLinks → LinkInView → Bool → LinkTarget → RenameLinks × NtStatus
by_parent links source same_link no_directory = (links, status_success)
by_parent links source same_link (unknown failure) = (links, failure)
by_parent links source same_link is_directory =
    if not same_link
    then (links, status_not_same_device)
    else (record links { lower_link_to_copy_up = some source.path }, status_success)

abbrev pub check_links : RenameLinks → LinkInView → LinkInView → LinkTarget → RenameLinks × NtStatus
check_links links source destination parent =
    let found : RenameLinks = record {
      source_in_link_target = is_link_stop source.stop;
      destination_in_link_target = is_link_stop destination.stop;
      lower_link_to_copy_up = none;
    } in
    if is_unreadable source.stop || is_unreadable destination.stop
    then (links, status_access_denied)
    else if is_same_link source destination && not (is_within_lower_link source destination)
    then (found, status_success)
    else by_parent found source (is_same_link source destination) parent

module _ (disk : Disk) (config : LayerConfig) (shown_link_target : RelPath → LinkTarget) where
  -- The links are the ones that the caller passes in.
  unfoldable pub check_rename_link_boundary :
      RenameLinks → RelPath → RelPath → RenameLinks × NtStatus
  check_rename_link_boundary links old_norm new_norm =
      check_links links (find_link_above disk config old_norm)
        (find_link_above disk config new_norm) (shown_parent_target shown_link_target new_norm)

module _ {W : Type 0} (copy_up_directory : W → RelPath → W × NtStatus) where
  abbrev pub copy_up_link : W → Option RelPath → W × NtStatus
  copy_up_link w none = (w, status_success)
  copy_up_link w (some link) = copy_up_directory w link

  unfoldable pub copy_up_rename_link : W → RenameLinks → W × NtStatus
  copy_up_rename_link w links = copy_up_link w links.lower_link_to_copy_up
