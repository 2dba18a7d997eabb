-- ===== src/Boundary/Tests.antt =====
-- A rename at the root of an overlay without links, with the property of the check applied to it.
use layer_mount.Base.{refl, true, none, [], ◌∷◌, codes}
use layer_mount.Boundary.{
  LinkTarget, RenameLinks, check_rename_link_boundary, is_directory, is_same_link,
  is_within_lower_link, shown_parent_target,
}
use layer_mount.Boundary.Crossing.{IsWithin, check_rename_link_boundary-IsWithin}
use layer_mount.Layer.Disk.{RelPath}
use layer_mount.Layer.Tests.{config, flat}
use layer_mount.Layer.View.{find_link_above, find_link_in_view, any_lower_link}
use layer_mount.Layer.Walk.{walk_from, walk_to_first_non_directory}

abbrev links : RenameLinks
links = record {
  source_in_link_target = true;
  destination_in_link_target = true;
  lower_link_to_copy_up = none;
}

abbrev shown : RelPath → LinkTarget
shown path = is_directory

check_rename_link_boundary-IsWithin_example :
    IsWithin
      (find_link_above flat config (codes "a" ∷ []))
      (find_link_above flat config (codes "b" ∷ []))
      (shown_parent_target shown (codes "b" ∷ []))
      (check_rename_link_boundary flat config shown links (codes "a" ∷ []) (codes "b" ∷ []))
unfolding check_rename_link_boundary find_link_above find_link_in_view any_lower_link walk_from
    walk_to_first_non_directory is_same_link is_within_lower_link
check_rename_link_boundary-IsWithin_example =
    check_rename_link_boundary-IsWithin flat config shown links (codes "a" ∷ []) (codes "b" ∷ [])
      refl
