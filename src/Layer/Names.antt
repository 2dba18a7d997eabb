-- ===== src/Layer/Names.antt =====
-- Names that the engine keeps for itself: whiteout names, the opaque marker, the sidecar directory
-- (WhiteoutManager.cpp, LayerMount.cpp), and the case fold of names.
use layer_mount.Base.{ℕ, Bool, ◌&&◌, ◌||◌, not, Option, none, some, map}
use layer_mount.Base.{codes, length, take, drop, leb, ◌==◌, eq_nat, eq_list, if◌then◌else◌}
use layer_mount.Layer.Disk.{WString}
use layer_mount.Layer.Markers.{whiteout_prefix, opaque_marker_file}

-- The Win32 text services that the engine calls, by code unit: CharLowerBuffW, and the fold under
-- which CompareStringOrdinal compares when it ignores case.
pub record TextService : Type 0 where
  pub lower : ℕ → ℕ
  pub upper : ℕ → ℕ

abbrev pub sidecar_dir_name : WString
sidecar_dir_name = codes ".overlay"

module _ (text : TextService) where
  unfoldable pub equal_ignore_case : WString → WString → Bool
  equal_ignore_case a b = map text.upper a == map text.upper b

  unfoldable pub case_folded_name : WString → WString
  case_folded_name name = map text.lower name

  unfoldable pub is_whiteout_name : WString → Bool
  unfolding equal_ignore_case
  is_whiteout_name name = leb 4 (length name) && equal_ignore_case (take 4 name) whiteout_prefix

  unfoldable pub get_whited_out_name : WString → WString
  get_whited_out_name name = drop 4 name

  unfoldable pub whited_out_name_of_entry : WString → Option WString
  unfolding is_whiteout_name get_whited_out_name
  whited_out_name_of_entry name =
      if not (is_whiteout_name name) || equal_ignore_case name opaque_marker_file
      then none
      else some (get_whited_out_name name)
