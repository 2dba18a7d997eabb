-- ===== src/PathText.antt =====
-- The text forms of paths (src/LayerMount.dll/impl/LayerPath.cpp: NormalizePathPreserveCase to
-- ComparablePath). GetFullPathNameW and CharLowerBuffW are parameters.
pub mod Normal
pub mod Prefixes
mod Tests
use layer_mount.Base.{
  ℕ, suc, Bool, true, false, ◌&&◌, ◌||◌, not, Option, none, some, List, [], ◌∷◌, ◌++◌, map, ◌==◌,
  eq_nat, eq_list, if◌then◌else◌, codes, drop, length, leb,
}
use layer_mount.Layer.Disk.{WString}
use layer_mount.Tracker.{is_empty}

abbrev pub backslash : ℕ
backslash = 92

abbrev pub slash : ℕ
slash = 47

abbrev pub to_backslash : ℕ → ℕ
to_backslash c = if c == slash then backslash else c

unfoldable pub skip_leading : WString → WString
skip_leading [] = []
skip_leading (c ∷ rest) =
    let skipped = skip_leading rest in if c == backslash then skipped else c ∷ rest

-- The loop that pops backslashes off the end.
unfoldable pub trim_trailing : WString → WString
trim_trailing [] = []
trim_trailing (c ∷ rest) =
    let trimmed = trim_trailing rest in
    if is_empty trimmed && c == backslash then [] else c ∷ trimmed

unfoldable pub normalize_path_preserve_case : WString → WString
normalize_path_preserve_case path = trim_trailing (skip_leading (map to_backslash path))

abbrev pub extended : WString
extended = codes "\\\\?\\"

abbrev pub extended_unc : WString
extended_unc = codes "\\\\?\\UNC\\"

abbrev pub device : WString
device = codes "\\\\.\\"

abbrev pub unc : WString
unc = codes "\\\\"

-- `rfind(prefix, 0) == 0`.
abbrev pub has_prefix : WString → WString → Bool
has_prefix [] path = true
has_prefix (p ∷ prefix) [] = false
has_prefix (p ∷ prefix) (c ∷ path) = c == p && has_prefix prefix path

abbrev pub is_plain_component : WString → Bool
is_plain_component component =
    not (is_empty component || (component == codes "." || component == codes ".."))

-- The loop over the components, from the part of the current one that was read.
unfoldable pub are_plain_components : WString → WString → Bool
are_plain_components component [] = is_plain_component component
are_plain_components component (c ∷ rest) =
    let others = are_plain_components (if c == backslash then [] else component ++ c ∷ []) rest in
    if c == backslash then is_plain_component component && others else others

abbrev pub has_slash : WString → Bool
has_slash [] = false
has_slash (c ∷ rest) = c == slash || has_slash rest

-- Where the components of a full path start: after `c:\`, or after `\\` that is not followed by a
-- third backslash.
unfoldable pub component_start : WString → Option ℕ
component_start (c ∷ d ∷ e ∷ rest) =
    if d == b':' && e == backslash
    then some 3
    else if c == backslash && (d == backslash && not (e == backslash))
    then some 2
    else none
component_start _ = none

abbrev pub written_from : WString → Option ℕ → Bool
written_from path none = false
written_from path (some start) = not (has_slash path) && are_plain_components [] (drop start path)

unfoldable pub is_full_path_as_written : WString → Bool
is_full_path_as_written path = written_from path (component_start path)

-- The character after the drive's letter.
abbrev pub is_colon_second : WString → Bool
is_colon_second (c ∷ d ∷ rest) = d == b':'
is_colon_second _ = false

unfoldable pub without_extended_prefix : WString → WString
without_extended_prefix path =
    if has_prefix extended_unc path
    then unc ++ drop (length extended_unc) path
    else if has_prefix extended path && is_colon_second (drop (length extended) path)
    then drop (length extended) path
    else path

module _ (full_path_name : WString → Option WString) where
  abbrev pub prefixed : WString → WString
  prefixed full =
      if has_prefix unc full then extended_unc ++ drop (length unc) full else extended ++ full

  abbrev pub prefixed_if : WString → Option WString → WString
  prefixed_if path none = path
  prefixed_if path (some full) = prefixed full

  unfoldable pub with_extended_prefix : WString → WString
  with_extended_prefix path =
      if has_prefix extended path || has_prefix device path
      then path
      else if is_full_path_as_written path
      then prefixed path
      else prefixed_if path (full_path_name path)

  unfoldable pub extended_stream_path : WString → WString → WString
  extended_stream_path path stream_suffix = with_extended_prefix path ++ stream_suffix

  abbrev pub full_or : WString → Option WString → WString
  full_or plain none = plain
  full_or plain (some full) = full

  unfoldable pub comparable_path : (ℕ → ℕ) → WString → WString
  comparable_path lower path =
      let plain = without_extended_prefix (map to_backslash path) in
      map lower (trim_trailing (full_or plain (full_path_name plain)))
