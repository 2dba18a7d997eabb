-- ===== src/PathText/Tests.antt =====
-- Paths with the properties of their text forms applied to them.
use layer_mount.Base.{some, ◌++◌, ◌≡◌, refl, true, false, none, codes, ◌≤◌, length, Option}
use layer_mount.Layer.Disk.{WString}
use layer_mount.PathText.{
  extended, has_prefix, is_full_path_as_written, normalize_path_preserve_case, with_extended_prefix,
  without_extended_prefix, skip_leading, trim_trailing, component_start, are_plain_components,
}
use layer_mount.PathText.Normal.{IsNormal, normalize_path_preserve_case-IsNormal}
use layer_mount.PathText.Prefixes.{with_extended_prefix-once, with_extended_prefix-without}

normalize_path_preserve_case-IsNormal_example :
    IsNormal (normalize_path_preserve_case (codes "/a/B\\"))
    × (length (normalize_path_preserve_case (codes "/a/B\\")) ≤ length (codes "/a/B\\"))
    × (IsNormal (codes "/a/B\\") → normalize_path_preserve_case (codes "/a/B\\") ≡ codes "/a/B\\")
    × (normalize_path_preserve_case (normalize_path_preserve_case (codes "/a/B\\"))
        ≡ normalize_path_preserve_case (codes "/a/B\\"))
normalize_path_preserve_case-IsNormal_example =
    normalize_path_preserve_case-IsNormal (codes "/a/B\\")

normal : normalize_path_preserve_case (codes "/a/B\\") ≡ codes "a\\B"
unfolding normalize_path_preserve_case skip_leading trim_trailing
normal = refl

abbrev unresolved : WString → Option WString
unresolved path = none

written : is_full_path_as_written (codes "C:\\a") ≡ true
unfolding is_full_path_as_written component_start are_plain_components
written = refl

with_extended_prefix-without_example :
    (has_prefix extended (with_extended_prefix unresolved (codes "C:\\a")) ≡ true)
    × (without_extended_prefix (with_extended_prefix unresolved (codes "C:\\a")) ≡ codes "C:\\a")
with_extended_prefix-without_example =
    with_extended_prefix-without unresolved (codes "C:\\a") written refl

-- A relative path, with the full path that Windows gives for it.
abbrev in_c : WString → Option WString
in_c path = some (codes "C:\\" ++ path)

with_extended_prefix-once_example :
    (has_prefix extended (with_extended_prefix in_c (codes "a")) ≡ true)
    × (with_extended_prefix in_c (with_extended_prefix in_c (codes "a"))
        ≡ with_extended_prefix in_c (codes "a"))
with_extended_prefix-once_example =
    with_extended_prefix-once in_c (codes "a") (codes "C:\\a") refl refl

share : is_full_path_as_written (codes "\\\\s\\..") ≡ false
unfolding is_full_path_as_written component_start are_plain_components
share = refl
