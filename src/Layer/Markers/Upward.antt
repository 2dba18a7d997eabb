-- ===== src/Layer/Markers/Upward.antt =====
-- The search for a marker up to the root, one component at a time.
use layer_mount.Base.{suc, ◌≡◌, Bool, ◌||◌, [], ◌∷◌, ◌++◌, length, length-append}
use layer_mount.Base.{drop_last-snoc, arith}
use layer_mount.Layer.Disk.{WString, RelPath}
use layer_mount.Layer.Markers.{LayerRoot, any_up, any_directory_up_to_root}

-- The search from a directory is the directory itself, or the search from its parent.
pub any_directory_up_to_root-snoc :
    (has : RelPath → Bool) (root : LayerRoot) (path : RelPath) (c : WString)
    → any_directory_up_to_root has root (path ++ c ∷ [])
      ≡ (has (path ++ c ∷ []) || any_directory_up_to_root has root path)
unfolding any_directory_up_to_root
any_directory_up_to_root-snoc has root path c =
    let e : length (path ++ c ∷ []) ≡ suc (length path) =
      omega (arith, length-append path (c ∷ [])) in
    rw (e, any_up, drop_last-snoc)
