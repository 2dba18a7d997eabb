-- ===== src/Cache/Invalidation.antt =====
-- What the path cache still holds after `Invalidate` and `InvalidateWithAncestors`.
use layer_mount.Base.{ℕ, suc, ◌≡◌, refl, ap, sym, ◌∙◌, ◌&&◌, ◌||◌, not, none}
use layer_mount.Base.{[], ◌∷◌, ◌++◌, ◌==◌, eq_nat, eq_list, if◌then◌else◌, length, arith}
use layer_mount.Base.{snoc_induction, drop_last-snoc, length-append}
use layer_mount.Layer.Disk.{RelPath, WString}
use layer_mount.Cache.{
  Cache, find, erase_if, is_root, is_strict_prefix, ancestors_from, ancestors, has_path,
}
use layer_mount.Cache.{invalidate, invalidate_with_ancestors, stale, is_inside_directory}
use layer_mount.Cache.Laws.{find-erase_if}

is_strict_prefix-snoc :
    (k path : RelPath) (name : WString)
    → is_strict_prefix k (path ++ name ∷ []) ≡ (k == path || is_strict_prefix k path)
unfolding is_strict_prefix
is_strict_prefix-snoc [] [] name = refl
is_strict_prefix-snoc [] (n ∷ path) name = refl
is_strict_prefix-snoc (d ∷ []) [] name = ground arith
is_strict_prefix-snoc (d ∷ d' ∷ k) [] name = ground arith
is_strict_prefix-snoc (d ∷ k) (n ∷ path) name = ground (arith, is_strict_prefix-snoc k path name)

ancestors_from-snoc :
    (depth : ℕ) (path : RelPath) (name : WString)
    → ancestors_from (suc depth) (path ++ name ∷ [])
      ≡ (if is_root path then [] else path ∷ ancestors_from depth path)
unfolding ancestors_from
ancestors_from-snoc depth path name =
    ap (λ parent. if is_root parent then [] else parent ∷ ancestors_from depth parent)
      (drop_last-snoc path name)

-- The collected ancestors of an entry start with its parent, and go on with the parent's.
ancestors-snoc :
    (path : RelPath) (name : WString)
    → ancestors (path ++ name ∷ []) ≡ (if is_root path then [] else path ∷ ancestors path)
unfolding ancestors
ancestors-snoc path name =
    let longer : length (path ++ name ∷ []) ≡ suc (length path) =
      omega (arith, length-append path (name ∷ [])) in
    ap (λ depth. ancestors_from depth (path ++ name ∷ [])) longer
    ∙ ancestors_from-snoc (length path) path name

has_path-ancestors_parent :
    (k path : RelPath)
    → has_path k (ancestors path) ≡ (not (is_root k) && is_strict_prefix k path)
    → has_path k (if is_root path then [] else path ∷ ancestors path)
      ≡ (not (is_root k) && (k == path || is_strict_prefix k path))
unfolding has_path is_strict_prefix
has_path-ancestors_parent [] [] above = refl
has_path-ancestors_parent (d ∷ k) [] above = refl
has_path-ancestors_parent [] (n ∷ path) above = ground (arith, above)
has_path-ancestors_parent (d ∷ k) (n ∷ path) above = ground (arith, above)

has_path-ancestors_snoc :
    (k path : RelPath) (name : WString)
    → has_path k (ancestors path) ≡ (not (is_root k) && is_strict_prefix k path)
    → has_path k (ancestors (path ++ name ∷ []))
      ≡ (not (is_root k) && is_strict_prefix k (path ++ name ∷ []))
has_path-ancestors_snoc k path name above =
    ap (has_path k) (ancestors-snoc path name)
    ∙ (has_path-ancestors_parent k path above
        ∙ ap (λ below. not (is_root k) && below) (sym (is_strict_prefix-snoc k path name)))

has_path-ancestors_root :
    (k : RelPath) → has_path k (ancestors []) ≡ (not (is_root k) && is_strict_prefix k [])
unfolding ancestors ancestors_from has_path is_strict_prefix
has_path-ancestors_root k = ground arith

-- The collected ancestors of a path are the paths above it that are not the root.
has_path-ancestors :
    (k key : RelPath) → has_path k (ancestors key) ≡ (not (is_root k) && is_strict_prefix k key)
has_path-ancestors k key =
    snoc_induction (λ key. has_path k (ancestors key) ≡ (not (is_root k) && is_strict_prefix k key))
      (has_path-ancestors_root k) (has_path-ancestors_snoc k) key

module _ {V : Type 0} where
  -- After the invalidation of a key, a lookup finds nothing for that key and, when the key is not
  -- the root, nothing for a path below it. With the ancestors it also finds nothing for a path
  -- other than the root that the key is below. For every other path it finds what it did before.
  pub find-invalidate :
      (key k : RelPath) (c : Cache V)
      → (find k (invalidate key c).entries ≡ (
          if k == key || (not (is_root key) && is_strict_prefix key k)
          then none
          else find k c.entries))
        × (find k (invalidate_with_ancestors key c).entries ≡ (
            if k == key
              || ((not (is_root key) && is_strict_prefix key k)
                  || (not (is_root k) && is_strict_prefix k key))
            then none
            else find k c.entries))
  unfolding invalidate invalidate_with_ancestors is_inside_directory
  find-invalidate key k c = (
    ground (
      arith,
      find-erase_if (λ j. j == key) k c.entries,
      find-erase_if (λ j. is_inside_directory j key) k (erase_if (λ j. j == key) c.entries),
    ),
    ground (arith, find-erase_if (stale key) k c.entries, has_path-ancestors k key),
  )
