-- ===== src/Sidecar/Keys.antt =====
-- The names of two sidecar files differ by their bases or by their suffixes
-- (src/LayerMount.dll/impl/SidecarMetadata.cpp: FileOf).
use layer_mount.Base.{
  ℕ, ◌≡◌, ◌≢◌, refl, sym, ap, ◌∙◌, List, [], ◌∷◌, ◌++◌, Option, none, some, arith,
}
use layer_mount.Layer.Disk.{WString}
use layer_mount.Sidecar.{meta_suffix, opaque_suffix}
use mathlib.Core.List.{append_cancel_right}

abbrev last : List ℕ → Option ℕ
last [] = none
last (c ∷ []) = some c
last (c ∷ d ∷ rest) = last (d ∷ rest)

-- The last character of a text with a longer suffix.
last-append : (front : List ℕ) (d : ℕ) (rest : List ℕ) → last (front ++ d ∷ rest) ≡ last (d ∷ rest)
last-append [] d rest = refl
last-append (x ∷ []) d rest = refl
last-append (x ∷ y ∷ more) d rest = last-append (y ∷ more) d rest

pub meta-opaque_ne : (a b : WString) → a ++ meta_suffix ≢ b ++ opaque_suffix
meta-opaque_ne a b e =
    let ends : some b'n' ≡ some b'e' = sym (last-append a _ _) ∙ ap last e ∙ last-append b _ _ in
    ground (arith, ends)

pub suffix_ne : (a b suffix : WString) → a ≢ b → a ++ suffix ≢ b ++ suffix
suffix_ne a b suffix other e = other (append_cancel_right a b suffix e)
