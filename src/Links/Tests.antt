-- ===== src/Links/Tests.antt =====
-- A view path with a link in it, and the properties of link targets applied to it.
use layer_mount.Base.{◌≡◌, refl, true, List, [], ◌∷◌, codes}
use layer_mount.Layer.Disk.{WString}
use layer_mount.Links.{split_components, join_all, splice_link_target}
use layer_mount.Links.Pieces.{are_pieces, split_components-join_all}
use layer_mount.Links.Targets.{are_plain, splice_link_target-plain}

abbrev path : List WString
path = codes "a" ∷ codes "link" ∷ codes "b" ∷ []

split_components-join_all_example : split_components (join_all path) ≡ path
unfolding are_pieces
split_components-join_all_example = split_components-join_all path refl

splice_link_target-plain_example : are_plain (splice_link_target path 1 (codes "../c/./d")) ≡ true
unfolding are_plain
splice_link_target-plain_example = splice_link_target-plain path 1 (codes "../c/./d") refl

spliced : splice_link_target path 1 (codes "../c/./d") ≡ codes "c" ∷ codes "d" ∷ codes "b" ∷ []
unfolding splice_link_target
spliced = refl
