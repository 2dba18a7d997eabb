-- ===== src/Links.antt =====
-- The text of relative link targets (src/LayerMount.dll/impl/PathResolver.cpp: SplitComponents,
-- JoinComponents, ResolveRelativeTarget, SpliceLinkTarget).
mod Tests
pub mod Pieces
pub mod Targets
use layer_mount.Base.{ℕ, suc, ◌+◌, Bool, true, false, ◌&&◌, ◌||◌, not, List, [], ◌∷◌, ◌++◌, map}
use layer_mount.Base.{◌==◌, eq_nat, eq_list, if◌then◌else◌, codes, take, drop, drop_last}
use layer_mount.Layer.Disk.{WString}

abbrev pub separator : ℕ
separator = 92

abbrev pub slash : ℕ
slash = 47

abbrev pub is_empty : WString → Bool
is_empty [] = true
is_empty (c ∷ rest) = false

-- The component that was read, where it is not empty, before the ones that follow.
abbrev pub add_component : WString → List WString → List WString
add_component component following = if is_empty component then following else component ∷ following

-- The components of the text that is left, behind the part of a component that was read.
unfoldable pub split_from : WString → WString → List WString
split_from component [] = add_component component []
split_from component (c ∷ rest) =
    let next = split_from [] rest in
    let longer = split_from (component ++ c ∷ []) rest in
    if c == separator then add_component component next else longer

unfoldable pub split_components : WString → List WString
unfolding split_from
split_components path = split_from [] path

unfoldable pub join_all : List WString → WString
join_all [] = []
join_all (c ∷ []) = c
join_all (c ∷ d ∷ rest) = c ++ separator ∷ join_all (d ∷ rest)

unfoldable pub join_components : List WString → ℕ → WString
unfolding join_all
join_components components count = join_all (take count components)

-- One step of the loop over the components of a target.
unfoldable pub enter_component : List WString → WString → List WString
enter_component parent component =
    if component == codes ".."
    then drop_last parent
    else if component == codes "."
    then parent
    else parent ++ component ∷ []

unfoldable pub enter_all : List WString → List WString → List WString
unfolding enter_component
enter_all parent [] = parent
enter_all parent (component ∷ rest) = enter_all (enter_component parent component) rest

abbrev pub with_separators : WString → WString
with_separators target = map (λ c. if c == slash then separator else c) target

abbrev pub is_rooted : WString → Bool
is_rooted [] = false
is_rooted (c ∷ rest) = c == separator

unfoldable pub resolve_relative_target : List WString → WString → List WString
unfolding enter_all split_components
resolve_relative_target parent target =
    enter_all (if is_rooted (with_separators target) then [] else parent)
      (split_components (with_separators target))

unfoldable pub splice_link_target : List WString → ℕ → WString → List WString
unfolding resolve_relative_target
splice_link_target components link_index target =
    resolve_relative_target (take link_index components) target ++ drop (suc link_index) components
