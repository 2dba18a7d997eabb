-- ===== src/Links/Targets.antt =====
-- What the target of a relative link resolves to.
use layer_mount.Base.{
  ℕ, suc, zero, ◌≡◌, refl, Bool, true, false, ◌&&◌, not, List, [], ◌∷◌, ◌++◌, arith, codes, take,
  drop, drop_last,
}
use layer_mount.Base.{◌==◌, eq_nat, eq_list, if◌then◌else◌, Bool-cases, inl, inr}
use layer_mount.Layer.Disk.{WString}
use layer_mount.Links.{
  is_empty, split_components, enter_component, enter_all, with_separators, is_rooted, slash,
  separator, split_from, add_component,
}
use layer_mount.Links.{resolve_relative_target, splice_link_target}
use layer_mount.Links.Pieces.{is_one_piece, are_pieces, are_pieces-split_from}

-- Whether a text has no slash in it.
unfoldable pub is_slash_free : WString → Bool
is_slash_free [] = true
is_slash_free (c ∷ rest) = not (c == slash) && is_slash_free rest

unfoldable pub are_slash_free : List WString → Bool
unfolding is_slash_free
are_slash_free [] = true
are_slash_free (c ∷ rest) = is_slash_free c && are_slash_free rest

is_slash_free-snoc :
    (component : WString) (c : ℕ)
    → is_slash_free component ≡ true
    → (c == slash) ≡ false
    → is_slash_free (component ++ c ∷ []) ≡ true
unfolding is_slash_free
is_slash_free-snoc [] c h other = ground (arith, other)
is_slash_free-snoc (d ∷ rest) c h other = ground (arith, is_slash_free-snoc rest c, h, other)

is_slash_free-with_separators : (target : WString) → is_slash_free (with_separators target) ≡ true
unfolding is_slash_free
is_slash_free-with_separators [] = refl
is_slash_free-with_separators (c ∷ rest) = elim (Bool-cases (c == slash)) [
  | inl same ↦ rw same (is_slash_free-with_separators rest)
  | inr other ↦ rw (other, other) (is_slash_free-with_separators rest)
]

are_slash_free-add :
    (component : WString) (following : List WString)
    → is_slash_free component ≡ true
    → are_slash_free following ≡ true
    → are_slash_free (add_component component following) ≡ true
unfolding are_slash_free
are_slash_free-add [] following h rest = rest
are_slash_free-add (c ∷ component) following h rest = ground (arith, h, rest)

-- The components of a text without a slash have none.
are_slash_free-split_from :
    (component text : WString)
    → is_slash_free component ≡ true
    → is_slash_free text ≡ true
    → are_slash_free (split_from component text) ≡ true
unfolding split_from are_slash_free is_slash_free
are_slash_free-split_from component [] h text = are_slash_free-add component [] h refl
are_slash_free-split_from component (c ∷ rest) h text = elim (Bool-cases (c == separator)) [
  | inl ends ↦ rw ends (
      are_slash_free-add component (split_from [] rest) h
        (are_slash_free-split_from [] rest refl (ground (arith, text))))
  | inr longer ↦ rw longer (
      are_slash_free-split_from (component ++ c ∷ []) rest
        (is_slash_free-snoc component c h (ground (arith, text))) (ground (arith, text)))
]

-- A component of a view path: not empty, with no separator and no slash, and neither `.` nor `..`.
unfoldable pub is_plain : WString → Bool
unfolding is_one_piece is_slash_free
is_plain c =
    (((not (is_empty c) && is_one_piece c) && is_slash_free c) && not (c == codes "."))
    && not (c == codes "..")

unfoldable pub are_plain : List WString → Bool
unfolding is_plain
are_plain [] = true
are_plain (c ∷ rest) = is_plain c && are_plain rest

are_plain-append : (xs ys : List WString) → are_plain (xs ++ ys) ≡ (are_plain xs && are_plain ys)
unfolding are_plain
are_plain-append [] ys = refl
are_plain-append (x ∷ xs) ys = ground (arith, are_plain-append xs ys)

are_plain-drop_last : (xs : List WString) → are_plain xs ≡ true → are_plain (drop_last xs) ≡ true
unfolding are_plain
are_plain-drop_last [] h = refl
are_plain-drop_last (x ∷ []) h = refl
are_plain-drop_last (x ∷ y ∷ xs) h = ground (arith, h, are_plain-drop_last (y ∷ xs))

are_plain-take : (n : ℕ) (xs : List WString) → are_plain xs ≡ true → are_plain (take n xs) ≡ true
unfolding are_plain
are_plain-take zero xs h = refl
are_plain-take (suc n) [] h = refl
are_plain-take (suc n) (x ∷ xs) h = ground (arith, h, are_plain-take n xs)

are_plain-drop : (n : ℕ) (xs : List WString) → are_plain xs ≡ true → are_plain (drop n xs) ≡ true
unfolding are_plain
are_plain-drop zero xs h = h
are_plain-drop (suc n) [] h = refl
are_plain-drop (suc n) (x ∷ xs) h = are_plain-drop n xs (ground (arith, h))

are_plain-enter_component :
    (parent : List WString) (c : WString)
    → are_plain parent ≡ true
    → (not (is_empty c) && is_one_piece c) ≡ true
    → is_slash_free c ≡ true
    → are_plain (enter_component parent c) ≡ true
unfolding enter_component are_plain
are_plain-enter_component parent c h piece no_slash = elim (Bool-cases (c == codes "..")) [
  | inl up ↦ rw up (are_plain-drop_last parent h)
  | inr down ↦ elim (Bool-cases (c == codes ".")) [
    | inl here ↦ rw (down, here) h
    | inr name ↦
        rw (down, name, are_plain-append parent (c ∷ []))
          (ground (arith, h, piece, no_slash, down, name))
  ]
]

are_plain-enter_all :
    (parent components : List WString)
    → are_plain parent ≡ true
    → are_pieces components ≡ true
    → are_slash_free components ≡ true
    → are_plain (enter_all parent components) ≡ true
unfolding enter_all are_pieces are_slash_free
are_plain-enter_all parent [] h pieces no_slash = h
are_plain-enter_all parent (c ∷ rest) h pieces no_slash =
    are_plain-enter_all (enter_component parent c) rest
      (are_plain-enter_component parent c h (ground (arith, pieces)) (ground (arith, no_slash)))
      (ground (arith, pieces)) (ground (arith, no_slash))

are_plain-resolve_relative_target :
    (parent : List WString) (target : WString)
    → are_plain parent ≡ true
    → are_plain (resolve_relative_target parent target) ≡ true
unfolding resolve_relative_target split_components are_plain is_one_piece is_slash_free
are_plain-resolve_relative_target parent target h =
    are_plain-enter_all (if is_rooted (with_separators target) then [] else parent)
      (split_components (with_separators target))
      (elim (Bool-cases (is_rooted (with_separators target))) [
        | inl rooted ↦ rw rooted refl
        | inr relative ↦ rw relative h
      ])
      (are_pieces-split_from [] (with_separators target) refl)
      (are_slash_free-split_from [] (with_separators target) refl
        (is_slash_free-with_separators target))

-- When the target of a link is put into a view path whose components are plain, the components of
-- the result are plain, whatever the target's text is: none is empty, none has a separator or a
-- slash, and none is `.` or `..`.
pub splice_link_target-plain :
    (components : List WString) (link_index : ℕ) (target : WString)
    → are_plain components ≡ true
    → are_plain (splice_link_target components link_index target) ≡ true
unfolding splice_link_target
splice_link_target-plain components link_index target h =
    rw
      (are_plain-append (resolve_relative_target (take link_index components) target)
        (drop (suc link_index) components))
      (ground (
        arith,
        are_plain-resolve_relative_target (take link_index components) target
            (are_plain-take link_index components h),
        are_plain-drop (suc link_index) components h,
      ))
