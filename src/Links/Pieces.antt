-- ===== src/Links/Pieces.antt =====
-- The components of a text and the text of components.
use layer_mount.Base.{
  ℕ, ◌≡◌, refl, ap, sym, ◌∙◌, Bool, true, false, ◌&&◌, not, List, [], ◌∷◌, ◌++◌, arith,
}
use layer_mount.Base.{◌==◌, eq_nat, append-nil, append_assoc, Bool-cases, inl, inr}
use layer_mount.Layer.Disk.{WString}
use layer_mount.Links.{separator, is_empty, add_component, split_from, split_components, join_all}

-- Whether a text has no separator in it.
unfoldable pub is_one_piece : WString → Bool
is_one_piece [] = true
is_one_piece (c ∷ rest) = not (c == separator) && is_one_piece rest

-- Whether every component is one that a split gives: not empty and with no separator.
unfoldable pub are_pieces : List WString → Bool
unfolding is_one_piece
are_pieces [] = true
are_pieces (c ∷ rest) = (not (is_empty c) && is_one_piece c) && are_pieces rest

pub is_one_piece-snoc :
    (component : WString) (c : ℕ)
    → is_one_piece component ≡ true
    → (c == separator) ≡ false
    → is_one_piece (component ++ c ∷ []) ≡ true
unfolding is_one_piece
is_one_piece-snoc [] c h other = ground (arith, other)
is_one_piece-snoc (d ∷ rest) c h other = ground (arith, is_one_piece-snoc rest c, h, other)

are_pieces-add :
    (component : WString) (following : List WString)
    → is_one_piece component ≡ true
    → are_pieces following ≡ true
    → are_pieces (add_component component following) ≡ true
unfolding are_pieces
are_pieces-add [] following h rest = rest
are_pieces-add (c ∷ component) following h rest = ground (arith, h, rest)

pub are_pieces-split_from :
    (component text : WString)
    → is_one_piece component ≡ true
    → are_pieces (split_from component text) ≡ true
unfolding split_from are_pieces
are_pieces-split_from component [] h = are_pieces-add component [] h refl
are_pieces-split_from component (c ∷ rest) h = elim (Bool-cases (c == separator)) [
  | inl ends ↦
      rw ends (are_pieces-add component (split_from [] rest) h (are_pieces-split_from [] rest refl))
  | inr other ↦
      rw other
        (are_pieces-split_from (component ++ c ∷ []) rest (is_one_piece-snoc component c h other))
]

-- A piece in front of a text goes on with the component that was read.
split_from-piece :
    (component piece text : WString)
    → is_one_piece piece ≡ true
    → split_from component (piece ++ text) ≡ split_from (component ++ piece) text
unfolding split_from is_one_piece
split_from-piece component [] text h = ap (λ c. split_from c text) (sym (append-nil component))
split_from-piece component (c ∷ piece) text h =
    let other : (c == separator) ≡ false = ground (arith, h) in
    rw other (
      split_from-piece (component ++ c ∷ []) piece text (ground (arith, h))
      ∙ ap (λ d. split_from d text) (append_assoc component (c ∷ []) piece))

add_component-full :
    (component : WString) (following : List WString)
    → is_empty component ≡ false
    → add_component component following ≡ component ∷ following
add_component-full [] following h = absurd (ground arith)
add_component-full (c ∷ component) following h = refl

split_from-separator :
    (component text : WString)
    → split_from component (separator ∷ text) ≡ add_component component (split_from [] text)
unfolding split_from
split_from-separator component text = refl

split_from-end : (component : WString) → split_from component [] ≡ add_component component []
unfolding split_from
split_from-end component = refl

-- The components of a text that was joined from components, none of them empty and none with a
-- separator in it, are those components.
pub split_components-join_all :
    (components : List WString)
    → are_pieces components ≡ true
    → split_components (join_all components) ≡ components
unfolding split_components join_all are_pieces
split_components-join_all [] h = split_from-end []
split_components-join_all (c ∷ []) h =
    ap (split_from []) (sym (append-nil c))
    ∙ (split_from-piece [] c [] (ground (arith, h))
        ∙ (split_from-end c ∙ add_component-full c [] (ground (arith, h))))
split_components-join_all (c ∷ d ∷ rest) h =
    split_from-piece [] c (separator ∷ join_all (d ∷ rest)) (ground (arith, h))
    ∙ (split_from-separator c (join_all (d ∷ rest))
        ∙ (add_component-full c (split_from [] (join_all (d ∷ rest))) (ground (arith, h))
            ∙ ap (◌∷◌ c) (split_components-join_all (d ∷ rest) (ground (arith, h)))))
