-- ===== src/Handle/Slots.antt =====
-- The free list and the slots of a handle table.
use layer_mount.Base.{ℕ, suc, zero, ◌<◌, ◌≡◌, refl, ◌≢◌, Bool, true, false, ◌||◌, ◌&&◌, not, some}
use layer_mount.Base.{List, [], ◌∷◌, ◌++◌, ◌==◌, eq_nat, length, get_elem?, set, arith}
use layer_mount.Base.{inl, inr, ◌⊎◌}
use layer_mount.Handle.{Slot}

unfoldable pub is_free : ℕ → List ℕ → Bool
is_free i [] = false
is_free i (j ∷ free) = i == j || is_free i free

pub get_elem?-lt :
    {T : Type 0} (slots : List (Slot T)) (i : ℕ) (slot : Slot T)
    → get_elem? slots i ≡ some slot
    → i < length slots
get_elem?-lt [] i slot at = absurd (ground arith)
get_elem?-lt (s ∷ slots) zero slot at = omega arith
get_elem?-lt (s ∷ slots) (suc i) slot at = omega (arith, get_elem?-lt slots i slot at)

-- A slot of a longer list is a slot of the list or the last.
pub get_elem?-snoc :
    {T : Type 0} (slots : List (Slot T)) (last : Slot T) (i : ℕ) (slot : Slot T)
    → get_elem? (slots ++ last ∷ []) i ≡ some slot
    → (get_elem? slots i ≡ some slot) ⊎ (i ≡ length slots) × (slot ≡ last)
get_elem?-snoc [] last zero slot at = inr (refl, ground (arith, at))
get_elem?-snoc [] last (suc i) slot at = absurd (ground arith)
get_elem?-snoc (s ∷ slots) last zero slot at = inl at
get_elem?-snoc (s ∷ slots) last (suc i) slot at = elim (get_elem?-snoc slots last i slot at) [
  | inl before ↦ inl before
  | inr (here, same) ↦ inr (ground (arith, here), same)
]

pub get_elem?-snoc_lt :
    {T : Type 0} (slots : List (Slot T)) (last : Slot T) (i : ℕ)
    → i < length slots
    → get_elem? (slots ++ last ∷ []) i ≡ get_elem? slots i
get_elem?-snoc_lt [] last i h = absurd (omega arith)
get_elem?-snoc_lt (s ∷ slots) last zero h = refl
get_elem?-snoc_lt (s ∷ slots) last (suc i) h = get_elem?-snoc_lt slots last i (omega arith)

pub get_elem?-snoc_last :
    {T : Type 0} (slots : List (Slot T)) (last : Slot T)
    → get_elem? (slots ++ last ∷ []) (length slots) ≡ some last
get_elem?-snoc_last [] last = refl
get_elem?-snoc_last (s ∷ slots) last = get_elem?-snoc_last slots last

-- A slot after a write is the written one or an old one elsewhere.
pub get_elem?-set :
    {T : Type 0} (slots : List (Slot T)) (i j : ℕ) (v slot : Slot T)
    → get_elem? (set slots i v) j ≡ some slot
    → (i ≡ j) × (slot ≡ v) ⊎ (i ≢ j) × (get_elem? slots j ≡ some slot)
get_elem?-set [] i j v slot at = absurd (ground arith)
get_elem?-set (s ∷ slots) zero zero v slot at = inl (refl, ground (arith, at))
get_elem?-set (s ∷ slots) zero (suc j) v slot at = inr (λ e. omega (arith, e), at)
get_elem?-set (s ∷ slots) (suc i) zero v slot at = inr (λ e. omega (arith, e), at)
get_elem?-set (s ∷ slots) (suc i) (suc j) v slot at = elim (get_elem?-set slots i j v slot at) [
  | inl (here, same) ↦ inl (ground (arith, here), same)
  | inr (other, there) ↦ inr (λ e. other (omega (arith, e)), there)
]

unfoldable pub are_distinct : List ℕ → Bool
unfolding is_free
are_distinct [] = true
are_distinct (i ∷ rest) = not (is_free i rest) && are_distinct rest

pub get_elem?-found :
    {T : Type 0} (slots : List (Slot T)) (i : ℕ)
    → i < length slots
    → (slot : Slot T) × (get_elem? slots i ≡ some slot)
get_elem?-found [] i h = absurd (omega arith)
get_elem?-found (s ∷ slots) zero h = (s, refl)
get_elem?-found (s ∷ slots) (suc i) h = get_elem?-found slots i (omega arith)
