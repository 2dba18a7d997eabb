-- ===== src/Handle/Reuse.antt =====
-- A handle value whose slot moved on: it never names a payload again.
use layer_mount.Base.{ℕ, ◌≤◌, ◌<◌, ◌≡◌, ◌∙◌, false, ◌||◌, some}
use layer_mount.Base.{List, [], ◌∷◌, ◌==◌, eq_nat, length, get_elem?, set, arith, ==_eq, subst, ltb}
use layer_mount.Base.{Bool-cases, inl, inr, ◌⊎◌, get_elem?-set_self, get_elem?-set_ne}
use layer_mount.Handle.{
  HandleTable, Slot, max_generation, take_slot, take_slot_from, grow, first_slots, empty_slot,
}
use layer_mount.Handle.{free}
use layer_mount.Handle.Slots.{is_free, get_elem?-lt, get_elem?-snoc_lt}

module _ {T : Type 0} where
  -- A slot past the generation, or a retired slot of it.
  abbrev pub IsPast : ℕ → ℕ → List ℕ → Slot T → Type 0
  IsPast i generation free slot =
      (slot.generation ≤ max_generation)
      × ((generation < slot.generation)
          ⊎ ((slot.live || slot.reserved) ≡ false) × (is_free i free ≡ false))

  abbrev pub IsDead : ℕ → ℕ → List (Slot T) → List ℕ → Type 0
  IsDead i generation slots free =
      (slot : Slot T) × (get_elem? slots i ≡ some slot) × IsPast i generation free slot

  -- A write at another index, or of a slot that is past the generation too.
  pub set-IsDead :
      (i j generation : ℕ) (slots : List (Slot T)) (free : List ℕ) (v : Slot T)
      → IsDead i generation slots free
      → ((slot : Slot T)
          → i ≡ j
          → get_elem? slots i ≡ some slot
          → IsPast i generation free slot
          → IsPast i generation free v)
      → IsDead i generation (set slots j v) free
  set-IsDead i j generation slots free v (slot, at, past) keeps = elim (Bool-cases (i == j)) [
    | inl same ↦
        let eq = ==_eq i j same in
        (
          v,
          subst (λ j. get_elem? (set slots j v) i ≡ some v) eq
              (get_elem?-set_self slots i v (get_elem?-lt slots i slot at)),
          keeps slot eq at past,
        )
    | inr other ↦ (slot, get_elem?-set_ne slots j i v (λ e. ground (arith, e, other)) ∙ at, past)
  ]

  grow-IsDead :
      (i generation max_slot : ℕ) (slots : List (Slot T))
      → IsDead i generation slots []
      → let t : HandleTable T = record { max_slot = max_slot; slots = slots; free_slots = [] } in
        IsDead i generation
          (grow t (first_slots slots)).1.slots
          (grow t (first_slots slots)).1.free_slots
  grow-IsDead i generation max_slot [] (slot, at, past) = absurd (ground arith)
  grow-IsDead i generation max_slot (s ∷ slots) (slot, at, past) =
      elim (Bool-cases (ltb max_slot (length (s ∷ slots)))) [
        | inl full ↦ rw full (slot, at, past)
        | inr room ↦ rw room (
          slot,
          get_elem?-snoc_lt (s ∷ slots) empty_slot i (get_elem?-lt (s ∷ slots) i slot at) ∙ at,
          past,
        )
      ]

  pop-IsDead :
      (i j generation : ℕ) (slots : List (Slot T)) (free : List ℕ)
      → IsDead i generation slots (j ∷ free)
      → IsDead i generation slots free
  unfolding is_free
  pop-IsDead i j generation slots free (slot, at, (range, inl older)) =
      (slot, at, (range, inl older))
  pop-IsDead i j generation slots free (slot, at, (range, inr (idle, unfree))) =
      (slot, at, (range, inr (idle, ground (arith, unfree))))

  grow-apart :
      (i generation max_slot : ℕ) (slots : List (Slot T))
      → IsDead i generation slots []
      → let t : HandleTable T = record { max_slot = max_slot; slots = slots; free_slots = [] } in
        (slot : Slot T)
        → i ≡ (grow t (first_slots slots)).0
        → (i == 0) ≡ false
        → get_elem? (grow t (first_slots slots)).1.slots i ≡ some slot
        → generation < slot.generation
  grow-apart i generation max_slot [] (s, at, past) slot here other taken = absurd (ground arith)
  grow-apart i generation max_slot (s ∷ slots) (old, at, past) slot here other taken =
      let inside = get_elem?-lt (s ∷ slots) i old at in
      elim (Bool-cases (ltb max_slot (length (s ∷ slots)))) [
        | inl full ↦ absurd (ground (arith, full, here, other))
        | inr room ↦ absurd (ground (arith, room, here, inside))
      ]

  pop-older :
      (i j generation : ℕ) (slots : List (Slot T)) (free : List ℕ)
      → IsDead i generation slots (j ∷ free)
      → (slot : Slot T) → i ≡ j
      → (i == 0) ≡ false
      → get_elem? slots i ≡ some slot
      → generation < slot.generation
  unfolding is_free
  pop-older i j generation slots free (s, at, (range, inl older)) slot here other taken =
      let same : s ≡ slot = ground (arith, at, taken) in
      subst (λ s. generation < s.generation) same older
  pop-older i j generation slots free (s, at, (range, inr (idle, unfree))) slot here other taken =
      absurd (ground (arith, unfree, here))

  -- Taking a slot leaves a dead one dead, and does not take it while it is retired.
  take_slot_from-IsDead :
      (i generation max_slot : ℕ) (slots : List (Slot T)) (free : List ℕ)
      → IsDead i generation slots free
      → let t : HandleTable T = record { max_slot = max_slot; slots = slots; free_slots = free } in
        IsDead i generation (take_slot_from t free).1.slots (take_slot_from t free).1.free_slots
        × ((slot : Slot T)
            → i ≡ (take_slot_from t free).0
            → (i == 0) ≡ false
            → get_elem? (take_slot_from t free).1.slots i ≡ some slot
            → generation < slot.generation)
  unfolding take_slot_from
  take_slot_from-IsDead i generation max_slot slots [] dead =
      (grow-IsDead i generation max_slot slots dead, grow-apart i generation max_slot slots dead)
  take_slot_from-IsDead i generation max_slot slots (j ∷ free) dead =
      (pop-IsDead i j generation slots free dead, pop-older i j generation slots free dead)

  pub take_slot-IsDead :
      (i generation : ℕ) (t : HandleTable T)
      → IsDead i generation t.slots t.free_slots
      → IsDead i generation (take_slot t).1.slots (take_slot t).1.free_slots
        × ((slot : Slot T)
            → i ≡ (take_slot t).0
            → (i == 0) ≡ false
            → get_elem? (take_slot t).1.slots i ≡ some slot
            → generation < slot.generation)
  unfolding take_slot
  take_slot-IsDead i generation t dead =
      take_slot_from-IsDead i generation t.max_slot t.slots t.free_slots dead
