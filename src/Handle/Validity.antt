-- ===== src/Handle/Validity.antt =====
-- The tables that the operations keep: what is live or reserved is not free.
use layer_mount.Base.{
  ℕ, suc, ◌+◌, ◌≤◌, ◌<◌, ◌≡◌, refl, sym, subst, Bool, true, false, ◌||◌, ◌&&◌, some,
}
use layer_mount.Base.{
  List, [], ◌∷◌, ◌++◌, ◌==◌, eq_nat, length, get_elem?, set, arith, length-set, ltb, leb,
}
use layer_mount.Base.{Bool-cases, inl, inr, ◌⊎◌, length-append}
use layer_mount.Handle.{
  HandleTable, Slot, max_generation, slot_mask, empty_slot, take_slot, take_slot_from, grow,
  first_slots,
}
use layer_mount.Handle.{recycle}
use layer_mount.Handle.Slots.{
  is_free, are_distinct, get_elem?-snoc, get_elem?-set, get_elem?-snoc_last, get_elem?-found,
}

module _ {T : Type 0} where
  -- A slot that a table may hold at an index: its generation is in range, and a live or reserved
  -- slot, which is not both, is not on the free list.
  abbrev pub IsSound : List ℕ → ℕ → Slot T → Type 0
  IsSound free i slot =
      (slot.generation ≤ max_generation)
      × ((slot.live && slot.reserved) ≡ false)
      × (((slot.live || slot.reserved) && is_free i free) ≡ false)

  pub record IsValid (max_slot : ℕ) (slots : List (Slot T)) (free : List ℕ) : Type 0 where
    pub bounded : max_slot ≤ slot_mask
    pub fits : length slots ≤ suc max_slot
    pub distinct : are_distinct free ≡ true
    pub in_range : (i : ℕ) → is_free i free ≡ true → i < length slots
    pub sound : (i : ℕ) (slot : Slot T) → get_elem? slots i ≡ some slot → IsSound free i slot

  abbrev pub IsTable : HandleTable T → Type 0
  IsTable t = IsValid t.max_slot t.slots t.free_slots

  -- A write of a sound slot.
  pub set-IsValid :
      (max_slot : ℕ) (slots : List (Slot T)) (free : List ℕ) (i : ℕ) (slot : Slot T)
      → IsValid max_slot slots free
      → IsSound free i slot
      → IsValid max_slot (set slots i slot) free
  set-IsValid max_slot slots free i slot valid good = record {
    bounded = valid.bounded;
    fits = omega (arith, length-set slots i slot, valid.fits);
    distinct = valid.distinct;
    in_range = λ j free. omega (arith, length-set slots i slot, valid.in_range j free);
    sound = λ j s at. elim (get_elem?-set slots i j slot s at) [
      | inl (here, same) ↦
          subst (λ j. IsSound free j s) here (subst (IsSound free i) (sym same) good)
      | inr (other, there) ↦ valid.sound j s there
    ];
  }

  -- What is true of the slot that was taken: it is unused and not on the free list.
  abbrev pub IsTaken : ℕ → List (Slot T) → List ℕ → Type 0
  IsTaken i slots free =
      (i ≡ 0)
      ⊎ (slot : Slot T) × (get_elem? slots i ≡ some slot)
        × ((slot.live || slot.reserved) ≡ false)
        × (is_free i free ≡ false)

  IsSound-tail :
      (i j : ℕ) (free : List ℕ) (slot : Slot T) → IsSound (i ∷ free) j slot → IsSound free j slot
  unfolding is_free
  IsSound-tail i j free slot (range, one, used) = (range, one, ground (arith, used))

  pop-IsValid :
      (max_slot : ℕ) (slots : List (Slot T)) (i : ℕ) (free : List ℕ)
      → IsValid max_slot slots (i ∷ free)
      → IsValid max_slot slots free × IsTaken i slots free
  unfolding is_free are_distinct
  pop-IsValid max_slot slots i free valid =
      let first : is_free i (i ∷ free) ≡ true = ground arith in
      let (slot, at) = get_elem?-found slots i (valid.in_range i first) in
      (
        record {
          bounded = valid.bounded;
          fits = valid.fits;
          distinct = ground (arith, valid.distinct);
          in_range = λ j h. valid.in_range j (ground (arith, h));
          sound = λ j s here. IsSound-tail i j free s (valid.sound j s here);
        },
        inr (
          slot,
          at,
          ground (arith, (valid.sound i slot at).2, first),
          ground (arith, valid.distinct),
        ),
      )

  first_slots-IsValid :
      (max_slot : ℕ) (slots : List (Slot T))
      → IsValid max_slot slots []
      → IsValid max_slot (first_slots slots) []
  unfolding is_free
  first_slots-IsValid max_slot (s ∷ slots) valid = valid
  first_slots-IsValid max_slot [] valid = record {
    bounded = valid.bounded;
    fits = omega arith;
    distinct = valid.distinct;
    in_range = λ i h. absurd (ground arith);
    sound = λ i s at. elim (get_elem?-snoc [] empty_slot i s at) [
      | inl before ↦ valid.sound i s before
      | inr (here, same) ↦ subst (IsSound [] i) (sym same) (omega arith, refl, refl)
    ];
  }

  snoc-IsValid :
      (max_slot : ℕ) (slots : List (Slot T))
      → IsValid max_slot slots []
      → length slots ≤ max_slot
      → IsValid max_slot (slots ++ empty_slot ∷ []) []
        × IsTaken (length slots) (slots ++ empty_slot ∷ []) []
  unfolding is_free
  snoc-IsValid max_slot slots valid room = (
    record {
      bounded = valid.bounded;
      fits = omega (arith, length-append slots (empty_slot ∷ []), room);
      distinct = valid.distinct;
      in_range = λ i h. absurd (ground arith);
      sound = λ i s at. elim (get_elem?-snoc slots empty_slot i s at) [
        | inl before ↦ valid.sound i s before
        | inr (here, same) ↦ subst (IsSound [] i) (sym same) (omega arith, refl, refl)
      ];
    },
    inr (empty_slot, get_elem?-snoc_last slots empty_slot, refl, refl),
  )

  grow-IsTable :
      (max_slot : ℕ) (old slots : List (Slot T))
      → IsValid max_slot slots []
      → let t : HandleTable T = record { max_slot = max_slot; slots = old; free_slots = [] } in
        IsTable (grow t slots).1
        × IsTaken (grow t slots).0 (grow t slots).1.slots (grow t slots).1.free_slots
  grow-IsTable max_slot old slots valid = elim (Bool-cases (ltb max_slot (length slots))) [
    | inl full ↦ rw full (valid, inl refl)
    | inr room ↦ rw room (snoc-IsValid max_slot slots valid (ground (arith, room)))
  ]

  take_slot_from-IsTable :
      (max_slot : ℕ) (slots : List (Slot T)) (free : List ℕ)
      → IsValid max_slot slots free
      → let t : HandleTable T = record { max_slot = max_slot; slots = slots; free_slots = free } in
        IsTable (take_slot_from t free).1
        × IsTaken
            (take_slot_from t free).0
            (take_slot_from t free).1.slots
            (take_slot_from t free).1.free_slots
  unfolding take_slot_from
  take_slot_from-IsTable max_slot slots [] valid =
      grow-IsTable max_slot slots (first_slots slots) (first_slots-IsValid max_slot slots valid)
  take_slot_from-IsTable max_slot slots (i ∷ free) valid = pop-IsValid max_slot slots i free valid

  -- Taking a slot keeps a table valid, and gives 0 or an unused slot that the free list lacks.
  pub take_slot-IsTable :
      (t : HandleTable T)
      → IsTable t
      → IsTable (take_slot t).1
        × IsTaken (take_slot t).0 (take_slot t).1.slots (take_slot t).1.free_slots
  unfolding take_slot
  take_slot-IsTable t valid = take_slot_from-IsTable t.max_slot t.slots t.free_slots valid

  push-IsValid :
      (max_slot : ℕ) (slots : List (Slot T)) (free : List ℕ) (i : ℕ) (slot : Slot T)
      → IsValid max_slot slots free
      → i < length slots
      → is_free i free ≡ false
      → slot.generation ≤ max_generation
      → (slot.live || slot.reserved) ≡ false
      → IsValid max_slot (set slots i slot) (i ∷ free)
  unfolding is_free are_distinct
  push-IsValid max_slot slots free i slot valid inside unfree range idle = record {
    bounded = valid.bounded;
    fits = omega (arith, length-set slots i slot, valid.fits);
    distinct = ground (arith, valid.distinct, unfree);
    in_range = λ j h. elim (Bool-cases (j == i)) [
      | inl same ↦ ground (arith, length-set slots i slot, inside, same)
      | inr other ↦ ground (arith, length-set slots i slot, valid.in_range j, other, h)
    ];
    sound = λ j s at. elim (get_elem?-set slots i j slot s at) [
      | inl (here, same) ↦
          subst (IsSound (i ∷ free) j) (sym same)
            (range, ground (arith, idle), ground (arith, idle))
      | inr (other, there) ↦
          let (r, one, used) = valid.sound j s there in (r, one, ground (arith, used, other))
    ];
  }

  -- Recycling a slot whose fields were reset keeps a table valid, also where the generation is at
  -- its end or the free list cannot grow.
  pub recycle-IsTable :
      (can_grow : Bool) (t : HandleTable T) (i : ℕ) (slot : Slot T)
      → IsTable t
      → i < length t.slots
      → is_free i t.free_slots ≡ false
      → slot.generation ≤ max_generation
      → (slot.live || slot.reserved) ≡ false
      → IsTable (recycle can_grow t i slot)
  unfolding recycle
  recycle-IsTable can_grow t i slot valid inside unfree range idle =
      let retired =
        set-IsValid t.max_slot t.slots t.free_slots i (record slot { generation = max_generation })
          valid (omega arith, ground (arith, idle), ground (arith, idle)) in
      elim (Bool-cases (leb max_generation slot.generation)) [
        | inl full ↦ rw full retired
        | inr more ↦ elim (Bool-cases can_grow) [
          | inl grows ↦
              rw (more, grows)
                (push-IsValid t.max_slot t.slots t.free_slots i
                  (record slot { generation = slot.generation + 1 }) valid inside unfree
                  (ground (arith, more)) idle)
          | inr fails ↦ rw (more, fails) retired
        ]
      ]
