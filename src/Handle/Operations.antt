-- ===== src/Handle/Operations.antt =====
-- Every operation of a handle table, and the tables that a run of operations leads to.
use layer_mount.Base.{ℕ, ◌≡◌, refl, Bool, true, false, ◌||◌, ◌&&◌, Option, none, some}
use layer_mount.Base.{List, [], ◌∷◌, ◌==◌, eq_nat, get_elem?, arith, ==_eq, subst}
use layer_mount.Base.{Bool-cases, Option-cases, inl, inr}
use layer_mount.Handle.{HandleTable, Slot, take_slot, new_table, use_slot}
use layer_mount.Handle.{decode_slot, decode_generation}
use layer_mount.Handle.{
  allocate, reserve, install, install_slot, release, release_slot, free, free_slot, slot_of,
  find_slot,
}
use layer_mount.Handle.Slots.{is_free, are_distinct, get_elem?-lt}
use layer_mount.Handle.Validity.{IsTable, IsTaken, set-IsValid, take_slot-IsTable, recycle-IsTable}

pub data Operation (T : Type 0) : Type 0 where
  allocation : Option T → Operation T
  reservation : Operation T
  installation : ℕ → Option T → Operation T
  release_of : Bool → ℕ → Operation T
  free_of : Bool → ℕ → Operation T

module _ {T : Type 0} (magic : ℕ) where
  unfoldable pub step : HandleTable T → Operation T → HandleTable T
  step t (allocation p) = (allocate magic t p).1
  step t reservation = (reserve magic t).1
  step t (installation value p) = (install magic t value p).1
  step t (release_of can_grow value) = release magic can_grow t value
  step t (free_of can_grow value) = (free magic can_grow t value).1

  unfoldable pub run : HandleTable T → List (Operation T) → HandleTable T
  run t [] = t
  run t (op ∷ ops) = run (step t op) ops

  -- The slot that a value names is in the table at the value's index.
  pub slot_of-get_elem? :
      (t : HandleTable T) (value : ℕ) (slot : Slot T)
      → slot_of magic t value ≡ some slot
      → get_elem? t.slots (decode_slot value) ≡ some slot
  unfolding slot_of
  slot_of-get_elem? t value slot at = ground (arith, at)

  pub find_slot-get_elem? :
      (t : HandleTable T) (value : ℕ) (slot : Slot T)
      → find_slot magic t value ≡ some slot
      → (get_elem? t.slots (decode_slot value) ≡ some slot)
        × (slot.generation ≡ decode_generation value)
  unfolding find_slot
  find_slot-get_elem? t value slot at = elim (Option-cases (slot_of magic t value)) [
    | inl missing ↦ absurd (ground (arith, at, missing))
    | inr (s, here) ↦ elim (Bool-cases (s.generation == decode_generation value)) [
      | inl same ↦
          let eq : s ≡ slot = ground (arith, at, here, same) in
          (
            subst (λ s. get_elem? t.slots (decode_slot value) ≡ some s) eq
                (slot_of-get_elem? t value s here),
            subst (λ s. s.generation ≡ decode_generation value) eq
                (==_eq s.generation (decode_generation value) same),
          )
      | inr other ↦ absurd (ground (arith, at, here, other))
    ]
  ]

  use_slot-IsTable :
      (i : ℕ) (t : HandleTable T) (change : Slot T → Slot T) (found : Option (Slot T))
      → ((slot : Slot T)
          → (slot.live || slot.reserved) ≡ false
          → ((change slot).generation ≡ slot.generation)
            × (((change slot).live && (change slot).reserved) ≡ false))
      → IsTable t
      → IsTaken i t.slots t.free_slots
      → get_elem? t.slots i ≡ found
      → IsTable (use_slot magic (i, t) change found).1
  unfolding use_slot
  use_slot-IsTable i t change none changes valid idle at = valid
  use_slot-IsTable i t change (some slot) changes valid idle at = elim (Bool-cases (i == 0)) [
    | inl full ↦ rw full valid
    | inr other ↦ rw other (elim idle [
      | inl full ↦ absurd (ground (arith, full, other))
      | inr (s, here, unused, unfree) ↦
          let same : s ≡ slot = ground (arith, here, at) in
          let off : (slot.live || slot.reserved) ≡ false =
            subst (λ s. (s.live || s.reserved) ≡ false) same unused in
          let (generation, one) = changes slot off in
          set-IsValid t.max_slot t.slots t.free_slots i (change slot) valid
            (ground (arith, generation, (valid.sound i slot at).0), one, ground (arith, unfree))
    ])
  ]

  free_slot-IsTable :
      (can_grow : Bool) (t : HandleTable T) (value : ℕ) (found : Option (Slot T))
      → IsTable t
      → slot_of magic t value ≡ found
      → IsTable (free_slot magic can_grow t value found).1
  unfolding free_slot
  free_slot-IsTable can_grow t value none valid at = valid
  free_slot-IsTable can_grow t value (some slot) valid at =
      let here = slot_of-get_elem? t value slot at in
      let (range, one, used) = valid.sound (decode_slot value) slot here in
      elim (Bool-cases (slot.live && slot.generation == decode_generation value)) [
        | inl live ↦ rw live (
            recycle-IsTable can_grow t (decode_slot value)
              (record slot { payload = none; live = false }) valid
              (get_elem?-lt t.slots (decode_slot value) slot here) (ground (arith, used, live))
              range (ground (arith, one, live)))
        | inr dead ↦ rw dead valid
      ]

  release_slot-IsTable :
      (can_grow : Bool) (t : HandleTable T) (value : ℕ) (found : Option (Slot T))
      → IsTable t
      → find_slot magic t value ≡ found
      → IsTable (release_slot magic can_grow t value found)
  unfolding release_slot
  release_slot-IsTable can_grow t value none valid at = valid
  release_slot-IsTable can_grow t value (some slot) valid at =
      let (here, same) = find_slot-get_elem? t value slot at in
      let (range, one, used) = valid.sound (decode_slot value) slot here in
      elim (Bool-cases slot.reserved) [
        | inl held ↦ rw held (
            recycle-IsTable can_grow t (decode_slot value) (record slot { reserved = false }) valid
              (get_elem?-lt t.slots (decode_slot value) slot here) (ground (arith, used, held))
              range (ground (arith, one, held)))
        | inr other ↦ rw other valid
      ]

  install_slot-IsTable :
      (t : HandleTable T) (value : ℕ) (p : T) (found : Option (Slot T))
      → IsTable t
      → find_slot magic t value ≡ found
      → IsTable (install_slot magic t value p found).1
  unfolding install_slot
  install_slot-IsTable t value p none valid at = valid
  install_slot-IsTable t value p (some slot) valid at =
      let (here, same) = find_slot-get_elem? t value slot at in
      let (range, one, used) = valid.sound (decode_slot value) slot here in
      elim (Bool-cases slot.reserved) [
        | inl held ↦ rw held (
            set-IsValid t.max_slot t.slots t.free_slots (decode_slot value)
              (record slot { reserved = false; payload = some p; live = true }) valid
              (range, refl, ground (arith, used, held)))
        | inr other ↦ rw other valid
      ]

  pub step-IsTable : (t : HandleTable T) (op : Operation T) → IsTable t → IsTable (step t op)
  unfolding step allocate reserve install release free
  step-IsTable t (allocation none) valid = valid
  step-IsTable t (allocation (some p)) valid =
      let (after, idle) = take_slot-IsTable t valid in
      use_slot-IsTable (take_slot t).0 (take_slot t).1
        (λ slot. record slot { payload = some p; live = true })
        (get_elem? (take_slot t).1.slots (take_slot t).0) (λ slot off. (refl, ground (arith, off)))
        after idle refl
  step-IsTable t reservation valid =
      let (after, idle) = take_slot-IsTable t valid in
      use_slot-IsTable (take_slot t).0 (take_slot t).1 (λ slot. record slot { reserved = true })
        (get_elem? (take_slot t).1.slots (take_slot t).0) (λ slot off. (refl, ground (arith, off)))
        after idle refl
  step-IsTable t (installation value none) valid = valid
  step-IsTable t (installation value (some p)) valid =
      install_slot-IsTable t value p (find_slot magic t value) valid refl
  step-IsTable t (release_of can_grow value) valid =
      release_slot-IsTable can_grow t value (find_slot magic t value) valid refl
  step-IsTable t (free_of can_grow value) valid =
      free_slot-IsTable can_grow t value (slot_of magic t value) valid refl

  pub run-IsTable : (ops : List (Operation T)) (t : HandleTable T) → IsTable t → IsTable (run t ops)
  unfolding run
  run-IsTable [] t valid = valid
  run-IsTable (op ∷ ops) t valid = run-IsTable ops (step t op) (step-IsTable t op valid)

  new_table-IsTable : (max_slot : ℕ) → IsTable (new_table {T = T} max_slot)
  unfolding new_table is_free are_distinct
  new_table-IsTable max_slot = record {
    bounded = omega arith;
    fits = omega arith;
    distinct = refl;
    in_range = λ i h. absurd (ground arith);
    sound = λ i slot at. absurd (ground arith);
  }

  -- A new table and any run of operations on it, whatever values the caller passes and wherever
  -- the free list fails to grow, end in a valid table: at most one slot more than the table's
  -- limit, no generation past 24 bits, no slot on the free list twice or while it is live or
  -- reserved, and no slot both live and reserved.
  pub run-new_table-IsTable :
      (max_slot : ℕ) (ops : List (Operation T)) → IsTable (run (new_table max_slot) ops)
  run-new_table-IsTable max_slot ops =
      run-IsTable ops (new_table max_slot) (new_table-IsTable max_slot)
