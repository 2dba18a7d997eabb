-- ===== src/Handle/Stale.antt =====
-- What a handle value that was freed resolves to after any further operations.
use layer_mount.Base.{
  ℕ, ◌+◌, ◌≤◌, ◌<◌, ◌≡◌, refl, ◌∙◌, Bool, true, false, ◌||◌, ◌&&◌, Option, none, some,
}
use layer_mount.Base.{List, [], ◌∷◌, ◌==◌, eq_nat, get_elem?, set, arith, ==_eq, sym, subst, leb}
use layer_mount.Base.{Bool-cases, inl, inr, ◌⊎◌, get_elem?-set_self, get_elem?-set_ne}
use layer_mount.Handle.{HandleTable, Slot, max_generation, take_slot, recycle, use_slot}
use layer_mount.Handle.{decode_slot, decode_generation}
use layer_mount.Handle.{
  allocate, reserve, install, install_slot, release, release_slot, free, free_slot, slot_of,
  find_slot,
}
use layer_mount.Handle.Slots.{is_free, get_elem?-lt}
use layer_mount.Handle.Validity.{IsTable}
use layer_mount.Handle.Operations.{
  Operation, step, step-IsTable, run, slot_of-get_elem?, find_slot-get_elem?,
}
use layer_mount.Handle.Operations.{allocation, reservation, installation, release_of, free_of}
use layer_mount.Handle.Reuse.{IsDead, set-IsDead, take_slot-IsDead}

module _ {T : Type 0} (magic : ℕ) where
  use_slot-IsDead :
      (i generation j : ℕ) (t : HandleTable T) (change : Slot T → Slot T) (found : Option (Slot T))
      → ((slot : Slot T) → (change slot).generation ≡ slot.generation)
      → IsDead i generation t.slots t.free_slots
      → ((slot : Slot T)
          → i ≡ j
          → (i == 0) ≡ false
          → get_elem? t.slots i ≡ some slot
          → generation < slot.generation)
      → get_elem? t.slots j ≡ found
      → IsDead i generation
          (use_slot magic (j, t) change found).1.slots
          (use_slot magic (j, t) change found).1.free_slots
  unfolding use_slot
  use_slot-IsDead i generation j t change none changes dead older at = dead
  use_slot-IsDead i generation j t change (some s) changes dead older at =
      elim (Bool-cases (j == 0)) [
        | inl full ↦ rw full dead
        | inr other ↦ rw other (
            set-IsDead i j generation t.slots t.free_slots (change s) dead (λ slot here there past.
              let at_i = subst (λ j. get_elem? t.slots j ≡ some s) (sym here) at in
              let older_s = older s here (ground (arith, other, here)) at_i in
              let same : slot ≡ s = ground (arith, there, at_i) in
              let range : s.generation ≤ max_generation =
                subst (λ s. s.generation ≤ max_generation) same past.0 in
              (omega (arith, changes s, range), inl (omega (arith, changes s, older_s)))))
      ]

  still_past :
      (i j generation : ℕ) (unused : List ℕ) (slot : Slot T)
      → (i == j) ≡ false
      → (generation < slot.generation)
        ⊎ ((slot.live || slot.reserved) ≡ false) × (is_free i unused ≡ false)
      → (generation < slot.generation)
        ⊎ ((slot.live || slot.reserved) ≡ false) × (is_free i (j ∷ unused) ≡ false)
  unfolding is_free
  still_past i j generation unused slot other (inl older) = inl older
  still_past i j generation unused slot other (inr (idle, unfree)) =
      inr (idle, ground (arith, other, unfree))

  push-IsDead :
      (i j generation : ℕ) (slots : List (Slot T)) (unused : List ℕ) (v : Slot T)
      → IsDead i generation slots unused
      → v.generation ≤ max_generation
      → (i ≡ j → generation < v.generation)
      → IsDead i generation (set slots j v) (j ∷ unused)
  unfolding is_free
  push-IsDead i j generation slots unused v (slot, at, past) range older =
      elim (Bool-cases (i == j)) [
        | inl same ↦
            let eq = ==_eq i j same in
            (
              v,
              subst (λ j. get_elem? (set slots j v) i ≡ some v) eq
                  (get_elem?-set_self slots i v (get_elem?-lt slots i slot at)),
              (range, inl (older eq)),
            )
        | inr other ↦ (
          slot,
          get_elem?-set_ne slots j i v (λ e. ground (arith, e, other)) ∙ at,
          (past.0, still_past i j generation unused slot other past.1),
        )
      ]

  recycle-IsDead :
      (can_grow : Bool) (i j generation : ℕ) (t : HandleTable T) (slot : Slot T)
      → IsDead i generation t.slots t.free_slots
      → slot.generation ≤ max_generation
      → (i ≡ j → generation < slot.generation)
      → IsDead i generation (recycle can_grow t j slot).slots (recycle can_grow t j slot).free_slots
  unfolding recycle
  recycle-IsDead can_grow i j generation t slot dead range older =
      let retired =
        set-IsDead i j generation t.slots t.free_slots (record slot { generation = max_generation })
          dead (λ s here there past. (omega arith, inl (omega (arith, older here, range)))) in
      elim (Bool-cases (leb max_generation slot.generation)) [
        | inl full ↦ rw full retired
        | inr more ↦ elim (Bool-cases can_grow) [
          | inl grows ↦
              rw (more, grows)
                (push-IsDead i j generation t.slots t.free_slots
                  (record slot { generation = slot.generation + 1 }) dead (ground (arith, more))
                  (λ here. omega (arith, older here)))
          | inr fails ↦ rw (more, fails) retired
        ]
      ]

  -- A live or reserved slot at the index of a dead one is past the generation.
  past_in_use :
      (i generation : ℕ) (t : HandleTable T) (slot : Slot T)
      → IsDead i generation t.slots t.free_slots
      → get_elem? t.slots i ≡ some slot
      → (slot.live || slot.reserved) ≡ true
      → (slot.generation ≤ max_generation) × (generation < slot.generation)
  past_in_use i generation t slot (s, there, (range, inl older)) at used =
      let same : s ≡ slot = ground (arith, there, at) in
      subst (λ s. (s.generation ≤ max_generation) × (generation < s.generation)) same (range, older)
  past_in_use i generation t slot (s, there, (range, inr (idle, unfree))) at used =
      let same : s ≡ slot = ground (arith, there, at) in
      let idle' : (slot.live || slot.reserved) ≡ false =
        subst (λ s. (s.live || s.reserved) ≡ false) same idle in
      absurd (ground (arith, idle', used))

  free_slot-IsDead :
      (can_grow : Bool) (i generation : ℕ) (t : HandleTable T) (value : ℕ) (found : Option (Slot T))
      → IsTable t
      → IsDead i generation t.slots t.free_slots
      → slot_of magic t value ≡ found
      → IsDead i generation
          (free_slot magic can_grow t value found).1.slots
          (free_slot magic can_grow t value found).1.free_slots
  unfolding free_slot
  free_slot-IsDead can_grow i generation t value none valid dead at = dead
  free_slot-IsDead can_grow i generation t value (some slot) valid dead at =
      let here = slot_of-get_elem? magic t value slot at in
      elim (Bool-cases (slot.live && slot.generation == decode_generation value)) [
        | inl live ↦ rw live (
            recycle-IsDead can_grow i (decode_slot value) generation t
              (record slot { payload = none; live = false }) dead
              (valid.sound (decode_slot value) slot here).0
              (λ eq.
                (past_in_use i generation t slot dead
                  (subst (λ j. get_elem? t.slots j ≡ some slot) (sym eq) here)
                  (ground (arith, live))).1))
        | inr other ↦ rw other dead
      ]

  release_slot-IsDead :
      (can_grow : Bool) (i generation : ℕ) (t : HandleTable T) (value : ℕ) (found : Option (Slot T))
      → IsTable t
      → IsDead i generation t.slots t.free_slots
      → find_slot magic t value ≡ found
      → IsDead i generation
          (release_slot magic can_grow t value found).slots
          (release_slot magic can_grow t value found).free_slots
  unfolding release_slot
  release_slot-IsDead can_grow i generation t value none valid dead at = dead
  release_slot-IsDead can_grow i generation t value (some slot) valid dead at =
      let (here, same) = find_slot-get_elem? magic t value slot at in
      elim (Bool-cases slot.reserved) [
        | inl held ↦ rw held (
            recycle-IsDead can_grow i (decode_slot value) generation t
              (record slot { reserved = false }) dead (valid.sound (decode_slot value) slot here).0
              (λ eq.
                (past_in_use i generation t slot dead
                  (subst (λ j. get_elem? t.slots j ≡ some slot) (sym eq) here)
                  (ground (arith, held))).1))
        | inr other ↦ rw other dead
      ]

  install_slot-IsDead :
      (i generation : ℕ) (t : HandleTable T) (value : ℕ) (p : T) (found : Option (Slot T))
      → IsDead i generation t.slots t.free_slots
      → find_slot magic t value ≡ found
      → IsDead i generation
          (install_slot magic t value p found).1.slots
          (install_slot magic t value p found).1.free_slots
  unfolding install_slot
  install_slot-IsDead i generation t value p none dead at = dead
  install_slot-IsDead i generation t value p (some slot) dead at =
      let (here, same) = find_slot-get_elem? magic t value slot at in
      elim (Bool-cases slot.reserved) [
        | inl held ↦ rw held (
            set-IsDead i (decode_slot value) generation t.slots t.free_slots
              (record slot { reserved = false; payload = some p; live = true }) dead
              (λ s eq there past.
                let (range, older) =
                  past_in_use i generation t slot dead
                    (subst (λ j. get_elem? t.slots j ≡ some slot) (sym eq) here)
                    (ground (arith, held)) in
                (range, inl older)))
        | inr other ↦ rw other dead
      ]

  step-IsDead :
      (i generation : ℕ) (t : HandleTable T) (op : Operation T)
      → IsTable t
      → IsDead i generation t.slots t.free_slots
      → IsDead i generation (step magic t op).slots (step magic t op).free_slots
  unfolding step allocate reserve install release free
  step-IsDead i generation t (allocation none) valid dead = dead
  step-IsDead i generation t (allocation (some p)) valid dead =
      let (after, older) = take_slot-IsDead i generation t dead in
      use_slot-IsDead i generation (take_slot t).0 (take_slot t).1
        (λ slot. record slot { payload = some p; live = true })
        (get_elem? (take_slot t).1.slots (take_slot t).0) (λ slot. refl) after older refl
  step-IsDead i generation t reservation valid dead =
      let (after, older) = take_slot-IsDead i generation t dead in
      use_slot-IsDead i generation (take_slot t).0 (take_slot t).1
        (λ slot. record slot { reserved = true }) (get_elem? (take_slot t).1.slots (take_slot t).0)
        (λ slot. refl) after older refl
  step-IsDead i generation t (installation value none) valid dead = dead
  step-IsDead i generation t (installation value (some p)) valid dead =
      install_slot-IsDead i generation t value p (find_slot magic t value) dead refl
  step-IsDead i generation t (release_of can_grow value) valid dead =
      release_slot-IsDead can_grow i generation t value (find_slot magic t value) valid dead refl
  step-IsDead i generation t (free_of can_grow value) valid dead =
      free_slot-IsDead can_grow i generation t value (slot_of magic t value) valid dead refl

  pub run-IsDead :
      (i generation : ℕ) (ops : List (Operation T)) (t : HandleTable T)
      → IsTable t
      → IsDead i generation t.slots t.free_slots
      → IsDead i generation (run magic t ops).slots (run magic t ops).free_slots
  unfolding run
  run-IsDead i generation [] t valid dead = dead
  run-IsDead i generation (op ∷ ops) t valid dead =
      run-IsDead i generation ops (step magic t op) (step-IsTable magic t op valid)
        (step-IsDead i generation t op valid dead)
