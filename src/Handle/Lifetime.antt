-- ===== src/Handle/Lifetime.antt =====
-- The life of a handle value, from the allocation to after the free.
use layer_mount.Base.{
  ℕ, ◌+◌, ◌≤◌, ◌<◌, ◌≡◌, refl, ◌∙◌, Bool, true, false, ◌||◌, ◌&&◌, Option, none, some,
}
use layer_mount.Base.{List, ◌==◌, eq_nat, length, set, arith, ==_eq, subst, leb, ap}
use layer_mount.Base.{Bool-cases, inl, inr, ◌⊎◌, get_elem?-set_self}
use layer_mount.Handle.{HandleTable, Slot, max_generation, recycle}
use layer_mount.Handle.{decode_slot, decode_generation}
use layer_mount.Handle.{free, free_slot, slot_of, resolve, resolve_slot}
use layer_mount.Handle.Slots.{is_free, get_elem?-lt}
use layer_mount.Handle.Validity.{IsTable}
use layer_mount.Handle.Operations.{Operation, step, step-IsTable, run, slot_of-get_elem?, free_of}
use layer_mount.Handle.Reuse.{IsDead}
use layer_mount.Handle.Stale.{run-IsDead}

module _ {T : Type 0} (magic : ℕ) where
  resolve_slot-dead :
      (value : ℕ) (t : HandleTable T) (found : Option (Slot T))
      → IsDead (decode_slot value) (decode_generation value) t.slots t.free_slots
      → slot_of magic t value ≡ found
      → resolve_slot magic value found ≡ none
  unfolding resolve_slot
  resolve_slot-dead value t none dead at = refl
  resolve_slot-dead value t (some slot) (s, there, (range, past)) at =
      let here = slot_of-get_elem? magic t value slot at in
      let same : s ≡ slot = ground (arith, there, here) in
      elim (subst
        (λ s.
          (decode_generation value < s.generation)
          ⊎ ((s.live || s.reserved) ≡ false) × (is_free (decode_slot value) t.free_slots ≡ false))
        same past) [ inl older ↦ ground (arith, older) | inr (idle, unfree) ↦ ground (arith, idle) ]

  resolve-dead :
      (value : ℕ) (t : HandleTable T)
      → IsDead (decode_slot value) (decode_generation value) t.slots t.free_slots
      → resolve magic t value ≡ none
  unfolding resolve
  resolve-dead value t dead = resolve_slot-dead value t (slot_of magic t value) dead refl

  -- The slot that a value resolves to.
  resolve_slot-some :
      (value : ℕ) (p : T) (found : Option (Slot T))
      → resolve_slot magic value found ≡ some p
      → (slot : Slot T) × (found ≡ some slot)
        × ((slot.live && slot.generation == decode_generation value) ≡ true)
        × (slot.payload ≡ some p)
  unfolding resolve_slot
  resolve_slot-some value p none at = absurd (ground arith)
  resolve_slot-some value p (some slot) at = (slot, refl, ground (arith, at), ground (arith, at))

  recycle-IsDead :
      (can_grow : Bool) (i generation : ℕ) (t : HandleTable T) (slot : Slot T)
      → i < length t.slots
      → is_free i t.free_slots ≡ false
      → slot.generation ≡ generation
      → slot.generation ≤ max_generation
      → (slot.live || slot.reserved) ≡ false
      → IsDead i generation (recycle can_grow t i slot).slots (recycle can_grow t i slot).free_slots
  unfolding recycle
  recycle-IsDead can_grow i generation t slot inside unfree same range idle =
      let retired = record slot { generation = max_generation } in
      let dead : IsDead i generation (set t.slots i retired) t.free_slots =
        (retired, get_elem?-set_self t.slots i retired inside, (omega arith, inr (idle, unfree))) in
      elim (Bool-cases (leb max_generation slot.generation)) [
        | inl full ↦ rw full dead
        | inr more ↦ elim (Bool-cases can_grow) [
          | inl grows ↦
              let next = record slot { generation = slot.generation + 1 } in
              rw (more, grows)
                (
                  next,
                  get_elem?-set_self t.slots i next inside,
                  (ground (arith, more), inl (omega (arith, same))),
                )
          | inr fails ↦ rw (more, fails) dead
        ]
      ]

  free-hit :
      (can_grow : Bool) (t : HandleTable T) (value : ℕ) (slot : Slot T)
      → slot_of magic t value ≡ some slot
      → (slot.live && slot.generation == decode_generation value) ≡ true
      → free magic can_grow t value ≡ (
        slot.payload,
        recycle can_grow t (decode_slot value) (record slot { payload = none; live = false }),
      )
  unfolding free free_slot
  free-hit can_grow t value slot named live =
      ap (free_slot magic can_grow t value) named ∙ rw live refl

  -- In a valid table, the free of a value that resolves gives back the payload it resolved to, and
  -- after any further operations, with the slot reused or not, the value resolves to nothing.
  pub free-resolve :
      (can_grow : Bool) (t : HandleTable T) (value : ℕ) (p : T) (ops : List (Operation T))
      → IsTable t
      → resolve magic t value ≡ some p
      → ((free magic can_grow t value).0 ≡ some p)
        × (resolve magic (run magic (free magic can_grow t value).1 ops) value ≡ none)
  unfolding resolve step
  free-resolve can_grow t value p ops valid at =
      let (slot, named, live, holds) = resolve_slot-some value p (slot_of magic t value) at in
      let here = slot_of-get_elem? magic t value slot named in
      let (range, one, used) = valid.sound (decode_slot value) slot here in
      let reset : Slot T = record slot { payload = none; live = false } in
      let dead =
        recycle-IsDead can_grow (decode_slot value) (decode_generation value) t reset
          (get_elem?-lt t.slots (decode_slot value) slot here) (ground (arith, used, live))
          (==_eq slot.generation (decode_generation value) (ground (arith, live))) range
          (ground (arith, one, live)) in
      let freed = free-hit can_grow t value slot named live in
      let after =
        subst (λ r. IsTable r.1) freed (step-IsTable magic t (free_of can_grow value) valid) in
      rw freed (
        holds,
        resolve-dead value (run magic (recycle can_grow t (decode_slot value) reset) ops) (
            run-IsDead magic (decode_slot value) (decode_generation value) ops
              (recycle can_grow t (decode_slot value) reset) after dead),
      )
