-- ===== src/Handle.antt =====
-- The table of handles that the ABI gives out (src/LayerMount.dll/abi/HandleTable.h). A table holds
-- its slots in order and its free slots with the back of the vector first. A null payload is `none`.
-- The fields of a handle value do not overlap while a slot and a generation fit in their 24 bits,
-- so the `|` of the encoding is written as a sum.
mod Tests
pub mod Encoding
pub mod Slots
pub mod Validity
pub mod Operations
pub mod Reuse
pub mod Stale
pub mod Lifetime
use layer_mount.Base.{ℕ, suc, zero, ◌+◌, ◌*◌, ◌/◌, ◌%◌, Bool, true, false, ◌&&◌, ◌||◌, not, min}
use layer_mount.Base.{
  Option, none, some, List, [], ◌∷◌, ◌++◌, ◌==◌, eq_nat, if◌then◌else◌, ltb, leb,
}
use layer_mount.Base.{length, get_elem?, set}

-- 2 to the 24, 2 to the 48 and 2 to the 16.
abbrev pub slot_span : ℕ
slot_span = 16777216

abbrev pub magic_unit : ℕ
magic_unit = 281474976710656

abbrev pub magic_span : ℕ
magic_span = 65536

abbrev pub slot_mask : ℕ
slot_mask = 16777215

abbrev pub max_generation : ℕ
max_generation = 16777215

unfoldable pub encode : ℕ → ℕ → ℕ → ℕ
encode magic generation slot = magic * magic_unit + generation * slot_span + slot

unfoldable pub decode_magic : ℕ → ℕ
decode_magic value = value / magic_unit % magic_span

unfoldable pub decode_generation : ℕ → ℕ
decode_generation value = value / slot_span % slot_span

unfoldable pub decode_slot : ℕ → ℕ
decode_slot value = value % slot_span

pub record Slot (T : Type 0) : Type 0 where
  pub payload : Option T
  pub generation : ℕ
  pub live : Bool
  pub reserved : Bool

pub record HandleTable (T : Type 0) : Type 0 where
  pub max_slot : ℕ
  pub slots : List (Slot T)
  pub free_slots : List ℕ

module _ {T : Type 0} where
  abbrev pub empty_slot : Slot T
  empty_slot = record { payload = none; generation = 1; live = false; reserved = false }

  unfoldable pub new_table : ℕ → HandleTable T
  new_table max_slot = record { max_slot = min max_slot slot_mask; slots = []; free_slots = [] }

  abbrev pub first_slots : List (Slot T) → List (Slot T)
  first_slots [] = empty_slot ∷ []
  first_slots (slot ∷ slots) = slot ∷ slots

  abbrev pub grow : HandleTable T → List (Slot T) → ℕ × HandleTable T
  grow t slots =
      if ltb t.max_slot (length slots)
      then (0, record t { slots = slots })
      else (length slots, record t { slots = slots ++ empty_slot ∷ [] })

  unfoldable pub take_slot_from : HandleTable T → List ℕ → ℕ × HandleTable T
  take_slot_from t [] = grow t (first_slots t.slots)
  take_slot_from t (slot ∷ free) = (slot, record t { free_slots = free })

  unfoldable pub take_slot : HandleTable T → ℕ × HandleTable T
  unfolding take_slot_from
  take_slot t = take_slot_from t t.free_slots

  -- Bumps the generation of a slot whose fields were just reset to `slot`, and puts it on the free
  -- list where the vector can grow.
  unfoldable pub recycle : Bool → HandleTable T → ℕ → Slot T → HandleTable T
  recycle can_grow t i slot =
      if leb max_generation slot.generation
      then record t { slots = set t.slots i (record slot { generation = max_generation }) }
      else if can_grow
      then record t {
        slots = set t.slots i (record slot { generation = slot.generation + 1 });
        free_slots = i ∷ t.free_slots;
      }
      else record t { slots = set t.slots i (record slot { generation = max_generation }) }

  -- The slot after its index was taken, with its handle value.
  unfoldable pub use_slot :
      ℕ → ℕ × HandleTable T → (Slot T → Slot T) → Option (Slot T) → ℕ × HandleTable T
  unfolding encode
  use_slot magic (i, t) change none = (0, t)
  use_slot magic (i, t) change (some slot) =
      if i == 0
      then (0, t)
      else (encode magic slot.generation i, record t { slots = set t.slots i (change slot) })

  module _ (magic : ℕ) where
    abbrev pub taken : HandleTable T → (Slot T → Slot T) → ℕ × HandleTable T
    unfolding use_slot take_slot
    taken t change =
        use_slot magic (take_slot t) change (get_elem? (take_slot t).1.slots (take_slot t).0)

    unfoldable pub allocate : HandleTable T → Option T → ℕ × HandleTable T
    unfolding use_slot take_slot
    allocate t none = (0, t)
    allocate t (some p) = taken t (λ slot. record slot { payload = some p; live = true })

    unfoldable pub reserve : HandleTable T → ℕ × HandleTable T
    unfolding use_slot take_slot
    reserve t = taken t (λ slot. record slot { reserved = true })

    -- The slot that a handle value names, of any generation.
    unfoldable pub slot_of : HandleTable T → ℕ → Option (Slot T)
    unfolding decode_magic decode_slot
    slot_of t value =
        if (value == 0 || not (decode_magic value == magic)) || decode_slot value == 0
        then none
        else get_elem? t.slots (decode_slot value)

    unfoldable pub resolve_slot : ℕ → Option (Slot T) → Option T
    unfolding decode_generation
    resolve_slot value none = none
    resolve_slot value (some slot) =
        if slot.live && slot.generation == decode_generation value then slot.payload else none

    unfoldable pub resolve : HandleTable T → ℕ → Option T
    unfolding resolve_slot slot_of
    resolve t value = resolve_slot value (slot_of t value)

    unfoldable pub free_slot : Bool → HandleTable T → ℕ → Option (Slot T) → Option T × HandleTable T
    unfolding decode_generation decode_slot recycle
    free_slot can_grow t value none = (none, t)
    free_slot can_grow t value (some slot) =
        if slot.live && slot.generation == decode_generation value
        then (
          slot.payload,
          recycle can_grow t (decode_slot value) (record slot { payload = none; live = false }),
        )
        else (none, t)

    unfoldable pub free : Bool → HandleTable T → ℕ → Option T × HandleTable T
    unfolding free_slot slot_of
    free can_grow t value = free_slot can_grow t value (slot_of t value)

    unfoldable pub find_slot : HandleTable T → ℕ → Option (Slot T)
    unfolding decode_generation slot_of
    find_slot t value = elim (slot_of t value) [
      | none ↦ none
      | some slot ↦ if slot.generation == decode_generation value then some slot else none
    ]

    unfoldable pub install_slot : HandleTable T → ℕ → T → Option (Slot T) → Bool × HandleTable T
    unfolding decode_slot
    install_slot t value p none = (false, t)
    install_slot t value p (some slot) =
        if slot.reserved
        then (
          true,
          record t {
            slots =
                set t.slots (decode_slot value)
                  (record slot { reserved = false; payload = some p; live = true });
          },
        )
        else (false, t)

    unfoldable pub install : HandleTable T → ℕ → Option T → Bool × HandleTable T
    unfolding install_slot find_slot
    install t value none = (false, t)
    install t value (some p) = install_slot t value p (find_slot t value)

    unfoldable pub release_slot : Bool → HandleTable T → ℕ → Option (Slot T) → HandleTable T
    unfolding decode_slot recycle
    release_slot can_grow t value none = t
    release_slot can_grow t value (some slot) =
        if slot.reserved
        then recycle can_grow t (decode_slot value) (record slot { reserved = false })
        else t

    unfoldable pub release : Bool → HandleTable T → ℕ → HandleTable T
    unfolding release_slot find_slot
    release can_grow t value = release_slot can_grow t value (find_slot t value)
