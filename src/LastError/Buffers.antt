-- ===== src/LastError/Buffers.antt =====
-- What a caller reads of the last error (src/LayerMount.dll/abi/ErrorTls.cpp: Last).
use layer_mount.Base.{
  ℕ, suc, Bool, true, false, Option, none, some, [], ◌∷◌, ◌++◌, ◌≡◌, refl, ap, arith, if◌then◌else◌,
  drop, length, ltb, ◌==◌, eq_nat, ==_refl, Bool-cases, inl, inr,
}
use layer_mount.Layer.Disk.{WString}
use layer_mount.LastError.{ThreadError, s_ok, copied_over, emptied_if, fill, last, record_error}

abbrev with_first : ℕ → Option WString → Option WString
with_first c none = none
with_first c (some text) = some (c ∷ text)

-- The text before the first NUL. Without a NUL there is none.
abbrev pub c_text : WString → Option WString
c_text [] = none
c_text (c ∷ rest) = let text = c_text rest in if c == 0 then some [] else with_first c text

abbrev pub has_nul : WString → Bool
has_nul [] = false
has_nul (c ∷ rest) = if c == 0 then true else has_nul rest

-- The number of characters behind a pointer.
abbrev pub room : Option WString → ℕ
room none = 0
room (some buffer) = length buffer

abbrev pub read_text : Option WString → Option WString
read_text none = none
read_text (some buffer) = c_text buffer

c_text-copied :
    (message tail : WString) → has_nul message ≡ false → c_text (message ++ 0 ∷ tail) ≡ some message
c_text-copied [] tail h = refl
c_text-copied (c ∷ message) tail h = elim (Bool-cases (c == 0)) [
  | inl nul ↦ ground (arith, nul, h)
  | inr other ↦ rw other (ap (with_first c) (c_text-copied message tail (rw other at h)))
]

length-copied_over :
    (message buffer : WString)
    → ltb (length buffer) (suc (length message)) ≡ false
    → length (copied_over message buffer) ≡ length buffer
length-copied_over message [] h = ground arith
length-copied_over [] (c ∷ buffer) h = refl
length-copied_over (m ∷ message) (c ∷ buffer) h =
    ap suc (length-copied_over message buffer (ground arith))

room-fill :
    (message : WString) (buffer : Option WString) → room (fill message buffer).buffer ≡ room buffer
room-fill message none = refl
room-fill message (some []) = refl
room-fill message (some (c ∷ rest)) =
    elim (Bool-cases (ltb (suc (length rest)) (suc (length message)))) [
      | inl short ↦ rw short refl
      | inr fits ↦ rw fits (length-copied_over message (c ∷ rest) fits)
    ]

room-emptied : (buffer : Option WString) → room (emptied_if buffer) ≡ room buffer
room-emptied none = refl
room-emptied (some []) = refl
room-emptied (some (c ∷ rest)) = refl

fill_all :
    (message buffer : WString)
    → has_nul message ≡ false
    → suc (length message) ≡ length buffer
    → ((fill message (some buffer)).result ≡ s_ok)
      × (read_text (fill message (some buffer)).buffer ≡ some message)
fill_all message [] h size = ground arith
fill_all message (c ∷ rest) h size =
    let fits : ltb (suc (length rest)) (suc (length message)) ≡ false = ground arith in
    rw fits (refl, c_text-copied message (drop (suc (length message)) (c ∷ rest)) h)

-- No read of the last error changes how many characters the buffer has.
pub room-last :
    (thread : ThreadError) (hr : ℕ) (buffer : Option WString) (required : Option ℕ)
    → room (last thread hr buffer required).buffer ≡ room buffer
unfolding last
room-last thread hr buffer none = refl
room-last thread hr buffer (some chars) = elim (Bool-cases (hr == thread.last_hr)) [
  | inl same ↦ rw same (room-fill thread.last_message buffer)
  | inr other ↦ rw other (room-emptied buffer)
]

-- After a failure is recorded with a message without a NUL that can be copied, a buffer of as many
-- characters as the call without a buffer asks for gets the message and a NUL behind it.
pub last-record_error :
    (thread : ThreadError) (hr : ℕ) (message buffer : WString)
    → has_nul message ≡ false
    → (last (record_error true thread hr (some message)) hr none (some 0)).required_chars
      ≡ some (length buffer)
    → ((last (record_error true thread hr (some message)) hr (some buffer) (some 0)).result ≡ s_ok)
      × (read_text
            (last (record_error true thread hr (some message)) hr (some buffer) (some 0)).buffer
          ≡ some message)
unfolding last record_error
last-record_error thread hr message buffer h sized =
    let asked : some (suc (length message)) ≡ some (length buffer) = rw (==_refl hr) at sized in
    rw (==_refl hr) (fill_all message buffer h (ground (arith, asked)))
