-- ===== src/LastError.antt =====
-- The last error of a thread of the C ABI (src/LayerMount.dll/abi/ErrorTls.cpp). A wide text is its
-- code units without the NUL, an HRESULT is its 32 bits as a number. MultiByteToWideChar is a
-- parameter.
pub mod Buffers
mod Tests
use layer_mount.Base.{
  ℕ, suc, Bool, true, false, Option, none, some, List, [], ◌∷◌, ◌++◌, if◌then◌else◌, drop, length,
  ltb, ◌==◌, eq_nat,
}
use layer_mount.Layer.Disk.{WString}

abbrev pub s_ok : ℕ
s_ok = 0

abbrev pub e_pointer : ℕ
e_pointer = 2147500035

-- HRESULT_FROM_WIN32(ERROR_MORE_DATA).
abbrev pub more_data : ℕ
more_data = 2147942634

pub record ThreadError : Type 0 where
  pub last_hr : ℕ
  pub last_message : WString
  pub last_failure_was_fill : Bool

-- A message that is null is `none`.
abbrev pub text_of : Option WString → WString
text_of none = []
text_of (some message) = message

-- The flag says whether the copy of the message can be allocated.
unfoldable pub record_error : Bool → ThreadError → ℕ → Option WString → ThreadError
record_error is_allocated thread hr message = record thread {
  last_hr = hr;
  last_message = if is_allocated then text_of message else [];
}

-- A conversion of UTF-8 that fails is `none`.
unfoldable pub widen_utf8 : (List ℕ → Option WString) → Bool → Option (List ℕ) → WString
widen_utf8 multi_byte_to_wide is_allocated none = []
widen_utf8 multi_byte_to_wide is_allocated (some []) = []
widen_utf8 multi_byte_to_wide is_allocated (some (c ∷ rest)) =
    if is_allocated then text_of (multi_byte_to_wide (c ∷ rest)) else []

unfoldable pub record_error_from_narrow :
    (List ℕ → Option WString) → Bool → ThreadError → ℕ → Option (List ℕ) → ThreadError
record_error_from_narrow multi_byte_to_wide is_allocated thread hr utf8 = record thread {
  last_hr = hr;
  last_message = widen_utf8 multi_byte_to_wide is_allocated utf8;
}

unfoldable pub record_fill_failure : Bool → ThreadError → ℕ → Option WString → ThreadError
record_fill_failure is_allocated thread hr message =
    record (record_error is_allocated thread hr message) { last_failure_was_fill = true }

unfoldable pub clear_fill_failure : ThreadError → ThreadError
clear_fill_failure thread = record thread { last_failure_was_fill = false }

unfoldable pub clear : ThreadError → ThreadError
clear thread = record { last_hr = s_ok; last_message = []; last_failure_was_fill = false }

-- What the call returns, and what it leaves in the caller's count and buffer. Null pointers are
-- `none`.
pub record Reading : Type 0 where
  pub result : ℕ
  pub required_chars : Option ℕ
  pub buffer : Option WString

-- `buffer[0] = L'\0'` where there is room.
abbrev pub emptied : WString → WString
emptied [] = []
emptied (c ∷ rest) = 0 ∷ rest

abbrev pub emptied_if : Option WString → Option WString
emptied_if none = none
emptied_if (some buffer) = some (emptied buffer)

abbrev pub is_none_or_empty : Option WString → Bool
is_none_or_empty none = true
is_none_or_empty (some []) = true
is_none_or_empty (some (c ∷ rest)) = false

-- The copy of the message and its NUL over the start of the buffer.
abbrev pub copied_over : WString → WString → WString
copied_over message buffer = message ++ 0 ∷ drop (suc (length message)) buffer

abbrev pub fill : WString → Option WString → Reading
fill message none = record {
  result = s_ok;
  required_chars = some (suc (length message));
  buffer = none;
}
fill message (some []) = record {
  result = s_ok;
  required_chars = some (suc (length message));
  buffer = some [];
}
fill message (some (c ∷ rest)) = record {
  result = if ltb (suc (length rest)) (suc (length message)) then more_data else s_ok;
  required_chars = some (suc (length message));
  buffer = some (
      if ltb (suc (length rest)) (suc (length message))
      then c ∷ rest
      else copied_over message (c ∷ rest));
}

-- The buffer is its `bufferChars` characters.
unfoldable pub last : ThreadError → ℕ → Option WString → Option ℕ → Reading
last thread hr buffer none = record { result = e_pointer; required_chars = none; buffer = buffer }
last thread hr buffer (some chars) =
    if hr == thread.last_hr
    then fill thread.last_message buffer
    else record { result = s_ok; required_chars = some 0; buffer = emptied_if buffer }
