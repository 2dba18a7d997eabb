-- ===== src/LastError/Tests.antt =====
-- Reads of a recorded failure into a buffer of its size, and of a thread without one.
use layer_mount.Base.{◌≡◌, refl, ℕ, true, false, some, none, [], ◌∷◌, codes, eq_nat}
use layer_mount.LastError.{
  ThreadError, clear, clear_fill_failure, last, record_error, record_error_from_narrow,
  record_fill_failure, s_ok, more_data, widen_utf8,
}
use layer_mount.LastError.Buffers.{last-record_error, read_text, room, room-last}

abbrev no_failure : ThreadError
no_failure = record { last_hr = s_ok; last_message = []; last_failure_was_fill = false }

abbrev e_fail : ℕ
e_fail = 2147500037

last-record_error_example :
    ((last
        (record_error true no_failure e_fail (some (codes "bad")))
        e_fail
        (some (codes "...."))
        (some 0)).result
      ≡ s_ok)
    × (read_text
          (last
            (record_error true no_failure e_fail (some (codes "bad")))
            e_fail
            (some (codes "...."))
            (some 0)).buffer
        ≡ some (codes "bad"))
unfolding last record_error
last-record_error_example =
    last-record_error no_failure e_fail (codes "bad") (codes "....") refl refl

room-last_example :
    room
      (last
        (record_error true no_failure e_fail (some (codes "bad")))
        e_fail
        (some (codes "..."))
        (some 0)).buffer
    ≡ room (some (codes "..."))
room-last_example =
    room-last (record_error true no_failure e_fail (some (codes "bad"))) e_fail (some (codes "..."))
      (some 0)

too_small :
    last
      (record_error true no_failure e_fail (some (codes "bad")))
      e_fail
      (some (codes "..."))
      (some 0)
    ≡ record { result = more_data; required_chars = some 4; buffer = some (codes "...") }
unfolding last record_error
too_small = refl

another_error :
    last
      (record_error true no_failure e_fail (some (codes "bad")))
      s_ok
      (some (codes "..."))
      (some 7)
    ≡ record { result = s_ok; required_chars = some 0; buffer = some (0 ∷ codes "..") }
unfolding last record_error
another_error = refl

fill_mark :
    clear_fill_failure (record_fill_failure true no_failure e_fail (some (codes "bad")))
    ≡ record_error_from_narrow (λ text. some text) true no_failure e_fail (some (codes "bad"))
unfolding clear_fill_failure record_fill_failure record_error record_error_from_narrow widen_utf8
fill_mark = refl

cleared : clear (record_fill_failure false no_failure e_fail none) ≡ no_failure
unfolding clear
cleared = refl
