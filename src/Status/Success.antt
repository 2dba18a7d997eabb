-- ===== src/Status/Success.antt =====
-- When a mapped status is a success (src/LayerMount.dll/impl/NtStatusUtil.cpp).

use layer_mount.Base.{
  ◌&&◌, sym, Bool, true, false, ◌≡◌, ◌↔◌, refl, ap, arith, Bool-cases, inl, inr, if◌then◌else◌, ◌∙◌,
}
use layer_mount.Status.{Win32Error, NtStatus}
use layer_mount.Status.Win32Error.{error_success, error_io_pending}
use layer_mount.Status.NtStatus.{status_success}
use layer_mount.Status.Mapping.{
  is_success, is_no_error, nt_success, succeeds_as, nt_status_from_win32, status_from_win32_error,
}

is_success-from : (err : Win32Error) → is_success (nt_status_from_win32 err) ≡ is_no_error err
unfolding nt_status_from_win32
is_success-from error_success = refl
is_success-from _ = refl

pub nt_success-from : (err : Win32Error) → nt_success (nt_status_from_win32 err) ≡ succeeds_as err
unfolding nt_status_from_win32
nt_success-from error_success = refl
nt_success-from error_io_pending = refl
nt_success-from _ = refl

pub failed_is_error : (err : Win32Error) → succeeds_as err ≡ false → is_no_error err ≡ false
failed_is_error error_success h = ground arith
failed_is_error error_io_pending h = refl
failed_is_error _ h = refl

pub nt_success-status_from_win32_error :
    (err fallback : Win32Error)
    → succeeds_as err ≡ false
    → nt_success (status_from_win32_error err fallback) ≡ false
unfolding status_from_win32_error
nt_success-status_from_win32_error err fallback failed =
    rw (failed_is_error err failed) (nt_success-from err ∙ failed)

is_no_error_eq : (err : Win32Error) → is_no_error err ≡ true → err ≡ error_success
is_no_error_eq error_success h = refl
is_no_error_eq _ h = ground arith

is_success_eq : (status : NtStatus) → is_success status ≡ true → status ≡ status_success
is_success_eq status_success h = refl
is_success_eq _ h = ground arith

both-left : (a b : Bool) → (a && b) ≡ true → a ≡ true
both-left a b h = ground arith

both-right : (a b : Bool) → (a && b) ≡ true → b ≡ true
both-right a b h = ground arith

no_error-chosen :
    (err fallback : Win32Error)
    → is_no_error (if is_no_error err then fallback else err)
      ≡ (is_no_error err && is_no_error fallback)
no_error-chosen err fallback = elim (Bool-cases (is_no_error err)) [
  | inl none ↦ rw none refl
  | inr some ↦ rw (some, some) refl
]

-- The status of a failed call is a success exactly where both the error and the fallback are no
-- error.
pub status_from_win32_error-success :
    (err fallback : Win32Error)
    → (status_from_win32_error err fallback ≡ status_success)
      ↔ ((err ≡ error_success) × (fallback ≡ error_success))
unfolding status_from_win32_error nt_status_from_win32
status_from_win32_error-success err fallback =
    let flag : is_success (status_from_win32_error err fallback)
        ≡ (is_no_error err && is_no_error fallback) =
      is_success-from (if is_no_error err then fallback else err) ∙ no_error-chosen err fallback in
    (
      λ succeeds. (
        is_no_error_eq err (both-left _ _ (sym flag ∙ ap is_success succeeds)),
        is_no_error_eq fallback (both-right _ _ (sym flag ∙ ap is_success succeeds)),
      ),
      λ none. rw (none.0, none.1) refl,
    )
