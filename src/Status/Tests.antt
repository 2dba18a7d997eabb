-- ===== src/Status/Tests.antt =====
-- A failed call, with the property of the status applied to it.
use layer_mount.Base.{◌≡◌, ◌↔◌}
use layer_mount.Status.Win32Error.{error_success, error_gen_failure}
use layer_mount.Status.NtStatus.{status_success}
use layer_mount.Status.Mapping.{status_from_win32_error}
use layer_mount.Status.Success.{status_from_win32_error-success}

status_from_win32_error-success_example :
    (status_from_win32_error error_success error_gen_failure ≡ status_success)
    ↔ ((error_success ≡ error_success) × (error_gen_failure ≡ error_success))
status_from_win32_error-success_example =
    status_from_win32_error-success error_success error_gen_failure
