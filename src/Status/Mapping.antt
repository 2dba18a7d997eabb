-- ===== src/Status/Mapping.antt =====
-- The status of a Win32 error (src/LayerMount.dll/impl/NtStatusUtil.cpp).

use layer_mount.Base.{Bool, true, false, if◌then◌else◌}
use layer_mount.Status.{Win32Error, NtStatus}
use layer_mount.Status.Win32Error.{
  error_success, error_invalid_function, error_file_not_found, error_path_not_found,
  error_too_many_open_files, error_access_denied, error_invalid_handle, error_not_enough_memory,
  error_invalid_block, error_bad_environment, error_bad_format, error_outofmemory,
  error_invalid_drive, error_current_directory, error_not_same_device, error_no_more_files,
  error_write_protect, error_bad_unit, error_not_ready, error_bad_command, error_crc,
  error_bad_length, error_seek, error_not_dos_disk, error_sector_not_found, error_write_fault,
  error_read_fault, error_gen_failure, error_sharing_violation, error_lock_violation,
  error_wrong_disk, error_sharing_buffer_exceeded, error_handle_eof, error_handle_disk_full,
  error_not_supported, error_rem_not_list, error_dup_name, error_bad_netpath, error_network_busy,
  error_dev_not_exist, error_file_exists, error_cannot_make, error_invalid_parameter,
  error_net_write_fault, error_drive_locked, error_broken_pipe, error_open_failed, error_disk_full,
  error_no_more_search_handles, error_invalid_target_handle, error_invalid_category,
  error_invalid_name, error_invalid_level, error_no_volume_label, error_mod_not_found,
  error_proc_not_found, error_wait_no_children, error_child_not_complete,
  error_direct_access_handle, error_negative_seek, error_seek_on_device, error_is_join_target,
  error_is_joined, error_is_substed, error_not_joined, error_not_substed, error_join_to_join,
  error_subst_to_subst, error_join_to_subst, error_subst_to_join, error_busy_drive,
  error_same_drive, error_dir_not_root, error_dir_not_empty, error_is_subst_path,
  error_is_join_path, error_path_busy, error_lock_failed, error_busy, error_already_exists,
  error_invalid_exe_signature, error_exe_marked_invalid, error_bad_exe_format,
  error_filename_exced_range, error_meta_expansion_too_long, error_invalid_signal_number,
  error_thread_1_inactive, error_locked, error_too_many_modules, error_nesting_not_allowed,
  error_bad_pipe, error_pipe_busy, error_no_data, error_pipe_not_connected, error_more_data,
  error_invalid_ea_name, error_ea_list_inconsistent, error_no_more_items, error_cannot_copy,
  error_directory, error_eas_didnt_fit, error_ea_file_corrupt, error_ea_table_full,
  error_invalid_ea_handle, error_eas_not_supported, error_not_owner, error_too_many_posts,
  error_mr_mid_not_found, error_cloud_file_sync_root_metadata_corrupt,
  error_cloud_file_provider_not_running, error_cloud_file_metadata_corrupt,
  error_cloud_file_metadata_too_large, error_cloud_file_property_blob_too_large,
  error_cloud_file_property_blob_checksum_mismatch, error_cloud_file_too_many_property_blobs,
  error_cloud_file_property_version_not_supported, error_not_a_cloud_file,
  error_cloud_file_not_in_sync, error_cloud_file_already_connected, error_cloud_file_not_supported,
  error_cloud_file_invalid_request, error_cloud_file_read_only_volume,
  error_cloud_file_connected_provider_only, error_cloud_file_validation_failed,
  error_cloud_file_authentication_failed, error_cloud_file_insufficient_resources,
  error_cloud_file_network_unavailable, error_cloud_file_unsuccessful,
  error_cloud_file_not_under_sync_root, error_cloud_file_in_use, error_cloud_file_pinned,
  error_cloud_file_request_aborted, error_cloud_file_property_corrupt,
  error_cloud_file_access_denied, error_cloud_file_incompatible_hardlinks,
  error_cloud_file_property_lock_conflict, error_cloud_file_request_canceled,
  error_cloud_file_provider_terminated, error_not_a_cloud_sync_root,
  error_cloud_file_request_timeout, error_cloud_file_dehydration_disallowed,
  error_cloud_file_us_message_timeout, error_invalid_address, error_arithmetic_overflow,
  error_pipe_connected, error_pipe_listening, error_ea_access_denied, error_operation_aborted,
  error_io_incomplete, error_io_pending, error_noaccess, error_swaperror, error_stack_overflow,
  error_invalid_message, error_can_not_complete, error_invalid_flags, error_unrecognized_volume,
  error_file_invalid, error_insufficient_buffer, error_bad_device, error_cancelled,
  error_device_removed, error_timeout, error_not_found, error_device_not_connected,
  error_not_a_reparse_point, error_invalid_reparse_data, error_reparse_tag_invalid,
  error_reparse_tag_mismatch, error_cant_access_file, other_error,
}
use layer_mount.Status.NtStatus.{
  status_success, status_illegal_function, status_object_name_not_found,
  status_object_path_not_found, status_too_many_opened_files, status_access_denied,
  status_invalid_handle, status_no_memory, status_invalid_parameter, status_invalid_image_format,
  status_no_such_device, status_cannot_delete, status_not_same_device, status_no_more_files,
  status_media_write_protected, status_device_not_ready, status_invalid_device_request,
  status_crc_error, status_invalid_buffer_size, status_unsuccessful, status_disk_corrupt_error,
  status_nonexistent_sector, status_io_device_error, status_sharing_violation,
  status_file_lock_conflict, status_wrong_volume, status_insufficient_resources, status_end_of_file,
  status_disk_full, status_not_supported, status_remote_not_listening, status_duplicate_name,
  status_bad_network_path, status_network_busy, status_device_does_not_exist,
  status_object_name_collision, status_net_write_fault, status_pipe_broken,
  status_object_name_invalid, status_invalid_level, status_no_such_file, status_dll_not_found,
  status_entrypoint_not_found, status_device_busy, status_directory_not_empty, status_name_too_long,
  status_invalid_pipe_state, status_pipe_busy, status_pipe_empty, status_pipe_disconnected,
  status_buffer_overflow, status_invalid_ea_name, status_ea_list_inconsistent,
  status_no_more_entries, status_not_a_directory, status_ea_too_large, status_ea_corrupt_error,
  status_eas_not_supported, status_resource_not_owned, status_too_many_commands,
  status_message_not_found, status_cloud_file_sync_root_metadata_corrupt,
  status_cloud_file_provider_not_running, status_cloud_file_metadata_corrupt,
  status_cloud_file_metadata_too_large, status_cloud_file_property_blob_too_large,
  status_cloud_file_property_blob_checksum_mismatch, status_cloud_file_too_many_property_blobs,
  status_cloud_file_property_version_not_supported, status_not_a_cloud_file,
  status_cloud_file_not_in_sync, status_cloud_file_already_connected,
  status_cloud_file_not_supported, status_cloud_file_invalid_request,
  status_cloud_file_read_only_volume, status_cloud_file_connected_provider_only,
  status_cloud_file_validation_failed, status_cloud_file_authentication_failed,
  status_cloud_file_insufficient_resources, status_cloud_file_network_unavailable,
  status_cloud_file_unsuccessful, status_cloud_file_not_under_sync_root, status_cloud_file_in_use,
  status_cloud_file_pinned, status_cloud_file_request_aborted, status_cloud_file_property_corrupt,
  status_cloud_file_access_denied, status_cloud_file_incompatible_hardlinks,
  status_cloud_file_property_lock_conflict, status_cloud_file_request_canceled,
  status_cloud_file_provider_terminated, status_not_a_cloud_sync_root,
  status_cloud_file_request_timeout, status_cloud_file_dehydration_disallowed,
  status_cloud_file_us_message_timeout, status_invalid_address, status_integer_overflow,
  status_pipe_connected, status_pipe_listening, status_cancelled, status_more_processing_required,
  status_pending, status_access_violation, status_in_page_error, status_stack_overflow,
  status_invalid_system_service, status_unrecognized_volume, status_file_invalid,
  status_buffer_too_small, status_device_removed, status_io_timeout, status_not_found,
  status_device_not_connected, status_not_a_reparse_point, status_io_reparse_data_invalid,
  status_io_reparse_tag_invalid, status_io_reparse_tag_mismatch, status_io_reparse_tag_not_handled,
}

unfoldable pub nt_status_from_win32 : Win32Error → NtStatus
nt_status_from_win32 error_success = status_success
nt_status_from_win32 error_invalid_function = status_illegal_function
nt_status_from_win32 error_file_not_found = status_object_name_not_found
nt_status_from_win32 error_path_not_found = status_object_path_not_found
nt_status_from_win32 error_too_many_open_files = status_too_many_opened_files
nt_status_from_win32 error_access_denied = status_access_denied
nt_status_from_win32 error_invalid_handle = status_invalid_handle
nt_status_from_win32 error_not_enough_memory = status_no_memory
nt_status_from_win32 error_invalid_block = status_invalid_parameter
nt_status_from_win32 error_bad_environment = status_invalid_parameter
nt_status_from_win32 error_bad_format = status_invalid_image_format
nt_status_from_win32 error_outofmemory = status_no_memory
nt_status_from_win32 error_invalid_drive = status_no_such_device
nt_status_from_win32 error_current_directory = status_cannot_delete
nt_status_from_win32 error_not_same_device = status_not_same_device
nt_status_from_win32 error_no_more_files = status_no_more_files
nt_status_from_win32 error_write_protect = status_media_write_protected
nt_status_from_win32 error_bad_unit = status_no_such_device
nt_status_from_win32 error_not_ready = status_device_not_ready
nt_status_from_win32 error_bad_command = status_invalid_device_request
nt_status_from_win32 error_crc = status_crc_error
nt_status_from_win32 error_bad_length = status_invalid_buffer_size
nt_status_from_win32 error_seek = status_unsuccessful
nt_status_from_win32 error_not_dos_disk = status_disk_corrupt_error
nt_status_from_win32 error_sector_not_found = status_nonexistent_sector
nt_status_from_win32 error_write_fault = status_io_device_error
nt_status_from_win32 error_read_fault = status_io_device_error
nt_status_from_win32 error_gen_failure = status_unsuccessful
nt_status_from_win32 error_sharing_violation = status_sharing_violation
nt_status_from_win32 error_lock_violation = status_file_lock_conflict
nt_status_from_win32 error_wrong_disk = status_wrong_volume
nt_status_from_win32 error_sharing_buffer_exceeded = status_insufficient_resources
nt_status_from_win32 error_handle_eof = status_end_of_file
nt_status_from_win32 error_handle_disk_full = status_disk_full
nt_status_from_win32 error_not_supported = status_not_supported
nt_status_from_win32 error_rem_not_list = status_remote_not_listening
nt_status_from_win32 error_dup_name = status_duplicate_name
nt_status_from_win32 error_bad_netpath = status_bad_network_path
nt_status_from_win32 error_network_busy = status_network_busy
nt_status_from_win32 error_dev_not_exist = status_device_does_not_exist
nt_status_from_win32 error_file_exists = status_object_name_collision
nt_status_from_win32 error_cannot_make = status_access_denied
nt_status_from_win32 error_invalid_parameter = status_invalid_parameter
nt_status_from_win32 error_net_write_fault = status_net_write_fault
nt_status_from_win32 error_drive_locked = status_access_denied
nt_status_from_win32 error_broken_pipe = status_pipe_broken
nt_status_from_win32 error_open_failed = status_unsuccessful
nt_status_from_win32 error_disk_full = status_disk_full
nt_status_from_win32 error_no_more_search_handles = status_insufficient_resources
nt_status_from_win32 error_invalid_target_handle = status_invalid_handle
nt_status_from_win32 error_invalid_category = status_invalid_parameter
nt_status_from_win32 error_invalid_name = status_object_name_invalid
nt_status_from_win32 error_invalid_level = status_invalid_level
nt_status_from_win32 error_no_volume_label = status_no_such_file
nt_status_from_win32 error_mod_not_found = status_dll_not_found
nt_status_from_win32 error_proc_not_found = status_entrypoint_not_found
nt_status_from_win32 error_wait_no_children = status_unsuccessful
nt_status_from_win32 error_child_not_complete = status_unsuccessful
nt_status_from_win32 error_direct_access_handle = status_invalid_handle
nt_status_from_win32 error_negative_seek = status_invalid_parameter
nt_status_from_win32 error_seek_on_device = status_invalid_device_request
nt_status_from_win32 error_is_join_target = status_unsuccessful
nt_status_from_win32 error_is_joined = status_unsuccessful
nt_status_from_win32 error_is_substed = status_unsuccessful
nt_status_from_win32 error_not_joined = status_unsuccessful
nt_status_from_win32 error_not_substed = status_unsuccessful
nt_status_from_win32 error_join_to_join = status_unsuccessful
nt_status_from_win32 error_subst_to_subst = status_unsuccessful
nt_status_from_win32 error_join_to_subst = status_unsuccessful
nt_status_from_win32 error_subst_to_join = status_unsuccessful
nt_status_from_win32 error_busy_drive = status_device_busy
nt_status_from_win32 error_same_drive = status_unsuccessful
nt_status_from_win32 error_dir_not_root = status_unsuccessful
nt_status_from_win32 error_dir_not_empty = status_directory_not_empty
nt_status_from_win32 error_is_subst_path = status_unsuccessful
nt_status_from_win32 error_is_join_path = status_unsuccessful
nt_status_from_win32 error_path_busy = status_device_busy
nt_status_from_win32 error_lock_failed = status_file_lock_conflict
nt_status_from_win32 error_busy = status_device_busy
nt_status_from_win32 error_already_exists = status_object_name_collision
nt_status_from_win32 error_invalid_exe_signature = status_invalid_image_format
nt_status_from_win32 error_exe_marked_invalid = status_invalid_image_format
nt_status_from_win32 error_bad_exe_format = status_invalid_image_format
nt_status_from_win32 error_filename_exced_range = status_name_too_long
nt_status_from_win32 error_meta_expansion_too_long = status_name_too_long
nt_status_from_win32 error_invalid_signal_number = status_invalid_parameter
nt_status_from_win32 error_thread_1_inactive = status_unsuccessful
nt_status_from_win32 error_locked = status_file_lock_conflict
nt_status_from_win32 error_too_many_modules = status_insufficient_resources
nt_status_from_win32 error_nesting_not_allowed = status_unsuccessful
nt_status_from_win32 error_bad_pipe = status_invalid_pipe_state
nt_status_from_win32 error_pipe_busy = status_pipe_busy
nt_status_from_win32 error_no_data = status_pipe_empty
nt_status_from_win32 error_pipe_not_connected = status_pipe_disconnected
nt_status_from_win32 error_more_data = status_buffer_overflow
nt_status_from_win32 error_invalid_ea_name = status_invalid_ea_name
nt_status_from_win32 error_ea_list_inconsistent = status_ea_list_inconsistent
nt_status_from_win32 error_no_more_items = status_no_more_entries
nt_status_from_win32 error_cannot_copy = status_unsuccessful
nt_status_from_win32 error_directory = status_not_a_directory
nt_status_from_win32 error_eas_didnt_fit = status_ea_too_large
nt_status_from_win32 error_ea_file_corrupt = status_ea_corrupt_error
nt_status_from_win32 error_ea_table_full = status_ea_too_large
nt_status_from_win32 error_invalid_ea_handle = status_invalid_handle
nt_status_from_win32 error_eas_not_supported = status_eas_not_supported
nt_status_from_win32 error_not_owner = status_resource_not_owned
nt_status_from_win32 error_too_many_posts = status_too_many_commands
nt_status_from_win32 error_mr_mid_not_found = status_message_not_found
nt_status_from_win32 error_cloud_file_sync_root_metadata_corrupt =
    status_cloud_file_sync_root_metadata_corrupt
nt_status_from_win32 error_cloud_file_provider_not_running = status_cloud_file_provider_not_running
nt_status_from_win32 error_cloud_file_metadata_corrupt = status_cloud_file_metadata_corrupt
nt_status_from_win32 error_cloud_file_metadata_too_large = status_cloud_file_metadata_too_large
nt_status_from_win32 error_cloud_file_property_blob_too_large =
    status_cloud_file_property_blob_too_large
nt_status_from_win32 error_cloud_file_property_blob_checksum_mismatch =
    status_cloud_file_property_blob_checksum_mismatch
nt_status_from_win32 error_cloud_file_too_many_property_blobs =
    status_cloud_file_too_many_property_blobs
nt_status_from_win32 error_cloud_file_property_version_not_supported =
    status_cloud_file_property_version_not_supported
nt_status_from_win32 error_not_a_cloud_file = status_not_a_cloud_file
nt_status_from_win32 error_cloud_file_not_in_sync = status_cloud_file_not_in_sync
nt_status_from_win32 error_cloud_file_already_connected = status_cloud_file_already_connected
nt_status_from_win32 error_cloud_file_not_supported = status_cloud_file_not_supported
nt_status_from_win32 error_cloud_file_invalid_request = status_cloud_file_invalid_request
nt_status_from_win32 error_cloud_file_read_only_volume = status_cloud_file_read_only_volume
nt_status_from_win32 error_cloud_file_connected_provider_only =
    status_cloud_file_connected_provider_only
nt_status_from_win32 error_cloud_file_validation_failed = status_cloud_file_validation_failed
nt_status_from_win32 error_cloud_file_authentication_failed =
    status_cloud_file_authentication_failed
nt_status_from_win32 error_cloud_file_insufficient_resources =
    status_cloud_file_insufficient_resources
nt_status_from_win32 error_cloud_file_network_unavailable = status_cloud_file_network_unavailable
nt_status_from_win32 error_cloud_file_unsuccessful = status_cloud_file_unsuccessful
nt_status_from_win32 error_cloud_file_not_under_sync_root = status_cloud_file_not_under_sync_root
nt_status_from_win32 error_cloud_file_in_use = status_cloud_file_in_use
nt_status_from_win32 error_cloud_file_pinned = status_cloud_file_pinned
nt_status_from_win32 error_cloud_file_request_aborted = status_cloud_file_request_aborted
nt_status_from_win32 error_cloud_file_property_corrupt = status_cloud_file_property_corrupt
nt_status_from_win32 error_cloud_file_access_denied = status_cloud_file_access_denied
nt_status_from_win32 error_cloud_file_incompatible_hardlinks =
    status_cloud_file_incompatible_hardlinks
nt_status_from_win32 error_cloud_file_property_lock_conflict =
    status_cloud_file_property_lock_conflict
nt_status_from_win32 error_cloud_file_request_canceled = status_cloud_file_request_canceled
nt_status_from_win32 error_cloud_file_provider_terminated = status_cloud_file_provider_terminated
nt_status_from_win32 error_not_a_cloud_sync_root = status_not_a_cloud_sync_root
nt_status_from_win32 error_cloud_file_request_timeout = status_cloud_file_request_timeout
nt_status_from_win32 error_cloud_file_dehydration_disallowed =
    status_cloud_file_dehydration_disallowed
nt_status_from_win32 error_cloud_file_us_message_timeout = status_cloud_file_us_message_timeout
nt_status_from_win32 error_invalid_address = status_invalid_address
nt_status_from_win32 error_arithmetic_overflow = status_integer_overflow
nt_status_from_win32 error_pipe_connected = status_pipe_connected
nt_status_from_win32 error_pipe_listening = status_pipe_listening
nt_status_from_win32 error_ea_access_denied = status_access_denied
nt_status_from_win32 error_operation_aborted = status_cancelled
nt_status_from_win32 error_io_incomplete = status_more_processing_required
nt_status_from_win32 error_io_pending = status_pending
nt_status_from_win32 error_noaccess = status_access_violation
nt_status_from_win32 error_swaperror = status_in_page_error
nt_status_from_win32 error_stack_overflow = status_stack_overflow
nt_status_from_win32 error_invalid_message = status_invalid_system_service
nt_status_from_win32 error_can_not_complete = status_unsuccessful
nt_status_from_win32 error_invalid_flags = status_invalid_parameter
nt_status_from_win32 error_unrecognized_volume = status_unrecognized_volume
nt_status_from_win32 error_file_invalid = status_file_invalid
nt_status_from_win32 error_insufficient_buffer = status_buffer_too_small
nt_status_from_win32 error_bad_device = status_device_does_not_exist
nt_status_from_win32 error_cancelled = status_cancelled
nt_status_from_win32 error_device_removed = status_device_removed
nt_status_from_win32 error_timeout = status_io_timeout
nt_status_from_win32 error_not_found = status_not_found
nt_status_from_win32 error_device_not_connected = status_device_not_connected
nt_status_from_win32 error_not_a_reparse_point = status_not_a_reparse_point
nt_status_from_win32 error_invalid_reparse_data = status_io_reparse_data_invalid
nt_status_from_win32 error_reparse_tag_invalid = status_io_reparse_tag_invalid
nt_status_from_win32 error_reparse_tag_mismatch = status_io_reparse_tag_mismatch
nt_status_from_win32 error_cant_access_file = status_io_reparse_tag_not_handled
nt_status_from_win32 (other_error n) = status_unsuccessful

abbrev pub is_no_error : Win32Error → Bool
is_no_error error_success = true
is_no_error _ = false

abbrev pub is_success : NtStatus → Bool
is_success status_success = true
is_success _ = false

-- The status codes that are not negative, of those above.
abbrev pub nt_success : NtStatus → Bool
nt_success status_success = true
nt_success status_pending = true
nt_success _ = false

-- The errors that become such a status.
abbrev pub succeeds_as : Win32Error → Bool
succeeds_as error_success = true
succeeds_as error_io_pending = true
succeeds_as _ = false

unfoldable pub status_from_win32_error : Win32Error → Win32Error → NtStatus
status_from_win32_error err fallback =
    nt_status_from_win32 (if is_no_error err then fallback else err)
