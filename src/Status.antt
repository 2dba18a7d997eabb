-- ===== src/Status.antt =====
-- The errors of Win32 and the status codes of NT, by their names
-- (src/LayerMount.dll/impl/NtStatusUtil.cpp). The numbers are those of the platform's headers, and
-- two names of one type are two numbers.
pub mod Mapping
pub mod Success
mod Tests
use layer_mount.Base.{ℕ}

-- An error without a case of its own is told by its number.
pub data Win32Error : Type 0 where
  error_success error_invalid_function error_file_not_found error_path_not_found
        error_too_many_open_files error_access_denied error_invalid_handle error_not_enough_memory
        error_invalid_block error_bad_environment error_bad_format error_outofmemory
        error_invalid_drive error_current_directory error_not_same_device error_no_more_files
        error_write_protect error_bad_unit error_not_ready error_bad_command error_crc
        error_bad_length error_seek error_not_dos_disk :
      Win32Error
  error_sector_not_found error_write_fault error_read_fault error_gen_failure
        error_sharing_violation error_lock_violation error_wrong_disk error_sharing_buffer_exceeded
        error_handle_eof error_handle_disk_full error_not_supported error_rem_not_list
        error_dup_name error_bad_netpath error_network_busy error_dev_not_exist error_file_exists
        error_cannot_make error_invalid_parameter error_net_write_fault error_drive_locked
        error_broken_pipe error_open_failed error_disk_full :
      Win32Error
  error_no_more_search_handles error_invalid_target_handle error_invalid_category error_invalid_name
        error_invalid_level error_no_volume_label error_mod_not_found error_proc_not_found
        error_wait_no_children error_child_not_complete error_direct_access_handle
        error_negative_seek error_seek_on_device error_is_join_target error_is_joined
        error_is_substed error_not_joined error_not_substed error_join_to_join error_subst_to_subst
        error_join_to_subst error_subst_to_join error_busy_drive error_same_drive :
      Win32Error
  error_dir_not_root error_dir_not_empty error_is_subst_path error_is_join_path error_path_busy
        error_lock_failed error_busy error_already_exists error_invalid_exe_signature
        error_exe_marked_invalid error_bad_exe_format error_filename_exced_range
        error_meta_expansion_too_long error_invalid_signal_number error_thread_1_inactive
        error_locked error_too_many_modules error_nesting_not_allowed error_bad_pipe error_pipe_busy
        error_no_data error_pipe_not_connected error_more_data error_invalid_ea_name :
      Win32Error
  error_ea_list_inconsistent error_no_more_items error_cannot_copy error_directory
        error_eas_didnt_fit error_ea_file_corrupt error_ea_table_full error_invalid_ea_handle
        error_eas_not_supported error_not_owner error_too_many_posts error_mr_mid_not_found
        error_cloud_file_sync_root_metadata_corrupt error_cloud_file_provider_not_running
        error_cloud_file_metadata_corrupt error_cloud_file_metadata_too_large
        error_cloud_file_property_blob_too_large error_cloud_file_property_blob_checksum_mismatch
        error_cloud_file_too_many_property_blobs error_cloud_file_property_version_not_supported
        error_not_a_cloud_file error_cloud_file_not_in_sync error_cloud_file_already_connected
        error_cloud_file_not_supported :
      Win32Error
  error_cloud_file_invalid_request error_cloud_file_read_only_volume
        error_cloud_file_connected_provider_only error_cloud_file_validation_failed
        error_cloud_file_authentication_failed error_cloud_file_insufficient_resources
        error_cloud_file_network_unavailable error_cloud_file_unsuccessful
        error_cloud_file_not_under_sync_root error_cloud_file_in_use error_cloud_file_pinned
        error_cloud_file_request_aborted error_cloud_file_property_corrupt
        error_cloud_file_access_denied error_cloud_file_incompatible_hardlinks
        error_cloud_file_property_lock_conflict error_cloud_file_request_canceled
        error_cloud_file_provider_terminated error_not_a_cloud_sync_root
        error_cloud_file_request_timeout error_cloud_file_dehydration_disallowed
        error_cloud_file_us_message_timeout error_invalid_address error_arithmetic_overflow :
      Win32Error
  error_pipe_connected error_pipe_listening error_ea_access_denied error_operation_aborted
        error_io_incomplete error_io_pending error_noaccess error_swaperror error_stack_overflow
        error_invalid_message error_can_not_complete error_invalid_flags error_unrecognized_volume
        error_file_invalid error_insufficient_buffer error_bad_device error_cancelled
        error_device_removed error_timeout error_not_found error_device_not_connected
        error_not_a_reparse_point error_invalid_reparse_data error_reparse_tag_invalid :
      Win32Error
  error_reparse_tag_mismatch error_cant_access_file : Win32Error
  other_error : ℕ → Win32Error

pub data NtStatus : Type 0 where
  status_success status_illegal_function status_object_name_not_found status_object_path_not_found
        status_too_many_opened_files status_access_denied status_invalid_handle status_no_memory
        status_invalid_parameter status_invalid_image_format status_no_such_device
        status_cannot_delete status_not_same_device status_no_more_files
        status_media_write_protected status_device_not_ready status_invalid_device_request
        status_crc_error status_invalid_buffer_size status_unsuccessful status_disk_corrupt_error
        status_nonexistent_sector status_io_device_error status_sharing_violation :
      NtStatus
  status_file_lock_conflict status_wrong_volume status_insufficient_resources status_end_of_file
        status_disk_full status_not_supported status_remote_not_listening status_duplicate_name
        status_bad_network_path status_network_busy status_device_does_not_exist
        status_object_name_collision status_net_write_fault status_pipe_broken
        status_object_name_invalid status_invalid_level status_no_such_file status_dll_not_found
        status_entrypoint_not_found status_device_busy status_directory_not_empty
        status_name_too_long status_invalid_pipe_state status_pipe_busy :
      NtStatus
  status_pipe_empty status_pipe_disconnected status_buffer_overflow status_invalid_ea_name
        status_ea_list_inconsistent status_no_more_entries status_not_a_directory
        status_ea_too_large status_ea_corrupt_error status_eas_not_supported
        status_resource_not_owned status_too_many_commands status_message_not_found
        status_cloud_file_sync_root_metadata_corrupt status_cloud_file_provider_not_running
        status_cloud_file_metadata_corrupt status_cloud_file_metadata_too_large
        status_cloud_file_property_blob_too_large status_cloud_file_property_blob_checksum_mismatch
        status_cloud_file_too_many_property_blobs status_cloud_file_property_version_not_supported
        status_not_a_cloud_file status_cloud_file_not_in_sync status_cloud_file_already_connected :
      NtStatus
  status_cloud_file_not_supported status_cloud_file_invalid_request
        status_cloud_file_read_only_volume status_cloud_file_connected_provider_only
        status_cloud_file_validation_failed status_cloud_file_authentication_failed
        status_cloud_file_insufficient_resources status_cloud_file_network_unavailable
        status_cloud_file_unsuccessful status_cloud_file_not_under_sync_root
        status_cloud_file_in_use status_cloud_file_pinned status_cloud_file_request_aborted
        status_cloud_file_property_corrupt status_cloud_file_access_denied
        status_cloud_file_incompatible_hardlinks status_cloud_file_property_lock_conflict
        status_cloud_file_request_canceled status_cloud_file_provider_terminated
        status_not_a_cloud_sync_root status_cloud_file_request_timeout
        status_cloud_file_dehydration_disallowed status_cloud_file_us_message_timeout
        status_invalid_address :
      NtStatus
  status_integer_overflow status_pipe_connected status_pipe_listening status_cancelled
        status_more_processing_required status_pending status_access_violation status_in_page_error
        status_stack_overflow status_invalid_system_service status_unrecognized_volume
        status_file_invalid status_buffer_too_small status_device_removed status_io_timeout
        status_not_found status_device_not_connected status_not_a_reparse_point
        status_io_reparse_data_invalid status_io_reparse_tag_invalid status_io_reparse_tag_mismatch
        status_io_reparse_tag_not_handled :
      NtStatus
