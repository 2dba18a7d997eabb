-- ===== src/Upper/Preserved.antt =====
-- What no move or delete of a file changes, no operation on the sidecar records changes
-- (src/LayerMount.dll/impl/SidecarMetadata.cpp and MetadataStore.cpp).
use layer_mount.Status.NtStatus.{status_success}
use layer_mount.Base.{
  ◌≡◌, ◌⊎◌, refl, ap, Bool, true, false, Option, none, some, List, [], ◌∷◌, if◌then◌else◌, inl, inr,
  Bool-cases, ◌==◌, eq_nat, eq_list, ◌++◌,
}
use layer_mount.Layer.Disk.{WString}
use layer_mount.Status.{Win32Error, NtStatus}
use layer_mount.Status.Win32Error.{error_file_not_found}
use layer_mount.Status.Mapping.{nt_success, is_no_error}
use layer_mount.Sidecar.{
  FileService, SidecarMetadata, is_not_found, record_deleted, record_moved, move_record_file,
  opaque_moved, meta_moved, move_bases, move, remove_marker, marker_removed, remove, remove_file,
  removed, remove_opaque, base_of, file_of, with_suffix, meta_suffix, opaque_suffix, has_record,
}
use layer_mount.Sidecar.Records.{
  EntryBelow, MovedSidecarRecord, move_and_note, move_or_leave, leave_stuck,
  remove_records_of_replaced_entry, move_back, move_sidecar_records_back, move_sidecar_records,
  move_sidecar_records_leaving_stuck_ones,
}
use layer_mount.Sidecar.Records.Invariants.{for_each_moved_entry-EndsAs}

-- A file that holds the record or the opaque marker of an entry.
abbrev pub IsRecordFile : SidecarMetadata → WString → Type 0
IsRecordFile sidecar file =
    (path : WString) × ((file_of sidecar path meta_suffix ≡ some file)
      ⊎ (file_of sidecar path opaque_suffix ≡ some file))

is_meta_file :
    (sidecar : SidecarMetadata) (path base : WString)
    → base_of sidecar path ≡ some base
    → IsRecordFile sidecar (base ++ meta_suffix)
unfolding file_of
is_meta_file sidecar path base named = (path, inl (ap (with_suffix meta_suffix) named))

is_opaque_file :
    (sidecar : SidecarMetadata) (path base : WString)
    → base_of sidecar path ≡ some base
    → IsRecordFile sidecar (base ++ opaque_suffix)
unfolding file_of
is_opaque_file sidecar path base named = (path, inr (ap (with_suffix opaque_suffix) named))

both_ways {ℓ} :
    {A : Type ℓ} (status : NtStatus)
    → (nt_success status ≡ true → A) × (nt_success status ≡ false → A)
    → A
both_ways status (good, bad) = elim (Bool-cases (nt_success status)) [
  | inl e ↦ good e
  | inr e ↦ bad e
]

module _ {W : Type 0} (service : FileService W) (sidecar : SidecarMetadata) (P : W → Type 0)
    (moves : (w : W) (from to : WString)
      → IsRecordFile sidecar from
      → IsRecordFile sidecar to
      → P w
      → P (service.move_file w from to).0)
    (deletes : (w : W) (file : WString)
      → IsRecordFile sidecar file
      → P w
      → P (service.delete_file w file).0) where
  if_keeps : {R : Type 0} (b : Bool) (x y : W × R) → P x.0 → P y.0 → P (if b then x else y).0
  if_keeps true x y px py = px
  if_keeps false x y px py = py

  deleted-keeps :
      (result : W × Option Win32Error) → P result.0 → P (record_deleted service result).0
  deleted-keeps (w, none) holds = holds
  deleted-keeps (w, some error) holds = holds

  moved-keeps :
      (to : WString) (result : W × Option Win32Error)
      → IsRecordFile sidecar to
      → P result.0
      → P (record_moved service to result).0
  moved-keeps to (w, none) at holds = holds
  moved-keeps to (w, some error) at holds =
      if_keeps (is_not_found error) _ (w, error)
        (deleted-keeps (service.delete_file w to) (deletes w to at holds)) holds

  file-keeps :
      (w : W) (from to : WString)
      → IsRecordFile sidecar from
      → IsRecordFile sidecar to
      → P w
      → P (move_record_file service w from to).0
  unfolding move_record_file
  file-keeps w from to at at_to holds =
      moved-keeps to (service.move_file w from to) at_to (moves w from to at at_to holds)

  opaque-keeps :
      (from_base to_base : WString) (result : W × Win32Error)
      → IsRecordFile sidecar (from_base ++ meta_suffix)
      → IsRecordFile sidecar (to_base ++ meta_suffix)
      → P result.0
      → P (opaque_moved service from_base to_base result).0
  opaque-keeps from_base to_base (w, error) at at_to holds =
      if_keeps (is_no_error error) _ _ holds (file-keeps w _ _ at_to at holds)

  meta-keeps :
      (from_base to_base from_path to_path : WString) (result : W × Win32Error)
      → base_of sidecar from_path ≡ some from_base
      → base_of sidecar to_path ≡ some to_base
      → P result.0
      → P (meta_moved service from_base to_base result).0
  meta-keeps from_base to_base from_path to_path (w, error) named named_to holds =
      elim (Bool-cases (is_no_error error)) [
        | inl good ↦ rw good (
            opaque-keeps from_base to_base
              (move_record_file service w (from_base ++ opaque_suffix) (to_base ++ opaque_suffix))
              (is_meta_file sidecar from_path from_base named)
              (is_meta_file sidecar to_path to_base named_to)
              (file-keeps w (from_base ++ opaque_suffix) (to_base ++ opaque_suffix)
                (is_opaque_file sidecar from_path from_base named)
                (is_opaque_file sidecar to_path to_base named_to) holds))
        | inr bad ↦ rw bad holds
      ]

  bases-keep :
      (w : W) (from_path to_path : WString) (from to : Option WString)
      → base_of sidecar from_path ≡ from
      → base_of sidecar to_path ≡ to
      → P w
      → P (move_bases service w from to).0
  bases-keep w from_path to_path none to named named_to holds = holds
  bases-keep w from_path to_path (some from) none named named_to holds = holds
  bases-keep w from_path to_path (some from) (some to) named named_to holds =
      elim (Bool-cases (from == to)) [
        | inl same ↦ rw same holds
        | inr other ↦ rw other (
            meta-keeps from to from_path to_path
              (move_record_file service w (from ++ meta_suffix) (to ++ meta_suffix)) named named_to
              (file-keeps w (from ++ meta_suffix) (to ++ meta_suffix)
                (is_meta_file sidecar from_path from named)
                (is_meta_file sidecar to_path to named_to) holds))
      ]

  pub move-keeps : (w : W) (from to : WString) → P w → P (move service sidecar w from to).0
  unfolding move
  move-keeps w from to holds =
      bases-keep w from to (base_of sidecar from) (base_of sidecar to) refl refl holds

  removed-keeps :
      (result : W × Option Win32Error) → P result.0 → P (removed service sidecar result).0
  removed-keeps (w, none) holds = holds
  removed-keeps (w, some error_file_not_found) holds = holds
  removed-keeps (w, some _) holds = holds

  remove_file-keeps :
      (w : W) (path : WString) (file : Option WString)
      → file_of sidecar path meta_suffix ≡ file
      → P w
      → P (remove_file service sidecar w file).0
  remove_file-keeps w path none named holds = holds
  remove_file-keeps w path (some file) named holds =
      removed-keeps (service.delete_file w file) (deletes w file (path, inl named) holds)

  pub remove-keeps : (w : W) (path : WString) → P w → P (remove service sidecar w path).0
  unfolding remove
  remove-keeps w path holds = remove_file-keeps w path (file_of sidecar path meta_suffix) refl holds

  marker_removed-keeps :
      (result : W × Option Win32Error) → P result.0 → P (marker_removed service sidecar result).0
  marker_removed-keeps (w, none) holds = holds
  marker_removed-keeps (w, some error) holds = holds

  remove_marker-keeps :
      (w : W) (path : WString) (file : Option WString)
      → file_of sidecar path opaque_suffix ≡ file
      → P w
      → P (remove_marker service sidecar w file).0
  remove_marker-keeps w path none named holds = holds
  remove_marker-keeps w path (some file) named holds =
      marker_removed-keeps (service.delete_file w file) (deletes w file (path, inr named) holds)

  pub remove_opaque-keeps :
      (w : W) (path : WString) → P w → P (remove_opaque service sidecar w path).0
  unfolding remove_opaque
  remove_opaque-keeps w path holds =
      remove_marker-keeps w path (file_of sidecar path opaque_suffix) refl holds

  cleared-keeps :
      (b : Bool) (w : W) (path : WString)
      → P w
      → P (if b then (remove service sidecar w path).0 else w)
  cleared-keeps true w path holds = remove-keeps w path holds
  cleared-keeps false w path holds = holds

  replaced-keeps :
      (w : W) (from to : WString)
      → P w
      → P (remove_records_of_replaced_entry service sidecar w from to)
  unfolding remove_records_of_replaced_entry
  replaced-keeps w from to holds =
      remove_opaque-keeps _ to (cleared-keeps (has_record service sidecar w from) w to holds)

  pub move_sidecar_records-keeps :
      (use_sidecar : Bool) (w : W) (from to : WString) (entry : EntryBelow)
      → P w
      → P (move_sidecar_records service sidecar use_sidecar w from to entry).0.0
  unfolding move_sidecar_records
  move_sidecar_records-keeps false w from to entry holds = holds
  move_sidecar_records-keeps true w from to entry holds = both_ways _ (
      for_each_moved_entry-EndsAs (λ state. P state.0) (λ state. P state.0) (λ state kept. kept)
        (move_and_note service sidecar)
        (λ state from to kept.
          (λ good. move-keeps state.0 from to kept, λ bad. move-keeps state.0 from to kept))
        from to entry (w, []) holds)

  stuck-keeps :
      (first_error : NtStatus) (from to : WString) (result : W × NtStatus)
      → P result.0
      → P (leave_stuck service sidecar first_error from to result).0.0
  stuck-keeps first_error from to (w, status) holds = elim (Bool-cases (nt_success status)) [
    | inl good ↦ rw good holds
    | inr bad ↦ rw bad (replaced-keeps w from to holds)
  ]

  pub leaving_stuck-keeps :
      (use_sidecar : Bool) (w : W) (from to : WString) (entry : EntryBelow)
      → P w
      → P (move_sidecar_records_leaving_stuck_ones service sidecar use_sidecar w from to entry).0
  unfolding move_sidecar_records_leaving_stuck_ones
  leaving_stuck-keeps false w from to entry holds = holds
  leaving_stuck-keeps true w from to entry holds = both_ways _ (
      for_each_moved_entry-EndsAs (λ state. P state.0) (λ state. P state.0) (λ state kept. kept)
        (move_or_leave service sidecar)
        (λ state from to kept.
          let next =
            stuck-keeps state.1 from to (move service sidecar state.0 from to)
              (move-keeps state.0 from to kept) in
          (λ good. next, λ bad. next))
        from to entry (w, status_success) holds)

  move_back-keeps :
      (moved : List MovedSidecarRecord) (w : W) → P w → P (move_back service sidecar moved w).0
  unfolding move_back
  move_back-keeps [] w holds = holds
  move_back-keeps ((from, to) ∷ moved) w holds =
      move-keeps _ to from (move_back-keeps moved w holds)

  pub move_sidecar_records_back-keeps :
      (w : W) (moved : List MovedSidecarRecord)
      → P w
      → P (move_sidecar_records_back service sidecar w moved).0
  unfolding move_sidecar_records_back
  move_sidecar_records_back-keeps w moved holds = move_back-keeps moved w holds
