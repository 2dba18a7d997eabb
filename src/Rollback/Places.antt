-- ===== src/Rollback/Places.antt =====
-- Where the entry of a rename is after a step that may undo it
-- (src/LayerMount.dll/impl/RenameRollback.cpp: WhiteOutSource, RemoveDestinationWhiteoutOrUndo).
use layer_mount.Base.{
  ◌≡◌, ◌≢◌, ◌⊎◌, refl, ◌∙◌, Bool, true, false, ◌&&◌, ◌||◌, Option, none, some, inl, inr, Bool-cases,
  ◌++◌, ℕ,
}
use layer_mount.Layer.Disk.{LayerConfig, WString, RelPath}
use layer_mount.Layer.Names.{TextService}
use layer_mount.Sidecar.{FileService}
use layer_mount.Status.{NtStatus}
use layer_mount.Status.Mapping.{nt_success}
use layer_mount.Upper.{UpperDisk, UpperEntryMove, RecordConfig, move_upper_entry}
use layer_mount.Upper.ReplaceExisting.{no}
use layer_mount.Upper.Moves.{IsUpperDisk, MovesAs, move_upper_entry-MovesAs}
use layer_mount.Whiteouts.{
  MarkerService, WhiteoutManager, WhiteoutType, create_whiteout, remove_whiteout, remove_opaque,
}
use layer_mount.Rollback.{
  build_upper_path_preserve_case, up_to_last_separator, with_stored_leaf_name,
  get_stored_upper_path, could_not_move_back, UpperRename, RenameStepResult, RollbackState,
  warn_undo_failed, warn_record_left_behind, removes, opaque_undone, undo_opaque, forget_both,
  moved_back, move_back, whiteout_dropped, source_undone, source_whited_out, white_out_source,
  removal_undone, destination_cleared, remove_destination_whiteout_or_undo,
}
use layer_mount.Rollback.Kept.{
  IsKept, both_kept, create_whiteout-keeps, remove_whiteout-keeps, remove_opaque-keeps,
}

module _ {W : Type 0} (files : FileService W) (disk : UpperDisk W) (markers : MarkerService W)
    (records : RecordConfig) (text : TextService) (config : LayerConfig)
    (find_first_file : W → WString → Option WString) where
  -- The entry with the identity is at one path of two, and none is at the other.
  abbrev pub IsAt : ℕ → WString → WString → W → Type 0
  IsAt id here other w = (disk.entry_at w here ≡ some id) × (disk.entry_at w other ≡ none)

  module _ (source : RelPath) (P : W → Type 0) (fixed : IsKept markers source P) where
    warned-keeps :
        (state : RollbackState W) (move : UpperEntryMove) (path : RelPath)
        → P state.manager.world
        → P
            (warn_record_left_behind files disk markers records text config find_first_file state
              move path).manager.world
    unfolding warn_record_left_behind warn_undo_failed
    warned-keeps state move path holds = elim (Bool-cases (nt_success move.record_left_behind)) [
      | inl none_left ↦ rw none_left holds
      | inr left ↦ rw left holds
    ]

    opaque_undone-keeps :
        (state : RollbackState W) (rename : UpperRename) (result : WhiteoutManager W × Bool)
        → P result.0.world
        → P
            (opaque_undone files disk markers records text config find_first_file state rename
              result).manager.world
    unfolding warn_undo_failed
    opaque_undone-keeps state rename (manager, true) holds = holds
    opaque_undone-keeps state rename (manager, false) holds = holds

    undo-keeps :
        (state : RollbackState W) (rename : UpperRename) (applies : Bool)
        → P state.manager.world
        → P
            (undo_opaque files disk markers records text config find_first_file state rename
              applies).manager.world
    undo-keeps state rename true holds =
        opaque_undone-keeps state rename
          (remove_opaque markers text config state.manager rename.old_norm)
          (remove_opaque-keeps markers source P fixed text config state.manager rename.old_norm
            holds)
    undo-keeps state rename false holds = holds

    moved_back-keeps :
        (state : RollbackState W) (rename : UpperRename) (w : W) (move : UpperEntryMove)
        → P w
        → P
            (moved_back files disk markers records text config find_first_file state rename
              (w, move)).0.manager.world
    unfolding forget_both
    moved_back-keeps state rename w move holds =
        let at_world : RollbackState W = record state {
          manager = record state.manager { world = w };
        } in
        undo-keeps _ rename
          (nt_success move.status
            && removes files disk markers records text config find_first_file rename.opaque_marker)
          (warned-keeps at_world move _ holds)

    dropped-keeps :
        (state : RollbackState W) (path : RelPath) (message : WString)
        (result : WhiteoutManager W × NtStatus)
        → P result.0.world
        → P
            (whiteout_dropped files disk markers records text config find_first_file state path
              message result).manager.world
    unfolding warn_undo_failed
    dropped-keeps state path message (manager, status) holds =
        elim (Bool-cases (nt_success status)) [ inl good ↦ rw good holds | inr bad ↦ rw bad holds ]

  module _ (IsApart : WString → WString → Type 0)
      (law : IsUpperDisk disk IsApart records.sidecar files) (rename : UpperRename) (leaf : WString)
      (id : ℕ)
      (listed : IsKept markers rename.old_norm (λ w.
        find_first_file w (build_upper_path_preserve_case config.upper_path rename.new_norm)
        ≡ some leaf))
      (differ : IsApart
        (up_to_last_separator (build_upper_path_preserve_case config.upper_path rename.new_norm)
          ++ leaf)
        rename.old_upper_path)
      (kept : (path : WString) (held : Option ℕ)
        → (path
            ≡ up_to_last_separator
                (build_upper_path_preserve_case config.upper_path rename.new_norm)
              ++ leaf)
          ⊎ (path ≡ rename.old_upper_path)
        → IsKept markers rename.old_norm (λ w. disk.entry_at w path ≡ held)) where
    -- The path of the entry at the new name, by the name that the file system stores.
    abbrev pub new_path : WString
    new_path =
        up_to_last_separator (build_upper_path_preserve_case config.upper_path rename.new_norm)
        ++ leaf

    -- The file system gives that name.
    abbrev pub IsNamed : W → Type 0
    IsNamed w =
        find_first_file w (build_upper_path_preserve_case config.upper_path rename.new_norm)
        ≡ some leaf

    abbrev pub IsNew : W → Type 0
    IsNew w = IsAt id new_path rename.old_upper_path w

    abbrev pub IsOld : W → Type 0
    IsOld w = IsAt id rename.old_upper_path new_path w

    IsNew-kept : IsKept markers rename.old_norm IsNew
    IsNew-kept =
        both_kept markers rename.old_norm (λ w. disk.entry_at w new_path ≡ some id)
          (λ w. disk.entry_at w rename.old_upper_path ≡ none) (kept new_path (some id) (inl refl))
          (kept rename.old_upper_path none (inr refl))

    IsOld-kept : IsKept markers rename.old_norm IsOld
    IsOld-kept =
        both_kept markers rename.old_norm (λ w. disk.entry_at w rename.old_upper_path ≡ some id)
          (λ w. disk.entry_at w new_path ≡ none) (kept rename.old_upper_path (some id) (inr refl))
          (kept new_path none (inl refl))

    -- The move back by its status.
    moved_back-Back :
        (state : RollbackState W) (result : W × UpperEntryMove)
        → IsNew state.manager.world
        → MovesAs disk state.manager.world new_path rename.old_upper_path no result
        → let back =
            moved_back files disk markers records text config find_first_file state rename result in
          ((nt_success back.1 ≡ true) × IsOld back.0.manager.world)
          ⊎ ((nt_success back.1 ≡ false) × IsNew back.0.manager.world)
    moved_back-Back state (w, move) at (inl (good, renamed)) = inl (
      good,
      moved_back-keeps rename.old_norm IsOld IsOld-kept state rename w move
          (renamed.0 ∙ at.0, renamed.1),
    )
    moved_back-Back state (w, move) at (inr (bad, most, same)) = inr (
      bad,
      moved_back-keeps rename.old_norm IsNew IsNew-kept state rename w move
          (most ∙ at.0, same refl ∙ at.1),
    )

    move_back-Back :
        (state : RollbackState W)
        → IsNamed state.manager.world
        → IsNew state.manager.world
        → let back =
            move_back files disk markers records text config find_first_file state rename in
          ((nt_success back.1 ≡ true) × IsOld back.0.manager.world)
          ⊎ ((nt_success back.1 ≡ false) × IsNew back.0.manager.world)
    unfolding move_back get_stored_upper_path with_stored_leaf_name
    move_back-Back state named at = rw named (
        moved_back-Back state
          (move_upper_entry files disk records state.manager.world new_path rename.old_upper_path
            no)
          at
          (move_upper_entry-MovesAs disk IsApart files records law new_path rename.old_upper_path
            differ state.manager.world no).0)

    -- The result of a step says where the entry is: at the new path where the step succeeded or says
    -- that the new name is occupied, and else at the old one.
    abbrev pub IsTold : RollbackState W × RenameStepResult → Type 0
    IsTold (state, result) =
        ((nt_success result.status || result.new_name_occupied) ≡ true × IsNew state.manager.world)
        ⊎ ((nt_success result.status || result.new_name_occupied) ≡ false
            × IsOld state.manager.world)

    source_undone-IsTold :
        (whiteout : NtStatus) (back : RollbackState W × NtStatus)
        → nt_success whiteout ≡ false
        → ((nt_success back.1 ≡ true) × IsOld back.0.manager.world)
          ⊎ ((nt_success back.1 ≡ false) × IsNew back.0.manager.world)
        → IsTold (
            source_undone files disk markers records text config find_first_file rename whiteout
              back)
    unfolding warn_undo_failed
    source_undone-IsTold whiteout (state, moved) bad (inl (good, at)) =
        rw (good, bad) (inr (refl, at))
    source_undone-IsTold whiteout (state, moved) bad (inr (stuck, at)) =
        rw (stuck, bad)
          (inl (
            refl,
            dropped-keeps rename.old_norm IsNew IsNew-kept
                (warn_undo_failed files disk markers records text config find_first_file state
                  (some moved) rename.new_norm could_not_move_back)
                rename.new_norm _
                (remove_whiteout markers text config state.manager rename.new_norm)
                (remove_whiteout-keeps markers rename.old_norm IsNew IsNew-kept text config
                  state.manager rename.new_norm at),
          ))

    source-IsTold :
        (state : RollbackState W) (written : WhiteoutManager W × NtStatus)
        → IsNamed written.0.world
        → IsNew written.0.world
        → IsTold (
            source_whited_out files disk markers records text config find_first_file state rename
              written)
    source-IsTold state (manager, whiteout) named at = elim (Bool-cases (nt_success whiteout)) [
      | inl good ↦ rw good (inl (refl, at))
      | inr bad ↦
          let next : RollbackState W = record state { manager = manager } in
          rw bad (
            source_undone-IsTold whiteout
              (move_back files disk markers records text config find_first_file next rename) bad
              (move_back-Back next named at))
    ]

    removal_undone-IsTold :
        (removal : NtStatus) (back : RollbackState W × NtStatus)
        → nt_success removal ≡ false
        → ((nt_success back.1 ≡ true) × IsOld back.0.manager.world)
          ⊎ ((nt_success back.1 ≡ false) × IsNew back.0.manager.world)
        → IsTold (
            removal_undone files disk markers records text config find_first_file rename removal
              back)
    unfolding warn_undo_failed
    removal_undone-IsTold removal (state, moved) bad (inl (good, at)) =
        rw (good, bad)
          (inr (
            refl,
            dropped-keeps rename.old_norm IsOld IsOld-kept state rename.old_norm _
                (remove_whiteout markers text config state.manager rename.old_norm)
                (remove_whiteout-keeps markers rename.old_norm IsOld IsOld-kept text config
                  state.manager rename.old_norm at),
          ))
    removal_undone-IsTold removal (state, moved) bad (inr (stuck, at)) =
        rw (stuck, bad) (inl (refl, at))

    destination-IsTold :
        (state : RollbackState W) (cleared : WhiteoutManager W × NtStatus)
        → IsNamed cleared.0.world
        → IsNew cleared.0.world
        → IsTold (
            destination_cleared files disk markers records text config find_first_file state rename
              cleared)
    destination-IsTold state (manager, removal) named at = elim (Bool-cases (nt_success removal)) [
      | inl good ↦ rw good (inl (refl, at))
      | inr bad ↦
          let next : RollbackState W = record state { manager = manager } in
          rw bad (
            removal_undone-IsTold removal
              (move_back files disk markers records text config find_first_file next rename) bad
              (move_back-Back next named at))
    ]

    -- Where the rename on the disk does as documented, the files of sidecar records are no entries, the
    -- old and the new path name different entries, and the calls on markers move the entry of neither
    -- and leave the stored name at the new path: for an entry that is at the new path, by the name that
    -- FindFirstFileW gives, and not at the old one, and a whiteout of a file or a directory, the results
    -- of both steps say where the entry is afterwards. It is at the new path alone where the step
    -- succeeded or says that the new name is occupied, and at the old path alone where it failed and
    -- does not say so, whatever else failed.
    pub white_out_source-IsTold :
        (state : RollbackState W) (type : WhiteoutType)
        → type ≢ WhiteoutType.opaque
        → IsNamed state.manager.world
        → IsNew state.manager.world
        → IsTold (
            white_out_source files disk markers records text config find_first_file state rename
              type)
          × IsTold (
              remove_destination_whiteout_or_undo files disk markers records text config
                find_first_file state rename)
    unfolding white_out_source remove_destination_whiteout_or_undo
    white_out_source-IsTold state type marks named at = (
      source-IsTold state (create_whiteout markers text config state.manager rename.old_norm type)
          (create_whiteout-keeps markers rename.old_norm IsNamed listed text config state.manager
            type marks named)
          (create_whiteout-keeps markers rename.old_norm IsNew IsNew-kept text config state.manager
            type marks at),
      destination-IsTold state (remove_whiteout markers text config state.manager rename.new_norm)
          (remove_whiteout-keeps markers rename.old_norm IsNamed listed text config state.manager
            rename.new_norm named)
          (remove_whiteout-keeps markers rename.old_norm IsNew IsNew-kept text config state.manager
            rename.new_norm at),
    )
