-- ===== src/Sidecar/Records/Noted.antt =====
-- The list of the records that moved (src/LayerMount.dll/impl/MetadataStore.cpp:
-- MoveSidecarRecords), and the way back along it.
use layer_mount.Base.{◌≡◌, true, some, List, [], ◌∷◌, ◌++◌}
use layer_mount.Layer.Disk.{WString}
use layer_mount.Status.Mapping.{nt_success}
use layer_mount.Sidecar.{FileService, SidecarMetadata, base_of, move}
use layer_mount.Sidecar.Effects.{IsFileService}
use layer_mount.Sidecar.Records.{
  MovedSidecarRecord, EntryBelow, move_and_note, move_sidecar_records, move_sidecar_records_back,
}
use layer_mount.Sidecar.Records.Back.HaveMoved.{no_more, one_more}
use layer_mount.Sidecar.Records.Back.{HaveMoved, AreDistinct, IsOld, restored}
use layer_mount.Sidecar.Records.Invariants.{EndsAs, for_each_moved_entry-EndsAs}

module _ {W : Type 0} (service : FileService W) (sidecar : SidecarMetadata) where
  HaveMoved-snoc :
      (w after : W) (moved : List MovedSidecarRecord) (from to : WString)
      → HaveMoved service sidecar w moved after
      → nt_success (move service sidecar after from to).1 ≡ true
      → HaveMoved service sidecar w
          (moved ++ (from, to) ∷ [])
          (move service sidecar after from to).0
  HaveMoved-snoc _ _ _ from to (no_more w) good = one_more good (no_more _)
  HaveMoved-snoc w after _ from to (one_more first rest) good =
      one_more first (HaveMoved-snoc _ after _ from to rest good)

  -- What the state of the walk holds: the moves that are noted happened, from the start.
  abbrev IsNoted : W → W × List MovedSidecarRecord → Type 0
  IsNoted start (w, moved) = HaveMoved service sidecar start moved w

  noted :
      (start : W) (state : W × List MovedSidecarRecord) (from to : WString)
      → IsNoted start state
      → EndsAs
          (IsNoted start)
          (λ state. Unit {0})
          (λ state holds. tt)
          (move_and_note service sidecar state from to)
  noted start (w, moved) from to holds =
      (λ good. rw good (HaveMoved-snoc start w moved from to holds good), λ bad. tt)

  move_sidecar_records-HaveMoved :
      (w : W) (from to : WString) (entry : EntryBelow)
      → let result = move_sidecar_records service sidecar true w from to entry in
        nt_success result.1 ≡ true → HaveMoved service sidecar w result.0.1 result.0.0
  unfolding move_sidecar_records
  move_sidecar_records-HaveMoved w from to entry =
      (for_each_moved_entry-EndsAs (IsNoted w) (λ state. Unit {0}) (λ state holds. tt)
        (move_and_note service sidecar) (noted w) from to entry (w, []) (no_more w)).0

  module _ (name : WString → WString) (law : IsFileService service)
      (named : (path : WString) → base_of sidecar path ≡ some (name path)) where
    -- Where the calls do as Win32 documents and every path has a name for its records: after the
    -- records of an entry and of those below it were moved without an error, to new names that
    -- differ from each other and each from its old one, the way back along the noted list, when
    -- it gives no error, restores every file that is not at one of the new names.
    pub move_sidecar_records_back-move_sidecar_records :
        (w : W) (from to : WString) (entry : EntryBelow)
        → let there = move_sidecar_records service sidecar true w from to entry in
          let back = move_sidecar_records_back service sidecar there.0.0 there.0.1 in
          nt_success there.1 ≡ true
          → AreDistinct name there.0.1
          → nt_success back.1 ≡ true
          → (file : WString) → IsOld name file there.0.1
          → service.file_at back.0 file ≡ service.file_at w file
    unfolding move_sidecar_records_back
    move_sidecar_records_back-move_sidecar_records w from to entry good distinct fine file old =
        restored name service sidecar law named _ w _ file
          (move_sidecar_records-HaveMoved w from to entry good) distinct fine old
