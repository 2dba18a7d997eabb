-- ===== src/Sidecar/Records/Back.antt =====
-- The records of a moved entry and of those below it, moved and then moved back
-- (src/LayerMount.dll/impl/MetadataStore.cpp: MoveSidecarRecords, MoveSidecarRecordsBack).
use layer_mount.Base.{
  ◌≡◌, ◌≢◌, refl, sym, ◌∙◌, true, false, not, ◌&&◌, some, List, [], ◌∷◌, ◌++◌, ◌==◌, eq_nat,
  eq_list, ==_eq, ==_false_ne, if◌then◌else◌, inl, inr, Bool-cases, arith,
}
use layer_mount.Layer.Disk.{WString}
use layer_mount.Status.{NtStatus}
use layer_mount.Status.Mapping.{nt_success}
use layer_mount.Sidecar.{FileService, SidecarMetadata, base_of, meta_suffix, opaque_suffix, move}
use layer_mount.Sidecar.Effects.{IsFileService}
use layer_mount.Sidecar.Keys.{meta-opaque_ne, suffix_ne}
use layer_mount.Sidecar.Moves.{AreMoved, AreMovedAs, move-AreMovedAs}
use layer_mount.Sidecar.Records.{MovedSidecarRecord, move_back}

module _ {W : Type 0} (service : FileService W) (sidecar : SidecarMetadata) where
  -- Moves that all succeeded, in their order.
  pub data HaveMoved : W → List MovedSidecarRecord → W → Type 0 where
    no_more : (w : W) → HaveMoved w [] w
    one_more :
        {w after : W} {from to : WString} {moved : List MovedSidecarRecord}
        → nt_success (move service sidecar w from to).1 ≡ true
        → HaveMoved (move service sidecar w from to).0 moved after
        → HaveMoved w ((from, to) ∷ moved) after

last_failed :
    (first last : NtStatus)
    → nt_success last ≡ false
    → nt_success (if not (nt_success last) && nt_success first then last else first) ≡ true
    → ⊥
last_failed first last bad good = elim (Bool-cases (nt_success first)) [
  | inl fine ↦
      let clash : nt_success last ≡ true = rw (bad, fine) at good in ground (arith, clash, bad)
  | inr worse ↦
      let clash : nt_success first ≡ true = rw (bad, worse) at good in ground (arith, clash, worse)
]

both_succeed :
    (first last : NtStatus)
    → nt_success (if not (nt_success last) && nt_success first then last else first) ≡ true
    → (nt_success first ≡ true) × (nt_success last ≡ true)
both_succeed first last good = elim (Bool-cases (nt_success last)) [
  | inl fine ↦ (rw fine at good, fine)
  | inr bad ↦ absurd (last_failed first last bad good)
]

module _ (name : WString → WString) where
  abbrev pub IsApart : WString → List MovedSidecarRecord → Type 0
  IsApart base [] = Unit {0}
  IsApart base ((from, to) ∷ moved) = (base ≢ name to) × IsApart base moved

  -- No record moved onto its own name, and no two onto the same.
  abbrev pub AreDistinct : List MovedSidecarRecord → Type 0
  AreDistinct [] = Unit {0}
  AreDistinct ((from, to) ∷ moved) =
      (name from ≢ name to) × IsApart (name to) moved × AreDistinct moved

  -- A file that is not one of the two at a new name.
  abbrev pub IsOld : WString → List MovedSidecarRecord → Type 0
  IsOld file [] = Unit {0}
  IsOld file ((from, to) ∷ moved) =
      (file ≢ name to ++ meta_suffix) × (file ≢ name to ++ opaque_suffix) × IsOld file moved

  meta-IsOld :
      (base : WString) (moved : List MovedSidecarRecord)
      → IsApart base moved
      → IsOld (base ++ meta_suffix) moved
  meta-IsOld base [] apart = tt
  meta-IsOld base ((from, to) ∷ moved) (here, rest) = (
    suffix_ne base (name to) meta_suffix here,
    meta-opaque_ne base (name to),
    meta-IsOld base moved rest,
  )

  opaque-IsOld :
      (base : WString) (moved : List MovedSidecarRecord)
      → IsApart base moved
      → IsOld (base ++ opaque_suffix) moved
  opaque-IsOld base [] apart = tt
  opaque-IsOld base ((from, to) ∷ moved) (here, rest) = (
    λ e. meta-opaque_ne (name to) base (sym e),
    suffix_ne base (name to) opaque_suffix here,
    opaque-IsOld base moved rest,
  )

  module _ {W : Type 0} (service : FileService W) (sidecar : SidecarMetadata)
      (law : IsFileService service)
      (named : (path : WString) → base_of sidecar path ≡ some (name path)) where
    good-AreMoved :
        (w : W) (f t : WString) (result : W × NtStatus)
        → AreMovedAs service w f t result
        → nt_success result.1 ≡ true
        → AreMoved service w result.0 f t
    good-AreMoved w f t (after, status) (inl (fine, done)) good = done
    good-AreMoved w f t (after, status) (inr (bad, kept)) good = absurd (ground (arith, bad, good))

    moved-AreMoved :
        (w : W) (from to : WString)
        → name from ≢ name to
        → nt_success (move service sidecar w from to).1 ≡ true
        → AreMoved service w (move service sidecar w from to).0 (name from) (name to)
    moved-AreMoved w from to other good =
        good-AreMoved w (name from) (name to) (move service sidecar w from to)
          (move-AreMovedAs service law sidecar w from to (name from) (name to) (named from)
            (named to) other)
          good

    -- One step back, for a file.
    stepped_back :
        (w w1 w2 w3 : W) (f t file : WString)
        → AreMoved service w w1 f t
        → AreMoved service w2 w3 t f
        → (service.file_at w2 (t ++ meta_suffix) ≡ service.file_at w1 (t ++ meta_suffix))
        → (service.file_at w2 (t ++ opaque_suffix) ≡ service.file_at w1 (t ++ opaque_suffix))
        → (service.file_at w2 file ≡ service.file_at w1 file)
        → file ≢ t ++ meta_suffix
        → file ≢ t ++ opaque_suffix
        → service.file_at w3 file ≡ service.file_at w file
    stepped_back w w1 w2 w3 f t file forth back meta opaque same no_meta no_opaque =
        elim (Bool-cases (file == f ++ meta_suffix)) [
          | inl is_meta ↦ rw (==_eq file (f ++ meta_suffix) is_meta) (back.0 ∙ meta ∙ forth.0)
          | inr no_from ↦ elim (Bool-cases (file == f ++ opaque_suffix)) [
            | inl is_opaque ↦
                rw (==_eq file (f ++ opaque_suffix) is_opaque) (back.1 ∙ opaque ∙ forth.1)
            | inr no_from_marker ↦
                back.4 file no_meta no_opaque (==_false_ne file _ no_from)
                  (==_false_ne file _ no_from_marker)
                ∙ same
                ∙ forth.4 file (==_false_ne file _ no_from) (==_false_ne file _ no_from_marker)
                    no_meta no_opaque
          ]
        ]

    pub restored :
        (moved : List MovedSidecarRecord) (w after : W) (file : WString)
        → HaveMoved service sidecar w moved after
        → AreDistinct moved
        → nt_success (move_back service sidecar moved after).1 ≡ true
        → IsOld file moved
        → service.file_at (move_back service sidecar moved after).0 file ≡ service.file_at w file
    unfolding move_back
    restored _ _ _ file (no_more w) distinct good old = refl
    restored ((from, to) ∷ moved) w after file (one_more moves rest) (other, apart, distinct) good
          (no_meta, no_opaque, old) =
        let first = (move service sidecar w from to).0 in
        let later = move_back service sidecar moved after in
        let fine = both_succeed later.1 (move service sidecar later.0 to from).1 good in
        stepped_back w first later.0 (move service sidecar later.0 to from).0 (name from) (name to)
          file (moved-AreMoved w from to other moves)
          (moved-AreMoved later.0 to from (λ e. other (sym e)) fine.1)
          (restored moved first after _ rest distinct fine.0 (meta-IsOld (name to) moved apart))
          (restored moved first after _ rest distinct fine.0 (opaque-IsOld (name to) moved apart))
          (restored moved first after file rest distinct fine.0 old) no_meta no_opaque
