-- ===== src/Whiteouts/Tests.antt =====
-- An upper of plain files, with the property of the whiteouts applied to it.
use layer_mount.Base.{
  ◌≡◌, ◌≢◌, refl, Bool, true, false, ◌||◌, none, [], ◌∷◌, ◌==◌, eq_nat, eq_list, ==_refl,
  if◌then◌else◌, inl, inr, Bool-cases, codes, ok, failed, Outcome,
}
use layer_mount.Layer.Disk.{
  Disk, WString, RelPath, Attributes, component_kind_in_layer, entry_kind_of,
}
use layer_mount.Layer.Tests.{ascii, config, flat}
use layer_mount.Layer.Walk.{
  find_link_on_path, is_off_links, walk_from, walk_to_first_non_directory, link_stop_of,
}
use layer_mount.Status.Mapping.{nt_success}
use layer_mount.Whiteouts.{
  MarkerService, WhiteoutManager, WhiteoutType, create_whiteout, remove_whiteout,
}
use layer_mount.Whiteouts.Effects.{IsMarkerService, is_whited_out, whiteout-written_removed}

-- The files of the upper.
abbrev Files : Type 0
Files = RelPath → Bool

abbrev probe_file : Bool → Outcome Attributes
probe_file true = ok (record { directory = false; reparse_point = false })
probe_file false = failed 2

abbrev disk_of : Files → Disk
disk_of files = record {
  attributes = λ layer path. probe_file (files path);
  reparse_tag = λ layer path. failed 2;
  enumerate = flat.enumerate;
  name_surrogate = λ tag. false;
  stream_attributes = λ layer path stream. failed 2;
  record_attributes = λ layer path suffix. none;
}

abbrev service : MarkerService Files
service = record {
  disk = disk_of;
  ensure_directory_exists = λ files layer path. files;
  create_file = λ files layer path. (λ p. p == path || files p, none);
  delete_file = λ files layer path. (λ p. if p == path then false else files p, none);
  set_opaque_metadata = λ files layer path. (files, false);
  remove_opaque_metadata = λ files layer path. (files, true);
  read_entry_times = λ files layer path. none;
  write_entry_times = λ files layer path times. files;
}

no_link :
    (files : Files) (layer : WString) (path : RelPath)
    → is_off_links (find_link_on_path (disk_of files) layer path) ≡ true
unfolding find_link_on_path walk_to_first_non_directory walk_from component_kind_in_layer
    entry_kind_of link_stop_of
no_link files layer [] = refl
no_link files layer (name ∷ rest) = elim (Bool-cases (files (name ∷ []))) [
  | inl there ↦ rw (there, is_off_links) refl
  | inr gone ↦ rw (gone, is_off_links) refl
]

service-IsMarkerService : IsMarkerService service
service-IsMarkerService = record {
  creates = λ files layer path. rw (==_refl path) refl;
  deletes = λ files layer path. rw (==_refl path) refl;
  create_adds_no_link = λ files layer path dir off. no_link (λ p. p == path || files p) layer dir;
  ensure_adds_no_link = λ files layer path dir off. off;
}

abbrev manager : WhiteoutManager Files
manager = record { world = λ path. false; cache = none; has_emitter = true; created = [] }

whiteout-written_removed_example :
    (nt_success (create_whiteout service ascii config manager (codes "a" ∷ []) WhiteoutType.file).1
        ≡ true
      → WhiteoutType.file ≢ WhiteoutType.opaque
      → is_whited_out service service-IsMarkerService ascii config
          (create_whiteout service ascii config manager (codes "a" ∷ []) WhiteoutType.file).0
          (codes "a" ∷ [])
        ≡ true)
    × (nt_success (remove_whiteout service ascii config manager (codes "a" ∷ [])).1 ≡ true
        → is_whited_out service service-IsMarkerService ascii config
            (remove_whiteout service ascii config manager (codes "a" ∷ [])).0
            (codes "a" ∷ [])
          ≡ false)
whiteout-written_removed_example =
    whiteout-written_removed service service-IsMarkerService ascii config manager (codes "a" ∷ [])
      WhiteoutType.file
