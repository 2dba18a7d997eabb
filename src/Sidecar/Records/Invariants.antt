-- ===== src/Sidecar/Records/Invariants.antt =====
-- What holds along a walk of the records (src/LayerMount.dll/impl/MetadataStore.cpp:
-- ForEachMovedEntry), by what one visit keeps.
use layer_mount.Base.{
  ◌≡◌, sym, subst, Bool, true, false, not, ◌||◌, Option, none, some, List, [], ◌∷◌, ◌++◌, inl, inr,
  Bool-cases, arith, drop, length,
}
use layer_mount.Layer.Disk.{WString}
use layer_mount.Status.{NtStatus}
use layer_mount.Status.Mapping.{nt_success}
use layer_mount.Sidecar.Records.{EntryBelow, for_each_moved_entry, below_moved}
use layer_mount.Sidecar.Records.Walks.{
  run_visits, run_if, run_result, paths_below, listing_errors, for_each_entry_below-run_visits,
}

passed : (a b : Bool) → (not a || not b) ≡ false → a ≡ true
passed a b goes = ground arith

module _ {S : Type 0} (P Q : S → Type 0) (weaker : (state : S) → P state → Q state) where
  abbrev Ends : S × Option NtStatus → Type 0
  Ends (state, none) = P state
  Ends (state, some error) = (nt_success error ≡ false) × Q state

  -- What holds where a walk succeeds, and where it fails.
  abbrev pub EndsAs : S × NtStatus → Type 0
  EndsAs (state, status) =
      (nt_success status ≡ true → P state) × (nt_success status ≡ false → Q state)

  module _ (visit : S → WString → S × NtStatus)
      (keeps : (state : S) (path : WString) → P state → EndsAs (visit state path)) where
    run_if-Ends :
        (paths : List WString) (visited : S × NtStatus)
        → EndsAs visited
        → ((state : S) → P state → Ends (run_visits visit paths state))
        → Ends (run_if visit (run_visits visit paths) visited)
    run_if-Ends paths (state, status) kept rest = elim (Bool-cases (nt_success status)) [
      | inl good ↦ rw good (rest state (kept.0 good))
      | inr bad ↦ rw bad (bad, kept.1 bad)
    ]

    run_visits-Ends :
        (paths : List WString) (state : S) → P state → Ends (run_visits visit paths state)
    run_visits-Ends [] state holds = holds
    run_visits-Ends (path ∷ paths) state holds =
        run_if-Ends paths (visit state path) (keeps state path holds) (run_visits-Ends paths)

    run_result-EndsAs :
        (errors : List NtStatus) (run : S × Option NtStatus)
        → Ends run
        → EndsAs (run_result visit errors run)
    run_result-EndsAs errors (state, none) ends = (λ good. ends, λ bad. weaker state ends)
    run_result-EndsAs errors (state, some error) ends =
        (λ good. absurd (ground (arith, ends.0, good)), λ bad. ends.1)

  module _ (visit : S → WString → WString → S × NtStatus)
      (keeps : (state : S) (from to : WString) → P state → EndsAs (visit state from to)) where
    below-EndsAs :
        (from to : WString) (entry : EntryBelow) (visited : S × NtStatus)
        → EndsAs visited
        → EndsAs (below_moved visit from to entry visited)
    below-EndsAs from to entry (state, status) kept =
        let visit_moved : S → WString → S × NtStatus =
          λ state moved_path. visit state (from ++ drop (length to) moved_path) moved_path in
        elim (Bool-cases (not (nt_success status) || not entry.is_directory_but_not_link)) [
          | inl stops ↦ rw stops kept
          | inr goes ↦ rw goes (
              subst EndsAs
                (sym (for_each_entry_below-run_visits visit_moved to entry.listing state))
                (run_result-EndsAs visit_moved (λ s p. keeps s _ p) (listing_errors entry.listing)
                  (run_visits visit_moved (paths_below to entry.listing) state)
                  (run_visits-Ends visit_moved (λ s p. keeps s _ p) (paths_below to entry.listing)
                    state (kept.0 (passed _ _ goes)))))
        ]

    pub for_each_moved_entry-EndsAs :
        (from to : WString) (entry : EntryBelow) (state : S)
        → P state
        → EndsAs (for_each_moved_entry visit from to entry state)
    unfolding for_each_moved_entry
    for_each_moved_entry-EndsAs from to entry state holds =
        below-EndsAs from to entry (visit state from to) (keeps state from to holds)
