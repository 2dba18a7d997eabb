-- ===== src/Sidecar/Records/Walks.antt =====
-- The walk below a directory against a list of paths (src/LayerMount.dll/impl/MetadataStore.cpp:
-- VisitEntriesBelow, ForEachEntryBelow).
use layer_mount.Base.{
  ◌≡◌, refl, sym, ap, ◌∙◌, Bool, true, false, not, ◌&&◌, Option, none, some, List, [], ◌∷◌, ◌++◌,
  if◌then◌else◌, inl, inr, Bool-cases, subst,
}
use layer_mount.Layer.Disk.{WString}
use layer_mount.Status.{NtStatus}
use layer_mount.Status.Mapping.{nt_success}
use layer_mount.Status.NtStatus.{status_success}
use layer_mount.Sidecar.Records.{
  Listing, Walk, join_dir_path, visit_listed, visit_entries_below, for_each_entry_below,
  continue_if, visit_one, keep_first_listing_error, walk_result,
}
use layer_mount.Sidecar.Records.Listing.{unlistable, ended, broken, found}

-- The paths below a directory, each before those below it. No link is entered.
unfoldable pub paths_below : WString → Listing → List WString
paths_below dir_path (unlistable error) = []
paths_below dir_path ended = []
paths_below dir_path (broken error) = []
paths_below dir_path (found name is_directory is_link below rest) =
    let inner = paths_below (join_dir_path dir_path name) below in
    let others = paths_below dir_path rest in
    join_dir_path dir_path name ∷ ((if is_directory && not is_link then inner else []) ++ others)

-- The listing errors of all directories that are entered, in their order.
unfoldable pub listing_errors : Listing → List NtStatus
listing_errors (unlistable error) = error ∷ []
listing_errors ended = []
listing_errors (broken error) = error ∷ []
listing_errors (found name is_directory is_link below rest) =
    let inner = listing_errors below in
    let others = listing_errors rest in
    (if is_directory && not is_link then inner else []) ++ others

abbrev pub first_failure : NtStatus → List NtStatus → NtStatus
first_failure first [] = first
first_failure first (error ∷ errors) =
    first_failure (if nt_success first then error else first) errors

first_failure-append :
    (first : NtStatus) (xs ys : List NtStatus)
    → first_failure first (xs ++ ys) ≡ first_failure (first_failure first xs) ys
first_failure-append first [] ys = refl
first_failure-append first (x ∷ xs) ys = first_failure-append _ xs ys

module _ {S : Type 0} (visit : S → WString → S × NtStatus) where
  -- A run of visits, which ends at the first that fails.
  abbrev pub run_if : (S → S × Option NtStatus) → S × NtStatus → S × Option NtStatus
  run_if rest (state, status) = if nt_success status then rest state else (state, some status)

  abbrev pub run_visits : List WString → S → S × Option NtStatus
  run_visits [] state = (state, none)
  run_visits (path ∷ paths) state = run_if (run_visits paths) (visit state path)

  abbrev pub then_run : (S → S × Option NtStatus) → S × Option NtStatus → S × Option NtStatus
  then_run rest (state, none) = rest state
  then_run rest (state, some error) = (state, some error)

  run_visits-append :
      (xs ys : List WString) (state : S)
      → run_visits (xs ++ ys) state ≡ then_run (run_visits ys) (run_visits xs state)
  run_visits-append [] ys state = refl
  run_visits-append (path ∷ xs) ys state = elim (Bool-cases (nt_success (visit state path).1)) [
    | inl good ↦ rw good (run_visits-append xs ys (visit state path).0)
    | inr bad ↦ rw bad refl
  ]

  -- What a walk gives, by what the run of its visits gives.
  abbrev Gives : NtStatus → List NtStatus → S × Option NtStatus → Walk S × NtStatus → Type 0
  Gives before errors (state, none) (walk, status) =
      (walk.state ≡ state)
      × (walk.listing_error ≡ first_failure before errors)
      × (nt_success status ≡ true)
  Gives before errors (state, some error) (walk, status) =
      (walk.state ≡ state) × (status ≡ error) × (nt_success status ≡ false)

  kept_error :
      (walk : Walk S) (error status : NtStatus)
      → nt_success status ≡ true
      → Gives walk.listing_error
          (error ∷ [])
          (walk.state, none)
          (keep_first_listing_error visit walk error, status)
  kept_error walk error status good = elim (Bool-cases (nt_success walk.listing_error)) [
    | inl first ↦ rw first (refl, refl, good)
    | inr later ↦ rw later (refl, refl, good)
  ]

  Gives-errors :
      (before before' : NtStatus) (errors errors' : List NtStatus) (run : S × Option NtStatus)
      (result : Walk S × NtStatus)
      → first_failure before errors ≡ first_failure before' errors'
      → Gives before errors run result
      → Gives before' errors' run result
  Gives-errors before before' errors errors' (state, none) (walk, status) same (a, b, c) =
      (a, b ∙ same, c)
  Gives-errors before before' errors errors' (state, some error) (walk, status) same gives = gives

  -- A walk and then the rest of the loop.
  Gives-then :
      (before : NtStatus) (errors errors' : List NtStatus) (run : S × Option NtStatus)
      (result : Walk S × NtStatus) (run' : S → S × Option NtStatus)
      (rest : Walk S → NtStatus → Walk S × NtStatus)
      → Gives before errors run result
      → ((walk : Walk S) (status : NtStatus)
          → nt_success status ≡ true
          → Gives walk.listing_error errors' (run' walk.state) (rest walk status))
      → Gives before (errors ++ errors') (then_run run' run) (continue_if visit rest result)
  Gives-then before errors errors' (state, none) (walk, status) run' rest (at, error, good) next =
      rw (good, sym at)
        (Gives-errors walk.listing_error before errors' (errors ++ errors') (run' walk.state)
          (rest walk status)
          (ap (λ e. first_failure e errors') error
            ∙ sym (first_failure-append before errors errors'))
          (next walk status good))
  Gives-then before errors errors' (state, some error) (walk, status) run' rest (at, is, bad) next =
      rw bad (at, is, bad)

  abbrev run_one : S × NtStatus → S × Option NtStatus
  run_one (state, status) = if nt_success status then (state, none) else (state, some status)

  run_if-run_one :
      (rest : S → S × Option NtStatus) (visited : S × NtStatus)
      → then_run rest (run_one visited) ≡ run_if rest visited
  run_if-run_one rest (state, status) = elim (Bool-cases (nt_success status)) [
    | inl good ↦ rw good refl
    | inr bad ↦ rw bad refl
  ]

  visited-Gives :
      (walk : Walk S) (visited : S × NtStatus)
      → Gives walk.listing_error [] (run_one visited) (record walk { state = visited.0 }, visited.1)
  visited-Gives walk (state, status) = elim (Bool-cases (nt_success status)) [
    | inl good ↦ rw good (refl, refl, good)
    | inr bad ↦ rw bad (refl, refl, bad)
  ]

  entered :
      (enters : Bool) (before : NtStatus) (errors : List NtStatus) (paths : List WString)
      (walk : Walk S) (status : NtStatus) (inner : Walk S × NtStatus)
      → nt_success status ≡ true
      → Gives walk.listing_error errors (run_visits paths walk.state) inner
      → Gives walk.listing_error
          (if enters then errors else [])
          (run_visits (if enters then paths else []) walk.state)
          (if enters then inner else (walk, status))
  entered true before errors paths walk status inner good gives = gives
  entered false before errors paths walk status inner good gives = (refl, refl, good)

  visit_listed-Gives :
      (dir_path : WString) (listing : Listing) (walk : Walk S) (status : NtStatus)
      → nt_success status ≡ true
      → Gives walk.listing_error
          (listing_errors listing)
          (run_visits (paths_below dir_path listing) walk.state)
          (visit_listed visit dir_path listing walk status)
  unfolding visit_listed paths_below listing_errors
  visit_listed-Gives dir_path (unlistable error) walk status good =
      kept_error walk error status_success refl
  visit_listed-Gives dir_path ended walk status good = (refl, refl, good)
  visit_listed-Gives dir_path (broken error) walk status good = kept_error walk error status good
  visit_listed-Gives dir_path (found name is_directory is_link below rest) walk status good =
      let child = join_dir_path dir_path name in
      let enters = is_directory && not is_link in
      let inner = if enters then paths_below child below else [] in
      let inner_errors = if enters then listing_errors below else [] in
      let others = visit_listed visit dir_path rest in
      let entry : Walk S → NtStatus → Walk S × NtStatus = λ walk status.
        if enters then visit_listed visit child below walk status_success else (walk, status) in
      subst
        (λ run. Gives walk.listing_error (inner_errors ++ listing_errors rest) run (
          continue_if visit (λ w s. continue_if visit others (entry w s))
            (visit_one visit walk child)))
        (run_if-run_one (run_visits (inner ++ paths_below dir_path rest)) (visit walk.state child))
        (Gives-then walk.listing_error [] (inner_errors ++ listing_errors rest)
          (run_one (visit walk.state child)) (visit_one visit walk child) _ _
          (visited-Gives walk (visit walk.state child))
          (λ w s fine.
            subst
              (λ run.
                Gives w.listing_error (inner_errors ++ listing_errors rest) run
                  (continue_if visit others (entry w s)))
              (sym (run_visits-append inner (paths_below dir_path rest) w.state))
              (Gives-then w.listing_error inner_errors (listing_errors rest)
                (run_visits inner w.state) (entry w s) (run_visits (paths_below dir_path rest))
                others
                (entered enters w.listing_error (listing_errors below) (paths_below child below) w s
                  (visit_listed visit child below w status_success) fine
                  (visit_listed-Gives child below w status_success refl))
                (λ w' s' fine'. visit_listed-Gives dir_path rest w' s' fine'))))

  -- The result of a walk whose visits gave a run, in a directory with some listing errors.
  abbrev pub run_result : List NtStatus → S × Option NtStatus → S × NtStatus
  run_result errors (state, none) = (state, first_failure status_success errors)
  run_result errors (state, some error) = (state, error)

  result_of_Gives :
      (errors : List NtStatus) (run : S × Option NtStatus) (result : Walk S × NtStatus)
      → Gives status_success errors run result
      → walk_result visit result ≡ run_result errors run
  result_of_Gives errors (state, none) (walk, status) (at, error, good) = rw (good, at, error) refl
  result_of_Gives errors (state, some error) (walk, status) (at, is, bad) = rw (bad, at, is) refl

  -- For any visit: the recursive walk below a directory is the visit of the paths of all entries
  -- below it that are reached without a link, each before those below it, up to the first visit
  -- that fails, whose error it gives. Where none fails it gives the first error of a listing.
  pub for_each_entry_below-run_visits :
      (dir_path : WString) (listing : Listing) (state : S)
      → for_each_entry_below visit dir_path listing state
        ≡ run_result (listing_errors listing) (run_visits (paths_below dir_path listing) state)
  unfolding for_each_entry_below visit_entries_below
  for_each_entry_below-run_visits dir_path listing state =
      let start : Walk S = record { state = state; listing_error = status_success } in
      result_of_Gives (listing_errors listing) (run_visits (paths_below dir_path listing) state)
        (visit_listed visit dir_path listing start status_success)
        (visit_listed-Gives dir_path listing start status_success refl)
