-- ===== src/Boundary/Crossing.antt =====
-- What a rename that passes the check is (src/LayerMount.dll/impl/RenameLinkBoundary.cpp:
-- CheckRenameLinkBoundary).
use layer_mount.Base.{
  ◌≡◌, ◌≢◌, refl, ap, ◌∙◌, eq_nat, eq_list, ==_eq, Bool, true, false, not, ◌&&◌, ◌||◌, none, some,
  if◌then◌else◌, inl, inr, Bool-cases, arith,
}
use layer_mount.Layer.Disk.{Disk, LayerConfig, RelPath}
use layer_mount.Layer.View.{LinkInView, find_link_above}
use layer_mount.Layer.Source.{LayerSource}
use layer_mount.Layer.Walk.{LinkStop, is_link_stop}
use layer_mount.Status.{NtStatus}
use layer_mount.Status.Mapping.{nt_success}
use layer_mount.Boundary.{
  RenameLinks, LinkTarget, no_directory, is_directory, unknown, is_unreadable, is_same_link,
  is_lower, same_stop, is_within_lower_link, shown_parent_target, by_parent, check_links,
  check_rename_link_boundary,
}

abbrev pub shows_directory : LinkTarget → Bool
shows_directory is_directory = true
shows_directory no_directory = false
shows_directory (unknown failure) = false

abbrev pub is_lower_link : LinkStop → LayerSource → Bool
is_lower_link LinkStop.link LayerSource.lower = true
is_lower_link _ _ = false

-- What holds of a check that succeeds: both lookups could be read; where the parent of the new path is
-- a directory, both stop at a link or neither does, and at the same path; and the path of the source's
-- link is to be copied up exactly where that link is one in a lower and the parent is a directory.
abbrev pub IsWithin : LinkInView → LinkInView → LinkTarget → RenameLinks × NtStatus → Type 0
IsWithin source destination parent (links, status) =
    ((source.stop ≢ LinkStop.unreadable) × (destination.stop ≢ LinkStop.unreadable))
    × (shows_directory parent ≡ true
        → (source.stop ≡ destination.stop) × (source.path ≡ destination.path))
    × (links.lower_link_to_copy_up ≡ (
        if shows_directory parent && is_lower_link source.stop source.source
        then some source.path
        else none))
    × (links.source_in_link_target ≡ is_link_stop source.stop)
    × (links.destination_in_link_target ≡ is_link_stop destination.stop)

-- The same by the tests of the code.
abbrev IsPassed : LinkInView → LinkInView → LinkTarget → RenameLinks × NtStatus → Type 0
IsPassed source destination parent (links, status) =
    ((is_unreadable source.stop || is_unreadable destination.stop) ≡ false)
    × (shows_directory parent ≡ true → is_same_link source destination ≡ true)
    × (links.lower_link_to_copy_up ≡ (
        if is_within_lower_link source destination && shows_directory parent
        then some source.path
        else none))
    × (links.source_in_link_target ≡ is_link_stop source.stop)
    × (links.destination_in_link_target ≡ is_link_stop destination.stop)

same_stop-eq : (a b : LinkStop) → same_stop a b ≡ true → a ≡ b
same_stop-eq LinkStop.none LinkStop.none h = refl
same_stop-eq LinkStop.link LinkStop.link h = refl
same_stop-eq LinkStop.unreadable LinkStop.unreadable h = refl
same_stop-eq LinkStop.none LinkStop.link h = ground (arith, h)
same_stop-eq LinkStop.none LinkStop.unreadable h = ground (arith, h)
same_stop-eq LinkStop.link LinkStop.none h = ground (arith, h)
same_stop-eq LinkStop.link LinkStop.unreadable h = ground (arith, h)
same_stop-eq LinkStop.unreadable LinkStop.none h = ground (arith, h)
same_stop-eq LinkStop.unreadable LinkStop.link h = ground (arith, h)

lower_link_lem :
    (stop : LinkStop) (at : LayerSource)
    → is_unreadable stop ≡ false
    → (is_link_stop stop && is_lower at) ≡ is_lower_link stop at
lower_link_lem LinkStop.link LayerSource.lower readable = refl
lower_link_lem LinkStop.link _ readable = refl
lower_link_lem LinkStop.none at readable = refl
lower_link_lem LinkStop.unreadable at readable = ground (arith, readable)

readable_stop : (stop : LinkStop) → is_unreadable stop ≡ false → stop ≢ LinkStop.unreadable
readable_stop stop readable same =
    let clash : true ≡ false = rw same at readable in ground (arith, clash)

left_of : (a b : Bool) → (a || b) ≡ false → a ≡ false
left_of a b h = ground arith

right_of : (a b : Bool) → (a || b) ≡ false → b ≡ false
right_of a b h = ground arith

and_left : (a b : Bool) → (a && b) ≡ true → a ≡ true
and_left a b h = ground arith

and_right : (a b : Bool) → (a && b) ≡ true → b ≡ true
and_right a b h = ground arith

is_same_link-eq :
    (source destination : LinkInView)
    → is_same_link source destination ≡ true
    → (source.stop ≡ destination.stop) × (source.path ≡ destination.path)
unfolding is_same_link
is_same_link-eq source destination same = (
  same_stop-eq source.stop destination.stop (and_left _ _ same),
  ==_eq source.path destination.path (and_right _ _ same),
)

and_true : (b : Bool) → (b && true) ≡ b
and_true true = refl
and_true false = refl

and_false : (b : Bool) → (b && false) ≡ false
and_false true = refl
and_false false = refl

lower_link_copied :
    (source destination : LinkInView) (shows : Bool)
    → is_unreadable source.stop ≡ false
    → (shows ≡ true → is_same_link source destination ≡ true)
    → (is_within_lower_link source destination && shows)
      ≡ (shows && is_lower_link source.stop source.source)
unfolding is_within_lower_link
lower_link_copied source destination true readable same =
    rw (same refl, lower_link_lem source.stop source.source readable) (and_true _)
lower_link_copied source destination false readable same = and_false _

IsPassed-IsWithin :
    (source destination : LinkInView) (parent : LinkTarget) (result : RenameLinks × NtStatus)
    → IsPassed source destination parent result
    → IsWithin source destination parent result
IsPassed-IsWithin source destination parent (links, status)
      (readable, same, copied, source_flag, destination_flag) =
    (
      (
        readable_stop source.stop (left_of _ _ readable),
        readable_stop destination.stop (right_of _ _ readable),
      ),
      (λ shows. is_same_link-eq source destination (same shows)),
      copied
          ∙ ap (λ b. if b then some source.path else none)
              (lower_link_copied source destination (shows_directory parent) (left_of _ _ readable)
                same),
      source_flag,
      destination_flag,
    )

within_same : (a b : Bool) → (a && not b) ≡ false → a ≡ true → b ≡ true
within_same a b no_other same = ground arith

abbrev found : LinkInView → LinkInView → RenameLinks
found source destination = record {
  source_in_link_target = is_link_stop source.stop;
  destination_in_link_target = is_link_stop destination.stop;
  lower_link_to_copy_up = none;
}

never : (b : Bool) (path : RelPath) → none ≡ (if b && false then some path else none)
never true path = refl
never false path = refl

first_of : (a b : Bool) → (a && not b) ≡ true → a ≡ true
first_of a b both = ground arith

second_of : (a b : Bool) → (a && not b) ≡ true → b ≡ false
second_of a b both = ground arith

by_parent-IsPassed :
    (source destination : LinkInView) (parent : LinkTarget)
    → (is_unreadable source.stop || is_unreadable destination.stop) ≡ false
    → (is_same_link source destination && not (is_within_lower_link source destination)) ≡ false
    → let result =
        by_parent (found source destination) source (is_same_link source destination) parent in
      nt_success result.1 ≡ true → IsPassed source destination parent result
by_parent-IsPassed source destination no_directory readable within good = (
  readable,
  (λ shows. ground (arith, shows)),
  never (is_within_lower_link source destination) source.path,
  refl,
  refl,
)
by_parent-IsPassed source destination (unknown failure) readable within good = (
  readable,
  (λ shows. ground (arith, shows)),
  never (is_within_lower_link source destination) source.path,
  refl,
  refl,
)
by_parent-IsPassed source destination is_directory readable within good =
    elim (Bool-cases (is_same_link source destination)) [
      | inl same ↦
          rw (same, within_same _ _ within same) (readable, (λ shows. refl), refl, refl, refl)
      | inr other ↦ let clash : false ≡ true = rw other at good in ground (arith, clash)
    ]

check_links-IsPassed :
    (links : RenameLinks) (source destination : LinkInView) (parent : LinkTarget)
    → nt_success (check_links links source destination parent).1 ≡ true
    → IsPassed source destination parent (check_links links source destination parent)
check_links-IsPassed links source destination parent good =
    elim (Bool-cases (is_unreadable source.stop || is_unreadable destination.stop)) [
      | inl unread ↦ let clash : false ≡ true = rw unread at good in ground (arith, clash)
      | inr readable ↦
          elim (Bool-cases
            (is_same_link source destination && not (is_within_lower_link source destination))) [
              | inl same ↦
                  rw (readable, same)
                    (
                      refl,
                      (λ shows. first_of _ _ same),
                      rw (second_of (is_same_link source destination) _ same) refl,
                      refl,
                      refl,
                    )
              | inr within ↦
                  let passed : nt_success
                        (by_parent (found source destination) source
                          (is_same_link source destination) parent).1
                      ≡ true =
                    rw (readable, within) at good in
                  let told = by_parent-IsPassed source destination parent readable within passed in
                  rw (readable, within) (refl, told.1, told.2, told.3, told.4)
            ]
    ]

module _ (disk : Disk) (config : LayerConfig) (shown_link_target : RelPath → LinkTarget) where
  -- For any two paths: a rename that passes the check has two paths that could be looked up and, where
  -- the view shows the parent of the new path as a directory, are below the link at the same path or
  -- both below none. Where that link is one in a lower, and the parent is a directory, it is to be
  -- copied up, and nothing else is; the flags say which path is below a link.
  pub check_rename_link_boundary-IsWithin :
      (links : RenameLinks) (old_norm new_norm : RelPath)
      → let result =
          check_rename_link_boundary disk config shown_link_target links old_norm new_norm in
        nt_success result.1 ≡ true
        → IsWithin
            (find_link_above disk config old_norm)
            (find_link_above disk config new_norm)
            (shown_parent_target shown_link_target new_norm)
            result
  unfolding check_rename_link_boundary
  check_rename_link_boundary-IsWithin links old_norm new_norm good =
      IsPassed-IsWithin (find_link_above disk config old_norm)
        (find_link_above disk config new_norm) (shown_parent_target shown_link_target new_norm)
        (check_links links (find_link_above disk config old_norm)
          (find_link_above disk config new_norm) (shown_parent_target shown_link_target new_norm))
        (check_links-IsPassed links (find_link_above disk config old_norm)
          (find_link_above disk config new_norm) (shown_parent_target shown_link_target new_norm)
          good)
