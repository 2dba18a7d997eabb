-- ===== src/Resolver/Through/Plain.antt =====
-- The components of a view path behind its links.
use layer_mount.Base.{ℕ, suc, zero, ◌≡◌, true, Option, List}
use layer_mount.Base.{Outcome, ok, failed, eq_nat, eq_list}
use layer_mount.Cache.{Cache}
use layer_mount.Layer.Disk.{Disk, WString, RelPath}
use layer_mount.Links.{splice_link_target}
use layer_mount.Links.Targets.{are_plain}
use layer_mount.Resolver.Through.{ReparseLink}
use layer_mount.Resolver.Through.{relative_symlink, status_reparse_point_not_resolved}

module _ (read_link : Option (WString × RelPath) → ReparseLink) where
  -- A chain of so many links, each with the path that its target is spliced into: the reparse read
  -- of some entry gives that target, and the next link is in the spliced path.
  abbrev pub IsChain : ℕ → List WString → Type 0
  IsChain zero components = components ≡ components
  IsChain (suc links) components =
      (entry : Option (WString × RelPath)) × (target : WString) × (walked : ℕ) × (read_link entry
        ≡ relative_symlink target)
      × IsChain links (splice_link_target components walked target)

  -- A walk that may follow fewer than so many links gives plain components, or it fails as a link
  -- that is not resolved, behind a chain of that many links.
  abbrev pub IsWalked : ℕ → List WString → Outcome (List WString) → Type 0
  IsWalked links components (ok shown) = are_plain shown ≡ true
  IsWalked links components (failed status) =
      (status ≡ status_reparse_point_not_resolved) × IsChain links components
