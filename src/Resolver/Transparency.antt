-- ===== src/Resolver/Transparency.antt =====
-- The resolver's answers do not depend on what its cache holds.
use layer_mount.Base.{ℕ, suc, zero, true, Option, none, some, [], ◌∷◌}
use layer_mount.Base.{ok, failed, Outcome, ◌≡◌, refl, ap, arith, inl, inr}
use layer_mount.Base.{Bool-cases}
use layer_mount.Cache.{Cache, get, find, read, CacheEntry}
use layer_mount.Cache.Contents.{Holds-get}
use layer_mount.Layer.Disk.{Disk, LayerConfig, Attributes, WString, RelPath}
use layer_mount.Layer.Markers.{has_whiteout}
use layer_mount.Layer.Names.{TextService}
use layer_mount.Layer.Lookup.{ResolvedPath, look_up, hiding_in_upper, below_upper}
use layer_mount.Resolver.{Resolution, is_resolvable_path, resolve_lower_path, resolve_probed}
use layer_mount.Resolver.{
  resolve_read, resolve_path_internal, resolve_for_create, resolve_path, lower_of,
}
use layer_mount.Resolver.Caching.{redirected, redirect_in_upper, resolve_uncached, IsCurrent}
use layer_mount.Resolver.Caching.{IsCoherent, IsCurrent-resolve_uncached, IsResolution}
use layer_mount.Resolver.Caching.{
  resolve_below_upper-IsResolution, resolve_upper_entry-IsResolution,
}
use layer_mount.Base.{◌+◌}

module _ (text : TextService) (disk : Disk) (config : LayerConfig)
    (redirect : RelPath → Option RelPath) (now : ℕ) where
  look_up-below_upper :
      (path : RelPath) (error : ℕ)
      → disk.attributes config.upper_path path ≡ failed error
      → look_up disk config path ≡ below_upper disk config path (hiding_in_upper disk config path)
  unfolding look_up
  look_up-below_upper path error at = ground (arith, at)

  resolve_probed-IsResolution :
      (name : WString) (rest : RelPath) (cache : Cache ResolvedPath) (probe : Outcome Attributes)
      (follow : RelPath → Cache ResolvedPath → Resolution) (spec : RelPath → ResolvedPath)
      → is_resolvable_path text disk config (name ∷ rest) ≡ true
      → disk.attributes config.upper_path (name ∷ rest) ≡ probe
      → ((path : RelPath) (c : Cache ResolvedPath)
          → IsCoherent text disk config redirect c
          → IsResolution text disk config redirect path (spec path) (follow path c))
      → IsCoherent text disk config redirect cache
      → IsResolution text disk config redirect
          (name ∷ rest)
          (redirected text disk config redirect spec
            (name ∷ rest)
            (redirect_in_upper text disk config redirect (name ∷ rest) probe))
          (resolve_probed text disk config redirect now follow (name ∷ rest) cache probe)
  unfolding resolve_probed redirect_in_upper redirected
  resolve_probed-IsResolution name rest cache (ok attrs) follow spec safe at good coherent =
      resolve_upper_entry-IsResolution text disk config redirect now name rest cache attrs
        (redirect (name ∷ rest)) follow spec safe
        (ap (redirect_in_upper text disk config redirect (name ∷ rest)) at) at good coherent
  resolve_probed-IsResolution name rest cache (failed error) follow spec safe at good coherent =
      resolve_below_upper-IsResolution text disk config redirect now name rest cache
        (hiding_in_upper disk config (name ∷ rest)) safe
        (ap (redirect_in_upper text disk config redirect (name ∷ rest)) at) refl
        (look_up-below_upper (name ∷ rest) error at) coherent

  resolve_read-IsResolution :
      (name : WString) (rest : RelPath) (cache : Cache ResolvedPath) (depth_left : ℕ)
      (hit : Option (CacheEntry ResolvedPath))
      → is_resolvable_path text disk config (name ∷ rest) ≡ true
      → find (name ∷ rest) cache.entries ≡ hit
      → ((path : RelPath) (c : Cache ResolvedPath)
          → IsCoherent text disk config redirect c
          → IsResolution text disk config redirect path
              (resolve_uncached text disk config redirect depth_left path)
              (resolve_path_internal text disk config redirect now depth_left path c))
      → IsCoherent text disk config redirect cache
      → IsCoherent text disk config redirect (read now (name ∷ rest) cache hit).1
      → IsResolution text disk config redirect
          (name ∷ rest)
          (resolve_uncached text disk config redirect (suc depth_left) (name ∷ rest))
          (resolve_read text disk config redirect now
            (resolve_path_internal text disk config redirect now depth_left)
            (name ∷ rest)
            (read now (name ∷ rest) cache hit))
  unfolding resolve_read read resolve_uncached
  resolve_read-IsResolution name rest cache depth_left none safe at good coherent after = rw safe (
      resolve_probed-IsResolution name rest (record cache { misses = cache.misses + 1 })
        (disk.attributes config.upper_path (name ∷ rest))
        (resolve_path_internal text disk config redirect now depth_left)
        (resolve_uncached text disk config redirect depth_left) safe refl good after)
  resolve_read-IsResolution name rest cache depth_left (some e) safe at good coherent after = (
    IsCurrent-resolve_uncached text disk config redirect (name ∷ rest) e.resolved depth_left
        (coherent (name ∷ rest) e at),
    after,
    λ walked no. absurd (ground arith),
  )

  resolve_path_internal-IsResolution :
      (depth_left : ℕ) (path : RelPath) (cache : Cache ResolvedPath)
      → IsCoherent text disk config redirect cache
      → IsResolution text disk config redirect path
          (resolve_uncached text disk config redirect depth_left path)
          (resolve_path_internal text disk config redirect now depth_left path cache)
  unfolding resolve_path_internal resolve_uncached get
  resolve_path_internal-IsResolution zero path cache coherent =
      (refl, coherent, λ walked no. absurd (ground arith))
  resolve_path_internal-IsResolution (suc depth_left) [] cache coherent =
      (refl, coherent, λ walked no. absurd (ground arith))
  resolve_path_internal-IsResolution (suc depth_left) (name ∷ rest) cache coherent =
      elim (Bool-cases (is_resolvable_path text disk config (name ∷ rest))) [
        | inl safe ↦ rw safe (
            rw safe at (
              resolve_read-IsResolution name rest cache depth_left
                (find (name ∷ rest) cache.entries) safe refl
                (resolve_path_internal-IsResolution depth_left) coherent
                (Holds-get (IsCurrent text disk config redirect) now (name ∷ rest) cache coherent)))
        | inr unsafe ↦ rw unsafe (refl, coherent, λ walked no. absurd (ground arith))
      ]

  -- With a cache whose results are all current, a lookup gives what a lookup without a cache
  -- gives, whatever the cache holds, and leaves a cache whose results are all current. That holds
  -- also where redirects lead to other paths and where they go on past the limit.
  pub resolve_path-resolve_uncached :
      (path : RelPath) (cache : Cache ResolvedPath)
      → IsCoherent text disk config redirect cache
      → ((resolve_path text disk config redirect now path cache).result
          ≡ resolve_uncached text disk config redirect 41 path)
        × IsCoherent text disk config redirect
            (resolve_path text disk config redirect now path cache).cache
  unfolding resolve_path
  resolve_path-resolve_uncached path cache coherent =
      let (result, after, walk) = resolve_path_internal-IsResolution 41 path cache coherent in
      (result, after)

  lower_of-walk :
      (path : RelPath) (walk : Option ResolvedPath)
      → ((walked : ResolvedPath)
          → walk ≡ some walked
          → walked ≡ resolve_lower_path text disk config path)
      → lower_of text disk config redirect now path walk ≡ resolve_lower_path text disk config path
  unfolding lower_of
  lower_of-walk path none good = refl
  lower_of-walk path (some walked) good = good walked refl

  -- With a cache whose results are all current, the resolution for a create reports the overlay's
  -- entry as a lookup without a cache finds it, whether the upper has a whiteout for the path, and
  -- the lower entry as the separate walk of the lowers gives it, also where it takes that entry
  -- from the lookup instead of a walk of its own. The cache's results stay current.
  pub resolve_for_create_lem :
      (path : RelPath) (cache : Cache ResolvedPath)
      → IsCoherent text disk config redirect cache
      → ((resolve_for_create text disk config redirect now path cache).0.overlay_hit
          ≡ resolve_uncached text disk config redirect 41 path)
        × ((resolve_for_create text disk config redirect now path cache).0.whiteout_at_path
            ≡ has_whiteout disk config.upper_path path)
        × ((resolve_for_create text disk config redirect now path cache).0.lower
            ≡ resolve_lower_path text disk config path)
        × IsCoherent text disk config redirect
            (resolve_for_create text disk config redirect now path cache).1
  unfolding resolve_for_create
  resolve_for_create_lem path cache coherent =
      let (result, after, walk) = resolve_path_internal-IsResolution 41 path cache coherent in
      (
        result,
        refl,
        lower_of-walk path
            (resolve_path_internal text disk config redirect now 41 path cache).lower_walk walk,
        after,
      )
