-- ===== src/Resolver/Caching.antt =====
-- The path resolver against a resolution without a cache.
use layer_mount.Base.{ℕ, suc, zero, Bool, true, false, Option, none, some, List, [], ◌∷◌}
use layer_mount.Base.{ok, failed, Outcome, if◌then◌else◌, ◌≡◌, refl, sym, ◌∙◌, arith}
use layer_mount.Cache.{Cache, put, is_root}
use layer_mount.Cache.Contents.{Holds, Holds-put}
use layer_mount.Layer.Source.{UpperHiding}
use layer_mount.Layer.Disk.{Disk, LayerConfig, Attributes, WString, RelPath}
use layer_mount.Layer.Names.{TextService}
use layer_mount.Layer.Lookup.{ResolvedPath, nothing, found, upper_hit, whiteout_hit, look_up}
use layer_mount.Layer.Lookup.{
  find_in_lowers, find_from, below_upper, hiding_in_upper, upper_ancestor_hiding,
}
use layer_mount.Resolver.{Resolution, is_resolvable_path, resolve_lower_path, resolve_root, is_none}
use layer_mount.Resolver.{resolve_in_lowers, resolve_below_upper, resolve_upper_entry}

module _ (text : TextService) (disk : Disk) (config : LayerConfig)
    (redirect : RelPath → Option RelPath) where
  -- What `follow` gives for the target of the redirect of an upper entry, and the lookup of the
  -- path where there is none.
  unfoldable pub redirected : (RelPath → ResolvedPath) → RelPath → Option RelPath → ResolvedPath
  redirected follow path none = look_up disk config path
  redirected follow path (some target) = follow target

  -- The redirect of the upper's entry at the path.
  unfoldable pub redirect_in_upper : RelPath → Outcome Attributes → Option RelPath
  redirect_in_upper path (ok attrs) = redirect path
  redirect_in_upper path (failed error) = none

  -- The resolution that reads no cache.
  unfoldable pub resolve_uncached : ℕ → RelPath → ResolvedPath
  unfolding redirected redirect_in_upper
  resolve_uncached zero path = nothing
  resolve_uncached (suc depth_left) [] = resolve_root text disk config
  resolve_uncached (suc depth_left) (name ∷ rest) =
      let path = name ∷ rest in
      let shown =
        redirected (resolve_uncached depth_left) path
          (redirect_in_upper path (disk.attributes config.upper_path path)) in
      if is_resolvable_path text disk config path then shown else nothing

  -- A cached result: it is what the path shows, and its path may be resolved and has no redirect.
  abbrev pub IsCurrent : RelPath → ResolvedPath → Type 0
  IsCurrent path resolved =
      (is_root path ≡ false)
      × (is_resolvable_path text disk config path ≡ true)
      × (redirect_in_upper path (disk.attributes config.upper_path path) ≡ none)
      × (resolved ≡ look_up disk config path)

  abbrev pub IsCoherent : Cache ResolvedPath → Type 0
  IsCoherent cache = Holds IsCurrent cache.entries

  pub IsCurrent-resolve_uncached :
      (path : RelPath) (resolved : ResolvedPath) (depth_left : ℕ)
      → IsCurrent path resolved
      → resolved ≡ resolve_uncached (suc depth_left) path
  unfolding resolve_uncached redirected
  IsCurrent-resolve_uncached [] resolved depth_left (not_root, safe, plain, shown) =
      absurd (ground arith)
  IsCurrent-resolve_uncached (name ∷ rest) resolved depth_left (not_root, safe, plain, shown) =
      rw (safe, plain, shown) refl

  -- The walk of the lowers finds an entry, or its result is the empty one.
  find_from-found :
      (path : RelPath) (i : ℕ) (layers : List WString)
      → (if found (find_from disk config path i layers)
          then find_from disk config path i layers
          else nothing)
        ≡ find_from disk config path i layers
  unfolding find_from found
  find_from-found path i [] = refl
  find_from-found path i (layer ∷ layers) = ground (arith, find_from-found path (suc i) layers)

  find_in_lowers-found :
      (path : RelPath)
      → (if found (find_in_lowers disk config path 0)
          then find_in_lowers disk config path 0
          else nothing)
        ≡ find_in_lowers disk config path 0
  unfolding find_in_lowers
  find_in_lowers-found path = find_from-found path 0 config.lower_paths

  abbrev is_whiteout : UpperHiding → Bool
  is_whiteout UpperHiding.whiteout = true
  is_whiteout UpperHiding.opaque_marker = false
  is_whiteout UpperHiding.non_directory_or_link = false
  is_whiteout UpperHiding.none = false

  -- What a resolution of the path must be, where a lookup that reads no cache gives `expected`.
  abbrev pub IsResolution : RelPath → ResolvedPath → Resolution → Type 0
  IsResolution path expected r =
      (r.result ≡ expected)
      × IsCoherent r.cache
      × ((walked : ResolvedPath)
          → r.lower_walk ≡ some walked
          → walked ≡ resolve_lower_path text disk config path)

  module _ (now : ℕ) where
    -- What follows from a result that is put into the cache.
    put-IsResolution :
        (name : WString) (rest : RelPath) (cache : Cache ResolvedPath) (shown : ResolvedPath)
        (lower_walk : Option ResolvedPath)
        → IsCurrent (name ∷ rest) shown
        → IsCoherent cache
        → ((walked : ResolvedPath)
            → lower_walk ≡ some walked
            → walked ≡ resolve_lower_path text disk config (name ∷ rest))
        → IsResolution (name ∷ rest) (look_up disk config (name ∷ rest)) (record {
          result = shown;
          cache = put now (name ∷ rest) shown cache;
          lower_walk = lower_walk;
        })
    put-IsResolution name rest cache shown lower_walk current coherent walk =
        (current.3, Holds-put IsCurrent now (name ∷ rest) shown cache current coherent, walk)

    -- The lowers are not walked for a path that an ancestor in the upper hides.
    resolve_lower_path-hidden :
        (name : WString) (rest : RelPath) (hiding : UpperHiding)
        → upper_ancestor_hiding disk config (name ∷ rest) ≡ hiding
        → is_none hiding ≡ false
        → resolve_lower_path text disk config (name ∷ rest) ≡ nothing
    unfolding resolve_lower_path
    resolve_lower_path-hidden name rest hiding at hidden = ground arith

    resolve_lower_path-visible :
        (name : WString) (rest : RelPath)
        → is_resolvable_path text disk config (name ∷ rest) ≡ true
        → upper_ancestor_hiding disk config (name ∷ rest) ≡ UpperHiding.none
        → resolve_lower_path text disk config (name ∷ rest)
          ≡ find_in_lowers disk config (name ∷ rest) 0
    unfolding resolve_lower_path
    resolve_lower_path-visible name rest safe at = rw (safe, at) refl

    not_a_whiteout :
        (path : RelPath) (hiding : UpperHiding)
        → hiding_in_upper disk config path ≡ hiding
        → is_whiteout hiding ≡ false
        → upper_ancestor_hiding disk config path ≡ hiding
    unfolding hiding_in_upper
    not_a_whiteout path hiding at other = ground arith

    Holds-if :
        (hit : Bool) (path : RelPath) (shown : ResolvedPath) (cache : Cache ResolvedPath)
        → IsCurrent path shown
        → IsCoherent cache
        → IsCoherent (if hit then put now path shown cache else cache)
    Holds-if true path shown cache current coherent =
        Holds-put IsCurrent now path shown cache current coherent
    Holds-if false path shown cache current coherent = coherent

    pub resolve_below_upper-IsResolution :
        (name : WString) (rest : RelPath) (cache : Cache ResolvedPath) (hiding : UpperHiding)
        → is_resolvable_path text disk config (name ∷ rest) ≡ true
        → redirect_in_upper (name ∷ rest) (disk.attributes config.upper_path (name ∷ rest)) ≡ none
        → hiding_in_upper disk config (name ∷ rest) ≡ hiding
        → look_up disk config (name ∷ rest) ≡ below_upper disk config (name ∷ rest) hiding
        → IsCoherent cache
        → IsResolution
            (name ∷ rest)
            (look_up disk config (name ∷ rest))
            (resolve_below_upper text disk config redirect now (name ∷ rest) cache hiding)
    unfolding resolve_below_upper resolve_in_lowers below_upper
    resolve_below_upper-IsResolution name rest cache UpperHiding.whiteout safe plain at shown
          coherent =
        put-IsResolution name rest cache (whiteout_hit disk config) none
          (refl, safe, plain, sym shown) coherent (λ walked no. absurd (ground arith))
    resolve_below_upper-IsResolution name rest cache UpperHiding.opaque_marker safe plain at shown
          coherent =
        put-IsResolution name rest cache nothing (some nothing) (refl, safe, plain, sym shown)
          coherent
          (λ walked this. ground (
            arith,
            this,
            resolve_lower_path-hidden name rest UpperHiding.opaque_marker
                (not_a_whiteout (name ∷ rest) UpperHiding.opaque_marker at refl) refl,
          ))
    resolve_below_upper-IsResolution name rest cache UpperHiding.non_directory_or_link safe plain at
          shown coherent =
        put-IsResolution name rest cache nothing (some nothing) (refl, safe, plain, sym shown)
          coherent
          (λ walked this. ground (
            arith,
            this,
            resolve_lower_path-hidden name rest UpperHiding.non_directory_or_link
                (not_a_whiteout (name ∷ rest) UpperHiding.non_directory_or_link at refl) refl,
          ))
    resolve_below_upper-IsResolution name rest cache UpperHiding.none safe plain at shown coherent =
        let lower = find_in_lowers disk config (name ∷ rest) 0 in
        let whole = find_in_lowers-found (name ∷ rest) in
        let visible =
          resolve_lower_path-visible name rest safe
            (not_a_whiteout (name ∷ rest) UpperHiding.none at refl) in
        (
          whole ∙ sym shown,
          Holds-if (found lower) (name ∷ rest) lower cache (refl, safe, plain, sym shown) coherent,
          λ walked this. ground (arith, this, visible),
        )

    look_up-upper :
        (path : RelPath) (attrs : Attributes)
        → disk.attributes config.upper_path path ≡ ok attrs
        → look_up disk config path ≡ upper_hit disk config path attrs
    unfolding look_up
    look_up-upper path attrs at = ground (arith, at)

    pub resolve_upper_entry-IsResolution :
        (name : WString) (rest : RelPath) (cache : Cache ResolvedPath) (attrs : Attributes)
        (target : Option RelPath) (follow : RelPath → Cache ResolvedPath → Resolution)
        (spec : RelPath → ResolvedPath)
        → is_resolvable_path text disk config (name ∷ rest) ≡ true
        → redirect_in_upper (name ∷ rest) (disk.attributes config.upper_path (name ∷ rest)) ≡ target
        → disk.attributes config.upper_path (name ∷ rest) ≡ ok attrs
        → ((path : RelPath) (c : Cache ResolvedPath)
            → IsCoherent c
            → IsResolution path (spec path) (follow path c))
        → IsCoherent cache
        → IsResolution (name ∷ rest) (redirected spec (name ∷ rest) target) (
            resolve_upper_entry text disk config redirect now follow
              (name ∷ rest)
              cache
              attrs
              target)
    unfolding resolve_upper_entry redirected look_up
    resolve_upper_entry-IsResolution name rest cache attrs none follow spec safe plain at good
          coherent =
        put-IsResolution name rest cache (upper_hit disk config (name ∷ rest) attrs) none
          (refl, safe, plain, sym (look_up-upper (name ∷ rest) attrs at)) coherent
          (λ walked no. absurd (ground arith))
    resolve_upper_entry-IsResolution name rest cache attrs (some target) follow spec safe plain at
          good coherent =
        let (result, after, walk) = good target cache coherent in
        (result, after, λ walked no. absurd (ground arith))
