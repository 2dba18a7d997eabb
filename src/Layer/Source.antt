-- ===== src/Layer/Source.antt =====
-- The layer that a resolved path comes from, and what hides the lowers (LayerMount.h,
-- PathResolver.h).
pub data LayerSource : Type 0 where
  none upper lower : LayerSource

pub data UpperHiding : Type 0 where
  none whiteout opaque_marker non_directory_or_link : UpperHiding
