-- ===== src/Cache/GrantIndex.antt =====
-- internal/pkg/cache.go: the index follows the cached reference grants, through every update of the
-- store.
pub mod Totals
pub mod Reach
pub mod Exists
