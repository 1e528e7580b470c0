-- ===== src/Mcp/Tools.antt =====
-- What the handlers of internal/mcp/tools.go share.
use veloria.Base.{ℕ, Bool, ◌||◌, ltb, if◌then◌else◌, Bytes, codes, bytes_eq}
use veloria.Base.Int.{ℤ, pos, negsuc}

-- `clampInt`, for bounds that are not negative
unfoldable pub clamp_int : ℤ → ℕ → ℕ → ℕ
clamp_int (negsuc n) lo hi = lo
clamp_int (pos n) lo hi = if ltb n lo then lo else if ltb hi n then hi else n

-- `isValidRepo`
unfoldable pub is_valid_repo : Bytes → Bool
is_valid_repo repo =
    bytes_eq repo (codes "plugins")
    || (bytes_eq repo (codes "themes") || bytes_eq repo (codes "cores"))
