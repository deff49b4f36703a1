-- ===== src/WebApi/Fallback.antt =====
-- When `fetchApi` of web/src/lib/api.ts answers from the cache.
use csg_learning_platform.Prelude.{true, some, ◌≡◌, is_some}
use csg_learning_platform.WebApi.{Platform, ApiResponse}
use csg_learning_platform.WebApi.Cache.{Store}
use csg_learning_platform.WebApi.Fetch.{Request, can_use_cache, cached}

module _ (p : Platform) (req : Request) where
  -- The response carries what the cache held, and says what went wrong.
  abbrev IsFallback : Store → ApiResponse → Type 0
  IsFallback store r =
      (can_use_cache p req ≡ true)
      × (c : ApiResponse) × (cached p req store ≡ some c)
      × (r.content ≡ c.content)
      × (is_some r.error ≡ true)
