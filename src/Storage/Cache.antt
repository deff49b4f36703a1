-- ===== src/Storage/Cache.antt =====
-- The learning cache, mobile/src/lib/learning-cache.ts: a table with the columns `cache_key`, its
-- primary key, and `payload`; the time of a row is not read. SQLite's INSERT OR REPLACE, SELECT and
-- DELETE by the key are `set`, `get` and `remove` of the interface.
use csg_learning_platform.Prelude.{ℕ, Option, none, some, ◌++◌}
use csg_learning_platform.Prelude.Text.{Text, txt, text_eq, show}
use csg_learning_platform.Json.{Json}
use csg_learning_platform.Storage.{KeyValueStore}

unfoldable pub learning_cache_key : ℕ → Text
learning_cache_key user = txt "learning-v1:user:" ++ show user

module _ {S : Type 0} ⦃d : KeyValueStore S⦄ where
  module _ (stringify : Json → Text) where
    unfoldable pub persist_client : ℕ → Json → S → S
    persist_client user client s = d.set (learning_cache_key user) (stringify client) s

  module _ (parse : Text → Option Json) where
    -- What the call gives, `none` for `undefined`, and the table behind it.
    abbrev pub restored : Text → Option Json → S → Option Json × S
    restored key none s = (none, d.remove key s)
    restored key (some client) s = (some client, s)

    abbrev pub restore_row : Text → Option Text → S → Option Json × S
    restore_row key none s = (none, s)
    restore_row key (some payload) s = restored key (parse payload) s

    unfoldable pub restore_client : ℕ → S → Option Json × S
    restore_client user s = let key = learning_cache_key user in restore_row key (d.get key s) s

  unfoldable pub remove_client : ℕ → S → S
  remove_client user s = d.remove (learning_cache_key user) s

  unfoldable pub clear_learning_cache : ℕ → S → S
  clear_learning_cache user s = d.remove (learning_cache_key user) s

-- createRetryableInitializer: the promise that its calls share, and how often it was begun.
pub data Initializer {ℓ} (T : Type ℓ) : Type ℓ where
  idle pending : Initializer T
  ready : T → Initializer T

-- A call, or what the pending promise settles to.
pub data InitializerEvent {ℓ} (T : Type ℓ) : Type ℓ where
  call rejection : InitializerEvent T
  resolution : T → InitializerEvent T

module _ {ℓ} {T : Type ℓ} where
  -- The state, and 1 if the event begins an initialization.
  unfoldable pub initializer_step : InitializerEvent T → Initializer T → Initializer T × ℕ
  initializer_step call idle = (pending, 1)
  initializer_step rejection pending = (idle, 0)
  initializer_step (resolution v) pending = (ready v, 0)
  initializer_step _ state = (state, 0)
