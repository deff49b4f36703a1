-- ===== src/WebApi/CacheLaws.antt =====
-- What the response cache of web/src/lib/api.ts gives back.
use csg_learning_platform.Prelude.{
  ℕ, ◌+◌, refl, ◌<◌, Bool, true, false, ◌||◌, Option, none, some, ◌≡◌, ◌≢◌, arith, if◌then◌else◌,
  ltb, beq_refl, Bool-cases, Option-cases, inl, inr,
}
use csg_learning_platform.Prelude.Int.{pos, pos_part, neg_part, ◌-ℤ◌}
use csg_learning_platform.Prelude.Text.{
  Text, txt, starts_with, text_eq, is_empty, starts_with_append, text_beq_iff,
}
use csg_learning_platform.Prelude.Assoc.{get_item, get_item-set_item, get_item-remove_if}
use csg_learning_platform.Json.{Json, num, property}
use csg_learning_platform.WebApi.{ApiResponse, Platform, ms}
use csg_learning_platform.WebApi.Cache.{
  Store, cache_max_age_ms, age_at, is_too_old, scope_prefix, cache_key, has_scope,
  should_cache_response, entry, fresh_response, write_cached_response, use_entry, read_entry,
  read_raw, read_cached_response, clear_api_cache,
}

-- What a response that was written at `saved_at` reads as at `now`.
abbrev pub read_at : Json → (saved_at now : ℕ) → Option ApiResponse
read_at value saved_at now =
    if ltb (saved_at + cache_max_age_ms) now
    then none
    else some (fresh_response (some value) (ms (pos now -ℤ pos saved_at)))

-- The platform at a later time.
abbrev pub at_time : Platform → ℕ → Platform
at_time p now = record p { now = now }

-- A response of a kind that is cached reads back as it was written, from the cache and with its
-- age, until seven days have passed, and not at all after that. Storage works, and JSON reads back the
-- entry that it wrote, which is not the empty text. The clock may have been set back: the age is then
-- negative.
pub read-write :
    (p : Platform) (scope : Option Text) (endpoint : Text) (value : Json) (store : Store) (now : ℕ)
    → has_scope scope ≡ true
    → p.local_storage ≡ true
    → should_cache_response endpoint value ≡ true
    → 0 < p.now
    → p.parse (p.stringify (entry value p.now)) ≡ some (entry value p.now)
    → is_empty (p.stringify (entry value p.now)) ≡ false
    → p.to_number (num p.now) ≡ ms (pos p.now)
    → read_cached_response
        (at_time p now)
        scope
        endpoint
        (write_cached_response p scope endpoint value store)
      ≡ read_at value p.now now
unfolding read_cached_response write_cached_response ◌-ℤ◌ pos_part neg_part
read-write p scope endpoint value store now scoped works cacheable positive back full number =
    rw (scoped, works)
      (rw
        (get_item-set_item (cache_key scope endpoint) (cache_key scope endpoint)
          (p.stringify (entry value p.now)) store)
        (rw (beq_refl (cache_key scope endpoint)) (rw full (rw back (rw number (ground arith))))))

-- Writing one entry leaves what is read under every other key as it was.
read-write_other :
    (p : Platform) (scope scope' : Option Text) (endpoint endpoint' : Text) (value : Json)
    (store : Store)
    → cache_key scope endpoint ≢ cache_key scope' endpoint'
    → read_cached_response p scope' endpoint' (write_cached_response p scope endpoint value store)
      ≡ read_cached_response p scope' endpoint' store
unfolding read_cached_response write_cached_response
read-write_other p scope scope' endpoint endpoint' value store differ = ground (
  arith,
  get_item-set_item (cache_key scope endpoint) (cache_key scope' endpoint')
      (p.stringify (entry value p.now)) store,
  text_beq_iff (cache_key scope endpoint) (cache_key scope' endpoint'),
)

-- After the cache of a scope is cleared nothing is read for that scope, at any end point; a key
-- that has neither the scope's prefix nor that of "null" keeps its entry.
pub clear_api_cache_correct :
    (p : Platform) (scope : Option Text) (store : Store)
    → has_scope scope ≡ true
    → p.local_storage ≡ true
    → ((endpoint : Text)
        → read_cached_response p scope endpoint (clear_api_cache p scope store) ≡ none)
      × ((key : Text)
          → starts_with key (scope_prefix scope) ≡ false
          → starts_with key (scope_prefix none) ≡ false
          → get_item key (clear_api_cache p scope store) ≡ get_item key store)
unfolding read_cached_response clear_api_cache
clear_api_cache_correct p scope store scoped works = (gone, kept)
  where
    is_cleared : Text → Bool
    is_cleared key = starts_with key (scope_prefix scope) || starts_with key (scope_prefix none)

    gone :
        (endpoint : Text)
        → read_cached_response p scope endpoint (clear_api_cache p scope store) ≡ none
    gone endpoint =
        rw (scoped, works)
          (rw (get_item-remove_if is_cleared (cache_key scope endpoint) store)
            (unfold cache_key in rw (starts_with_append (scope_prefix scope) endpoint)))

    kept :
        (key : Text)
        → starts_with key (scope_prefix scope) ≡ false
        → starts_with key (scope_prefix none) ≡ false
        → get_item key (clear_api_cache p scope store) ≡ get_item key store
    kept key f g = rw (scoped, works) (rw (get_item-remove_if is_cleared key store) (rw (f, g)))

-- What a stored text gives at an end point: its data, if they are of a kind that is cached there and
-- not more than a week old. Data with a time that is no number have no age.
abbrev pub IsReadFrom : Platform → Text → Text → ApiResponse → Type 0
IsReadFrom p endpoint raw r =
    (parsed value saved_at : Json) × (p.parse raw ≡ some parsed)
    × (property (txt "data") parsed ≡ some value)
    × (property (txt "savedAt") parsed ≡ some saved_at)
    × (r ≡ fresh_response (some value) (age_at p.now (p.to_number saved_at)))
    × (is_too_old (age_at p.now (p.to_number saved_at)) ≡ false)
    × (should_cache_response endpoint value ≡ true)

-- A response from the cache: from what is stored for the scope and the end point.
abbrev pub IsCachedFor : Platform → Option Text → Text → Store → ApiResponse → Type 0
IsCachedFor p scope endpoint store r =
    (raw : Text) × (get_item (cache_key scope endpoint) store ≡ some raw)
    × IsReadFrom p endpoint raw r

abbrev IsReadFromAny : Platform → Text → Option Text → ApiResponse → Type 0
IsReadFromAny p endpoint o r = (raw : Text) × (o ≡ some raw) × IsReadFrom p endpoint raw r

module _ (p : Platform) (endpoint : Text) (r : ApiResponse) where
  use_entry_sound :
      (raw : Text) (parsed : Json)
      → p.parse raw ≡ some parsed
      → (value at : Option Json) → property (txt "data") parsed ≡ value
      → property (txt "savedAt") parsed ≡ at
      → use_entry p endpoint value at ≡ some r
      → IsReadFrom p endpoint raw r
  unfolding use_entry
  use_entry_sound raw parsed good value none d a e = absurd (ground arith)
  use_entry_sound raw parsed good none (some at) d a e = absurd (ground arith)
  use_entry_sound raw parsed good (some v) (some at) d a e =
      (parsed, v, at, good, d, a, ground arith, ground arith, ground arith)

  read_raw_sound : (o : Option Text) → read_raw p endpoint o ≡ some r → IsReadFromAny p endpoint o r
  unfolding read_raw read_entry
  read_raw_sound none e = absurd (ground arith)
  read_raw_sound (some raw) e = elim (Bool-cases (is_empty raw)) [
    | inl blank ↦ absurd (ground arith)
    | inr full ↦ elim (Option-cases (p.parse raw)) [
      | inl bad ↦ absurd (ground arith)
      | inr (parsed, good) ↦ (
        raw,
        refl,
        use_entry_sound raw parsed good (property (txt "data") parsed)
            (property (txt "savedAt") parsed) refl refl (rw (full, good) at e),
      )
    ]
  ]

  -- Whatever is in storage, what is read is stored for the scope and the end point, and fresh.
  pub read_cached_response_sound :
      (scope : Option Text) (store : Store)
      → read_cached_response p scope endpoint store ≡ some r
      → IsCachedFor p scope endpoint store r
  unfolding read_cached_response
  read_cached_response_sound scope store e =
      read_raw_sound (get_item (cache_key scope endpoint) store) (ground arith)
