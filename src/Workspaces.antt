-- ===== src/Workspaces.antt =====
-- The mobile app's workspaces: mobile/src/lib/workspaces.ts and
-- mobile/src/providers/workspace-provider.tsx. An operation of the provider runs to its end with what the
-- server answered; the parser of a stored list gives `none` where the code that reads it throws.
pub mod Active
mod Tests
use csg_learning_platform.Prelude.{
  ℕ, zero, suc, ◌+◌, String, Bool, true, false, not, ◌&&◌, ◌||◌, ◌⊎◌, inl, inr, Option, none, some,
  List, [], ◌∷◌, ◌++◌, map, if◌then◌else◌, filter, any, length, nat_beq,
}
use csg_learning_platform.Prelude.Text.{Text, txt, show}
use csg_learning_platform.Storage.{KeyValueStore}

pub data WorkspaceType : Type 0 where
  cohort community : WorkspaceType

pub data WorkspaceStatus : Type 0 where
  active archived : WorkspaceStatus

pub record WorkspaceSummary : Type 0 where
  pub id : ℕ
  pub name : String
  pub slug : String
  pub workspace_type : WorkspaceType
  pub status : WorkspaceStatus
  pub cohort_id : Option ℕ
  pub cohort_name : Option String
  pub description : Option String
  pub member_count : ℕ
  pub can_manage : Bool
  pub created_at : String
  pub updated_at : String

-- What the cards read of a channel or of a direct conversation.
pub record Unread : Type 0 where
  pub workspace_id : ℕ
  pub unread_count : ℕ

pub record WorkspaceCard : Type 0 where
  pub workspace : WorkspaceSummary
  pub channel_count : ℕ
  pub direct_message_count : ℕ
  pub unread_total : ℕ

-- `workspaces.some((workspace) => workspace.id === id)`
abbrev pub has_workspace : ℕ → List WorkspaceSummary → Bool
has_workspace id workspaces = any (λ w. nat_beq w.id id) workspaces

abbrev pub first_id : List WorkspaceSummary → Option ℕ
first_id [] = none
first_id (w ∷ ws) = some w.id

-- 0 and null are no preference.
unfoldable pub resolve_active_workspace_id : List WorkspaceSummary → Option ℕ → Option ℕ
resolve_active_workspace_id workspaces (some (suc n)) =
    if has_workspace (suc n) workspaces then some (suc n) else first_id workspaces
resolve_active_workspace_id workspaces _ = first_id workspaces

abbrev pub sum_unread : List Unread → ℕ
sum_unread [] = 0
sum_unread (c ∷ cs) = c.unread_count + sum_unread cs

abbrev pub of_workspace : ℕ → List Unread → List Unread
of_workspace id conversations = filter (λ c. nat_beq c.workspace_id id) conversations

unfoldable pub build_workspace_cards :
    List WorkspaceSummary → (channels direct_conversations : List Unread) → List WorkspaceCard
build_workspace_cards workspaces channels dms =
    map
      (λ w. record {
        workspace = w;
        channel_count = length (of_workspace w.id channels);
        direct_message_count = length (of_workspace w.id dms);
        unread_total = sum_unread (of_workspace w.id channels ++ of_workspace w.id dms);
      })
      workspaces

unfoldable pub workspace_cache_key : ℕ → Text
workspace_cache_key user = txt "csg.workspaces." ++ show user

unfoldable pub active_workspace_cache_key : ℕ → Text
active_workspace_cache_key user = txt "csg.workspace.active." ++ show user

-- The provider's state, and the device's store.
pub record Workspaces (S : Type 0) : Type 0 where
  pub workspaces : List WorkspaceSummary
  pub active_workspace_id : Option ℕ
  pub loading : Bool
  pub error : Option Text
  pub storage : S

-- `Number(text) || null`
abbrev pub number_or_null : (Text → Option ℕ) → Option Text → Option ℕ
number_or_null to_number none = none
number_or_null to_number (some s) = to_number s

module _ {S : Type 0} where
  -- What a change of the user resets.
  unfoldable pub reset_user : List WorkspaceSummary → Workspaces S → Workspaces S
  reset_user first w = record w { workspaces = first; active_workspace_id = first_id first }

module _ {S : Type 0} ⦃d : KeyValueStore S⦄ where
  abbrev pub store_active : Text → Option ℕ → S → S
  store_active key (some (suc n)) s = d.set key (show (suc n)) s
  store_active key _ s = d.remove key s

  -- `Number(text)` is the platform's, and gives `none` for NaN.
  module _ (to_number : Text → Option ℕ) where
    module _ (stringify : List WorkspaceSummary → Text) where
      abbrev pub on_workspaces : ℕ → List WorkspaceSummary → Workspaces S → Workspaces S
      on_workspaces user next w =
          let key = active_workspace_cache_key user in
          let id =
            resolve_active_workspace_id next (number_or_null to_number (d.get key w.storage)) in
          record w {
            workspaces = next;
            active_workspace_id = id;
            error = none;
            loading = false;
            storage =
                store_active key id (d.set (workspace_cache_key user) (stringify next) w.storage);
          }

    module _ (parse : Text → Option (List WorkspaceSummary)) where
      abbrev pub restore_workspaces :
          ℕ → Option (List WorkspaceSummary) → Option ℕ → Workspaces S → Workspaces S
      restore_workspaces user none stored w = record w {
        workspaces = [];
        active_workspace_id = none;
        storage =
            d.multi_remove (workspace_cache_key user ∷ active_workspace_cache_key user ∷ [])
              w.storage;
      }
      restore_workspaces user (some cached) stored w = record w {
        workspaces = cached;
        active_workspace_id = resolve_active_workspace_id cached stored;
      }

      -- Without a stored list the workspaces stay.
      abbrev pub use_cached : ℕ → Option Text → Workspaces S → Workspaces S
      use_cached user none w = w
      use_cached user (some []) w = w
      use_cached user (some (c ∷ s)) w =
          restore_workspaces user (parse (c ∷ s))
            (number_or_null to_number (d.get (active_workspace_cache_key user) w.storage)) w

      abbrev pub on_workspaces_error : ℕ → Text → Workspaces S → Workspaces S
      on_workspaces_error user message w =
          let next = use_cached user (d.get (workspace_cache_key user) w.storage) w in
          record next { error = some message; loading = false }

      module _ (stringify : List WorkspaceSummary → Text) where
        abbrev pub on_answer : ℕ → Text ⊎ List WorkspaceSummary → Workspaces S → Workspaces S
        on_answer user (inl message) w = on_workspaces_error user message w
        on_answer user (inr next) w = on_workspaces stringify user next w

        -- `userId` is null or 0 without a user.
        unfoldable pub refresh_workspaces :
            Option ℕ → Text ⊎ List WorkspaceSummary → Workspaces S → Workspaces S
        unfolding resolve_active_workspace_id workspace_cache_key active_workspace_cache_key
        refresh_workspaces (some (suc n)) answer w = on_answer (suc n) answer w
        refresh_workspaces _ answer w = record w {
          workspaces = [];
          active_workspace_id = none;
          loading = false;
        }

  abbrev pub select_known : ℕ → ℕ → Bool → Workspaces S → Workspaces S
  select_known user id false w = w
  select_known user id true w = record w {
    active_workspace_id = some id;
    storage = d.set (active_workspace_cache_key user) (show id) w.storage;
  }

  unfoldable pub select_workspace : Option ℕ → ℕ → Workspaces S → Workspaces S
  unfolding active_workspace_cache_key
  select_workspace (some (suc n)) id w = select_known (suc n) id (has_workspace id w.workspaces) w
  select_workspace _ id w = w
