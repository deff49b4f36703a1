-- ===== src/Workspaces/Tests.antt =====
-- Runs of the workspace provider (mobile/src/providers/workspace-provider.tsx) on a store in memory.
use csg_learning_platform.Prelude.{ℕ, false, Option, none, some, List, [], ◌∷◌, inl, ◌≡◌, refl, map}
use csg_learning_platform.Prelude.Text.{Text, txt}
use csg_learning_platform.Storage.Memory.{Memory, memory}
use csg_learning_platform.Workspaces.{
  WorkspaceSummary, community, active, Workspaces, reset_user, refresh_workspaces, select_workspace,
  build_workspace_cards,
}
use csg_learning_platform.Workspaces.Active.{IsChosen, active_workspace-IsChosen}

abbrev workspace : ℕ → WorkspaceSummary
workspace id = record {
  id = id;
  name = "CSG";
  slug = "csg";
  workspace_type = community;
  status = active;
  cohort_id = none;
  cohort_name = none;
  description = none;
  member_count = 2;
  can_manage = false;
  created_at = "t1";
  updated_at = "t1";
}

abbrev listed : List WorkspaceSummary
listed = workspace 4 ∷ workspace 6 ∷ []

abbrev state : Workspaces Memory
state = record {
  workspaces = listed;
  active_workspace_id = some 4;
  loading = false;
  error = none;
  storage = [];
}

-- One digit.
abbrev to_number : Text → Option ℕ
to_number s = some 6

abbrev unreadable : Text → Option (List WorkspaceSummary)
unreadable s = none

abbrev as_hash : List WorkspaceSummary → Text
as_hash ws = txt "#"

cards_test :
    map
      (λ c. c.unread_total)
      (build_workspace_cards listed (record { workspace_id = 4; unread_count = 2 } ∷ []) (
        record { workspace_id = 4; unread_count = 1 }
        ∷ record { workspace_id = 6; unread_count = 5 }
        ∷ []))
    ≡ 3 ∷ 5 ∷ []
unfolding build_workspace_cards
cards_test = refl

active_workspace-IsChosen_example :
    IsChosen (reset_user [] state)
    × (IsChosen
          (refresh_workspaces to_number unreadable as_hash (some 7) (inl (txt "offline")) state)
        × IsChosen (select_workspace (some 7) 6 state))
active_workspace-IsChosen_example =
    active_workspace-IsChosen to_number unreadable as_hash (some 7) (inl (txt "offline")) 6 [] state
      refl
