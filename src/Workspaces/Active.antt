-- ===== src/Workspaces/Active.antt =====
-- The active workspace of mobile/src/providers/workspace-provider.tsx.
use csg_learning_platform.Prelude.{
  ℕ, zero, suc, Bool, true, false, Option, none, some, List, [], ◌∷◌, ◌⊎◌, inl, inr, ◌≡◌, refl,
  arith, ◌∙◌, Bool-cases, beq_refl,
}
use csg_learning_platform.Prelude.Text.{Text, show, text_eq}
use csg_learning_platform.Storage.{KeyValueStore}
use csg_learning_platform.Workspaces.{
  WorkspaceSummary, Workspaces, has_workspace, first_id, resolve_active_workspace_id,
  active_workspace_cache_key, reset_user, restore_workspaces, use_cached, refresh_workspaces,
  select_known, select_workspace,
}

-- The active workspace is one of the list, and there is none only if the list is empty.
abbrev pub is_chosen : List WorkspaceSummary → Option ℕ → Bool
is_chosen [] none = true
is_chosen (w ∷ ws) none = false
is_chosen ws (some id) = has_workspace id ws

first_id-is_chosen : (ws : List WorkspaceSummary) → is_chosen ws (first_id ws) ≡ true
first_id-is_chosen [] = refl
first_id-is_chosen (w ∷ ws) = ground arith

resolve-is_chosen :
    (ws : List WorkspaceSummary) (id : Option ℕ)
    → is_chosen ws (resolve_active_workspace_id ws id) ≡ true
unfolding resolve_active_workspace_id
resolve-is_chosen ws none = first_id-is_chosen ws
resolve-is_chosen ws (some zero) = first_id-is_chosen ws
resolve-is_chosen ws (some (suc n)) = elim (Bool-cases (has_workspace (suc n) ws)) [
  | inl e ↦ rw e e
  | inr e ↦ rw e (first_id-is_chosen ws)
]

module _ {S : Type 0} ⦃d : KeyValueStore S⦄ where
  abbrev pub IsChosen : Workspaces S → Type 0
  IsChosen w = is_chosen w.workspaces w.active_workspace_id ≡ true

  select_known-IsChosen :
      (user id : ℕ) (b : Bool) (w : Workspaces S)
      → has_workspace id w.workspaces ≡ b
      → IsChosen w
      → IsChosen (select_known user id b w)
  select_known-IsChosen user id false w e h = h
  select_known-IsChosen user id true w e h = e

  module _ (to_number : Text → Option ℕ) (parse : Text → Option (List WorkspaceSummary))
      (stringify : List WorkspaceSummary → Text) where
    restore-IsChosen :
        (user : ℕ) (o : Option (List WorkspaceSummary)) (stored : Option ℕ) (w : Workspaces S)
        → IsChosen (restore_workspaces to_number parse user o stored w)
    restore-IsChosen user none stored w = refl
    restore-IsChosen user (some cached) stored w = resolve-is_chosen cached stored

    use_cached-IsChosen :
        (user : ℕ) (o : Option Text) (w : Workspaces S)
        → IsChosen w
        → IsChosen (use_cached to_number parse user o w)
    use_cached-IsChosen user none w h = h
    use_cached-IsChosen user (some []) w h = h
    use_cached-IsChosen user (some (c ∷ s)) w h = restore-IsChosen user (parse (c ∷ s)) _ w

    refresh-IsChosen :
        (user : Option ℕ) (answer : Text ⊎ List WorkspaceSummary) (w : Workspaces S)
        → IsChosen w
        → IsChosen (refresh_workspaces to_number parse stringify user answer w)
    unfolding refresh_workspaces
    refresh-IsChosen none answer w h = refl
    refresh-IsChosen (some zero) answer w h = refl
    refresh-IsChosen (some (suc n)) (inl message) w h = use_cached-IsChosen (suc n) _ w h
    refresh-IsChosen (some (suc n)) (inr next) w h = resolve-is_chosen next _

    select-IsChosen :
        (user : Option ℕ) (id : ℕ) (w : Workspaces S)
        → IsChosen w
        → IsChosen (select_workspace user id w)
    unfolding select_workspace
    select-IsChosen none id w h = h
    select-IsChosen (some zero) id w h = h
    select-IsChosen (some (suc n)) id w h = select_known-IsChosen (suc n) id _ w refl h

    -- The active workspace is always one of the list, and there is none only if the list is empty: a
    -- change of the user begins so, and a refresh, whatever the server answers and the store holds, and a
    -- selection keep it so.
    pub active_workspace-IsChosen :
        (user : Option ℕ) (answer : Text ⊎ List WorkspaceSummary) (id : ℕ)
        (first : List WorkspaceSummary) (w : Workspaces S)
        → IsChosen w
        → IsChosen (reset_user first w)
          × (IsChosen (refresh_workspaces to_number parse stringify user answer w)
              × IsChosen (select_workspace user id w))
    unfolding reset_user
    active_workspace-IsChosen user answer id first w h =
        (first_id-is_chosen first, (refresh-IsChosen user answer w h, select-IsChosen user id w h))

    -- A workspace that the user selected is active again after a refresh, while the server lists it. The
    -- platform reads the number that it wrote.
    refresh-select :
        (user id : ℕ) (next : List WorkspaceSummary) (w : Workspaces S)
        → has_workspace (suc id) w.workspaces ≡ true
        → has_workspace (suc id) next ≡ true
        → to_number (show (suc id)) ≡ some (suc id)
        → (refresh_workspaces to_number parse stringify
            (some (suc user))
            (inr next)
            (select_workspace (some (suc user)) (suc id) w)).active_workspace_id
          ≡ some (suc id)
    unfolding refresh_workspaces select_workspace resolve_active_workspace_id
    refresh-select user id next w known listed number =
        let key = active_workspace_cache_key (suc user) in
        let stored : d.get key (d.set key (show (suc id)) w.storage) ≡ some (show (suc id)) =
          d.get-set key key (show (suc id)) w.storage ∙ rw (beq_refl key) refl in
        rw known (rw stored (rw number (rw listed refl)))
