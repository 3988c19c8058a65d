-- ===== src/View/TabBar/Safe.antt =====
-- What the tab bar of frontend/src/components/Terminal/TabBar.tsx shows and offers, against the store.
use loci_terminal.Common.{
  ◌<◌, ◌≤◌, ◌≡◌, refl, inl, inr, ap, ◌∙◌, subst, String, Bool, true, false, ◌&&◌, not, List, [],
  ◌∷◌, ◌++◌, map, some, length, filter, ltb, is, truthy, All, All-++, arith, Bool-cases,
  Option-cases, get_or,
}
use loci_terminal.Dict.Laws.{get-put_self}
use loci_terminal.Store.State.{Session, AppState, World, is_option, session_unread}
use loci_terminal.Store.Api.{Api}
use loci_terminal.Store.Sessions.{sessions_of, delete_session, in_active, remove_session}
use loci_terminal.Store.Mirror.Ids.{has, session_ids, All-has}
use loci_terminal.Theme.Colors.{UiColors}
use loci_terminal.View.Html.{Html, Offers, All-Offers, actions, actions_all, nodes}
use loci_terminal.View.Keys.{IsDistinct, length-without}
use loci_terminal.View.TabBar.{
  TabAction, opens_menu, selects_tab, adds_tab, closes_tab, tab, tab_bar_of, tab_bar, run_tab,
}

-- Closing is offered only where there are several tabs. Tabs are of the sessions `ids`, and a new one is for the
-- workspace `wid`.
abbrev pub Needs : String → List String → Bool → TabAction → Type 0
Needs wid ids several opens_menu = Unit
Needs wid ids several (selects_tab id) = has id ids ≡ true
Needs wid ids several (closes_tab id) = (several ≡ true) × (has id ids ≡ true)
Needs wid ids several (adds_tab to) = to ≡ wid

module _ (ui : UiColors) (wid : String) (s : AppState) (ids : List String) where
  tab-Needs :
      (several : Bool) (sess : Session)
      → has sess.id ids ≡ true
      → All (λ e. Needs wid ids several e.1) (actions (tab ui s several sess))
  unfolding actions
  tab-Needs true sess h =
      elim (Bool-cases (not (is_option s.active_session_id sess.id) && session_unread s sess.id)) [
        | inl e ↦ rw e (h, ((refl, h), tt))
        | inr e ↦ rw e (h, ((refl, h), tt))
      ]
  tab-Needs false sess h =
      elim (Bool-cases (not (is_option s.active_session_id sess.id) && session_unread s sess.id)) [
        | inl e ↦ rw e (h, tt)
        | inr e ↦ rw e (h, tt)
      ]

  tabs-Needs :
      (several : Bool) (xs : List Session)
      → All (λ (x : Session). has x.id ids ≡ true) xs
      → All (λ e. Needs wid ids several e.1) (actions_all (nodes (map (tab ui s several) xs)))
  unfolding actions
  tabs-Needs several [] h = tt
  tabs-Needs several (x ∷ xs) h =
      All-++ (λ e. Needs wid ids several e.1) (actions (tab ui s several x)) _
        (tab-Needs several x h.0) (tabs-Needs several xs h.1)

bar-Needs :
    (ui : UiColors) (wid : String) (s : AppState) (xs : List Session)
    → let several = ltb 1 (length xs) in
      All
        (λ e. Needs wid (session_ids xs) several e.1)
        (actions_all (nodes (map (tab ui s several) xs)) ++ ("onClick", adds_tab wid) ∷ [])
bar-Needs ui wid s xs =
    let several = ltb 1 (length xs) in
    All-++ (λ e. Needs wid (session_ids xs) several e.1)
      (actions_all (nodes (map (tab ui s several) xs))) _
      (tabs-Needs ui wid s (session_ids xs) several xs (All-has (λ (x : Session). x.id) xs))
      (refl, tt)

pub tab_bar_of-Needs :
    (ui : UiColors) (menu : Bool) (wid : String) (s : AppState)
    → let xs = sessions_of s wid in
      All
        (λ e. Needs wid (session_ids xs) (ltb 1 (length xs)) e.1)
        (actions (tab_bar_of ui menu wid s))
unfolding actions
tab_bar_of-Needs ui true wid s = let xs = sessions_of s wid in (tt, bar-Needs ui wid s xs)
tab_bar_of-Needs ui false wid s = bar-Needs ui wid s (sessions_of s wid)

pub sessions_of-remove_session :
    (id wid : String) (s : AppState)
    → sessions_of (remove_session id wid s) wid
      ≡ filter (λ (x : Session). not (is x.id id)) (sessions_of s wid)
unfolding remove_session
sessions_of-remove_session id wid s =
    ap (λ o. get_or o [])
      (get-put_self wid (filter (λ (x : Session). not (is x.id id)) (sessions_of s wid)) s.sessions)

-- The bar that is drawn is that of the active workspace.
pub tab_bar-tree :
    (ui : UiColors) (menu : Bool) (wid : String) (s : AppState) {h : Html TabAction}
    → truthy s.active_workspace_id ≡ some wid
    → tab_bar ui menu s ≡ some h
    → tab_bar_of ui menu wid s ≡ h
unfolding tab_bar
tab_bar-tree ui menu wid s {h} active drawn =
    let drawn' : tab_bar ui menu s ≡ some (tab_bar_of ui menu wid s) = rw (active, tab_bar) refl in
    cc

-- What a drawn bar offers.
pub drawn_bar :
    (ui : UiColors) (menu : Bool) (wid : String) (s : AppState) (a : TabAction) {h : Html TabAction}
    → truthy s.active_workspace_id ≡ some wid
    → tab_bar ui menu s ≡ some h
    → Offers a (actions h)
    → let xs = sessions_of s wid in Needs wid (session_ids xs) (ltb 1 (length xs)) a
drawn_bar ui menu wid s a {h} active drawn offered =
    let xs = sessions_of s wid in
    let several = ltb 1 (length xs) in
    All-Offers (Needs wid (session_ids xs) several) (actions h)
      (subst (λ k. All (λ e. Needs wid (session_ids xs) several e.1) (actions k))
        (tab_bar-tree ui menu wid s active drawn) (tab_bar_of-Needs ui menu wid s))
      offered

pub store-closes_tab :
    (api : Api) (wid id : String) (w : World) {w' : World}
    → truthy w.store.active_workspace_id ≡ some wid
    → run_tab api (closes_tab id) w ≡ some w'
    → w'.store ≡ remove_session id wid w.store
unfolding run_tab delete_session in_active
store-closes_tab api wid id w active ran = elim (Option-cases (api.delete_session id)) [
  | inl q ↦ absurd (ground arith)
  | inr (u, q) ↦ ground arith
]

-- The bar of a workspace is drawn, and offers to close a tab; the server answers the call in any later world
-- in which the workspace is the active one, has no id twice, and has at least as many sessions as the bar has
-- shown: then the workspace keeps a session.
pub closed_tab_leaves_one :
    (api : Api) (ui : UiColors) (menu : Bool) (wid id : String) (s : AppState) (w : World)
    {w' : World} {h : Html TabAction}
    → truthy s.active_workspace_id ≡ some wid
    → tab_bar ui menu s ≡ some h
    → Offers (closes_tab id) (actions h)
    → truthy w.store.active_workspace_id ≡ some wid
    → IsDistinct (λ (x : Session). x.id) (sessions_of w.store wid)
    → length (sessions_of s wid) ≤ length (sessions_of w.store wid)
    → run_tab api (closes_tab id) w ≡ some w'
    → 0 < length (sessions_of w'.store wid)
closed_tab_leaves_one api ui menu wid id s w {w'} {h} active drawn offered still distinct le ran =
    let many = (drawn_bar ui menu wid s (closes_tab id) active drawn offered).0 in
    let left =
      ap (λ (s : AppState). length (sessions_of s wid)) (store-closes_tab api wid id w still ran)
      ∙ ap length (sessions_of-remove_session id wid w.store) in
    let few = length-without (λ (x : Session). x.id) id (sessions_of w.store wid) distinct in
    ground arith
