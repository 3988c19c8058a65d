-- ===== src/View/TabBar/Flight.antt =====
-- Two tabs of frontend/src/components/Terminal/TabBar.tsx that are closed while neither call is answered.
use loci_terminal.Common.{
  ◌≡◌, refl, inl, inr, ap, ◌∙◌, subst, String, Bool, true, false, ◌&&◌, not, List, [], ◌∷◌, ◌++◌,
  map, some, length, filter, ltb, is, truthy, arith, Bool-cases,
}
use loci_terminal.Store.State.{Session, AppState, World, is_option, session_unread}
use loci_terminal.Store.Api.{Api}
use loci_terminal.Store.Sessions.{sessions_of, remove_session}
use loci_terminal.Theme.Colors.{UiColors}
use loci_terminal.View.Html.{Html, Offers, actions, actions_all, nodes}
use loci_terminal.View.TabBar.{TabAction, closes_tab, tab, tab_bar_of, tab_bar, run_tab}
use loci_terminal.View.TabBar.Safe.{tab_bar-tree, store-closes_tab, sessions_of-remove_session}

module _ (a : TabAction) where
  Offers-left : (xs ys : List (String × TabAction)) → Offers a xs → Offers a (xs ++ ys)
  Offers-left [] ys o = absurd o
  Offers-left (x ∷ xs) ys (inl e) = inl e
  Offers-left (x ∷ xs) ys (inr o) = inr (Offers-left xs ys o)

  Offers-right : (xs ys : List (String × TabAction)) → Offers a ys → Offers a (xs ++ ys)
  Offers-right [] ys o = o
  Offers-right (x ∷ xs) ys o = inr (Offers-right xs ys o)

tab-Offers :
    (ui : UiColors) (s : AppState) (sess : Session)
    → Offers (closes_tab sess.id) (actions (tab ui s true sess))
unfolding actions
tab-Offers ui s sess =
    elim (Bool-cases (not (is_option s.active_session_id sess.id) && session_unread s sess.id)) [
      | inl e ↦ rw e (inr (inl refl))
      | inr e ↦ rw e (inr (inl refl))
    ]

module _ (ui : UiColors) (s : AppState) (x y : Session) where
  abbrev two_tabs : List (String × TabAction)
  two_tabs = actions_all (nodes (map (tab ui s true) (x ∷ y ∷ [])))

  two_tabs-Offers : Offers (closes_tab x.id) two_tabs × Offers (closes_tab y.id) two_tabs
  unfolding actions
  two_tabs-Offers = (
    Offers-left (closes_tab x.id) (actions (tab ui s true x)) _ (tab-Offers ui s x),
    Offers-right (closes_tab y.id) (actions (tab ui s true x)) _
        (Offers-left (closes_tab y.id) (actions (tab ui s true y)) [] (tab-Offers ui s y)),
  )

  bar-Offers :
      (menu : Bool) (wid : String) (a : TabAction)
      → sessions_of s wid ≡ x ∷ y ∷ []
      → Offers a two_tabs
      → Offers a (actions (tab_bar_of ui menu wid s))
  unfolding actions
  bar-Offers true wid a e o =
      let several : ltb 1 (length (sessions_of s wid)) ≡ true = ground arith in
      rw e (rw several (inr (Offers-left a two_tabs _ o)))
  bar-Offers false wid a e o =
      let several : ltb 1 (length (sessions_of s wid)) ≡ true = ground arith in
      rw e (rw several (Offers-left a two_tabs _ o))

-- The active workspace has two sessions: the bar offers to close both tabs, and where both are closed before
-- either call is answered, and then both calls are answered with nothing in between, the workspace is left
-- without a session.
pub two_closings_leave_none :
    (api : Api) (ui : UiColors) (menu : Bool) (wid : String) (x y : Session) (w : World)
    {v u : World} {h : Html TabAction}
    → truthy w.store.active_workspace_id ≡ some wid
    → sessions_of w.store wid ≡ x ∷ y ∷ []
    → tab_bar ui menu w.store ≡ some h
    → run_tab api (closes_tab x.id) w ≡ some v
    → run_tab api (closes_tab y.id) v ≡ some u
    → Offers (closes_tab x.id) (actions h)
      × Offers (closes_tab y.id) (actions h)
      × (sessions_of u.store wid ≡ [])
two_closings_leave_none api ui menu wid x y w {v} {u} {h} active two drawn one other =
    let same = tab_bar-tree ui menu wid w.store active drawn in
    let (first, second) = two_tabs-Offers ui w.store x y in
    let offers = λ (a : TabAction) (o : Offers a (two_tabs ui w.store x y)).
      subst (λ k. Offers a (actions k)) same (bar-Offers ui w.store x y menu wid a two o) in
    let after_one = store-closes_tab api wid x.id w active one in
    let active' : truthy v.store.active_workspace_id ≡ some wid =
      ap (λ (s : AppState). truthy s.active_workspace_id) after_one
      ∙ unfold remove_session in active in
    let after_both = store-closes_tab api wid y.id v active' other in
    let left_one : sessions_of v.store wid
        ≡ filter (λ (z : Session). not (is z.id x.id)) (x ∷ y ∷ []) =
      ap (λ (s : AppState). sessions_of s wid) after_one
      ∙ sessions_of-remove_session x.id wid w.store
      ∙ ap (filter (λ (z : Session). not (is z.id x.id))) two in
    let left_none : sessions_of u.store wid
        ≡ filter (λ (z : Session). not (is z.id y.id)) (sessions_of v.store wid) =
      ap (λ (s : AppState). sessions_of s wid) after_both
      ∙ sessions_of-remove_session y.id wid v.store in
    (offers (closes_tab x.id) first, offers (closes_tab y.id) second, ground arith)
