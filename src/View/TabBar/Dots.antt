-- ===== src/View/TabBar/Dots.antt =====
-- Which tabs of frontend/src/components/Terminal/TabBar.tsx are marked as unread, against the store.
use Prim.Native.Char.{Char, code}
use Prim.Native.String.{◌++◌ as ◌<>◌}
use text.Mathlib.TextLemmas.{head-eq_of_cons-eq, cons-append}
use mathlib.Core.Path.{Path}
use loci_terminal.Common.{
  ℕ, ◌≡◌, refl, inl, inr, ap, ◌∙◌, sym, String, Bool, true, false, ◌&&◌, not, List, [], ◌∷◌, map,
  some, length, filter, ltb, is, if◌then◌else◌, truthy, arith, str_dec, Bool-cases,
}
use loci_terminal.Store.State.{Session, AppState, is_option, session_unread}
use loci_terminal.Store.Sessions.{sessions_of}
use loci_terminal.Theme.Colors.{UiColors}
use loci_terminal.View.Html.{labelled-nodes, when, Html, labelled, labelled_all, nodes}
use loci_terminal.View.TabBar.Safe.{tab_bar-tree}
use loci_terminal.View.TabBar.{menu_button, TabAction, tab, tab_bar}

-- The label of a close button is not the label of a dot.
close_label-is : (title : String) → is ("Close " <> title) "unread output" ≡ false
close_label-is title = elim (str_dec ("Close " <> title) "unread output") [
  | yes e ↦
      let heads : Path Char "C" "u" =
        head-eq_of_cons-eq (sym (cons-append "C" "lose " title) ∙ e) in
      let codes : ◌≡◌ {A = ℕ} 67 117 = ap code heads in absurd (omega arith)
  | no ne ↦ ground arith
]

-- The dot of one tab.
tab-labelled :
    (ui : UiColors) (s : AppState) (several : Bool) (sess : Session)
    → labelled "unread output" (tab ui s several sess)
      ≡ (if not (is_option s.active_session_id sess.id) && session_unread s sess.id then 1 else 0)
unfolding labelled str_dec Bool-cases
tab-labelled ui s true sess =
    elim (Bool-cases (not (is_option s.active_session_id sess.id) && session_unread s sess.id)) [
      | inl e ↦ rw (e, close_label-is sess.title) refl
      | inr e ↦ rw (e, close_label-is sess.title) refl
    ]
tab-labelled ui s false sess =
    elim (Bool-cases (not (is_option s.active_session_id sess.id) && session_unread s sess.id)) [
      | inl e ↦ rw e refl
      | inr e ↦ rw e refl
    ]

-- Another session than the active one, with unread output.
abbrev pub asks : AppState → Session → Bool
asks s sess = not (is_option s.active_session_id sess.id) && session_unread s sess.id

tabs-labelled :
    (ui : UiColors) (s : AppState) (several : Bool) (xs : List Session)
    → labelled_all "unread output" (nodes (map (tab ui s several) xs)) ≡ length (filter (asks s) xs)
unfolding labelled
tabs-labelled ui s several [] = refl
tabs-labelled ui s several (x ∷ xs) = elim (Bool-cases (asks s x)) [
  | inl e ↦ ground (arith, tab-labelled ui s several x, tabs-labelled ui s several xs)
  | inr e ↦ ground (arith, tab-labelled ui s several x, tabs-labelled ui s several xs)
]

menu-labelled :
    (ui : UiColors) (b : Bool) → labelled_all "unread output" (nodes (when b (menu_button ui))) ≡ 0
unfolding labelled str_dec Bool-cases
menu-labelled ui true = refl
menu-labelled ui false = refl

-- Where a workspace is active, the tab bar draws as many dots as there are sessions in it, beside the
-- active one, that the store's `sessionUnread` finds unread.
tab_bar-labelled :
    (ui : UiColors) (menu : Bool) (wid : String) (s : AppState) {h : Html TabAction}
    → truthy s.active_workspace_id ≡ some wid
    → tab_bar ui menu s ≡ some h
    → labelled "unread output" h ≡ length (filter (asks s) (sessions_of s wid))
unfolding labelled tab_bar str_dec Bool-cases
tab_bar-labelled ui menu wid s {h} active drawn =
    let tree = tab_bar-tree ui menu wid s active drawn in
    let current = sessions_of s wid in
    let several = ltb 1 (length current) in
    let open_menu = when menu (menu_button ui) in
    let drawn_tabs = tabs-labelled ui s several current in
    let left = menu-labelled ui menu in
    rw (← tree, labelled-nodes "unread output" open_menu) (omega arith)
