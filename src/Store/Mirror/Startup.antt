-- ===== src/Store/Mirror/Startup.antt =====
-- The lists that `init` of frontend/src/stores/appStore.ts is sent, and what it makes of them.
use loci_terminal.Common.{
  ◌≡◌, refl, sym, ap, inl, inr, String, false, List, [], ◌∷◌, none, some, All, arith, Option-cases,
  str_dec,
}
use loci_terminal.Dict.{Dict, get, put}
use loci_terminal.Dict.Laws.{get-put}
use loci_terminal.Store.State.{Workspace, Session}
use loci_terminal.Store.Api.{Api, Ends, Ends-bind}
use loci_terminal.Store.Workspaces.{list_all, fill}
use loci_terminal.Store.Startup.{Listed, firsts}
use loci_terminal.Store.Mirror.Ids.{has, session_ids, workspace_ids}
use loci_terminal.Store.Mirror.Places.{Rows, Remembered, put-Remembered}

-- The entries of the store's map are of the ids `f`.
abbrev pub Genuine : (String → List String) → Dict (List Session) → Type 0
Genuine f d = (j : String) (list : List Session) → get j d ≡ some list → session_ids list ≡ f j

abbrev pub Lists : Type 0
Lists = List (Workspace × List Session)

put-Genuine :
    (f : String → List String) (k : String) (list : List Session) (d : Dict (List Session))
    → session_ids list ≡ f k
    → Genuine f d
    → Genuine f (put k list d)
put-Genuine f k list d e g j l h = elim (str_dec k j) [
  | yes p ↦ ground (arith, get-put k j list d)
  | no p ↦ ground (arith, get-put k j list d, g j l)
]

pub fill-Genuine :
    (f : String → List String) (lists : Lists) (sessions : Dict (List Session))
    (active : Dict String)
    → All (λ l. session_ids l.1 ≡ f l.0.id) lists
    → Genuine f sessions
    → Remembered f active
    → Genuine f (fill lists (sessions, active)).0 × Remembered f (fill lists (sessions, active)).1
unfolding fill
fill-Genuine f [] sessions active h g r = (g, r)
fill-Genuine f ((w, []) ∷ rest) sessions active h g r =
    fill-Genuine f rest (put w.id [] sessions) active h.1 (put-Genuine f w.id [] sessions h.0 g) r
fill-Genuine f ((w, x ∷ xs) ∷ rest) sessions active h g r =
    fill-Genuine f rest (put w.id (x ∷ xs) sessions) (put w.id x.id active) h.1
      (put-Genuine f w.id (x ∷ xs) sessions h.0 g)
      (put-Remembered f f w.id (λ j ne. refl) x.id active (ground (arith, h.0)) r)

-- The lists that the server sends are those of the workspaces asked for, in their order.
abbrev pub Sent : (Workspace → List String) → List Workspace → Lists → Type 0
Sent f ws lists = (firsts lists ≡ ws) × All (λ l. session_ids l.1 ≡ f l.0) lists

pub list_all-Ends :
    (api : Api) (f : String → List Session)
    → ((wid : String) → api.list_sessions wid ≡ some (f wid))
    → (ws : List Workspace) → Ends (Sent (λ w. session_ids (f w.id)) ws) (list_all api ws)
unfolding list_all
list_all-Ends api f h [] = (refl, tt)
list_all-Ends api f h (w ∷ ws) = rw (h w.id) (
    Ends-bind (Sent (λ w. session_ids (f w.id)) ws) _ (list_all api ws) _ (list_all-Ends api f h ws)
      λ lists sent. (ap (λ vs. w ∷ vs) sent.0, (refl, sent.1)))

Listed-has :
    (d : Dict (List Session)) (j : String) (ws : List Workspace)
    → All (Listed d) ws
    → get j d ≡ none
    → has j (workspace_ids ws) ≡ false
Listed-has d j [] l e = refl
Listed-has d j (w ∷ ws) ((list, q), l) e = ground (arith, Listed-has d j ws l e)

-- No session is listed for a workspace that is not.
pub Genuine-Rows :
    (f : String → List String) (ws : List Workspace) (d : Dict (List Session))
    → Genuine f d
    → All (Listed d) ws
    → ((j : String) → has j (workspace_ids ws) ≡ false → f j ≡ [])
    → Rows f d
Genuine-Rows f ws d g listed orphans j = elim (Option-cases (get j d)) [
  | inl e ↦ rw e (sym (orphans j (Listed-has d j ws listed e)))
  | inr (list, e) ↦ rw e (g j list e)
]
