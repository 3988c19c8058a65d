-- ===== src/Store/Startup.antt =====
-- What `init` of frontend/src/stores/appStore.ts sets up.
use loci_terminal.Common.{◌≡◌, refl, String, true, List, [], ◌∷◌, some, All, map, arith, str_dec}
use loci_terminal.Dict.{Dict, get, put}
use loci_terminal.Dict.Laws.{get-put, get-put_self}
use loci_terminal.Store.State.{AppState, Workspace, Session}
use loci_terminal.Store.Api.{Api, Ensures, Ensures->>=, Ensures-bind}
use loci_terminal.Store.Remembering.{Backed}
use loci_terminal.Store.Workspaces.{list_all, fill}

-- Where a workspace has sessions, the first of them is the one to show.
pub record Agrees (sessions : Dict (List Session)) (active : Dict String) : Type 0 where
  pub first_shown :
      (wid : String) (x : Session) (xs : List Session)
      → get wid sessions ≡ some (x ∷ xs)
      → get wid active ≡ some x.id

put_empty-Agrees :
    (id : String) (sessions : Dict (List Session)) (active : Dict String)
    → Agrees sessions active
    → Agrees (put id [] sessions) active
put_empty-Agrees id sessions active a = record {
  first_shown = λ wid x xs e. a.first_shown wid x xs (ground (arith, get-put id wid [] sessions));
}

put_list-Agrees :
    (id : String) (y : Session) (ys : List Session) (sessions : Dict (List Session))
    (active : Dict String)
    → Agrees sessions active
    → Agrees (put id (y ∷ ys) sessions) (put id y.id active)
put_list-Agrees id y ys sessions active a = record {
  first_shown = λ wid x xs e.
      ground (
        arith,
        get-put id wid (y ∷ ys) sessions,
        get-put id wid y.id active,
        a.first_shown wid x xs,
      );
}

abbrev pub Listed : Dict (List Session) → Workspace → Type 0
Listed sessions w = (list : List Session) × (get w.id sessions ≡ some list)

pub put-Listed :
    (id : String) (list : List Session) (sessions : Dict (List Session)) (w : Workspace)
    → Listed sessions w
    → Listed (put id list sessions) w
put-Listed id list sessions w (old, e) = elim (str_dec id w.id) [
  | yes p ↦ (list, ground (arith, get-put id w.id list sessions))
  | no p ↦ (old, ground (arith, get-put id w.id list sessions))
]

pub fill-Agrees :
    (lists : List (Workspace × List Session)) (sessions : Dict (List Session))
    (active : Dict String)
    → Agrees sessions active
    → Agrees (fill lists (sessions, active)).0 (fill lists (sessions, active)).1
unfolding fill
fill-Agrees [] sessions active a = a
fill-Agrees ((w, []) ∷ rest) sessions active a =
    fill-Agrees rest (put w.id [] sessions) active (put_empty-Agrees w.id sessions active a)
fill-Agrees ((w, x ∷ xs) ∷ rest) sessions active a =
    fill-Agrees rest (put w.id (x ∷ xs) sessions) (put w.id x.id active)
      (put_list-Agrees w.id x xs sessions active a)

fill-Listed :
    (lists : List (Workspace × List Session)) (sessions : Dict (List Session))
    (active : Dict String) (w : Workspace)
    → Listed sessions w
    → Listed (fill lists (sessions, active)).0 w
unfolding fill
fill-Listed [] sessions active w l = l
fill-Listed ((v, []) ∷ rest) sessions active w l =
    fill-Listed rest (put v.id [] sessions) active w (put-Listed v.id [] sessions w l)
fill-Listed ((v, x ∷ xs) ∷ rest) sessions active w l =
    fill-Listed rest (put v.id (x ∷ xs) sessions) (put v.id x.id active) w
      (put-Listed v.id (x ∷ xs) sessions w l)

pub fill-All :
    (lists : List (Workspace × List Session)) (sessions : Dict (List Session))
    (active : Dict String)
    → All (λ l. Listed (fill lists (sessions, active)).0 l.0) lists
unfolding fill
fill-All [] sessions active = tt
fill-All ((v, []) ∷ rest) sessions active = (
  fill-Listed rest (put v.id [] sessions) active v ([], get-put_self v.id [] sessions),
  fill-All rest (put v.id [] sessions) active,
)
fill-All ((v, x ∷ xs) ∷ rest) sessions active = (
  fill-Listed rest (put v.id (x ∷ xs) sessions) (put v.id x.id active) v
      (x ∷ xs, get-put_self v.id (x ∷ xs) sessions),
  fill-All rest (put v.id (x ∷ xs) sessions) (put v.id x.id active),
)

abbrev pub firsts : List (Workspace × List Session) → List Workspace
firsts = map λ l. l.0

-- The lists are those of the workspaces, in their order.
pub list_all-firsts :
    (api : Api) (ws : List Workspace) → Ensures (λ lists. firsts lists ≡ ws) (list_all api ws)
unfolding list_all
list_all-firsts api [] = refl
list_all-firsts api (w ∷ ws) =
    Ensures->>= _ (api.list_sessions w.id) _
      λ list. Ensures-bind _ _ (list_all api ws) _ (list_all-firsts api ws) λ lists e. cc

pub All-firsts :
    (P : Workspace → Type 0) (lists : List (Workspace × List Session))
    → All (λ l. P l.0) lists
    → All P (firsts lists)
All-firsts P [] h = tt
All-firsts P (l ∷ lists) h = (h.0, All-firsts P lists h.1)

abbrev pub Maps : Type 0
Maps = Dict (List Session) × Dict String

-- What `first_session` gives: a session to show in the workspace, and the rest as it was.
abbrev pub HasFirst : String → Maps → Maps → Type 0
HasFirst wid before m =
    Agrees m.0 m.1
    × Backed m.0 m.1
    × ((x : Session) × (xs : List Session) × (get wid m.0 ≡ some (x ∷ xs)))
    × ((w : Workspace) → Listed before.0 w → Listed m.0 w)

-- The page has a workspace to show and in it a session to show: the first workspace, and the first
-- session of its list. It has a list for every workspace, remembers for each workspace with sessions the first
-- of them, and remembers no other session for any workspace.
pub record IsStarted (s : AppState) : Type 0 where
  pub first : Workspace
  pub rest : List Workspace
  pub workspaces : s.workspaces ≡ first ∷ rest
  pub active : s.active_workspace_id ≡ some first.id
  pub session : Session
  pub others : List Session
  pub listed : get first.id s.sessions ≡ some (session ∷ others)
  pub shown : s.active_session_id ≡ some session.id
  pub all_listed : All (Listed s.sessions) s.workspaces
  pub agrees : Agrees s.sessions s.active_session_by_workspace
  pub backed : Backed s.sessions s.active_session_by_workspace
  pub ready : s.initialized ≡ true

started :
    (s : AppState) (first : Workspace) (rest : List Workspace) (m : Maps)
    → Agrees m.0 m.1
    → Backed m.0 m.1
    → ((x : Session) × (xs : List Session) × (get first.id m.0 ≡ some (x ∷ xs)))
    → All (Listed m.0) (first ∷ rest)
    → IsStarted (record s {
      workspaces = first ∷ rest;
      sessions = m.0;
      active_workspace_id = some first.id;
      active_session_id = get first.id m.1;
      active_session_by_workspace = m.1;
      initialized = true;
    })
started s first rest m a b (x, xs, e) l = record {
  first = first;
  rest = rest;
  workspaces = refl;
  active = refl;
  session = x;
  others = xs;
  listed = e;
  shown = a.first_shown first.id x xs e;
  all_listed = l;
  agrees = a;
  backed = b;
  ready = refl;
}

pub no_maps-Agrees : Agrees [] []
unfolding get
no_maps-Agrees = record { first_shown = λ wid x xs e. absurd (cc) }
