-- ===== src/Store/Mirror/Calls.antt =====
-- Each call of the store of frontend/src/stores/appStore.ts, once the server has answered it.
use loci_terminal.Common.{
  ◌≡◌, ◌≢◌, refl, sym, ap, subst, ◌∙◌, inl, inr, String, true, List, [], ◌∷◌, ◌++◌, Option, none,
  some, if◌then◌else◌, truthy, truthy_text, Bool-cases,
}
use loci_terminal.Dict.{Dict, get}
use loci_terminal.Store.State.{Workspace, Session, AppState}
use loci_terminal.Store.Sessions.{sessions_of, with_sessions, add_session, sessions_equal}
use loci_terminal.Store.Workspaces.{add_workspace, show_workspace, remember_viewed, next_active}
use loci_terminal.Store.Mirror.Ids.{has, session_ids, has-last, map-last}
use loci_terminal.Store.Mirror.{Server, IsServer, listed, held, Untouched, IsTidy, Shows, IsMirror}
use loci_terminal.Store.Mirror.Places.{
  Remembered, truthy-Shows, put-Rows, put-Remembered, Stands-kept, next_active-Shows,
}

remember_viewed-Remembered :
    (f : String → List String) (id : String) (o : Option String) (d : Dict String)
    → ((n : String) → o ≡ some n → has n (f id) ≡ true)
    → Remembered f d
    → Remembered f (remember_viewed id o d)
unfolding remember_viewed
remember_viewed-Remembered f id none d h r = r
remember_viewed-Remembered f id (some n) d h r =
    put-Remembered f f id (λ j ne. refl) n d (h n refl) r

module _ {S : Type 0} (v : Server S) (z : S) {s : AppState} (m : IsMirror v z s) where
  pub fetched_workspaces-IsMirror : IsMirror v z (record s { workspaces = v.workspaces z })
  fetched_workspaces-IsMirror = record {
    workspaces = refl;
    sessions = m.sessions;
    stands = m.stands;
    remembers = m.remembers;
  }

  pub fetched_sessions-IsMirror :
      (id : String) → IsMirror v z (with_sessions id (v.sessions id z) s)
  fetched_sessions-IsMirror id = record {
    workspaces = m.workspaces;
    sessions =
        put-Rows (λ j. held v j z) (λ j. held v j z) id (λ j ne. refl) (v.sessions id z) s.sessions
          refl m.sessions;
    stands = m.stands;
    remembers = m.remembers;
  }

  pub polled-IsMirror :
      (id : String)
      → let sessions = v.sessions id z in
        IsMirror v z
          (if sessions_equal (sessions_of s id) sessions then s else with_sessions id sessions s)
  polled-IsMirror id = elim (Bool-cases (sessions_equal (sessions_of s id) (v.sessions id z))) [
    | inl e ↦ rw e m
    | inr e ↦ rw e (fetched_sessions-IsMirror id)
  ]

module _ {S : Type 0} (v : Server S) (laws : IsServer v) (z : S) {s : AppState} (t : IsTidy v z)
    (m : IsMirror v z s) where
  pub created_workspace-IsMirror :
      (name : String)
      → let (w, z1) = v.create_workspace name z in
        let (x, z2) = v.create_session w.id none z1 in IsMirror v z2 (add_workspace w x s)
  unfolding add_workspace
  created_workspace-IsMirror name =
      let (w, z1) = v.create_workspace name z in
      let (x, z2) = v.create_session w.id none z1 in
      let (ne, more, new, old) = laws.workspace_made name z in
      let known : has w.id (listed v z1) ≡ true = rw more (has-last w.id (listed v z)) in
      let (same, mine, rest) = laws.session_made w.id none z1 known in
      let kept : (j : String) → j ≢ w.id → held v j z2 ≡ held v j z = λ j p. rest j p ∙ old j p in
      let row : held v w.id z2 ≡ x.id ∷ [] = mine ∙ ap (λ xs. xs ++ x.id ∷ []) new in
      record {
        workspaces = map-last (λ (w : Workspace). w.id) w s.workspaces ∙ (cc (m.workspaces));
        sessions =
            put-Rows (λ j. held v j z) (λ j. held v j z2) w.id kept (x ∷ []) s.sessions (sym row)
              m.sessions;
        stands = rw (truthy_text w.id ne) (rw same known, rw row (has-last x.id []));
        remembers =
            put-Remembered (λ j. held v j z) (λ j. held v j z2) w.id kept x.id
              s.active_session_by_workspace (rw row (has-last x.id [])) m.remembers;
      }

  pub created_session-IsMirror :
      (wid : String) (title : Option String)
      → truthy s.active_workspace_id ≡ some wid
      → let (x, z') = v.create_session wid title z in IsMirror v z' (add_session wid x s)
  unfolding add_session
  created_session-IsMirror wid title active =
      let (x, z') = v.create_session wid title z in
      let known : has wid (listed v z) ≡ true = (rw active at m.stands).0 in
      let (same, mine, kept) = laws.session_made wid title z known in
      let held_x : has x.id (held v wid z') ≡ true = rw mine (has-last x.id (held v wid z)) in
      record {
        workspaces = m.workspaces ∙ sym same;
        sessions =
            put-Rows (λ j. held v j z) (λ j. held v j z') wid kept (sessions_of s wid ++ x ∷ [])
              s.sessions
              (map-last (λ (x : Session). x.id) x (sessions_of s wid) ∙ (cc (m.sessions wid)))
              m.sessions;
        stands = rw active (rw same known, held_x);
        remembers =
            put-Remembered (λ j. held v j z) (λ j. held v j z') wid kept x.id
              s.active_session_by_workspace held_x m.remembers;
      }

  pub renamed-IsMirror : (z' : S) → Untouched v z z' → IsMirror v z' s
  renamed-IsMirror z' (same, rows) = record {
    workspaces = m.workspaces ∙ sym same;
    sessions = λ j. m.sessions j ∙ sym (rows j);
    stands =
        Stands-kept v z z' (truthy s.active_workspace_id) s.active_session_id same (λ w e. rows w)
          m.stands;
    remembers = λ j x e. rw (rows j) (m.remembers j x e);
  }

  pub shown-IsMirror :
      (id : String) (list : List Session)
      → has id (listed v z) ≡ true
      → session_ids list ≡ held v id z
      → IsMirror v z (show_workspace id list s)
  unfolding show_workspace
  shown-IsMirror id list known e =
      let next = next_active (get id s.active_session_by_workspace) list in
      let shows : Shows (held v id z) next =
        subst (λ xs. Shows xs next) e
          (next_active-Shows (get id s.active_session_by_workspace) list) in
      record {
        workspaces = m.workspaces;
        sessions =
            put-Rows (λ j. held v j z) (λ j. held v j z) id (λ j ne. refl) list s.sessions e
              m.sessions;
        stands = rw (truthy_text id (t.named id known)) (known, shows);
        remembers =
            remember_viewed-Remembered (λ j. held v j z) id (truthy next)
              s.active_session_by_workspace (λ n q. truthy-Shows (held v id z) next n shows q)
              m.remembers;
      }
