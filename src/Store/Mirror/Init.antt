-- ===== src/Store/Mirror/Init.antt =====
-- The store of frontend/src/stores/appStore.ts mirrors the server as soon as `init` has ended.
use loci_terminal.Common.{
  ◌≡◌, refl, sym, ap, subst, ◌∙◌, String, true, List, [], ◌∷◌, ◌++◌, none, some, get_or, All, arith,
  truthy_text,
}
use loci_terminal.Dict.{Dict, get}
use loci_terminal.Dict.Laws.{get-put_self}
use loci_terminal.Store.State.{Workspace, Session, AppState}
use loci_terminal.Store.Api.{Ends, Ends-bind, ◌>>=◌}
use loci_terminal.Store.Workspaces.{init, list_all, fill, first_workspaces, first_session}
use loci_terminal.Store.Startup.{
  Agrees, Listed, Maps, fill-Agrees, fill-All, All-firsts, no_maps-Agrees,
}
use loci_terminal.Store.Steps.{inits}
use loci_terminal.Store.Mirror.Ids.{has, session_ids, workspace_ids, has-last}
use loci_terminal.Store.Mirror.{Server, IsServer, listed, held, IsTidy, IsMirror}
use loci_terminal.Store.Mirror.Serve.{opened, furnished, after, answer}
use loci_terminal.Store.Mirror.Tidy.{workspace_made-IsTidy}
use loci_terminal.Store.Mirror.Places.{Rows, Remembered, put-Rows, put-Remembered}
use loci_terminal.Store.Mirror.Startup.{Sent, fill-Genuine, list_all-Ends, Genuine-Rows}

module _ {S : Type 0} (v : Server S) where
  -- The maps of `init` are of the sessions of `z'`, and there is one to show in the workspace.
  abbrev Fits : S → String → Maps → Type 0
  Fits z' wid m =
      Rows (λ j. held v j z') m.0
      × Remembered (λ j. held v j z') m.1
      × ((x : String) × (get wid m.1 ≡ some x))

  furnished_full :
      (wid : String) (z : S) (xs : List Session) (i : String) (more : List String)
      → i ∷ more ≡ session_ids xs
      → furnished v wid z xs ≡ z
  furnished_full wid z [] i more e = absurd (cc)
  furnished_full wid z (x ∷ xs) i more e = refl

  furnished_empty :
      (wid : String) (z : S) (xs : List Session)
      → [] ≡ session_ids xs
      → furnished v wid z xs ≡ (v.create_session wid none z).1
  furnished_empty wid z [] e = refl
  furnished_empty wid z (x ∷ xs) e = absurd (cc)

  module _ (laws : IsServer v) (listing : List Workspace) (z z1 : S) (wid : String)
      (known : has wid (listed v z1) ≡ true) where
    first_session-Ends :
        (sessions : Dict (List Session)) (active : Dict String) (o : List Session)
        → get wid sessions ≡ some o
        → Rows (λ j. held v j z1) sessions
        → Remembered (λ j. held v j z1) active
        → Agrees sessions active
        → let z' = furnished v wid z1 (v.sessions wid z1) in
          Ends (Fits z' wid) (first_session (after v listing z z1) wid (sessions, active))
          × (listed v z' ≡ listed v z1)
    unfolding first_session
    first_session-Ends sessions active (x ∷ xs) e rows r a =
        let row : x.id ∷ session_ids xs ≡ held v wid z1 =
          ap (λ o. session_ids (get_or o [])) (sym e) ∙ rows wid in
        let q = furnished_full wid z1 (v.sessions wid z1) x.id (session_ids xs) row in
        rw (q, e, first_session) ((rows, r, (x.id, a.first_shown wid x xs e)), refl)
    first_session-Ends sessions active [] e rows r a =
        let row : [] ≡ held v wid z1 = ap (λ o. session_ids (get_or o [])) (sym e) ∙ rows wid in
        let q = furnished_empty wid z1 (v.sessions wid z1) row in
        let (x, z') = v.create_session wid none z1 in
        let (same, mine, kept) = laws.session_made wid none z1 known in
        let now : held v wid z' ≡ x.id ∷ [] = mine ∙ ap (λ xs. xs ++ x.id ∷ []) (sym row) in
        rw (q, e, first_session)
          (
            (
              put-Rows (λ j. held v j z1) (λ j. held v j z') wid kept (x ∷ []) sessions (sym now)
                  rows,
              put-Remembered (λ j. held v j z1) (λ j. held v j z') wid kept x.id active
                  (rw now (has-last x.id [])) r,
              (x.id, get-put_self wid x.id active),
            ),
            same,
          )

  module _ (laws : IsServer v) (listing : List Workspace) (z z1 : S) (t : IsTidy v z1)
      (w : Workspace) (ws : List Workspace)
      (listing_of : workspace_ids (w ∷ ws) ≡ listed v z1) where
    filled-Ends :
        (lists : List (Workspace × List Session))
        → Sent (λ x. held v x.id z1) (w ∷ ws) lists
        → let z' = furnished v w.id z1 (v.sessions w.id z1) in
          Ends (Fits z' w.id) (first_session (after v listing z z1) w.id (fill lists ([], [])))
          × (listed v z' ≡ listed v z1)
    filled-Ends lists (same, sent) =
        let (sessions, active) = fill lists ([], []) in
        let (g, r) =
          fill-Genuine (λ j. held v j z1) lists [] [] sent (λ j l e. absurd (unfold get in cc))
            (λ j x e. absurd (unfold get in cc)) in
        let rows : All (Listed sessions) (w ∷ ws) =
          subst (All (Listed sessions)) same
            (All-firsts (Listed sessions) lists (fill-All lists [] [])) in
        first_session-Ends laws listing z z1 w.id (rw (← listing_of) (ground arith)) sessions active
          rows.0.0 rows.0.1
          (Genuine-Rows (λ j. held v j z1) (w ∷ ws) sessions g rows
            (λ j e. t.orphans j (rw (← listing_of) e)))
          r (fill-Agrees lists [] [] no_maps-Agrees)

    -- What the last part of `init` sets up.
    started : Maps → AppState → AppState
    started m s = record s {
      workspaces = w ∷ ws;
      sessions = m.0;
      active_workspace_id = some w.id;
      active_session_id = get w.id m.1;
      active_session_by_workspace = m.1;
      initialized = true;
    }

    started-IsMirror :
        (z' : S) (m : Maps) (s : AppState)
        → listed v z' ≡ listed v z1
        → Fits z' w.id m
        → IsMirror v z' (started m s)
    unfolding started
    started-IsMirror z' m s same (rows, r, (x, e)) =
        let known : has w.id (listed v z1) ≡ true = rw (← listing_of) (ground arith) in
        record {
          workspaces = listing_of ∙ sym same;
          sessions = rows;
          stands = rw (truthy_text w.id (t.named w.id known)) (rw same known, rw e (r w.id x e));
          remembers = r;
        }

    lists-Ends :
        (s : AppState)
        → let a = after v listing z z1 in
          let z' = furnished v w.id z1 (v.sessions w.id z1) in
          Ends (IsMirror v z') (
            list_all a (w ∷ ws) >>= λ lists.
            first_session a w.id (fill lists ([], [])) >>= λ m. some (started m s))
    lists-Ends s =
        let a = after v listing z z1 in
        let z' = furnished v w.id z1 (v.sessions w.id z1) in
        Ends-bind (Sent (λ x. held v x.id z1) (w ∷ ws)) (IsMirror v z') (list_all a (w ∷ ws)) _
          (list_all-Ends a (λ wid. v.sessions wid z1) (λ wid. refl) (w ∷ ws))
          λ lists sent.
            let (ends, same) = filled-Ends lists sent in
            Ends-bind (Fits z' w.id) (IsMirror v z') (first_session a w.id (fill lists ([], []))) _
              ends λ m f. started-IsMirror z' m s same f

  opened-Ends :
      IsServer v
      → (z : S) (ws : List Workspace) (s : AppState) → workspace_ids ws ≡ listed v z
      → IsTidy v z
      → let (w, z1) = opened v z ws in
        Ends (IsMirror v (furnished v w.id z1 (v.sessions w.id z1))) (init (after v ws z z1) s)
  unfolding init first_workspaces started
  opened-Ends laws z (w ∷ ws) s e t = lists-Ends laws (w ∷ ws) z z t w ws e s
  opened-Ends laws z [] s e t =
      let (w, z1) = v.create_workspace "Default" z in
      let (ne, more, new, rest) = laws.workspace_made "Default" z in
      lists-Ends laws [] z z1 (workspace_made-IsTidy v laws "Default" z t) w []
        (sym (more ∙ ap (λ xs. xs ++ w.id ∷ []) (sym e))) s

  pub init-IsMirror :
      IsServer v
      → (z : S) (s : AppState) → IsTidy v z
      → Ends (IsMirror v (answer v inits z).1) (init (answer v inits z).0 s)
  init-IsMirror laws z s t = opened-Ends laws z (v.workspaces z) s refl t
