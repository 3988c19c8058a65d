-- ===== src/Store/Mirror/Serve.antt =====
-- Calls of the store of frontend/src/stores/appStore.ts that the server answers, one at a time: each
-- ends before the next begins, and none fails.
use loci_terminal.Common.{ℕ, ◌≤◌, ◌≡◌, ◌≢◌, String, true, false, List, [], ◌∷◌, none, some, truthy}
use loci_terminal.Store.State.{Workspace, Session, AppState, World, initial_world}
use loci_terminal.Store.Api.{Api}
use loci_terminal.Store.Steps.{
  Call, inits, fetches_workspaces, polls, creates_workspace, deletes_workspace, shows_workspace,
  fetches_sessions, deletes_session, renames_workspace, renames_session, creates_session, resume,
  Step, selects, answers,
}
use loci_terminal.Store.Mirror.Ids.{has}
use loci_terminal.Store.Mirror.{Server, listed, held, IsTidy}

module _ {S : Type 0} (v : Server S) where
  -- Every answer of the server from one state.
  abbrev pub at : S → Api
  at z = record {
    list_workspaces = some (v.workspaces z);
    create_workspace = λ name. some (v.create_workspace name z).0;
    update_workspace = λ id name. some (v.update_workspace id name z).0;
    delete_workspace = λ id. some tt;
    list_sessions = λ wid. some (v.sessions wid z);
    create_session = λ wid title. some (v.create_session wid title z).0;
    update_session = λ id title. some (v.update_session id title z).0;
    delete_session = λ id. some tt;
  }

  -- The first workspace, and the server after one was created where it had none.
  abbrev pub opened : S → List Workspace → Workspace × S
  opened z [] = v.create_workspace "Default" z
  opened z (w ∷ ws) = (w, z)

  -- The server after a session was created in a workspace without any.
  abbrev pub furnished : String → S → List Session → S
  furnished wid z [] = (v.create_session wid none z).1
  furnished wid z (x ∷ xs) = z

  -- The answers to the requests for the workspaces and for a new one, and then at the state `z'` that
  -- this leaves.
  abbrev pub after : List Workspace → S → S → Api
  after ws z z' = record (at z') {
    list_workspaces = some ws;
    create_workspace = λ name. some (v.create_workspace name z).0;
  }

  -- The answers to a call's requests, and the state of the server behind them.
  abbrev pub answer : Call → S → Api × S
  answer inits z =
      let (w, z') = opened z (v.workspaces z) in
      (after (v.workspaces z) z z', furnished w.id z' (v.sessions w.id z'))
  answer fetches_workspaces z = (at z, z)
  answer polls z = (at z, z)
  answer (creates_workspace name) z =
      let (w, z') = v.create_workspace name z in
      (after (v.workspaces z) z z', (v.create_session w.id none z').1)
  answer (deletes_workspace id) z = (at z, v.delete_workspace id z)
  answer (shows_workspace id) z = (at z, z)
  answer (fetches_sessions id) z = (at z, z)
  answer (deletes_session id) z = (at z, v.delete_session id z)
  answer (renames_workspace id name) z = (at z, (v.update_workspace id name z).1)
  answer (renames_session id title) z = (at z, (v.update_session id title z).1)
  answer (creates_session wid title) z = (at z, (v.create_session wid title z).1)

  -- The session is one of the active workspace.
  abbrev pub Inside : S → AppState → String → Type 0
  Inside z s id =
      (wid : String) × (truthy s.active_workspace_id ≡ some wid) × (has id (held v wid z) ≡ true)

  -- No workspace other than the active one has the session.
  abbrev pub Nowhere : S → AppState → String → Type 0
  Nowhere z s id =
      (j : String) → truthy s.active_workspace_id ≢ some j → has id (held v j z) ≡ false

  -- The page asks for what it lists: a session of the active workspace, which is in no other, or a
  -- workspace of the list; a new session is for the active workspace.
  abbrev pub Sensible : S → AppState → Call → Type 0
  Sensible z s (shows_workspace id) = has id (listed v z) ≡ true
  Sensible z s (renames_workspace id name) = has id (listed v z) ≡ true
  Sensible z s (creates_session wid title) = truthy s.active_workspace_id ≡ some wid
  Sensible z s (deletes_session id) = Inside z s id × Nowhere z s id
  Sensible z s (renames_session id title) = Inside z s id
  Sensible z s _ = Unit

  -- A step that asks nothing of the server; the session that it selects is one of the active workspace.
  abbrev pub Local : S → {now : ℕ} {w w' : World} → Step now w w' → Type 0
  Local z {w = w} (selects id) = Inside z w.store id
  Local z (answers api call before e) = ⊥
  Local z _ = Unit

  -- One step of the page with its server.
  pub data Serve (now : ℕ) (z : S) (w : World) : S → World → Type 0 where
    acts : {w' : World} (st : Step now w w') → Local z st → Serve now z w z w'
    asks :
        (call : Call) {w' : World}
        → Sensible z w.store call
        → resume (answer call z).0 call w.store w ≡ some w'
        → Serve now z w (answer call z).1 w'

  -- The states of server and page from the page's start on, at a server that was in use before.
  pub data Run : ℕ → S → World → Type 0 where
    begins :
        (now : ℕ) (z : S) {w : World}
        → IsTidy v z
        → resume (answer inits z).0 inits initial_world.store initial_world ≡ some w
        → Run now (answer inits z).1 w
    goes :
        {now later : ℕ} {z z' : S} {w w' : World}
        → Run now z w
        → now ≤ later
        → Serve later z w z' w'
        → Run later z' w'
