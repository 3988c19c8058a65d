-- ===== src/Tests/Late.antt =====
-- A session that is created, and one that is deleted, in a workspace that the user has left.
use loci_terminal.Common.{◌≡◌, refl, true, some, truthy, arith, str_dec, Bool-cases}
use loci_terminal.Dict.{get, put}
use loci_terminal.Store.State.{World, AppState, initial_state, initial_world, on_store}
use loci_terminal.Store.Sessions.{sessions_of, create_session, delete_session}
use loci_terminal.Store.Steps.{resume, creates_workspace}
use loci_terminal.Store.Workspaces.{
  init, first_workspaces, list_all, fill, first_session, create_workspace,
}
use loci_terminal.Store.Mirror.Ids.{has, session_ids}
use loci_terminal.Store.Mirror.{IsMirror}
use loci_terminal.Store.Mirror.Serve.{at, Run, begins, goes, asks}
use loci_terminal.Store.Mirror.Run.{Run-IsMirror}
use loci_terminal.Store.Mirror.Late.{created_late, deleted_late}
use loci_terminal.Tests.Data.{differ}
use loci_terminal.Tests.Memory.{Memory, memory, memory-IsServer, empty, empty-IsTidy, begun, call}

-- The user has gone from "Default" to "v".
abbrev gone : Memory × World
gone = call (creates_workspace "v") begun

gone-Run : Run memory 0 gone.0 gone.1
unfolding resume init first_workspaces list_all fill first_session on_store initial_world
    initial_state get put create_workspace str_dec Bool-cases
gone-Run =
    goes {now = 0} (begins 0 empty {w = begun.1} empty-IsTidy refl) (omega arith)
      (asks (creates_workspace "v") {w' = gone.1} tt refl)

gone-IsMirror : IsMirror memory gone.0 gone.1.store
gone-IsMirror = let (t, m, ends) = Run-IsMirror memory memory-IsServer gone-Run in m

created_late_example :
    let (x, z') = memory.create_session "Default" (some "t") gone.0 in
    (s' : AppState) × (create_session (at memory gone.0) "Default" (some "t") gone.1.store
      ≡ some s')
    × (s'.active_session_id ≡ some x.id)
    × (s'.active_workspace_id ≡ gone.1.store.active_workspace_id)
    × ¬ IsMirror memory z' s'
unfolding resume init first_workspaces list_all fill first_session on_store initial_world
    initial_state get put create_workspace truthy str_dec Bool-cases
created_late_example =
    created_late memory memory-IsServer gone.0 "Default" "v" (differ "Default" "v" refl) (some "t")
      gone.1.store gone-IsMirror refl refl refl

deleted_late_example :
    (w' : World) × (delete_session (at memory gone.0) "s" gone.1 ≡ some w')
    × (has "s" (session_ids (sessions_of w'.store "Default")) ≡ true)
    × ¬ IsMirror memory (memory.delete_session "s" gone.0) w'.store
unfolding resume init first_workspaces list_all fill first_session on_store initial_world
    initial_state get put create_workspace truthy str_dec Bool-cases
deleted_late_example =
    deleted_late memory memory-IsServer gone.0 "Default" "v" (differ "Default" "v" refl) "s" gone.1
      gone-IsMirror refl refl
