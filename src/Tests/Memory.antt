-- ===== src/Tests/Memory.antt =====
-- A page with a server that keeps its data in memory.
use loci_terminal.Common.{
  arith, inl, inr, ◌≡◌, ◌≢◌, refl, sym, ap, ◌∙◌, String, not, List, [], ◌∷◌, ◌++◌, map, filter,
  some, get_or, is, if◌then◌else◌, str_dec, Bool-cases, truthy,
}
use loci_terminal.Dict.{get, put}
use loci_terminal.Store.State.{Workspace, Session, World, initial_state, initial_world, on_store}
use loci_terminal.Store.Sessions.{create_session, delete_session, in_active, remove_session}
use loci_terminal.Store.Workspaces.{init, first_workspaces, list_all, fill, first_session}
use loci_terminal.Store.Steps.{Call, inits, creates_session, deletes_session, resume}
use loci_terminal.Store.Mirror.{Server, IsServer, listed, held, IsTidy, IsMirror}
use loci_terminal.Store.Mirror.Serve.{answer, Sensible, asks, Run, begins, goes}
use loci_terminal.Store.Mirror.Run.{Run-IsMirror}
use loci_terminal.Tests.Data.{a_session, a_workspace}

-- The ids of the workspaces, and those of the sessions of each.
pub record Memory : Type 0 where
  pub ids : List String
  pub rows : String → List String

abbrev pub workspace_id : String → String
workspace_id name = if is name "" then "w" else name

abbrev pub workspaces : List String → List Workspace
workspaces = map a_workspace

abbrev pub sessions : String → List String → List Session
sessions wid = map λ id. a_session id wid

-- A new workspace has its name as its id, and a new session its title.
abbrev pub memory : Server Memory
memory = record {
  workspaces = λ z. workspaces z.ids;
  sessions = λ wid z. sessions wid (z.rows wid);
  create_workspace = λ name z. (
    a_workspace (workspace_id name),
    record {
      ids = z.ids ++ workspace_id name ∷ [];
      rows = λ j. if is j (workspace_id name) then [] else z.rows j;
    },
  );
  create_session = λ wid title z. (
    a_session (get_or title "s") wid,
    record z { rows = λ j. if is j wid then z.rows j ++ get_or title "s" ∷ [] else z.rows j },
  );
  update_workspace = λ id name z. (a_workspace id, z);
  update_session = λ id title z. (a_session id "", z);
  delete_workspace = λ id z. record {
    ids = filter (λ i. not (is i id)) z.ids;
    rows = λ j. if is j id then [] else z.rows j;
  };
  delete_session = λ id z. record z { rows = λ j. filter (λ i. not (is i id)) (z.rows j) };
}

ids_workspaces : (xs : List String) → map (λ (w : Workspace). w.id) (workspaces xs) ≡ xs
ids_workspaces [] = refl
ids_workspaces (x ∷ xs) = cc (ids_workspaces xs)

ids_sessions :
    (wid : String) (xs : List String) → map (λ (x : Session). x.id) (sessions wid xs) ≡ xs
ids_sessions wid [] = refl
ids_sessions wid (x ∷ xs) = cc (ids_sessions wid xs)

workspace_id-ne : (name : String) → workspace_id name ≢ ""
workspace_id-ne name = elim (Bool-cases (is name "")) [
  | inl e ↦ rw e (λ q. cc)
  | inr e ↦ rw e (λ q. absurd (ground arith))
]

-- What the page is told of the memory's rows.
abbrev Reads : Memory → Type 0
Reads z = (listed memory z ≡ z.ids) × ((j : String) → held memory j z ≡ z.rows j)

reads : (z : Memory) → Reads z
reads z = (ids_workspaces z.ids, λ j. ids_sessions j (z.rows j))

pub memory-IsServer : IsServer memory
memory-IsServer = record {
  workspace_made = λ name z.
      let z' = (memory.create_workspace name z).1 in
      let (a, b) = reads z in
      let (c, d) = reads z' in
      (
        workspace_id-ne name,
        c ∙ ap (λ xs. xs ++ workspace_id name ∷ []) (sym a),
        d (workspace_id name) ∙ ground arith,
        λ j ne. d j ∙ ground (arith, b j),
      );
  session_made = λ wid title z known.
      let z' = (memory.create_session wid title z).1 in
      let (a, b) = reads z in
      let (c, d) = reads z' in
      (refl, d wid ∙ ground (arith, b wid), λ j ne. d j ∙ ground (arith, b j));
  workspace_updated = λ id name z known. (refl, (refl, λ j. refl));
  session_updated = λ wid id title z known. (refl, (refl, λ j. refl));
  workspace_deleted = λ id z.
      let z' = memory.delete_workspace id z in
      let (a, b) = reads z in
      let (c, d) = reads z' in
      (
        c ∙ ap (filter λ i. not (is i id)) (sym a),
        d id ∙ ground arith,
        λ j ne. d j ∙ ground (arith, b j),
      );
  session_deleted = λ id z.
      let z' = memory.delete_session id z in
      let (a, b) = reads z in
      let (c, d) = reads z' in (refl, λ j. d j ∙ ap (filter λ i. not (is i id)) (sym (b j)));
}

abbrev pub empty : Memory
empty = record { ids = []; rows = λ j. [] }

pub empty-IsTidy : IsTidy memory empty
empty-IsTidy = record { named = λ w h. cc; orphans = λ j h. refl }

-- The page starts at an empty server, makes a session "t", and deletes it.
abbrev pub call : Call → Memory × World → Memory × World
call c (z, w) = ((answer memory c z).1, get_or (resume (answer memory c z).0 c w.store w) w)

abbrev pub begun : Memory × World
begun = call inits (empty, initial_world)

abbrev made : Memory × World
made = call (creates_session "Default" (some "t")) begun

abbrev deleted : Memory × World
deleted = call (deletes_session "t") made

deleted-Run : Run memory 0 deleted.0 deleted.1
unfolding resume init first_workspaces list_all fill first_session on_store initial_world
    initial_state get put create_session delete_session truthy in_active remove_session str_dec
    Bool-cases
deleted-Run =
    goes {now = 0}
      (goes {now = 0} (begins 0 empty {w = begun.1} empty-IsTidy refl) (omega arith)
        (asks (creates_session "Default" (some "t")) {w' = made.1} refl refl))
      (omega arith)
      (asks (deletes_session "t") {w' = deleted.1}
        (
          ("Default", refl, refl),
          λ j ne. elim (str_dec j "Default") [
            | yes p ↦ absurd (ne (rw p refl))
            | no p ↦ ground arith
          ],
        )
        refl)

Run-IsMirror_example :
    IsTidy memory deleted.0
    × IsMirror memory deleted.0 deleted.1.store
    × ((c : Call)
        → Sensible memory deleted.0 deleted.1.store c
        → (w' : World) × (resume (answer memory c deleted.0).0 c deleted.1.store deleted.1
            ≡ some w'))
Run-IsMirror_example = Run-IsMirror memory memory-IsServer deleted-Run
