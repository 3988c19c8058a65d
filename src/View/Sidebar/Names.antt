-- ===== src/View/Sidebar/Names.antt =====
-- The names that the sidebar of frontend/src/components/Sidebar/Sidebar.tsx sends to the server.
use loci_terminal.Common.{
  ◌≡◌, ◌≢◌, ◌⊎◌, inl, inr, String, false, [], ◌∷◌, ◌++◌, none, some, arith, str_dec, Option-cases,
}
use loci_terminal.Store.State.{Workspace, on_store}
use loci_terminal.Store.Api.{Api}
use loci_terminal.Store.Workspaces.{create_workspace, add_workspace}
use loci_terminal.View.Trim.{trim, begins_blank, ends_blank, trim-ends}
use loci_terminal.View.Sidebar.{Desk, handle_create}

-- A name that a workspace may get: not empty, and with no white space at its ends.
pub record IsName (name : String) : Type 0 where
  pub filled : name ≢ ""
  pub start : begins_blank name ≡ false
  pub end : ends_blank name ≡ false

trim-IsName : (s : String) → trim s ≢ "" → IsName (trim s)
trim-IsName s ne = record { filled = ne; start = (trim-ends s).0; end = (trim-ends s).1 }

-- The desk after the server has made the workspace and its session.
pub record IsMade (api : Api) (d d' : Desk) : Type 0 where
  pub workspace : Workspace
  pub named : IsName (trim d.panel.new_name)
  pub answered : api.create_workspace (trim d.panel.new_name) ≡ some workspace
  pub appended : d'.world.store.workspaces ≡ d.world.store.workspaces ++ workspace ∷ []
  pub shown : d'.world.store.active_workspace_id ≡ some workspace.id
  pub emptied : d'.panel.new_name ≡ ""
  pub closed : d'.panel.creating ≡ false

-- `handleCreate` either changes nothing, where the typed name is blank or one of the server's two answers
-- is missing, or it appends the workspace that the server made for the trimmed name, shows it, and
-- closes the form.
pub handle_create-IsMade :
    (api : Api) (d : Desk)
    → ((handle_create api d ≡ d)
        × ((trim d.panel.new_name ≡ "")
            ⊎ (create_workspace api (trim d.panel.new_name) d.world.store ≡ none)))
      ⊎ IsMade api d (handle_create api d)
unfolding handle_create on_store create_workspace add_workspace
handle_create-IsMade api d = elim (str_dec (trim d.panel.new_name) "") [
  | yes e ↦ inl (ground arith, inl e)
  | no ne ↦ elim (Option-cases (api.create_workspace (trim d.panel.new_name))) [
    | inl e ↦ inl (ground arith, inr ground arith)
    | inr (ws, e) ↦ elim (Option-cases (api.create_session ws.id none)) [
      | inl f ↦ inl (ground arith, inr ground arith)
      | inr (sess, f) ↦ inr (record {
        workspace = ws;
        named = trim-IsName d.panel.new_name ne;
        answered = e;
        appended = ground arith;
        shown = ground arith;
        emptied = ground arith;
        closed = ground arith;
      })
    ]
  ]
]
