-- ===== src/Client.antt =====
-- The requests of frontend/src/api/client.ts. `fetch` with `res.json()`, `JSON.stringify` and the reading of an
-- answer as a value of its type, which the client takes on trust, are parameters.
pub mod Routes
pub mod Sent
use Prim.Native.String.{◌++◌ as ◌<>◌}
use loci_terminal.Common.{String, List, [], ◌∷◌, Option, none, some, truthy, get_or}
use loci_terminal.Store.State.{Workspace, Session}
use loci_terminal.Store.Api.{Api, ◌>>=◌}

pub data Method : Type 0 where
  get post patch delete : Method

pub record Request : Type 0 where
  pub method : Method
  pub path : String
  pub body : Option String

-- The methods of `api` with their arguments.
pub data Ask : Type 0 where
  lists_workspaces : Ask
  creates_workspace deletes_workspace lists_sessions deletes_session : String → Ask
  updates_workspace updates_session : String → String → Ask
  creates_session : String → Option String → Ask

-- `BASE`
abbrev pub base : String
base = "/api/v1"

-- `title || 'Terminal'`
abbrev pub title_or_default : Option String → String
title_or_default title = get_or (truthy title) "Terminal"

-- An object with one field that is a text, as a body.
module _ (stringify : String → String → String) where
  -- The request of each method, as it is given to `fetch`: the path is the text that the source writes, with the
  -- ids as they are. One without a method of its own is a GET.
  unfoldable pub request_of : Ask → Request
  request_of lists_workspaces = record { method = get; path = base <> "/workspaces"; body = none }
  request_of (creates_workspace name) = record {
    method = post;
    path = base <> "/workspaces";
    body = some (stringify "name" name);
  }
  request_of (updates_workspace id name) = record {
    method = patch;
    path = base <> ("/workspaces/" <> id);
    body = some (stringify "name" name);
  }
  request_of (deletes_workspace id) = record {
    method = delete;
    path = base <> ("/workspaces/" <> id);
    body = none;
  }
  request_of (lists_sessions wid) = record {
    method = get;
    path = base <> ("/workspaces/" <> (wid <> "/sessions"));
    body = none;
  }
  request_of (creates_session wid title) = record {
    method = post;
    path = base <> ("/workspaces/" <> (wid <> "/sessions"));
    body = some (stringify "title" (title_or_default title));
  }
  request_of (updates_session id title) = record {
    method = patch;
    path = base <> ("/sessions/" <> id);
    body = some (stringify "title" title);
  }
  request_of (deletes_session id) = record {
    method = delete;
    path = base <> ("/sessions/" <> id);
    body = none;
  }

  -- `api`, over the answers of the server, as the store takes it.
  module _ {J : Type 0} (fetch_json : Request → Option J) (workspace : J → Workspace)
      (workspaces : J → List Workspace) (session : J → Session) (sessions : J → List Session) where
    unfoldable pub client : Api
    unfolding request_of
    client = record {
      list_workspaces = fetch_json (request_of lists_workspaces) >>= λ j. some (workspaces j);
      create_workspace =
          λ name. fetch_json (request_of (creates_workspace name)) >>= λ j. some (workspace j);
      update_workspace = λ id name.
          fetch_json (request_of (updates_workspace id name)) >>= λ j. some (workspace j);
      delete_workspace = λ id. fetch_json (request_of (deletes_workspace id)) >>= λ j. some tt;
      list_sessions = λ id. fetch_json (request_of (lists_sessions id)) >>= λ j. some (sessions j);
      create_session =
          λ id title. fetch_json (request_of (creates_session id title)) >>= λ j. some (session j);
      update_session =
          λ id title. fetch_json (request_of (updates_session id title)) >>= λ j. some (session j);
      delete_session = λ id. fetch_json (request_of (deletes_session id)) >>= λ j. some tt;
    }
