-- ===== src/Terminal/Upload.antt =====
-- Files dropped on a terminal: `onDrop` of frontend/src/components/Terminal/TerminalView.tsx, with the
-- error of frontend/src/api/upload.ts. The server's answers are parameters, and the paste into xterm is
-- a list of texts, the newest last; the session has its instance, since it is on the screen.
use Prim.Native.String.{◌++◌ as ◌<>◌}
use loci_terminal.Common.{ℕ, String, Bool, false, List, [], ◌∷◌, ◌++◌, Option, some, none, truthy}
use loci_terminal.Store.Activity.{decimal}

-- How the upload of a file ends: with the path on the server, or with the text of an error.
pub data Upload : Type 0 where
  stored failed : String → Upload

-- The server's answer to an upload: the stored path, or a status that is not a success, with the
-- `error` of a JSON body where there is one.
pub data Answer : Type 0 where
  accepted : String → Answer
  refused : ℕ → Option String → Answer

-- The state of a `TerminalView` and what it has pasted.
pub record View : Type 0 where
  pub is_dragging : Bool
  pub uploading_name : Option String
  pub error_msg : Option String
  pub pasted : List String

-- `uploadFile`
unfoldable pub upload_file : Answer → Upload
upload_file (accepted path) = stored path
upload_file (refused status none) = failed ("upload failed: " <> decimal status)
upload_file (refused status (some error)) =
    failed ("upload failed: " <> (error <> (" (" <> (decimal status <> ")"))))

-- One turn of the loop of `onDrop`, with the file's name and how its upload ends.
unfoldable pub drop_file : String → Upload → View → View
drop_file name (stored path) v = record v {
  uploading_name = some name;
  pasted = v.pasted ++ (path <> " ") ∷ [];
}
drop_file name (failed error) v = record v { uploading_name = some name; error_msg = some error }

unfoldable pub drop_files : List (String × Upload) → View → View
unfolding drop_file
drop_files [] v = v
drop_files ((name, upload) ∷ files) v = drop_files files (drop_file name upload v)

-- `onDrop`
unfoldable pub on_drop : Option String → List (String × Upload) → View → View
on_drop session_id files v =
    let v' = record v { is_dragging = false } in
    elim (truthy session_id) [
      | none ↦ v'
      | some id ↦ elim files [
        | [] ↦ v'
        | f ∷ fs ↦ record (drop_files (f ∷ fs) (record v' { error_msg = none })) {
          uploading_name = none;
        }
      ]
    ]

-- The stored paths, in the order of the files, as they are pasted.
unfoldable pub stored_texts : List (String × Upload) → List String
stored_texts [] = []
stored_texts ((name, stored path) ∷ files) = (path <> " ") ∷ stored_texts files
stored_texts ((name, failed error) ∷ files) = stored_texts files

-- The error of the last file that failed, or `e`.
unfoldable pub last_error : Option String → List (String × Upload) → Option String
last_error e [] = e
last_error e ((name, stored path) ∷ files) = last_error e files
last_error e ((name, failed error) ∷ files) = last_error (some error) files
