-- ===== src/Client/Sent.antt =====
-- What `fetch` sends for the requests of frontend/src/api/client.ts, which puts ids into paths as they are: `fetch`
-- reads a path as a URL, drops what follows a `#` and resolves `.` and `..`, but keeps a path of plain characters.
use Prim.Native.Char.{Char, code}
use Prim.Native.String.{◌++◌ as ◌<>◌}
use text.Mathlib.TextLemmas.{nil-append, cons-append}
use loci_terminal.Common.{◌≡◌, String, Bool, true, ◌&&◌, ◌||◌, leb, eqb, arith}
use loci_terminal.Client.{
  Ask, Request, request_of, updates_workspace, deletes_workspace, lists_sessions, creates_session,
  updates_session, deletes_session,
}

-- A letter, a digit, a hyphen, an underscore or a slash.
abbrev pub is_plain_char : Char → Bool
is_plain_char c =
    let n = code c in
    (leb 97 n && leb n 122)
    || (leb 65 n && leb n 90)
    || (leb 47 n && leb n 57)
    || eqb n 45
    || eqb n 95

abbrev pub is_plain : String → Bool
is_plain String.[] = true
is_plain (String.◌∷◌ c s) = is_plain_char c && is_plain s

pub is_plain_append :
    (x y : String) → is_plain x ≡ true → is_plain y ≡ true → is_plain (x <> y) ≡ true
is_plain_append String.[] y p q = rw (nil-append y) q
is_plain_append (String.◌∷◌ c s) y p q =
    rw (cons-append c s y) (ground (arith, is_plain_append s y))

-- The ids that a call names are of plain characters.
abbrev pub IsPlain : Ask → Type 0
IsPlain (updates_workspace id name) = is_plain id ≡ true
IsPlain (deletes_workspace id) = is_plain id ≡ true
IsPlain (lists_sessions id) = is_plain id ≡ true
IsPlain (creates_session id title) = is_plain id ≡ true
IsPlain (updates_session id title) = is_plain id ≡ true
IsPlain (deletes_session id) = is_plain id ≡ true
IsPlain _ = Unit

module _ (stringify : String → String → String) (url : String → String) where
  -- The request as it leaves the browser, where `url` says what becomes of a path.
  unfoldable pub sent : Ask → Request
  sent a = record (request_of stringify a) { path = url (request_of stringify a).path }
