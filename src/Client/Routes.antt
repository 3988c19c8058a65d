-- ===== src/Client/Routes.antt =====
-- Which requests of frontend/src/api/client.ts can be taken for one another, as the texts that `fetch` is given.
use Prim.Native.Char.{Char, code}
use Prim.Native.String.{◌++◌ as ◌<>◌}
use text.Mathlib.TextLemmas.{
  append_cancel_left, append_cancel_right, cons-append, append_assoc, nil≢cons, head-eq_of_cons-eq,
}
use mathlib.Core.Path.{Path}
use loci_terminal.Common.{◌≡◌, refl, ap, sym, ◌∙◌, String, Option, some, ℕ, arith}
use loci_terminal.Client.{
  Ask, base, title_or_default, request_of, lists_workspaces, creates_workspace, updates_workspace,
  deletes_workspace, lists_sessions, creates_session, updates_session, deletes_session,
}

-- The title that is sent is not empty; a missing one stands for the default.
abbrev pub settled : Ask → Ask
settled (creates_session wid title) = creates_session wid (some (title_or_default title))
settled a = a

-- The rest of a path after what two paths share.
tail : (prefix x y : String) → base <> (prefix <> x) ≡ base <> (prefix <> y) → x ≡ y
tail prefix x y e =
    append_cancel_left prefix x y (append_cancel_left base (prefix <> x) (prefix <> y) e)

within :
    (x y : String)
    → base <> ("/workspaces/" <> (x <> "/sessions"))
      ≡ base <> ("/workspaces/" <> (y <> "/sessions"))
    → x ≡ y
within x y e =
    append_cancel_right x y "/sessions"
      (tail "/workspaces/" (x <> "/sessions") (y <> "/sessions") e)

-- The collection is no member of itself.
no_tail : (x : String) → base <> "/workspaces" ≡ base <> ("/workspaces/" <> x) → ⊥
no_tail x e =
    let cut = append_cancel_left base "/workspaces" ("/workspaces/" <> x) e in
    let slash =
      append_cancel_left "/workspaces" "" ("/" <> x) (cut ∙ append_assoc "/workspaces" "/" x) in
    nil≢cons (slash ∙ cons-append "/" "" x)

-- A workspace is no session.
apart : (x y : String) → base <> ("/workspaces/" <> x) ≡ base <> ("/sessions/" <> y) → ⊥
apart x y e =
    let cut = append_cancel_left base ("/workspaces/" <> x) ("/sessions/" <> y) e in
    let slash =
      append_cancel_left "/" ("workspaces/" <> x) ("sessions/" <> y)
        (sym (append_assoc "/" "workspaces/" x) ∙ cut ∙ append_assoc "/" "sessions/" y) in
    let heads : Path Char "w" "s" =
      head-eq_of_cons-eq
        (sym (cons-append "w" "orkspaces/" x) ∙ slash ∙ cons-append "s" "essions/" y) in
    let codes : ◌≡◌ {A = ℕ} 119 115 = ap code heads in absurd (omega arith)

filled : {x y : String} → Path (Option String) (some x) (some y) → x ≡ y
filled e = cc

module _ (stringify : String → String → String)
    (same : (k x y : String) → stringify k x ≡ stringify k y → x ≡ y) where
  lists_workspaces_inj :
      (b : Ask)
      → request_of stringify lists_workspaces ≡ request_of stringify b
      → settled lists_workspaces ≡ settled b
  unfolding request_of
  lists_workspaces_inj lists_workspaces e = refl
  lists_workspaces_inj (creates_workspace n') e = absurd (cc)
  lists_workspaces_inj (updates_workspace i' n') e = absurd (cc)
  lists_workspaces_inj (deletes_workspace i') e = absurd (cc)
  lists_workspaces_inj (lists_sessions i') e =
      absurd (no_tail (i' <> "/sessions") (ap (λ r. r.path) e))
  lists_workspaces_inj (creates_session i' t') e = absurd (cc)
  lists_workspaces_inj (updates_session i' n') e = absurd (cc)
  lists_workspaces_inj (deletes_session i') e = absurd (cc)

  creates_workspace_inj :
      (n : String) (b : Ask)
      → request_of stringify (creates_workspace n) ≡ request_of stringify b
      → settled (creates_workspace n) ≡ settled b
  unfolding request_of
  creates_workspace_inj n lists_workspaces e = absurd (cc)
  creates_workspace_inj n (creates_workspace n') e =
      ap creates_workspace (same "name" n n' (filled (ap (λ r. r.body) e)))
  creates_workspace_inj n (updates_workspace i' n') e = absurd (cc)
  creates_workspace_inj n (deletes_workspace i') e = absurd (cc)
  creates_workspace_inj n (lists_sessions i') e = absurd (cc)
  creates_workspace_inj n (creates_session i' t') e =
      absurd (no_tail (i' <> "/sessions") (ap (λ r. r.path) e))
  creates_workspace_inj n (updates_session i' n') e = absurd (cc)
  creates_workspace_inj n (deletes_session i') e = absurd (cc)

  updates_workspace_inj :
      (i : String) (n : String) (b : Ask)
      → request_of stringify (updates_workspace i n) ≡ request_of stringify b
      → settled (updates_workspace i n) ≡ settled b
  unfolding request_of
  updates_workspace_inj i n lists_workspaces e = absurd (cc)
  updates_workspace_inj i n (creates_workspace n') e = absurd (cc)
  updates_workspace_inj i n (updates_workspace i' n') e = cc (
    tail "/workspaces/" i i' (ap (λ r. r.path) e),
    same "name" n n' (filled (ap (λ r. r.body) e)),
  )
  updates_workspace_inj i n (deletes_workspace i') e = absurd (cc)
  updates_workspace_inj i n (lists_sessions i') e = absurd (cc)
  updates_workspace_inj i n (creates_session i' t') e = absurd (cc)
  updates_workspace_inj i n (updates_session i' n') e = absurd (apart i i' (ap (λ r. r.path) e))
  updates_workspace_inj i n (deletes_session i') e = absurd (cc)

  deletes_workspace_inj :
      (i : String) (b : Ask)
      → request_of stringify (deletes_workspace i) ≡ request_of stringify b
      → settled (deletes_workspace i) ≡ settled b
  unfolding request_of
  deletes_workspace_inj i lists_workspaces e = absurd (cc)
  deletes_workspace_inj i (creates_workspace n') e = absurd (cc)
  deletes_workspace_inj i (updates_workspace i' n') e = absurd (cc)
  deletes_workspace_inj i (deletes_workspace i') e =
      ap deletes_workspace (tail "/workspaces/" i i' (ap (λ r. r.path) e))
  deletes_workspace_inj i (lists_sessions i') e = absurd (cc)
  deletes_workspace_inj i (creates_session i' t') e = absurd (cc)
  deletes_workspace_inj i (updates_session i' n') e = absurd (cc)
  deletes_workspace_inj i (deletes_session i') e = absurd (apart i i' (ap (λ r. r.path) e))

  lists_sessions_inj :
      (i : String) (b : Ask)
      → request_of stringify (lists_sessions i) ≡ request_of stringify b
      → settled (lists_sessions i) ≡ settled b
  unfolding request_of
  lists_sessions_inj i lists_workspaces e =
      absurd (no_tail (i <> "/sessions") (sym (ap (λ r. r.path) e)))
  lists_sessions_inj i (creates_workspace n') e = absurd (cc)
  lists_sessions_inj i (updates_workspace i' n') e = absurd (cc)
  lists_sessions_inj i (deletes_workspace i') e = absurd (cc)
  lists_sessions_inj i (lists_sessions i') e = ap lists_sessions (within i i' (ap (λ r. r.path) e))
  lists_sessions_inj i (creates_session i' t') e = absurd (cc)
  lists_sessions_inj i (updates_session i' n') e = absurd (cc)
  lists_sessions_inj i (deletes_session i') e = absurd (cc)

  creates_session_inj :
      (i : String) (t : Option String) (b : Ask)
      → request_of stringify (creates_session i t) ≡ request_of stringify b
      → settled (creates_session i t) ≡ settled b
  unfolding request_of
  creates_session_inj i t lists_workspaces e = absurd (cc)
  creates_session_inj i t (creates_workspace n') e =
      absurd (no_tail (i <> "/sessions") (sym (ap (λ r. r.path) e)))
  creates_session_inj i t (updates_workspace i' n') e = absurd (cc)
  creates_session_inj i t (deletes_workspace i') e = absurd (cc)
  creates_session_inj i t (lists_sessions i') e = absurd (cc)
  creates_session_inj i t (creates_session i' t') e = cc (
    within i i' (ap (λ r. r.path) e),
    same "title" (title_or_default t) (title_or_default t') (filled (ap (λ r. r.body) e)),
  )
  creates_session_inj i t (updates_session i' n') e = absurd (cc)
  creates_session_inj i t (deletes_session i') e = absurd (cc)

  updates_session_inj :
      (i : String) (n : String) (b : Ask)
      → request_of stringify (updates_session i n) ≡ request_of stringify b
      → settled (updates_session i n) ≡ settled b
  unfolding request_of
  updates_session_inj i n lists_workspaces e = absurd (cc)
  updates_session_inj i n (creates_workspace n') e = absurd (cc)
  updates_session_inj i n (updates_workspace i' n') e =
      absurd (apart i' i (sym (ap (λ r. r.path) e)))
  updates_session_inj i n (deletes_workspace i') e = absurd (cc)
  updates_session_inj i n (lists_sessions i') e = absurd (cc)
  updates_session_inj i n (creates_session i' t') e = absurd (cc)
  updates_session_inj i n (updates_session i' n') e =
      cc (
        tail "/sessions/" i i' (ap (λ r. r.path) e),
        same "title" n n' (filled (ap (λ r. r.body) e)),
      )
  updates_session_inj i n (deletes_session i') e = absurd (cc)

  deletes_session_inj :
      (i : String) (b : Ask)
      → request_of stringify (deletes_session i) ≡ request_of stringify b
      → settled (deletes_session i) ≡ settled b
  unfolding request_of
  deletes_session_inj i lists_workspaces e = absurd (cc)
  deletes_session_inj i (creates_workspace n') e = absurd (cc)
  deletes_session_inj i (updates_workspace i' n') e = absurd (cc)
  deletes_session_inj i (deletes_workspace i') e = absurd (apart i' i (sym (ap (λ r. r.path) e)))
  deletes_session_inj i (lists_sessions i') e = absurd (cc)
  deletes_session_inj i (creates_session i' t') e = absurd (cc)
  deletes_session_inj i (updates_session i' n') e = absurd (cc)
  deletes_session_inj i (deletes_session i') e =
      ap deletes_session (tail "/sessions/" i i' (ap (λ r. r.path) e))

  -- Where `JSON.stringify` writes two texts of one field alike only if they are equal: two calls that give `fetch`
  -- the same texts are the same call, but that a missing or empty title is the default one.
  pub request_of_inj :
      (a b : Ask) → request_of stringify a ≡ request_of stringify b → settled a ≡ settled b
  request_of_inj lists_workspaces b e = lists_workspaces_inj b e
  request_of_inj (creates_workspace n) b e = creates_workspace_inj n b e
  request_of_inj (updates_workspace i n) b e = updates_workspace_inj i n b e
  request_of_inj (deletes_workspace i) b e = deletes_workspace_inj i b e
  request_of_inj (lists_sessions i) b e = lists_sessions_inj i b e
  request_of_inj (creates_session i t) b e = creates_session_inj i t b e
  request_of_inj (updates_session i n) b e = updates_session_inj i n b e
  request_of_inj (deletes_session i) b e = deletes_session_inj i b e
