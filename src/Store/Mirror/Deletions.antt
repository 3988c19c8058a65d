-- ===== src/Store/Mirror/Deletions.antt =====
-- The deletions of frontend/src/stores/appStore.ts, once the server has made them.
use loci_terminal.Common.{
  ◌≡◌, ◌≢◌, refl, sym, ap, subst, ◌∙◌, inl, inr, String, true, not, List, [], filter,
  filter_of_none, Option, none, some, get_or, is, arith, str_dec, if◌then◌else◌, truthy,
  truthy_text, Bool-cases, Option-cases,
}
use loci_terminal.Dict.{Dict, get, delete}
use loci_terminal.Store.State.{Workspace, Session, AppState, is_option}
use loci_terminal.Store.Sessions.{sessions_of, first_id, reassign, remove_session}
use loci_terminal.Store.Workspaces.{landing, first_workspace_id, remove_workspace}
use loci_terminal.Store.Mirror.Ids.{
  has, first, first_none, workspace_ids, session_ids, has-first, has-filter, map-filter,
  first_workspace_id-first,
}
use loci_terminal.Store.Mirror.{Server, IsServer, listed, held, IsTidy, Shows, Stands, IsMirror}
use loci_terminal.Store.Mirror.Serve.{Nowhere}
use loci_terminal.Store.Mirror.Tidy.{workspace_deleted-IsTidy}
use loci_terminal.Store.Mirror.Places.{
  Rows, Remembered, put-Rows, put-Remembered, delete-Rows, delete-Remembered, first_id-Shows,
  truthy-Shows,
}

-- The session shown after a deletion is one of those left.
next-Shows :
    (id : String) (xs : List Session) (o : Option String)
    → Shows (session_ids xs) o
    → let rest = filter (λ (x : Session). not (is x.id id)) xs in
      Shows (session_ids rest) (if is_option o id then first_id rest else o)
next-Shows id xs none h =
    map-filter (λ (x : Session). x.id) id xs ∙ ap (filter λ i. not (is i id)) h
next-Shows id xs (some a) h = elim (Bool-cases (is a id)) [
  | inl e ↦ rw e (first_id-Shows (filter (λ (x : Session). not (is x.id id)) xs))
  | inr e ↦
      rw e (rw (map-filter (λ (x : Session). x.id) id xs) (has-filter a id (session_ids xs) e ∙ h))
]

-- The sessions remembered after a deletion are among those left.
reassign-Remembered :
    (f g : String → List String) (wid id : String) (next : Option String) (d : Dict String)
    → ((j : String) → j ≢ wid → g j ≡ f j)
    → g wid ≡ filter (λ i. not (is i id)) (f wid)
    → Shows (g wid) next
    → Remembered f d
    → Remembered g (reassign wid id next d)
unfolding reassign
reassign-Remembered f g wid id next d same less shows r =
    elim (Bool-cases (is_option (get wid d) id)) [
      | inl e ↦ elim (Option-cases (truthy next)) [
        | inl q ↦ rw (e, q) (delete-Remembered f g wid same d r)
        | inr (n, q) ↦
            rw (e, q) (put-Remembered f g wid same n d (truthy-Shows (g wid) next n shows q) r)
      ]
      | inr e ↦ rw e (λ j x h. elim (str_dec j wid) [
        | yes p ↦ rw (p, less) (has-filter x id (f wid) (ground arith) ∙ r wid x (cc))
        | no p ↦ rw (same j p) (r j x h)
      ])
    ]

-- The session shown in a workspace on which a deletion lands.
landing-Shows :
    (f : String → List String) (w : String) (sessions : Dict (List Session))
    (remembered : Dict String)
    → Rows f sessions
    → Remembered f remembered
    → Shows (f w) (landing (some w) sessions remembered)
unfolding landing
landing-Shows f w sessions remembered rows r = elim (Option-cases (get w remembered)) [
  | inl e ↦ elim (Option-cases (get w sessions)) [
    | inl q ↦ rw (e, q) (sym (rows w) ∙ (rw q))
    | inr (list, q) ↦
        rw (e, q)
          (subst (λ xs. Shows xs (first_id list))
            (ap (λ o. session_ids (get_or o [])) (sym q) ∙ rows w) (first_id-Shows list))
  ]
  | inr (x, e) ↦ rw e (r w x e)
]

landing-Stands :
    {S : Type 0} (v : Server S) (z : S) (o : Option String) (sessions : Dict (List Session))
    (remembered : Dict String)
    → IsTidy v z
    → first (listed v z) ≡ o
    → Rows (λ j. held v j z) sessions
    → Remembered (λ j. held v j z) remembered
    → Stands v z (truthy o) (landing (truthy o) sessions remembered)
unfolding truthy landing
landing-Stands v z none sessions remembered t e rows r = (first_none (listed v z) e, refl)
landing-Stands v z (some w) sessions remembered t e rows r =
    let known : has w (listed v z) ≡ true = has-first w (listed v z) e in
    rw (truthy_text w (t.named w known))
      (known, landing-Shows (λ j. held v j z) w sessions remembered rows r)

module _ {S : Type 0} (v : Server S) (laws : IsServer v) (z : S) {s : AppState} (t : IsTidy v z)
    (m : IsMirror v z s) where
  pub deleted_session-IsMirror :
      (wid id : String)
      → truthy s.active_workspace_id ≡ some wid
      → Nowhere v z s id
      → IsMirror v (v.delete_session id z) (remove_session id wid s)
  unfolding remove_session
  deleted_session-IsMirror wid id active nowhere =
      let z' = v.delete_session id z in
      let (same, less) = laws.session_deleted id z in
      let list = filter (λ (x : Session). not (is x.id id)) (sessions_of s wid) in
      let next : Option String =
        if is_option s.active_session_id id then first_id list else s.active_session_id in
      let row : session_ids list ≡ held v wid z' =
        map-filter (λ (x : Session). x.id) id (sessions_of s wid)
        ∙ ap (filter λ i. not (is i id)) (m.sessions wid)
        ∙ sym (less wid) in
      let kept : (j : String) → j ≢ wid → held v j z' ≡ held v j z =
        λ j p. less j ∙ filter_of_none (λ i. is i id) (held v j z) (nowhere j λ e. p (cc)) in
      let (known, shown) = rw active at m.stands in
      let shows : Shows (held v wid z') next =
        subst (λ xs. Shows xs next) row
          (next-Shows id (sessions_of s wid) s.active_session_id
            (subst (λ xs. Shows xs s.active_session_id) (sym (m.sessions wid)) shown)) in
      record {
        workspaces = m.workspaces ∙ sym same;
        sessions =
            put-Rows (λ j. held v j z) (λ j. held v j z') wid kept list s.sessions row m.sessions;
        stands = rw active (rw same known, shows);
        remembers =
            reassign-Remembered (λ j. held v j z) (λ j. held v j z') wid id next
              s.active_session_by_workspace kept (less wid) shows m.remembers;
      }

  pub deleted_workspace-IsMirror :
      (id : String) → IsMirror v (v.delete_workspace id z) (remove_workspace id s)
  unfolding remove_workspace
  deleted_workspace-IsMirror id =
      let z' = v.delete_workspace id z in
      let (less, gone, kept) = laws.workspace_deleted id z in
      let left = filter (λ (x : Workspace). not (is x.id id)) s.workspaces in
      let ids : workspace_ids left ≡ listed v z' =
        map-filter (λ (x : Workspace). x.id) id s.workspaces
        ∙ ap (filter λ i. not (is i id)) m.workspaces
        ∙ sym less in
      let rows : Rows (λ j. held v j z') (delete id s.sessions) =
        delete-Rows (λ j. held v j z) (λ j. held v j z') id kept s.sessions gone m.sessions in
      let remembered : Remembered (λ j. held v j z') (delete id s.active_session_by_workspace) =
        delete-Remembered (λ j. held v j z) (λ j. held v j z') id kept s.active_session_by_workspace
          m.remembers in
      record {
        workspaces = ids;
        sessions = rows;
        stands =
            landing-Stands v z' (first_workspace_id left) (delete id s.sessions)
              (delete id s.active_session_by_workspace) (workspace_deleted-IsTidy v laws id z t)
              (ap first (sym ids) ∙ sym (first_workspace_id-first left)) rows remembered;
        remembers = remembered;
      }
