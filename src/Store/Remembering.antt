-- ===== src/Store/Remembering.antt =====
-- Which sessions `init` of frontend/src/stores/appStore.ts remembers for the workspaces: each is the first of the
-- list that the server has sent for its workspace.
use loci_terminal.Common.{
  ◌≡◌, inl, inr, String, List, [], ◌∷◌, Option, some, All, arith, Option-cases, str_dec,
}
use loci_terminal.Dict.{Dict, get, put}
use loci_terminal.Dict.Laws.{get-put}
use loci_terminal.Store.State.{Workspace, Session}
use loci_terminal.Store.Api.{Api, Ensures, Ensures-bind}
use loci_terminal.Store.Workspaces.{list_all, fill}

-- A session that is remembered for a workspace is the first of its list.
abbrev pub Backed : Dict (List Session) → Dict String → Type 0
Backed sessions active =
    (wid n : String)
    → get wid active ≡ some n
    → (x : Session) × (xs : List Session) × (get wid sessions ≡ some (x ∷ xs)) × (x.id ≡ n)

-- And the list is the one that was sent.
abbrev pub Held : Api → Dict (List Session) → Dict String → Type 0
Held api sessions active =
    (wid n : String)
    → get wid active ≡ some n
    → (x : Session) × (xs : List Session) × (get wid sessions ≡ some (x ∷ xs))
      × (x.id ≡ n)
      × (api.list_sessions wid ≡ some (x ∷ xs))

pub Held-Backed :
    (api : Api) (sessions : Dict (List Session)) (active : Dict String)
    → Held api sessions active
    → Backed sessions active
Held-Backed api sessions active h wid n e = let (x, xs, q, p, r) = h wid n e in (x, xs, q, p)

pub put_list-Backed :
    (id : String) (y : Session) (ys : List Session) (sessions : Dict (List Session))
    (active : Dict String)
    → Backed sessions active
    → Backed (put id (y ∷ ys) sessions) (put id y.id active)
put_list-Backed id y ys sessions active h wid n e = elim (str_dec id wid) [
  | yes p ↦ (
    y,
    ys,
    ground (arith, get-put id wid (y ∷ ys) sessions),
    ground (arith, get-put id wid y.id active),
  )
  | no p ↦
      let (x, xs, q, r) = h wid n (ground (arith, get-put id wid y.id active)) in
      (x, xs, ground (arith, get-put id wid (y ∷ ys) sessions), r)
]

module _ (api : Api) where
  put_list-Held :
      (id : String) (y : Session) (ys : List Session) (sessions : Dict (List Session))
      (active : Dict String)
      → api.list_sessions id ≡ some (y ∷ ys)
      → Held api sessions active
      → Held api (put id (y ∷ ys) sessions) (put id y.id active)
  put_list-Held id y ys sessions active sent h wid n e = elim (str_dec id wid) [
    | yes p ↦ (
      y,
      ys,
      ground (arith, get-put id wid (y ∷ ys) sessions),
      ground (arith, get-put id wid y.id active),
      cc,
    )
    | no p ↦
        let (x, xs, q, r, s) = h wid n (ground (arith, get-put id wid y.id active)) in
        (x, xs, ground (arith, get-put id wid (y ∷ ys) sessions), r, s)
  ]

  put_empty-Held :
      (id : String) (sessions : Dict (List Session)) (active : Dict String)
      → api.list_sessions id ≡ some []
      → Held api sessions active
      → Held api (put id [] sessions) active
  put_empty-Held id sessions active sent h wid n e =
      let (x, xs, q, r, s) = h wid n e in
      elim (str_dec id wid) [
        | yes p ↦ absurd (cc)
        | no p ↦ (x, xs, ground (arith, get-put id wid [] sessions), r, s)
      ]

  -- Each list is what the server has sent for its workspace.
  abbrev pub Answered : List (Workspace × List Session) → Type 0
  Answered = All λ l. api.list_sessions l.0.id ≡ some l.1

  pub fill-Held :
      (lists : List (Workspace × List Session)) (sessions : Dict (List Session))
      (active : Dict String)
      → Answered lists
      → Held api sessions active
      → Held api (fill lists (sessions, active)).0 (fill lists (sessions, active)).1
  unfolding fill
  fill-Held [] sessions active sent h = h
  fill-Held ((w, []) ∷ rest) sessions active sent h =
      fill-Held rest (put w.id [] sessions) active sent.1
        (put_empty-Held w.id sessions active sent.0 h)
  fill-Held ((w, x ∷ xs) ∷ rest) sessions active sent h =
      fill-Held rest (put w.id (x ∷ xs) sessions) (put w.id x.id active) sent.1
        (put_list-Held w.id x xs sessions active sent.0 h)

  pub list_all-Answered : (ws : List Workspace) → Ensures Answered (list_all api ws)
  unfolding list_all
  list_all-Answered [] = tt
  list_all-Answered (w ∷ ws) = elim (Option-cases (api.list_sessions w.id)) [
    | inl e ↦ rw e tt
    | inr (list, e) ↦ rw e (
        Ensures-bind Answered Answered (list_all api ws) _ (list_all-Answered ws)
          λ lists sent. (e, sent))
  ]

  pub no_maps-Held : Held api [] []
  unfolding get
  no_maps-Held wid n e = absurd (cc)

-- Two things that hold of a result.
pub Ensures-both {ℓ κ ν} :
    {A : Type ℓ} (P : A → Type κ) (Q : A → Type ν) (m : Option A)
    → Ensures P m
    → Ensures Q m
    → Ensures (λ a. P a × Q a) m
Ensures-both P Q Option.none p q = tt
Ensures-both P Q (Option.some a) p q = (p, q)
