-- ===== src/Store/Polling.antt =====
-- `sessionsEqual` and `pollActive` of frontend/src/stores/appStore.ts.
use loci_terminal.Common.{
  ◌≡◌, refl, ◌↔◌, inl, inr, String, Bool, true, List, [], ◌∷◌, map, Option, none, some, length, is,
  truthy, arith, Bool-cases, ◌&&◌,
}
use loci_terminal.Dict.{put}
use loci_terminal.Dict.Laws.{get-put_self}
use loci_terminal.Store.State.{AppState, Session}
use loci_terminal.Store.Api.{Api}
use loci_terminal.Store.Sessions.{
  same_option, same_rows, sessions_equal, sessions_of, poll_in, poll_active,
}

-- What the page shows of a session.
pub record Row : Type 0 where
  pub id : String
  pub title : String
  pub cwd : Option String
  pub updated_at : String

pub row : Session → Row
row x = record { id = x.id; title = x.title; cwd = x.cwd; updated_at = x.updated_at }

same_option_iff : (a b : Option String) → (same_option a b ≡ true) ↔ (a ≡ b)
unfolding same_option
same_option_iff none none = ((λ _. refl), (λ _. refl))
same_option_iff none (some b) = ((λ e. absurd (cc)), (λ e. absurd (cc)))
same_option_iff (some a) none = ((λ e. absurd (cc)), (λ e. absurd (cc)))
same_option_iff (some a) (some b) = ((λ e. ground arith), (λ e. ground arith))

abbrev same_row : Session → Session → Bool
same_row x y =
    is x.id y.id && is x.title y.title && same_option x.cwd y.cwd && is x.updated_at y.updated_at

same_row→row : (x y : Session) → same_row x y ≡ true → row x ≡ row y
unfolding row
same_row→row x y e = ground (arith, (same_option_iff x.cwd y.cwd).0)

row→same_row : (x y : Session) → row x ≡ row y → same_row x y ≡ true
unfolding row
row→same_row x y e = ground (arith, (same_option_iff x.cwd y.cwd).1)

same_rows→rows :
    (a b : List Session) → length a ≡ length b → same_rows a b ≡ true → map row a ≡ map row b
unfolding same_rows
same_rows→rows [] [] l e = refl
same_rows→rows [] (y ∷ b) l e = absurd (omega arith)
same_rows→rows (x ∷ a) [] l e = absurd (omega arith)
same_rows→rows (x ∷ a) (y ∷ b) l e =
    let q = same_row→row x y (ground arith) in
    let r = same_rows→rows a b (omega arith) (ground arith) in cc

rows→same_rows :
    (a b : List Session) → map row a ≡ map row b → (length a ≡ length b) × (same_rows a b ≡ true)
unfolding same_rows
rows→same_rows [] [] e = (refl, refl)
rows→same_rows [] (y ∷ b) e = absurd (cc)
rows→same_rows (x ∷ a) [] e = absurd (cc)
rows→same_rows (x ∷ a) (y ∷ b) e =
    let q = row→same_row x y (cc) in
    let (l, r) = rows→same_rows a b (cc) in (omega arith, ground arith)

-- Two lists count as equal exactly when they show the same rows, in the same order.
pub sessions_equal_iff :
    (a b : List Session) → (sessions_equal a b ≡ true) ↔ (map row a ≡ map row b)
unfolding sessions_equal
sessions_equal_iff a b = (
  (λ e. same_rows→rows a b (ground arith) (ground arith)),
  (λ e. let (l, r) = rows→same_rows a b e in ground arith),
)

-- A poll of the workspace that was active when it began, answered with `list`: the store then shows
-- the rows of `list` there; where it showed them already, it is the very state it was.
pub poll_active-rows :
    (api : Api) (wid : String) (list : List Session) (before s : AppState)
    → truthy before.active_workspace_id ≡ some wid
    → api.list_sessions wid ≡ some list
    → (s' : AppState) × (poll_active api before s ≡ some s')
      × (map row (sessions_of s' wid) ≡ map row list)
      × (map row (sessions_of s wid) ≡ map row list → s' ≡ s)
unfolding poll_active poll_in
poll_active-rows api wid list before s active answer =
    elim (Bool-cases (sessions_equal (sessions_of s wid) list)) [
      | inl e ↦ (
        s,
        rw (active, poll_active) (rw answer (rw e)),
        (sessions_equal_iff (sessions_of s wid) list).0 e,
        (λ _. refl),
      )
      | inr e ↦ (
        record s { sessions = put wid list s.sessions },
        rw (active, poll_active) (rw answer (rw e)),
        rw (get-put_self wid list s.sessions),
        (λ r. absurd (ground (arith, (sessions_equal_iff (sessions_of s wid) list).1 r))),
      )
    ]
