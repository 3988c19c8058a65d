-- ===== src/Store/Toasts.antt =====
-- The toast list of frontend/src/stores/appStore.ts against the unread marks.
pub mod Steps
pub mod Reach
use loci_terminal.Common.{
  ℕ, zero, suc, ◌≤◌, ◌≡◌, refl, sym, ◌≢◌, inl, inr, String, Bool, true, false, not, List, [], ◌∷◌,
  ◌++◌, All, All-filter, All-map, All-concat, All-drop, All-test, length, length-filter-le,
  length-slice_last-le, filter, filter_of_none, any, drop, is, arith, Bool-cases, Option-cases,
}
use loci_terminal.Dict.{Dict, get, put}
use loci_terminal.Dict.Laws.{get-put}
use loci_terminal.Store.State.{AppState, SessionActivity, Toast, max_toasts, is_unread}
use loci_terminal.Store.Activity.{mark_read, drop_toasts, push_toast}

-- No two toasts are about one session.
abbrev pub OnePerSession : List Toast → Type 0
OnePerSession [] = Unit {0}
OnePerSession (t ∷ ts) = All (λ u. u.session_id ≢ t.session_id) ts × OnePerSession ts

abbrev pub Announced : Dict SessionActivity → List Toast → Type 0
Announced activity = All λ t. is_unread (get t.session_id activity) ≡ true

-- The toasts are few, each is about another session, and each such session is marked unread.
pub record IsNotified (s : AppState) : Type 0 where
  pub announced : Announced s.session_activity s.toasts
  pub capped : length s.toasts ≤ max_toasts
  pub distinct : OnePerSession s.toasts

pub OnePerSession-filter :
    (p : Toast → Bool) (ts : List Toast) → OnePerSession ts → OnePerSession (filter p ts)
OnePerSession-filter p [] d = tt
OnePerSession-filter p (t ∷ ts) d = elim (Bool-cases (p t)) [
  | inl e ↦ rw e (All-filter p ts (λ u q _. q) d.0, OnePerSession-filter p ts d.1)
  | inr e ↦ rw e (OnePerSession-filter p ts d.1)
]

OnePerSession-drop : (n : ℕ) (ts : List Toast) → OnePerSession ts → OnePerSession (drop n ts)
OnePerSession-drop zero ts d = d
OnePerSession-drop (suc n) [] d = d
OnePerSession-drop (suc n) (t ∷ ts) d = OnePerSession-drop n ts d.1

OnePerSession-concat :
    (t : Toast) (ts : List Toast)
    → All (λ u. u.session_id ≢ t.session_id) ts
    → OnePerSession ts
    → OnePerSession (ts ++ t ∷ [])
OnePerSession-concat t [] h d = (tt, tt)
OnePerSession-concat t (u ∷ ts) h d = (
  All-concat (λ v. v.session_id ≢ u.session_id) ts d.0 (λ e. h.0 (cc)),
  OnePerSession-concat t ts h.1 d.1,
)

-- The test before the filter only saves the copy.
pub drop_toasts-filter :
    (id : String) (ts : List Toast) → drop_toasts id ts ≡ filter (λ t. not (is t.session_id id)) ts
unfolding drop_toasts
drop_toasts-filter id ts = elim (Bool-cases (any (λ t. is t.session_id id) ts)) [
  | inl e ↦ rw e
  | inr e ↦ rw e (sym (filter_of_none (λ t. is t.session_id id) ts e))
]

pub get-mark_read :
    (id j : String) (activity : Dict SessionActivity)
    → id ≢ j
    → get j (mark_read id activity) ≡ get j activity
unfolding mark_read
get-mark_read id j activity ne = elim (Option-cases (get id activity)) [
  | inl e ↦ ground arith
  | inr (a, e) ↦ ground (arith, get-put id j (record a { unread = false }) activity)
]

pub mark_read-is_unread :
    (id : String) (activity : Dict SessionActivity)
    → is_unread (get id (mark_read id activity)) ≡ false
unfolding mark_read
mark_read-is_unread id activity = elim (Option-cases (get id activity)) [
  | inl e ↦ ground arith
  | inr (a, e) ↦ ground (arith, get-put id id (record a { unread = false }) activity)
]

-- Dropping some toasts, and changing the activity of none of the sessions that keep theirs.
pub filter-IsNotified :
    (p : Toast → Bool) (activity : Dict SessionActivity) (s : AppState)
    → ((t : Toast) → p t ≡ true → get t.session_id activity ≡ get t.session_id s.session_activity)
    → IsNotified s
    → IsNotified (record s { session_activity = activity; toasts = filter p s.toasts })
filter-IsNotified p activity s same n = record {
  announced = All-filter p s.toasts (λ t u k. rw (same t k) u) n.announced;
  capped = let c = n.capped in omega (arith, length-filter-le p s.toasts);
  distinct = OnePerSession-filter p s.toasts n.distinct;
}

-- A new toast takes the place of the session's old one, at the end.
push_toast-IsNotified :
    (toast : Toast) (activity : Dict SessionActivity) (s : AppState)
    → ((j : String)
        → is_unread (get j s.session_activity) ≡ true
        → is_unread (get j activity) ≡ true)
    → is_unread (get toast.session_id activity) ≡ true
    → IsNotified s
    → IsNotified (record s { session_activity = activity; toasts = push_toast toast s.toasts })
unfolding push_toast
push_toast-IsNotified toast activity s keeps lit n = record {
  announced = All-drop lit_up _ (others ++ toast ∷ []) (
      All-concat lit_up others
        (All-filter other s.toasts (λ t u k. keeps t.session_id u) n.announced) lit);
  capped = length-slice_last-le max_toasts (others ++ toast ∷ []);
  distinct = OnePerSession-drop _ (others ++ toast ∷ []) (
      OnePerSession-concat toast others
        (All-map others (λ t k. ground arith) (All-test other s.toasts))
        (OnePerSession-filter other s.toasts n.distinct));
}
  where
    other : Toast → Bool
    other x = not (is x.session_id toast.session_id)

    lit_up : Toast → Type 0
    lit_up t = is_unread (get t.session_id activity) ≡ true

    others : List Toast
    others = filter other s.toasts
