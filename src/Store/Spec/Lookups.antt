-- ===== src/Store/Spec/Lookups.antt =====
-- What the writes of the store of frontend/src/stores/appStore.ts leave on record for one session.
use loci_terminal.Common.{
  ℕ, ◌≡◌, refl, String, Bool, true, false, ◌&&◌, ◌||◌, List, [], ◌∷◌, none, some, any, is,
  if◌then◌else◌, arith, str_dec,
}
use loci_terminal.Dict.{Dict, get, delete}
use loci_terminal.Dict.Laws.{get-delete}
use loci_terminal.Store.State.{Session, SessionActivity, World, is_unread}
use loci_terminal.Store.Activity.{cancel_idle_tracking, mark_read}
use loci_terminal.Store.Workspaces.{cancel_all, delete_all}
use loci_terminal.Store.Toasts.{get-mark_read, mark_read-is_unread}
use loci_terminal.Store.Spec
use loci_terminal.Store.Spec.{
  Attention, Event, nothing, chunk, hushed, window_ends, seen, respond, follow, IsDue, IsTimely,
  attention, answer_event, event, events, prolonged, is_long,
}

pub Attention-ext : {a b : Attention} → a.burst ≡ b.burst → a.unread ≡ b.unread → a ≡ b
Attention-ext p q = cc (p, q)

-- Lookups after each of the store's writes.
pub busy-cancel :
    (j id : String) (w : World)
    → get j (cancel_idle_tracking id w).busy_track ≡ (if is id j then none else get j w.busy_track)
unfolding cancel_idle_tracking
busy-cancel j id w = ground (arith, get-delete id j w.busy_track)

pub unread-mark_read :
    (j id : String) (a : Dict SessionActivity)
    → is_unread (get j (mark_read id a)) ≡ (if is id j then false else is_unread (get j a))
unread-mark_read j id a = elim (str_dec id j) [
  | yes e ↦ ground (arith, mark_read-is_unread id a)
  | no ne ↦ ground (arith, get-mark_read id j a)
]

pub busy-cancel_all :
    (j : String) (xs : List Session) (w : World)
    → get j (cancel_all xs w).busy_track
      ≡ (if any (λ (x : Session). is x.id j) xs then none else get j w.busy_track)
unfolding cancel_all
busy-cancel_all j [] w = refl
busy-cancel_all j (x ∷ xs) w =
    ground (arith, busy-cancel_all j xs (cancel_idle_tracking x.id w), busy-cancel j x.id w)

pub unread-delete_all :
    (j : String) (xs : List Session) (a : Dict SessionActivity)
    → is_unread (get j (delete_all xs a))
      ≡ (if any (λ (x : Session). is x.id j) xs then false else is_unread (get j a))
unfolding delete_all
unread-delete_all j [] a = refl
unread-delete_all j (x ∷ xs) a =
    ground (arith, unread-delete_all j xs (delete x.id a), get-delete x.id j a)

-- An event that clears the session, or none.
pub cleared :
    (b : Bool) (a a' : Attention)
    → a'.burst ≡ (if b then none else a.burst)
    → a'.unread ≡ (if b then false else a.unread)
    → a' ≡ respond (Spec.met b seen) a
unfolding respond
cleared true a a' p q = Attention-ext p q
cleared false a a' p q = Attention-ext p q

pub heard :
    (b watched : Bool) (now : ℕ) (a a' : Attention)
    → a'.burst ≡ (if b then (if watched then none else some (prolonged now a.burst)) else a.burst)
    → a'.unread ≡ a.unread
    → a' ≡ respond (Spec.met b (if watched then hushed else chunk now)) a
unfolding respond
heard true true now a a' p q = Attention-ext p q
heard true false now a a' p q = Attention-ext p q
heard false watched now a a' p q = Attention-ext p q

pub ended :
    (b away : Bool) (now : ℕ) (a a' : Attention)
    → a'.burst ≡ (if b then none else a.burst)
    → a'.unread ≡ (if b then a.unread || (is_long a.burst && away) else a.unread)
    → a' ≡ respond (Spec.met b (window_ends now away)) a
unfolding respond
ended true away now a a' p q = Attention-ext p q
ended false away now a a' p q = Attention-ext p q
