-- ===== src/Terminal/Mount/Places.antt =====
-- Where the cached terminals of frontend/src/hooks/useTerminal.ts are, and whether their listeners are bound.
use loci_terminal.Common.{
  ℕ, ◌<◌, ◌≡◌, refl, ◌≢◌, inl, inr, ap, ◌&&◌, String, Bool, true, false, not, Option, none, some,
  is, eqb, ite, str_dec, if◌then◌else◌, truthy, arith, Bool-cases, Option-cases,
}
use loci_terminal.Dict.{Dict, get, put}
use loci_terminal.Dict.Laws.{get-put}
use loci_terminal.Store.State.{is_option}
use loci_terminal.Terminal.Mount.{
  Place, unopened, detached, within, Cached, Shelf, is_within, fresh_instance, bind_input_listeners,
  detach_from_container, attach, instance_of, leave_previous,
}

abbrev pub is_opened : Place → Bool
is_opened unopened = false
is_opened detached = true
is_opened (within c) = true

-- Listeners are bound once the terminal is opened, and only once.
pub record IsBound (i : Cached) : Type 0 where
  pub flagged : i.listeners_bound ≡ is_opened i.place
  pub counted : i.bindings ≡ (if is_opened i.place then 1 else 0)

-- The instance stands in one of the first n containers, if in any.
abbrev pub IsPlaced : ℕ → Cached → Type 0
IsPlaced n i = (d : ℕ) → i.place ≡ within d → d < n

pub record IsMounted (s : Shelf) : Type 0 where
  pub shown :
      (c : ℕ)
      → s.container ≡ some c
      → (j : String) → is_within c (instance_of j s.instances).place ≡ is_option s.previous j
  pub real : truthy s.previous ≡ s.previous
  pub placed : (j : String) → IsPlaced s.containers (instance_of j s.instances)
  pub current : (c : ℕ) → s.container ≡ some c → c < s.containers
  pub bound : (j : String) → IsBound (instance_of j s.instances)

pub instance-put :
    (id j : String) (i : Cached) (d : Dict Cached)
    → instance_of j (put id i d) ≡ ite (str_dec id j) i (instance_of j d)
instance-put id j i d = ground (arith, get-put id j i d)

-- What leaving a session does to the instance of `j`.
instance-detach :
    (p j : String) (c : ℕ) (d : Dict Cached)
    → instance_of j (detach_from_container p c d) ≡ (
        if is p j && is_within c (instance_of j d).place
        then record (instance_of j d) { place = detached }
        else instance_of j d)
unfolding detach_from_container
instance-detach p j c d = elim (Option-cases (get p d)) [
  | inl e ↦ ground arith
  | inr (i, e) ↦ ground (arith, get-put p j (record i { place = detached }) d)
]

abbrev pub is_left : Option String → Option String → String → Bool
is_left none session j = false
is_left (some p) session j = not (is_option session p) && is p j

instance-leave :
    (o session : Option String) (j : String) (c : ℕ) (d : Dict Cached)
    → instance_of j (leave_previous o session c d) ≡ (
        if is_left o session j && is_within c (instance_of j d).place
        then record (instance_of j d) { place = detached }
        else instance_of j d)
unfolding leave_previous
instance-leave none session j c d = refl
instance-leave (some p) session j c d = ground (arith, instance-detach p j c d)

pub fresh-IsBound : IsBound fresh_instance
fresh-IsBound = record { flagged = refl; counted = refl }

pub attach-within : (c : ℕ) (i : Cached) → (attach c i).place ≡ within c
unfolding attach bind_input_listeners
attach-within c i = ground arith

bind-IsBound :
    (c : ℕ) (i : Cached)
    → i.place ≡ unopened
    → IsBound i
    → IsBound (record (bind_input_listeners i) { place = within c })
unfolding bind_input_listeners
bind-IsBound c i e v =
    let f = v.flagged in
    let n = v.counted in record { flagged = ground arith; counted = ground arith }

pub opened-IsBound :
    (p : Place) (i : Cached)
    → is_opened i.place ≡ is_opened p
    → IsBound i
    → IsBound (record i { place = p })
opened-IsBound p i e v =
    let f = v.flagged in
    let n = v.counted in record { flagged = ground arith; counted = ground arith }

pub attach-IsBound : (c : ℕ) (i : Cached) → IsBound i → IsBound (attach c i)
unfolding attach
attach-IsBound c i v = go i.place refl
  where
    go :
        (p : Place)
        → i.place ≡ p
        → IsBound (elim p [
          | unopened ↦ record (bind_input_listeners i) { place = within c }
          | detached ↦ record i { place = within c }
          | within d ↦ if eqb d c then i else record i { place = within c }
        ])
    go unopened e = bind-IsBound c i e v
    go detached e = opened-IsBound (within c) i (ap is_opened e) v
    go (within d) e = elim (Bool-cases (eqb d c)) [
      | inl q ↦ rw q v
      | inr q ↦ rw q (opened-IsBound (within c) i (ap is_opened e) v)
    ]

-- Where an instance is after leaving a session, with a property of its own.
pub leave-keeps :
    (P : Cached → Type 0) (o session : Option String) (j : String) (c : ℕ) (d : Dict Cached)
    → ((i : Cached) → P i → is_within c i.place ≡ true → P (record i { place = detached }))
    → P (instance_of j d)
    → P (instance_of j (leave_previous o session c d))
leave-keeps P o session j c d f h =
    elim (Bool-cases (is_left o session j && is_within c (instance_of j d).place)) [
      | inl e ↦
          let hit : is_within c (instance_of j d).place ≡ true = ground arith in
          rw (instance-leave o session j c d) (rw e (f (instance_of j d) h hit))
      | inr e ↦ rw (instance-leave o session j c d) (rw e h)
    ]

pub within-opened : (c : ℕ) (p : Place) → is_within c p ≡ true → is_opened p ≡ true
within-opened c unopened e = absurd (cc)
within-opened c detached e = absurd (cc)
within-opened c (within d) e = refl

-- After leaving the session before, only the session to be shown can be in the container.
pub leave-within :
    (o session : Option String) (j : String) (c : ℕ) (d : Dict Cached)
    → is_within c (instance_of j d).place ≡ is_option o j
    → is_within c (instance_of j (leave_previous o session c d)).place
      ≡ (is_option o j && is_option session j)
leave-within none session j c d h = ground (arith, instance-leave none session j c d)
leave-within (some p) session j c d h = ground (arith, instance-leave (some p) session j c d)

pub truthy-some : (o : Option String) (p : String) → truthy o ≡ some p → (o ≡ some p) × (p ≢ "")
unfolding truthy
truthy-some none p e = absurd (cc)
truthy-some (some s) p e = (ground arith, ground arith)

-- No session is shown and one was: they cannot be the same.
pub not_both :
    (o session : Option String) (j : String)
    → truthy o ≡ o
    → truthy session ≡ none
    → (is_option o j && is_option session j) ≡ false
unfolding truthy
not_both none session j e q = refl
not_both (some p) none j e q = ground arith
not_both (some p) (some s) j e q = ground arith
