-- ===== src/Terminal/Mount/Shown.antt =====
-- The container of frontend/src/hooks/useTerminal.ts shows the terminal of its session and no other.
use loci_terminal.Common.{
  ℕ, ◌≤◌, ◌<◌, ◌≡◌, refl, inl, inr, ap, ◌∙◌, sym, subst, ◌&&◌, String, false, Option, none, some,
  str_dec, truthy, truthy_text, arith, Option-cases,
}
use loci_terminal.Dict.{Dict, get, put}
use loci_terminal.Store.State.{is_option}
use loci_terminal.Terminal.Mount.{
  Place, unopened, detached, within, Cached, Shelf, is_within, attach, instance_of, leave_previous,
  show_session, run_effect, remount, empty_shelf,
}
use loci_terminal.Terminal.Mount.Places.{
  IsBound, IsPlaced, IsMounted, instance-put, fresh-IsBound, attach-within, opened-IsBound,
  attach-IsBound, leave-keeps, within-opened, leave-within, truthy-some, not_both,
}

-- The instances after a session is left, in the container `c` of `s`.
record IsLeft (c : ℕ) (session : Option String) (s : Shelf) (d : Dict Cached) : Type 0 where
  inside :
      (j : String)
      → is_within c (instance_of j d).place ≡ (is_option s.previous j && is_option session j)
  placed : (j : String) → IsPlaced s.containers (instance_of j d)
  bound : (j : String) → IsBound (instance_of j d)

leave-IsLeft :
    (c : ℕ) (session : Option String) (s : Shelf)
    → s.container ≡ some c
    → IsMounted s
    → IsLeft c session s (leave_previous s.previous session c s.instances)
leave-IsLeft c session s e v = record {
  inside = λ j. leave-within s.previous session j c s.instances (v.shown c e j);
  placed = λ j.
      leave-keeps (IsPlaced s.containers) s.previous session j c s.instances
        (λ i h w d q. absurd (cc)) (v.placed j);
  bound = λ j.
      leave-keeps IsBound s.previous session j c s.instances
        (λ i h w. opened-IsBound detached i (within-opened c i.place w) h) (v.bound j);
}

hide-IsMounted :
    (c : ℕ) (session : Option String) (s : Shelf) (d : Dict Cached)
    → s.container ≡ some c
    → truthy session ≡ none
    → IsMounted s
    → IsLeft c session s d
    → IsMounted (record s { instances = d; previous = none })
unfolding truthy
hide-IsMounted c session s d e q v l = record {
  shown = λ c' e' j.
      let same : c ≡ c' = cc in
      let i = l.inside j in ground (arith, not_both s.previous session j v.real);
  real = refl;
  placed = l.placed;
  current = v.current;
  bound = l.bound;
}

put-keeps :
    (P : Cached → Type 0) (id j : String) (i : Cached) (d : Dict Cached)
    → P i
    → P (instance_of j d)
    → P (instance_of j (put id i d))
put-keeps P id j i d p q = elim (str_dec id j) [
  | yes e ↦ subst P (sym (ground (arith, instance-put id j i d))) p
  | no ne ↦ subst P (sym (ground (arith, instance-put id j i d))) q
]

show-IsMounted :
    (c : ℕ) (session : Option String) (id : String) (s : Shelf) (d : Dict Cached)
    → s.container ≡ some c
    → truthy session ≡ some id
    → IsMounted s
    → IsLeft c session s d
    → IsMounted
        (record s { instances = put id (attach c (instance_of id d)) d; previous = some id })
show-IsMounted c session id s d e q v l = record {
  shown = λ c' e' j.
      let same : c ≡ c' = cc in
      let i = l.inside j in
      let w = attach-within c (instance_of id d) in
      let named = (truthy-some session id q).0 in
      ground (arith, instance-put id j (attach c (instance_of id d)) d);
  real = truthy_text id (truthy-some session id q).1;
  placed = λ j.
      put-keeps (IsPlaced s.containers) id j (attach c (instance_of id d)) d
        (λ d' h.
          let w = attach-within c (instance_of id d) in let b = v.current c e in ground arith)
        (l.placed j);
  current = v.current;
  bound = λ j.
      put-keeps IsBound id j (attach c (instance_of id d)) d
        (attach-IsBound c (instance_of id d) (l.bound id)) (l.bound j);
}

run_effect-none :
    (c : ℕ) (session : Option String) (s : Shelf)
    → s.container ≡ some c
    → truthy s.previous ≡ s.previous
    → truthy session ≡ none
    → run_effect session s
      ≡ record s { instances = leave_previous s.previous session c s.instances; previous = none }
unfolding run_effect show_session
run_effect-none c session s e r q = ground arith

run_effect-some :
    (c : ℕ) (session : Option String) (id : String) (s : Shelf)
    → s.container ≡ some c
    → truthy s.previous ≡ s.previous
    → truthy session ≡ some id
    → let d = leave_previous s.previous session c s.instances in
      run_effect session s
      ≡ record s { instances = put id (attach c (instance_of id d)) d; previous = some id }
unfolding run_effect show_session
run_effect-some c session id s e r q = ground arith

run_effect-IsMounted :
    (session : Option String) (s : Shelf) → IsMounted s → IsMounted (run_effect session s)
unfolding run_effect
run_effect-IsMounted session s v = elim (Option-cases s.container) [
  | inl e ↦ rw (e, run_effect) v
  | inr (c, e) ↦
      let l = leave-IsLeft c session s e v in
      elim (Option-cases (truthy session)) [
        | inl q ↦
            subst IsMounted (sym (run_effect-none c session s e v.real q))
              (hide-IsMounted c session s _ e q v l)
        | inr (id, q) ↦
            subst IsMounted (sym (run_effect-some c session id s e v.real q))
              (show-IsMounted c session id s _ e q v l)
      ]
]

not_within : (c : ℕ) (p : Place) → ((d : ℕ) → p ≡ within d → d < c) → is_within c p ≡ false
not_within c unopened f = refl
not_within c detached f = refl
not_within c (within d) f = let h = f d refl in ground arith

remount-IsMounted : (s : Shelf) → IsMounted s → IsMounted (remount s)
unfolding remount truthy
remount-IsMounted s v = record {
  shown = λ c e j.
      let same : s.containers ≡ c = cc in
      subst (λ (n : ℕ). is_within n (instance_of j s.instances).place ≡ false) same
        (not_within s.containers (instance_of j s.instances).place (v.placed j));
  real = refl;
  placed = λ j d h. let p = v.placed j d h in omega arith;
  current = λ c e. ground arith;
  bound = v.bound;
}

empty-IsMounted : IsMounted empty_shelf
unfolding get truthy
empty-IsMounted = record {
  shown = λ c e j. refl;
  real = refl;
  placed = λ j d h. absurd (cc);
  current = λ c e. absurd (cc);
  bound = λ j. fresh-IsBound;
}

-- The hook runs its effect with a session, or is mounted anew.
pub data MountStep (s : Shelf) : Shelf → Type 0 where
  shows : (session : Option String) → MountStep s (run_effect session s)
  remounts : MountStep s (remount s)

pub data MountReach : Shelf → Type 0 where
  fresh : MountReach empty_shelf
  then_ : {s s' : Shelf} → MountReach s → MountStep s s' → MountReach s'

pub MountReach-IsMounted : {s : Shelf} → MountReach s → IsMounted s
MountReach-IsMounted fresh = empty-IsMounted
MountReach-IsMounted (then_ {s} r (shows session)) =
    run_effect-IsMounted session s (MountReach-IsMounted r)
MountReach-IsMounted (then_ {s} r remounts) = remount-IsMounted s (MountReach-IsMounted r)

previous-run_effect :
    (session : Option String) (c : ℕ) (s : Shelf)
    → s.container ≡ some c
    → truthy s.previous ≡ s.previous
    → ((run_effect session s).previous ≡ truthy session)
      × ((run_effect session s).container ≡ some c)
previous-run_effect session c s e r = elim (Option-cases (truthy session)) [
  | inl q ↦
      let same = run_effect-none c session s e r q in
      (ap (λ (k : Shelf). k.previous) same ∙ sym q, ap (λ (k : Shelf). k.container) same ∙ e)
  | inr (id, q) ↦
      let same = run_effect-some c session id s e r q in
      (ap (λ (k : Shelf). k.previous) same ∙ sym q, ap (λ (k : Shelf). k.container) same ∙ e)
]

bound-le : (i : Cached) → IsBound i → i.bindings ≤ 1
bound-le i v = let n = v.counted in ground arith

-- However the user moved between sessions, and however often the view was mounted anew: once the effect
-- has run, the terminal of the session to be shown is in the container, and that of no other session is;
-- and the input listeners of no instance have been bound twice.
pub one_terminal_shown :
    {s : Shelf} (session : Option String) (c : ℕ) (j : String)
    → MountReach s
    → s.container ≡ some c
    → let i = instance_of j (run_effect session s).instances in
      (is_within c i.place ≡ is_option (truthy session) j) × (i.bindings ≤ 1)
one_terminal_shown {s} session c j r e =
    let v = MountReach-IsMounted r in
    let w = run_effect-IsMounted session s v in
    let (at, there) = previous-run_effect session c s e v.real in
    (
      w.shown c there j ∙ ap (λ o. is_option o j) at,
      bound-le (instance_of j (run_effect session s).instances) (w.bound j),
    )
