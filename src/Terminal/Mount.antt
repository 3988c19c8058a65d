-- ===== src/Terminal/Mount.antt =====
-- Where the cached terminals stand in the page: `instances`, `detachFromContainer`, and the first effect
-- of `useTerminal` in frontend/src/hooks/useTerminal.ts. A container is a number; xterm's element is where
-- it stands.
use loci_terminal.Common.{
  ℕ, zero, suc, ◌+◌, ◌||◌, ◌&&◌, String, Bool, true, false, not, List, [], Option, none, some, is,
  eqb, if◌then◌else◌, truthy,
}
use loci_terminal.Dict.{Dict, get, put}
use loci_terminal.Store.State.{is_option}
pub mod Places
pub mod Shown

-- `terminal.element`: undefined before `open`, then without a parent or in a container.
pub data Place : Type 0 where
  unopened detached : Place
  within : ℕ → Place

-- What matters of a `TerminalInstance`, with how often its input listeners were bound.
pub record Cached : Type 0 where
  pub place : Place
  pub listeners_bound : Bool
  pub bindings : ℕ

-- `instances`, the container of the mounted hook with `previousSessionIdRef`, and how many containers
-- there have been.
pub record Shelf : Type 0 where
  pub instances : Dict Cached
  pub container : Option ℕ
  pub previous : Option String
  pub containers : ℕ

abbrev pub is_within : ℕ → Place → Bool
is_within c (within d) = eqb d c
is_within c _ = false

-- `createInstance`
abbrev pub fresh_instance : Cached
fresh_instance = record { place = unopened; listeners_bound = false; bindings = 0 }

-- `bindInputListeners`
unfoldable pub bind_input_listeners : Cached → Cached
bind_input_listeners i =
    if i.listeners_bound then i else record i { listeners_bound = true; bindings = i.bindings + 1 }

-- `detachFromContainer`
unfoldable pub detach_from_container : String → ℕ → Dict Cached → Dict Cached
detach_from_container id c instances = elim (get id instances) [
  | none ↦ instances
  | some i ↦
      if is_within c i.place then put id (record i { place = detached }) instances else instances
]

-- The element goes into the container: re-attached, or opened with its listeners.
unfoldable pub attach : ℕ → Cached → Cached
unfolding bind_input_listeners
attach c i = elim i.place [
  | unopened ↦ record (bind_input_listeners i) { place = within c }
  | detached ↦ record i { place = within c }
  | within d ↦ if eqb d c then i else record i { place = within c }
]

abbrev pub instance_of : String → Dict Cached → Cached
instance_of id instances = elim (get id instances) [ none ↦ fresh_instance | some i ↦ i ]

-- The session that the effect leaves, if it is not the one that it shows.
unfoldable pub leave_previous : Option String → Option String → ℕ → Dict Cached → Dict Cached
unfolding detach_from_container
leave_previous none session c instances = instances
leave_previous (some p) session c instances =
    if is_option session p then instances else detach_from_container p c instances

unfoldable pub show_session : Option String → ℕ → Shelf → Shelf
unfolding attach
show_session none c s = record s { previous = none }
show_session (some id) c s = record s {
  instances = put id (attach c (instance_of id s.instances)) s.instances;
  previous = some id;
}

-- The first effect of `useTerminal` with the session `session`.
unfoldable pub run_effect : Option String → Shelf → Shelf
unfolding leave_previous show_session
run_effect session s = elim s.container [
  | none ↦ s
  | some c ↦
      show_session (truthy session) c
        (record s { instances = leave_previous (truthy s.previous) session c s.instances })
]

-- The hook is mounted anew, in a container of its own; the old one leaves the page with what is in it.
unfoldable pub remount : Shelf → Shelf
remount s = record s {
  container = some s.containers;
  previous = none;
  containers = suc s.containers;
}

abbrev pub empty_shelf : Shelf
empty_shelf = record { instances = []; container = none; previous = none; containers = 0 }
