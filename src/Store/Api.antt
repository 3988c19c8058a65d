-- ===== src/Store/Api.antt =====
-- The server's answers to the calls of frontend/src/api/client.ts during one operation of the
-- store. Each operation makes each call at most once, so one answer for each argument is enough;
-- `none` stands for a promise that rejects: `fetch` fails, or the answer is no JSON. The client does not look at
-- the status of an answer, so that a refusal with a JSON body is one of the answers that resolve.
use loci_terminal.Common.{String, List, Option, ◌≡◌, refl, subst}
use loci_terminal.Store.State.{Workspace, Session, AppState, World, on_store}

pub record Api : Type 0 where
  pub list_workspaces : Option (List Workspace)
  pub create_workspace : String → Option Workspace
  pub update_workspace : String → String → Option Workspace
  pub delete_workspace : String → Option (Unit {0})
  pub list_sessions : String → Option (List Session)
  pub create_session : String → Option String → Option Session
  pub update_session : String → String → Option Session
  pub delete_session : String → Option (Unit {0})

-- `await`: a rejected promise ends the operation. Each operation awaits before its first write, so
-- the world is then as it was.
infixl 5 ◌>>=◌ ◌>>◌
abbrev pub ◌>>=◌ {ℓ κ} : {A : Type ℓ} {B : Type κ} → Option A → (A → Option B) → Option B
Option.none >>= f = Option.none
Option.some a >>= f = f a

abbrev pub ◌>>◌ {ℓ} : {B : Type ℓ} → Option (Unit {0}) → Option B → Option B
m >> k = m >>= λ _. k

-- The operation rejects, or its result has the property.
abbrev pub Ensures {ℓ κ} : {A : Type ℓ} → (A → Type κ) → Option A → Type κ
Ensures P Option.none = Unit
Ensures P (Option.some a) = P a

pub Ensures->>= {ℓ κ ν} :
    {A : Type ℓ} {B : Type κ} (P : B → Type ν) (m : Option A) (f : A → Option B)
    → ((a : A) → Ensures P (f a))
    → Ensures P (m >>= f)
Ensures->>= P Option.none f h = tt
Ensures->>= P (Option.some a) f h = h a

pub Ensures-bind {ℓ κ ν η} :
    {A : Type ℓ} {B : Type κ} (Q : A → Type η) (P : B → Type ν) (m : Option A) (f : A → Option B)
    → Ensures Q m
    → ((a : A) → Q a → Ensures P (f a))
    → Ensures P (m >>= f)
Ensures-bind Q P Option.none f q h = tt
Ensures-bind Q P (Option.some a) f q h = h a q

pub Ensures-some {ℓ κ} :
    {A : Type ℓ} (P : A → Type κ) (m : Option A) {a : A} → m ≡ Option.some a → Ensures P m → P a
Ensures-some P Option.none e h = absurd (cc)
Ensures-some P (Option.some b) {a} e h = let q : b ≡ a = cc in subst P q h

-- An operation on the store alone, in the world.
pub Ensures-on_store {κ} :
    (P : World → Type κ) (op : AppState → Option AppState) (w : World)
    → Ensures (λ s. P (record w { store = s })) (op w.store)
    → Ensures P (on_store op w)
unfolding on_store
Ensures-on_store P op w h = go (op w.store) h
  where
    go :
        (o : Option AppState)
        → Ensures (λ s. P (record w { store = s })) o
        → Ensures P (elim o [
          | Option.none ↦ Option.none
          | Option.some s ↦ Option.some (record w { store = s })
        ])
    go Option.none h = tt
    go (Option.some s) h = h

pub Ensures-map {ℓ κ ν} :
    {A : Type ℓ} (P : A → Type κ) (Q : A → Type ν) (m : Option A)
    → ((a : A) → P a → Q a)
    → Ensures P m
    → Ensures Q m
Ensures-map P Q Option.none f h = tt
Ensures-map P Q (Option.some a) f h = f a h

-- The operation does not reject, and its result has the property.
abbrev pub Ends {ℓ} : {A : Type ℓ} → (A → Type 0) → Option A → Type 0
Ends P Option.none = ⊥
Ends P (Option.some a) = P a

pub Ends-bind {ℓ κ} :
    {A : Type ℓ} {B : Type κ} (Q : A → Type 0) (P : B → Type 0) (m : Option A) (f : A → Option B)
    → Ends Q m
    → ((a : A) → Q a → Ends P (f a))
    → Ends P (m >>= f)
Ends-bind Q P Option.none f q h = absurd q
Ends-bind Q P (Option.some a) f q h = h a q

pub Ends-some {ℓ} :
    {A : Type ℓ} (P : A → Type 0) (m : Option A) → Ends P m → (a : A) × (m ≡ Option.some a) × P a
Ends-some P Option.none h = absurd h
Ends-some P (Option.some a) h = (a, refl, h)

pub Ends-result {ℓ} :
    {A : Type ℓ} (P : A → Type 0) (m : Option A) {a : A} → m ≡ Option.some a → Ends P m → P a
Ends-result P Option.none e h = absurd h
Ends-result P (Option.some b) {a} e h = let q : b ≡ a = cc in subst P q h

-- An operation on the store alone, in the world.
pub Ends-on_store :
    (P : World → Type 0) (op : AppState → Option AppState) (w : World)
    → Ends (λ s. P (record w { store = s })) (op w.store)
    → Ends P (on_store op w)
unfolding on_store
Ends-on_store P op w h =
    let (s, e, p) = Ends-some (λ s. P (record w { store = s })) (op w.store) h in rw (e, on_store) p
