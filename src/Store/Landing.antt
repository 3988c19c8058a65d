-- ===== src/Store/Landing.antt =====
-- The session that `setActiveWorkspace` of frontend/src/stores/appStore.ts lands on.
use loci_terminal.Common.{
  ◌≡◌, refl, String, true, false, List, [], ◌∷◌, Option, none, some, any, is, arith, truthy,
}
use loci_terminal.Store.State.{Session}
use loci_terminal.Store.Workspaces.{next_active}
use loci_terminal.Store.Mirror.Ids.{has, first, session_ids, first_id-first}

-- Where the page lands in a workspace with the list: on the remembered session if the list has it, and
-- else on the first of the list, if there is one.
pub record IsLanding (remembered : Option String) (list : List Session) (landing : Option String)
    : Type 0 where
  pub known :
      (m : String) → truthy remembered ≡ some m → has m (session_ids list) ≡ true → landing ≡ some m
  pub forgotten :
      (m : String)
      → remembered ≡ some m
      → has m (session_ids list) ≡ false
      → landing ≡ first (session_ids list)
  pub unknown : truthy remembered ≡ none → landing ≡ first (session_ids list)

any-has :
    (m : String) (xs : List Session) → any (λ (x : Session). is x.id m) xs ≡ has m (session_ids xs)
any-has m [] = refl
any-has m (x ∷ xs) = ground (arith, any-has m xs)

pub next_active-IsLanding :
    (o : Option String) (list : List Session) → IsLanding o list (next_active o list)
unfolding next_active truthy
next_active-IsLanding none list = record {
  known = λ m e h. absurd (cc);
  forgotten = λ m e h. absurd (cc);
  unknown = λ e. first_id-first list;
}
next_active-IsLanding (some r) list = record {
  known = λ m e h. ground (arith, any-has r list);
  forgotten = λ m e h. ground (arith, any-has r list, first_id-first list);
  unknown = λ e. ground (arith, first_id-first list);
}
