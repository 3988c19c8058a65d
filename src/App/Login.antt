-- ===== src/App/Login.antt =====
-- The form of frontend/src/components/Auth/LoginForm.tsx: its state and `handleSubmit`.
use loci_terminal.Common.{
  subst, sym, Bool-cases, String, Bool, true, false, ◌≡◌, ◌≢◌, ◌↔◌, refl, Option, some, none,
  if◌then◌else◌, is, truthy, get_or, arith, str_dec,
}
use loci_terminal.App.{AuthState, authenticated}

pub record Form : Type 0 where
  pub password : String
  pub error : String
  pub loading : Bool

-- What the request comes to: it rejects, it succeeds, or it is refused with the `error` field of the
-- answer; an answer that is not JSON counts as rejecting.
pub data Outcome : Type 0 where
  rejects succeeds : Outcome
  refused : Option String → Outcome

abbrev pub endpoint : Bool → String
endpoint setup = if setup then "/api/v1/auth/setup" else "/api/v1/auth/login"

-- `handleSubmit` up to its request, and the endpoint it asks if it does.
unfoldable pub begin_submit : Bool → Form → Form × Option String
begin_submit setup f =
    if is f.password ""
    then (f, none)
    else (record f { loading = true; error = "" }, some (endpoint setup))

-- The rest of `handleSubmit`; `onSuccess` is `setAuthState('authenticated')`.
unfoldable pub end_submit : Outcome → Form × AuthState → Form × AuthState
end_submit rejects (f, a) = (f, a)
end_submit succeeds (f, a) = (record f { loading = false }, authenticated)
end_submit (refused message) (f, a) =
    (record f { loading = false; error = get_or (truthy message) "Authentication failed" }, a)

-- `handleSubmit` from beginning to end.
unfoldable pub handle_submit : Bool → Outcome → Form × AuthState → Form × AuthState
handle_submit setup outcome (f, a) =
    let (f', asked) = begin_submit setup f in
    elim asked [ none ↦ (f', a) | some path ↦ end_submit outcome (f', a) ]

submitted :
    (setup : Bool) (outcome : Outcome) (f : Form) (a : AuthState)
    → f.password ≢ ""
    → handle_submit setup outcome (f, a)
      ≡ end_submit outcome (record { password = f.password; error = ""; loading = true }, a)
unfolding handle_submit begin_submit
submitted setup outcome f a ne = ground arith

fixed_error : is "Authentication failed" "" ≡ false
unfolding str_dec Bool-cases
fixed_error = refl

shown_error : (message : Option String) → get_or (truthy message) "Authentication failed" ≢ ""
unfolding truthy
shown_error none e = ground (arith, fixed_error)
shown_error (some s) e = ground (arith, fixed_error)

-- What a submission that has asked the server comes to.
abbrev Comes : Outcome → Form × AuthState → Type 0
Comes outcome p =
    ((p.1 ≡ authenticated) ↔ (outcome ≡ succeeds))
    × ((p.0.error ≢ "") ↔ ((message : Option String) × (outcome ≡ refused message)))
    × ((p.0.loading ≡ true) ↔ (outcome ≡ rejects))

end_submit-Comes :
    (outcome : Outcome) (password : String) (a : AuthState)
    → a ≢ authenticated
    → Comes outcome
        (end_submit outcome (record { password = password; error = ""; loading = true }, a))
unfolding end_submit
end_submit-Comes rejects password a na = (
  ((λ e. absurd (na e)), (λ e. absurd (cc))),
  ((λ e. absurd (e refl)), (λ m. absurd (let (x, e) = m in cc))),
  ((λ e. refl), (λ e. refl)),
)
end_submit-Comes succeeds password a na = (
  ((λ e. refl), (λ e. refl)),
  ((λ e. absurd (e refl)), (λ m. absurd (let (x, e) = m in cc))),
  ((λ e. absurd (cc)), (λ e. absurd (cc))),
)
end_submit-Comes (refused message) password a na = (
  ((λ e. absurd (na e)), (λ e. absurd (cc))),
  ((λ e. (message, refl)), (λ m. shown_error message)),
  ((λ e. absurd (cc)), (λ e. absurd (cc))),
)

-- With a password a submission lets the user in exactly when the request succeeds; an error is shown
-- exactly when it is refused; and the form is left disabled exactly when the request rejects.
pub handle_submit_outcome :
    (setup : Bool) (outcome : Outcome) (f : Form) (a : AuthState)
    → f.password ≢ ""
    → a ≢ authenticated
    → let (f', a') = handle_submit setup outcome (f, a) in
      ((a' ≡ authenticated) ↔ (outcome ≡ succeeds))
      × ((f'.error ≢ "") ↔ ((message : Option String) × (outcome ≡ refused message)))
      × ((f'.loading ≡ true) ↔ (outcome ≡ rejects))
handle_submit_outcome setup outcome f a ne na =
    subst (Comes outcome) (sym (submitted setup outcome f a ne))
      (end_submit-Comes outcome f.password a na)
