-- ===== src/View/Login.antt =====
-- The tree that frontend/src/components/Auth/LoginForm.tsx returns, and what its controls do.
use Prim.Native.String.{◌++◌ as ◌<>◌}
use loci_terminal.Common.{
  ◌≡◌, refl, ◌↔◌, inl, inr, String, Bool, false, ◌||◌, List, [], ◌∷◌, ◌++◌, Option, none, some, is,
  if◌then◌else◌, truthy, Bool-cases, str_dec, arith,
}
use loci_terminal.App.Login.{Form, Outcome, begin_submit, handle_submit, endpoint}
use loci_terminal.App.{AuthState}
use loci_terminal.Theme.Colors.{UiColors}
use loci_terminal.View.Html.{Html, element, text, attr, style, on, nodes, flag, marked, marked_all}

pub data LoginAction : Type 0 where
  submits types_password : LoginAction

-- `error && ...`
abbrev pub error_line : UiColors → Option String → List (Html LoginAction)
error_line ui none = []
error_line ui (some message) =
    element "div"
      (style (("color", ui.danger) ∷ ("fontSize", "12px") ∷ ("textAlign", "center") ∷ []) ∷ [])
      (nodes (text message ∷ []))
    ∷ []

abbrev pub submit_button : UiColors → Bool → Form → Html LoginAction
submit_button ui setup f =
    let blocked = f.loading || is f.password "" in
    element "button"
      (attr "type" "submit"
        ∷ (flag "disabled" blocked
            ++ style (
                ("backgroundColor", ui.accent)
                ∷ ("border", "none")
                ∷ ("color", "#fff")
                ∷ ("fontSize", "14px")
                ∷ ("fontFamily", "inherit")
                ∷ ("fontWeight", "600")
                ∷ ("padding", "12px")
                ∷ ("cursor", (if f.loading then "wait" else "pointer"))
                ∷ ("opacity", (if blocked then "0.6" else "1"))
                ∷ ("borderRadius", "4")
                ∷ ("minHeight", "44")
                ∷ [])
              ∷ []))
      (nodes (text (if setup then "Set Password" else "Login") ∷ []))

abbrev pub password_field : UiColors → Bool → Form → Html LoginAction
password_field ui setup f =
    element "input"
      (attr "type" "password"
        ∷ attr "value" f.password
        ∷ on "onChange" types_password
        ∷ attr "placeholder" (if setup then "Choose a password" else "Password")
        ∷ attr "autoFocus" "true"
        ∷ style (
            ("backgroundColor", ui.tab_active_bg)
            ∷ ("border", ("1px solid " <> ui.sidebar_border))
            ∷ ("color", ui.text_primary)
            ∷ ("fontSize", "16px")
            ∷ ("fontFamily", "inherit")
            ∷ ("padding", "12px 14px")
            ∷ ("outline", "none")
            ∷ ("width", "100%")
            ∷ ("boxSizing", "border-box")
            ∷ ("borderRadius", "4")
            ∷ [])
        ∷ [])
      (nodes [])

-- `LoginForm`
unfoldable pub login_form : UiColors → Bool → Form → Html LoginAction
login_form ui setup f =
    element "div"
      (style (
          ("display", "flex")
          ∷ ("alignItems", "center")
          ∷ ("justifyContent", "center")
          ∷ ("minHeight", "100vh")
          ∷ ("width", "100vw")
          ∷ ("backgroundColor", ui.app_bg)
          ∷ ("fontFamily", "'JetBrains Mono', monospace")
          ∷ ("padding", "24px")
          ∷ ("boxSizing", "border-box")
          ∷ [])
        ∷ [])
      (nodes (
        element "form"
          (on "onSubmit" submits
            ∷ style (
                ("display", "flex")
                ∷ ("flexDirection", "column")
                ∷ ("gap", "16px")
                ∷ ("width", "100%")
                ∷ ("maxWidth", "320px")
                ∷ [])
            ∷ [])
          (nodes (
            element "div"
              (style (
                  ("color", ui.text_primary)
                  ∷ ("fontSize", "20px")
                  ∷ ("fontWeight", "600")
                  ∷ ("textAlign", "center")
                  ∷ ("marginBottom", "8px")
                  ∷ [])
                ∷ [])
              (nodes (text "LociTerm" ∷ []))
            ∷ element "div"
                (style (
                    ("color", ui.text_secondary)
                    ∷ ("fontSize", "13px")
                    ∷ ("textAlign", "center")
                    ∷ [])
                  ∷ [])
                (nodes (
                  text (
                    if setup
                    then "Set a password to secure your terminal."
                    else "Enter your password to continue.")
                  ∷ []))
            ∷ password_field ui setup f
            ∷ (error_line ui (truthy (some f.error)) ++ submit_button ui setup f ∷ [])))
        ∷ []))

-- What a control does, with the value of the field and what the request comes to.
unfoldable pub run_login :
    Bool → String → Outcome → LoginAction → Form × AuthState → Form × AuthState
run_login setup value outcome submits p = handle_submit setup outcome p
run_login setup value outcome types_password (f, a) = (record f { password = value }, a)

error-marked :
    (ui : UiColors) (o : Option String) (b : Html LoginAction)
    → marked_all "disabled" (nodes (error_line ui o ++ b ∷ [])) ≡ marked "disabled" b
unfolding marked str_dec Bool-cases
error-marked ui none b = omega arith
error-marked ui (some message) b = omega arith

button-marked :
    (ui : UiColors) (setup : Bool) (f : Form)
    → marked "disabled" (submit_button ui setup f)
      ≡ (if f.loading || is f.password "" then 1 else 0)
unfolding marked str_dec Bool-cases
button-marked ui setup f = elim (Bool-cases (f.loading || is f.password "")) [
  | inl e ↦ rw e refl
  | inr e ↦ rw e refl
]

login_form-marked :
    (ui : UiColors) (setup : Bool) (f : Form)
    → marked "disabled" (login_form ui setup f) ≡ (if f.loading || is f.password "" then 1 else 0)
unfolding login_form marked str_dec Bool-cases
login_form-marked ui setup f =
    let e = error-marked ui (truthy (some f.error)) (submit_button ui setup f) in
    let b = button-marked ui setup f in omega arith

-- Nothing in the form is disabled exactly while no submission is under way and a submission would ask the
-- server, at the endpoint for the setup or at that for a login.
enabled_iff :
    (ui : UiColors) (setup : Bool) (f : Form)
    → (marked "disabled" (login_form ui setup f) ≡ 0)
      ↔ ((f.loading ≡ false) × ((begin_submit setup f).1 ≡ some (endpoint setup)))
unfolding begin_submit
enabled_iff ui setup f = (
  (λ e. let m = login_form-marked ui setup f in (ground arith, ground arith)),
  (λ (l, a). let m = login_form-marked ui setup f in ground arith),
)
