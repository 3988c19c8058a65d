-- ===== src/View/Trim.antt =====
-- `String.prototype.trim`, which frontend/src/components/Sidebar/Sidebar.tsx calls on the names that the user
-- types: the white space and line ends of ECMAScript are cut off at both ends.
use Prim.Native.Char.{Char, code}
use loci_terminal.Common.{
  ◌≡◌, refl, inl, inr, String, Bool, true, false, ◌&&◌, ◌||◌, if◌then◌else◌, leb, eqb, Bool-cases,
}

abbrev pub is_space : Char → Bool
is_space c =
    let n = code c in
    (leb 9 n && leb n 13)
    || eqb n 32
    || eqb n 160
    || eqb n 5760
    || (leb 8192 n && leb n 8202)
    || eqb n 8232
    || eqb n 8233
    || eqb n 8239
    || eqb n 8287
    || eqb n 12288
    || eqb n 65279

abbrev pub is_empty : String → Bool
is_empty String.[] = true
is_empty (String.◌∷◌ c s) = false

abbrev pub trim_start : String → String
trim_start String.[] = ""
trim_start (String.◌∷◌ c s) = let rest = trim_start s in if is_space c then rest else String.◌∷◌ c s

abbrev pub trim_end : String → String
trim_end String.[] = ""
trim_end (String.◌∷◌ c s) =
    let rest = trim_end s in if is_empty rest && is_space c then "" else String.◌∷◌ c rest

unfoldable pub trim : String → String
trim s = trim_end (trim_start s)

abbrev pub begins_blank : String → Bool
begins_blank String.[] = false
begins_blank (String.◌∷◌ c s) = is_space c

abbrev pub ends_blank : String → Bool
ends_blank String.[] = false
ends_blank (String.◌∷◌ c s) = if is_empty s then is_space c else ends_blank s

trim_start-begins_blank : (s : String) → begins_blank (trim_start s) ≡ false
trim_start-begins_blank String.[] = refl
trim_start-begins_blank (String.◌∷◌ c s) = elim (Bool-cases (is_space c)) [
  | inl e ↦ rw e (trim_start-begins_blank s)
  | inr e ↦ rw e e
]

trim_end-begins_blank : (s : String) → begins_blank s ≡ false → begins_blank (trim_end s) ≡ false
trim_end-begins_blank String.[] h = refl
trim_end-begins_blank (String.◌∷◌ c s) h = elim (Bool-cases (is_empty (trim_end s))) [
  | inl e ↦ rw (e, h) h
  | inr e ↦ rw e h
]

trim_end-ends_blank : (s : String) → ends_blank (trim_end s) ≡ false
trim_end-ends_blank String.[] = refl
trim_end-ends_blank (String.◌∷◌ c s) = elim (Bool-cases (is_empty (trim_end s))) [
  | inl e ↦ elim (Bool-cases (is_space c)) [ inl f ↦ rw (e, f) refl | inr f ↦ rw (e, f, e) f ]
  | inr e ↦ rw (e, e) (trim_end-ends_blank s)
]

-- No white space is left at either end.
pub trim-ends : (s : String) → (begins_blank (trim s) ≡ false) × (ends_blank (trim s) ≡ false)
unfolding trim
trim-ends s = (
  trim_end-begins_blank (trim_start s) (trim_start-begins_blank s),
  trim_end-ends_blank (trim_start s),
)
