-- ===== src/Storage/Paths.antt =====
-- The default path of a key that has no slash.
use Prim.Native.Char.{Char}
use Prim.Native.String.{String}
use text.Mathlib.TextLemmas.{nil-append, cons-append}
use latte_rs.Base.{◌≡◌, refl, Bool, true, false, Bool-cases, inl, inr, none, some, ◌<>◌, arith}
use latte_rs.Base.Text.Split.{Lacks}
use latte_rs.Storage.{ends_bare, is_absolute, push, file_path, default_path}

abbrev pub slash : Char
slash = "/"

ends_bare-append :
    (s t : String) (bare : Bool)
    → ((b : Bool) → ends_bare b t ≡ true)
    → ends_bare bare (s <> t) ≡ true
unfolding ends_bare
ends_bare-append String.[] t bare h = rw nil-append (h bare)
ends_bare-append (String.◌∷◌ c s) t bare h = rw cons-append (ends_bare-append s t _ h)

-- A directory that was joined to another ends in no slash.
push-bare : (dir : String) → ends_bare false (push dir "LicenseLatte") ≡ true
unfolding ends_bare is_absolute
push-bare dir = elim (Bool-cases (ends_bare false dir)) [
  | inl bare ↦ rw bare (ends_bare-append dir "/LicenseLatte" false (λ b. refl))
  | inr closed ↦ rw closed (ends_bare-append dir "LicenseLatte" false (λ b. refl))
]

Lacks-append : (s t : String) → Lacks slash s → Lacks slash t → Lacks slash (s <> t)
Lacks-append String.[] t h k = rw nil-append k
Lacks-append (String.◌∷◌ c s) t (ne, h) k = rw cons-append (ne, Lacks-append s t h k)

is_absolute-Lacks : (s : String) → Lacks slash s → is_absolute s ≡ false
unfolding is_absolute
is_absolute-Lacks String.[] h = refl
is_absolute-Lacks (String.◌∷◌ c s) (ne, h) = ground (arith, ne)

file_path-Lacks : (s : String) → Lacks slash s → file_path s ≡ none
unfolding file_path
file_path-Lacks String.[] h = refl
file_path-Lacks (String.◌∷◌ c s) (ne, h) = rw (file_path-Lacks s h) (ground (arith, ne))

file_path-slash :
    (dir name : String)
    → Lacks slash name
    → file_path (dir <> (String.◌∷◌ "/" name)) ≡ some (record { dir = dir; name = name })
unfolding file_path
file_path-slash String.[] name h = rw (nil-append, file_path-Lacks name h) refl
file_path-slash (String.◌∷◌ c dir) name h = rw (cons-append, file_path-slash dir name h) refl

pub default_path-Lacks :
    (dir key : String)
    → Lacks slash key
    → default_path (some dir) key
      ≡ some (record { dir = push dir "LicenseLatte"; name = key <> ".json" })
unfolding default_path
default_path-Lacks dir key h =
    let name = Lacks-append key ".json" h (omega arith) in
    let relative = is_absolute-Lacks (key <> ".json") name in
    rw (relative, push-bare dir) (file_path-slash (push dir "LicenseLatte") (key <> ".json") name)
