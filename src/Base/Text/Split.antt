-- ===== src/Base/Text/Split.antt =====
-- Splitting a text at a character undoes joining parts that do not hold it, and the other way
-- round.
use Prim.Native.Char.{Char, code}
use Prim.Native.String.{String}
use mathlib.Core.Path.{◌≡◌, refl, ap, ap₂, sym, ◌∙◌}
use mathlib.Core.Logic.{◌≢◌}
use mathlib.Core.List.{List, [], ◌∷◌}
use native.Mathlib.Decide.{ℕ_discrete}
use native.Mathlib.Omega.{arith}
use text.Mathlib.TextEquality.{Char-path}
use text.Mathlib.TextLemmas.{nil-append, cons-append}
use latte_rs.Base.Tests.{All}
use latte_rs.Base.Text.{split, cons_head, ◌<>◌}

abbrev pub Lacks : Char → String → Type 0
Lacks sep String.[] = Unit
Lacks sep (String.◌∷◌ c s) = (code c ≢ code sep) × Lacks sep s

abbrev pub join : Char → List String → String
join sep [] = ""
join sep (p ∷ []) = p
join sep (p ∷ q ∷ ps) = p <> (String.◌∷◌ sep (join sep (q ∷ ps)))

join-cons_head :
    (sep c : Char) (ps : List String) → join sep (cons_head c ps) ≡ String.◌∷◌ c (join sep ps)
join-cons_head sep c [] = refl
join-cons_head sep c (p ∷ []) = refl
join-cons_head sep c (p ∷ q ∷ ps) = cons-append c p _

split-sep :
    (sep c : Char) (s : String) → code c ≡ code sep → split sep (String.◌∷◌ c s) ≡ "" ∷ split sep s
unfolding split
split-sep sep c s h = ground arith

split-other :
    (sep c : Char) (s : String)
    → code c ≢ code sep
    → split sep (String.◌∷◌ c s) ≡ cons_head c (split sep s)
unfolding split
split-other sep c s h = ground arith

cons_head-cons :
    (c : Char) (ps : List String) → (p : String) × (qs : List String) × (cons_head c ps ≡ p ∷ qs)
cons_head-cons c [] = (_, _, refl)
cons_head-cons c (p ∷ ps) = (_, _, refl)

split-cons : (sep : Char) (s : String) → (p : String) × (ps : List String) × (split sep s ≡ p ∷ ps)
unfolding split
split-cons sep String.[] = (_, _, refl)
split-cons sep (String.◌∷◌ c s) = elim (ℕ_discrete (code c) (code sep)) [
  | yes h ↦ ("", split sep s, split-sep sep c s h)
  | no h ↦ let (p, qs, e) = cons_head-cons c (split sep s) in (p, qs, split-other sep c s h ∙ e)
]

join-nil_split :
    (sep : Char) (s : String)
    → join sep ("" ∷ split sep s) ≡ String.◌∷◌ sep (join sep (split sep s))
join-nil_split sep s = let (p, ps, e) = split-cons sep s in rw e (nil-append _)

-- Joining the parts of a text with the separator gives the text back.
pub join-split : (sep : Char) (s : String) → join sep (split sep s) ≡ s
unfolding split
join-split sep String.[] = refl
join-split sep (String.◌∷◌ c s) = join-split_cons (join-split sep s)
  where
    join-split_cons :
        join sep (split sep s) ≡ s → join sep (split sep (String.◌∷◌ c s)) ≡ String.◌∷◌ c s
    join-split_cons ih = elim (ℕ_discrete (code c) (code sep)) [
      | yes h ↦
          ap (join sep) (split-sep sep c s h)
          ∙ join-nil_split sep s
          ∙ ap₂ String.◌∷◌ (sym (Char-path c sep h)) ih
      | no h ↦
          ap (join sep) (split-other sep c s h)
          ∙ join-cons_head sep c (split sep s)
          ∙ ap (String.◌∷◌ c) ih
    ]

All-cons_head :
    (sep c : Char) (ps : List String)
    → code c ≢ code sep
    → All (Lacks sep) ps
    → All (Lacks sep) (cons_head c ps)
All-cons_head sep c [] h a = ((h, tt), tt)
All-cons_head sep c (p ∷ ps) h a = ((h, a.0), a.1)

pub split-Lacks : (sep : Char) (s : String) → All (Lacks sep) (split sep s)
unfolding split
split-Lacks sep String.[] = (tt, tt)
split-Lacks sep (String.◌∷◌ c s) =
    ground (arith, split-Lacks sep s, All-cons_head sep c (split sep s))

pub split_of_Lacks : (sep : Char) (s : String) → Lacks sep s → split sep s ≡ s ∷ []
unfolding split
split_of_Lacks sep String.[] h = refl
split_of_Lacks sep (String.◌∷◌ c s) h = ground (arith, split_of_Lacks sep s)

split-append_cons :
    (sep c : Char) (p s : String)
    → code c ≢ code sep
    → split sep (p <> (String.◌∷◌ sep s)) ≡ p ∷ split sep s
    → split sep (String.◌∷◌ c p <> (String.◌∷◌ sep s)) ≡ String.◌∷◌ c p ∷ split sep s
split-append_cons sep c p s h ih = rw cons-append (split-other sep c _ h ∙ ap (cons_head c) ih)

pub split-append :
    (sep : Char) (p s : String)
    → Lacks sep p
    → split sep (p <> (String.◌∷◌ sep s)) ≡ p ∷ split sep s
split-append sep String.[] s h = rw nil-append (split-sep sep sep s refl)
split-append sep (String.◌∷◌ c p) s h = split-append_cons sep c p s h.0 (split-append sep p s h.1)

-- Splitting what was joined from parts without the separator gives the parts back.
pub split-join :
    (sep : Char) (p : String) (ps : List String)
    → All (Lacks sep) (p ∷ ps)
    → split sep (join sep (p ∷ ps)) ≡ p ∷ ps
split-join sep p [] h = split_of_Lacks sep p h.0
split-join sep p (q ∷ ps) h =
    split-append sep p (join sep (q ∷ ps)) h.0 ∙ ap (λ qs. p ∷ qs) (split-join sep q ps h.1)
