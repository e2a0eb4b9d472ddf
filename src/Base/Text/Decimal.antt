-- ===== src/Base/Text/Decimal.antt =====
-- The decimal digits of a number read back as it.
use Prim.Native.Char.{Char, code}
use Prim.Native.String.{String}
use Prim.Native.Nat.{ℕ, zero, suc, ◌+◌, ◌-◌, ◌*◌, ◌/◌, ◌%◌, ◌<◌}
use mathlib.Core.Path.{◌≡◌, refl, ap, sym, ◌∙◌}
use mathlib.Core.Logic.{inl, inr}
use native.Mathlib.Omega.{arith}
use text.Mathlib.TextLemmas.{nil-append, cons-append}
use latte_rs.Base.Tests.{ltb, Bool-cases}
use latte_rs.Base.Text.{◌<>◌, digit, show_from, show_ℕ}
use latte_rs.Base.Text.Split.{Lacks}

read : ℕ → String → ℕ
read acc String.[] = acc
read acc (String.◌∷◌ c s) = read (acc * 10 + (code c - b'0')) s

read-append : (acc : ℕ) (s t : String) → read acc (s <> t) ≡ read (read acc s) t
unfolding read
read-append acc String.[] t = rw nil-append refl
read-append acc (String.◌∷◌ c s) t = rw cons-append (read-append (acc * 10 + (code c - b'0')) s t)

digit-code : (d : ℕ) → d < 10 → (c : Char) × (digit d ≡ String.◌∷◌ c "") × (code c ≡ b'0' + d)
digit-code zero h = ("0", refl, omega arith)
digit-code (suc zero) h = ("1", refl, omega arith)
digit-code (suc (suc zero)) h = ("2", refl, omega arith)
digit-code (suc (suc (suc zero))) h = ("3", refl, omega arith)
digit-code (suc (suc (suc (suc zero)))) h = ("4", refl, omega arith)
digit-code (suc (suc (suc (suc (suc zero))))) h = ("5", refl, omega arith)
digit-code (suc (suc (suc (suc (suc (suc zero)))))) h = ("6", refl, omega arith)
digit-code (suc (suc (suc (suc (suc (suc (suc zero))))))) h = ("7", refl, omega arith)
digit-code (suc (suc (suc (suc (suc (suc (suc (suc zero)))))))) h = ("8", refl, omega arith)
digit-code (suc (suc (suc (suc (suc (suc (suc (suc (suc zero))))))))) h = ("9", refl, omega arith)
digit-code (suc (suc (suc (suc (suc (suc (suc (suc (suc (suc n)))))))))) h = absurd (omega arith)

read-digit : (acc d : ℕ) → d < 10 → read acc (digit d) ≡ acc * 10 + d
unfolding read
read-digit acc d h = let (c, e, value) = digit-code d h in rw (e, value) (omega arith)

-- The fuel is enough.
read-show_from : (fuel n : ℕ) → n < fuel → read 0 (show_from fuel n) ≡ n
unfolding show_from
read-show_from zero n h = absurd (omega arith)
read-show_from (suc fuel) n h = elim (Bool-cases (ltb n 10)) [
  | inl small ↦ rw small (read-digit 0 n (ground (arith, small)) ∙ omega arith)
  | inr large ↦
      rw
        (
          large,
          read-append 0 (show_from fuel (n / 10)) (digit (n % 10)),
          read-show_from fuel (n / 10) (ground (arith, large)),
          read-digit (n / 10) (n % 10) (omega arith),
        )
        (omega arith)
]

pub show_ℕ-injective : (m n : ℕ) → show_ℕ m ≡ show_ℕ n → m ≡ n
unfolding show_ℕ
show_ℕ-injective m n e =
    sym (read-show_from (suc m) m (omega arith))
    ∙ ap (read 0) e
    ∙ read-show_from (suc n) n (omega arith)

Lacks-append : (sep : Char) (s t : String) → Lacks sep s → Lacks sep t → Lacks sep (s <> t)
Lacks-append sep String.[] t h k = rw nil-append k
Lacks-append sep (String.◌∷◌ c s) t h k = rw cons-append (h.0, Lacks-append sep s t h.1 k)

digit-Lacks : (d : ℕ) → d < 10 → Lacks "." (digit d)
digit-Lacks d h =
    let (c, e, value) = digit-code d h in
    rw e ((λ (dot : code c ≡ code "."). absurd (omega (arith, value, dot))), tt)

show_from-Lacks : (fuel n : ℕ) → Lacks "." (show_from fuel n)
unfolding show_from
show_from-Lacks zero n = tt
show_from-Lacks (suc fuel) n = elim (Bool-cases (ltb n 10)) [
  | inl small ↦ rw small (digit-Lacks n (ground (arith, small)))
  | inr large ↦
      rw large
        (Lacks-append "." _ _ (show_from-Lacks fuel (n / 10)) (digit-Lacks (n % 10) (omega arith)))
]

pub show_ℕ-Lacks : (n : ℕ) → Lacks "." (show_ℕ n)
unfolding show_ℕ
show_ℕ-Lacks n = show_from-Lacks (suc n) n
