-- ===== src/HashMap/Contents.antt =====
-- A map without the order of its entries.
use mathlib.Core.Quot
use mathlib.Core.Quot.{Quot}
use latte_rs.Base.{String, ◌≡◌}
use latte_rs.HashMap.{HashMap, lookup}

module _ {ℓ} {V : Type ℓ} where
  abbrev pub SameAnswers : HashMap V → HashMap V → Type ℓ
  SameAnswers m n = (key : String) → lookup key m ≡ lookup key n

abbrev pub Contents {ℓ} : Type ℓ → Type ℓ
Contents V = Quot (SameAnswers {V = V})

module _ {ℓ} {V : Type ℓ} where
  abbrev pub contents : HashMap V → Contents V
  contents m = Quot.mk m

  pub contents_of_SameAnswers : (m n : HashMap V) → SameAnswers m n → contents m ≡ contents n
  contents_of_SameAnswers m n same = Quot.sound same
