-- ===== src/Config/Settings.antt =====
-- Settings and what stands for those that are not given.
use mathlib.Core.Option
use mathlib.Core.Option.{some-injective}
use latte_rs.Base.{
  String, ◌≡◌, ◌≢◌, refl, sym, ap, ◌∙◌, ◌↔◌, ◌⊎◌, false, inl, inr, Option, none, some, Bool-cases,
  is_empty, is_empty_iff, get_or, arith,
}
use latte_rs.Time.{Duration, from_secs}
use latte_rs.Client.{Http}
use latte_rs.Storage.{FilePath, text_of}
use latte_rs.Config.{non_empty_name, or_default}

-- The settings of an agent with this limit.
abbrev pub Waits : Duration → Http → Type 0
Waits limit http =
    (http.timeout ≡ limit)
    × (http.agent.timeout_global ≡ some limit)
    × (http.agent.timeout_resolve ≡ some (from_secs 5))
    × (http.agent.timeout_connect ≡ some (from_secs 5))
    × (http.agent.http_status_as_error ≡ false)

-- A setting, or what stands for one that is not given.
abbrev pub IsGiven : {A : Type 0} → Option A → A → A → Type 0
IsGiven given a default = (given ≡ some a) ⊎ ((given ≡ none) × (a ≡ default))

pub get_or-IsGiven :
    {A : Type 0} (default : A) (given : Option A) → IsGiven given (get_or default given) default
get_or-IsGiven default none = inr (refl, refl)
get_or-IsGiven default (some a) = inl refl

pub name_iff :
    (given : Option String) (name : String)
    → (non_empty_name given ≡ some name) ↔ ((given ≡ some name) × (name ≢ ""))
name_iff none name = (λ h. cc, λ (h, ne). cc)
name_iff (some n) name = elim (Bool-cases (is_empty n)) [
  | inl empty ↦
      let e = (is_empty_iff n).0 empty in
      rw empty (λ h. cc, λ (h, ne). absurd (ne (sym (some-injective _ _ h) ∙ e)))
  | inr full ↦
      let ne : n ≢ "" = ground (arith, is_empty_iff n, full) in
      rw full (λ h. (h, λ e. ne (some-injective _ _ h ∙ e)), λ (h, ne'). h)
]

pub cache_iff :
    (given : Option String) (file : Option FilePath) (path : String)
    → (or_default given (Option.map text_of file) ≡ some path) ↔ (
        (given ≡ some path)
        ⊎ ((given ≡ none) × (f : FilePath) × (file ≡ some f) × (path ≡ text_of f)))
cache_iff none none path = (λ h. cc, λ h. elim h [ inl e ↦ cc | inr (_, f, e, _) ↦ cc ])
cache_iff none (some f) path = (
  λ h. inr (refl, f, refl, sym (some-injective _ _ h)),
  λ h. elim h [ inl e ↦ cc | inr (_, g, e, same) ↦ cc ],
)
cache_iff (some p) file path = (λ h. inl h, λ h. elim h [ inl e ↦ e | inr (e, _, _, _) ↦ cc ])

-- Two settings of one option.
pub IsGiven-unique :
    {A : Type 0} (given : Option A) (a b default : A)
    → IsGiven given a default
    → IsGiven given b default
    → a ≡ b
IsGiven-unique given a b default h k = elim h [
  | inl e ↦ elim k [ inl e' ↦ some-injective _ _ (sym e ∙ e') | inr (e', _) ↦ cc ]
  | inr (e, d) ↦ elim k [ inl e' ↦ cc | inr (_, d') ↦ d ∙ sym d' ]
]

pub Waits-unique : (s t : Duration) (a b : Http) → s ≡ t → Waits s a → Waits t b → a ≡ b
Waits-unique s t a b same (a₀, a₁, a₂, a₃, a₄) (b₀, b₁, b₂, b₃, b₄) = λ i. record {
  agent = record {
    http_status_as_error = (a₄ ∙ sym b₄) i;
    timeout_global = (a₁ ∙ ap some same ∙ sym b₁) i;
    timeout_resolve = (a₂ ∙ sym b₂) i;
    timeout_connect = (a₃ ∙ sym b₃) i;
  };
  timeout = (a₀ ∙ same ∙ sym b₀) i;
}

pub some_unique :
    {A : Type 0} (o o' : Option A)
    → ((a : A) → (o ≡ some a) → (o' ≡ some a))
    → ((a : A) → (o' ≡ some a) → (o ≡ some a))
    → o ≡ o'
some_unique none none h k = refl
some_unique none (some a) h k = k a refl
some_unique (some a) o' h k = sym (h a refl)
