-- ===== src/Storage/Projects.antt =====
-- The files of different projects on one machine.
use mathlib.Core.Option.{some-injective}
use text.Mathlib.TextLemmas.{
  cons-append, append_cancel_left, append_cancel_right, head-eq_of_cons-eq, tail-eq_of_cons-eq,
}
use latte_rs.Base.{
  ℕ, ◌<◌, ◌≡◌, ◌≢◌, ◌↔◌, refl, sym, ap, ◌∙◌, Char, String, ◌<>◌, Option, none, some, ok, arith, len,
  len_utf8, is_empty_iff, show_ℕ, true, false, Bool, ◌&&◌, is_some, codes,
}
use Prim.Native.Char.{code}
use latte_rs.Base.Text.Split.{Lacks}
use latte_rs.Key.{alphabet, position}
use latte_rs.Storage.Paths.{slash, default_path-Lacks}
use latte_rs.AppId.{AppId, parse_app_id}
use latte_rs.AppId.Shape.{parse_app_id_iff}
use latte_rs.Storage.{FilePath, text_of, before_dot, file_stem, tmp_path, push, default_path}
use latte_rs.Storage.Names.{tmp_path_ne, tmp_path-injective}

len_utf8_pos : (c : Char) → 0 < len_utf8 c
unfolding len_utf8
len_utf8_pos c = ground arith

-- Beginnings of the same length of one text are the same.
prefix_unique : (s t u v : String) → len s ≡ len t → s <> u ≡ t <> v → s ≡ t
unfolding len
prefix_unique String.[] String.[] u v h e = refl
prefix_unique String.[] (String.◌∷◌ c t) u v h e = absurd (omega (arith, len_utf8_pos c))
prefix_unique (String.◌∷◌ c s) String.[] u v h e = absurd (omega (arith, len_utf8_pos c))
prefix_unique (String.◌∷◌ c s) (String.◌∷◌ d t) u v h e =
    let e' = rw (cons-append c s u, cons-append d t v) at e in
    let heads : c ≡ d = head-eq_of_cons-eq e' in
    let sizes : len s ≡ len t = omega (arith, h, ap len_utf8 heads) in
    rw heads (ap (String.◌∷◌ d) (prefix_unique s t u v sizes (tail-eq_of_cons-eq e')))

before_dot-json : (s : String) → before_dot (s <> ".json") ≡ some s
unfolding before_dot
before_dot-json String.[] = refl
before_dot-json (String.◌∷◌ c s) = rw cons-append (rw (before_dot, before_dot-json s) refl)

file_stem-json : (s : String) → s ≢ "" → file_stem (s <> ".json") ≡ s
unfolding file_stem
file_stem-json s ne = rw (before_dot-json s) (ground (arith, is_empty_iff s, ne))

abbrev file_of : String → String → FilePath
file_of dir key = record { dir = push dir "LicenseLatte"; name = key <> ".json" }

abbrev extension : (process counter : ℕ) → String
extension p c = "json." <> (show_ℕ p <> ("." <> (show_ℕ c <> ".tmp")))

module _ (dir key key' : String) (size : len key ≡ len key') (ne : key ≢ "") (ne' : key' ≢ "") where
  -- The names in one directory.
  same_name :
      (name name' : String)
      → push dir "LicenseLatte" <> (String.◌∷◌ "/" name)
        ≡ push dir "LicenseLatte" <> (String.◌∷◌ "/" name')
      → name ≡ name'
  same_name name name' e = tail-eq_of_cons-eq (append_cancel_left (push dir "LicenseLatte") _ _ e)

  cache-key : text_of (file_of dir key) ≡ text_of (file_of dir key') → key ≡ key'
  cache-key e = append_cancel_right key key' ".json" (same_name _ _ e)

  tmp_path-key :
      (p c q d : ℕ)
      → text_of (tmp_path (file_of dir key) p c) ≡ text_of (tmp_path (file_of dir key') q d)
      → key ≡ key'
  tmp_path-key p c q d e =
      prefix_unique key key' (String.◌∷◌ "." (extension p c)) (String.◌∷◌ "." (extension q d)) size
        (rw (file_stem-json key ne, file_stem-json key' ne') at (same_name _ _ e))

  tmp_path-cache_ne :
      (p c : ℕ) → text_of (tmp_path (file_of dir key) p c) ≢ text_of (file_of dir key')
  tmp_path-cache_ne p c e =
      let same : key ≡ key' =
        prefix_unique key key' (String.◌∷◌ "." (extension p c)) ".json" size
          (rw (file_stem-json key ne) at (same_name _ _ e)) in
      tmp_path_ne (file_of dir key) p c (e ∙ ap (λ k. text_of (file_of dir k)) (sym same))

-- Where a project keeps its activation unless it is told where.
abbrev pub IsCacheOf : Option String → FilePath → AppId → Type 0
IsCacheOf config_dir path a = default_path config_dir a.key ≡ some path

&&-true : (a b : Bool) → (a && b) ≡ true → (a ≡ true) × (b ≡ true)
&&-true true b h = (refl, h)
&&-true false b h = cc

unfoldable pub is_letter : ℕ → Bool
is_letter c = is_some (position c (codes alphabet))

-- Whether a text is written in the key alphabet.
unfoldable pub in_alphabet : String → Bool
in_alphabet String.[] = true
in_alphabet (String.◌∷◌ c s) = is_letter (code c) && in_alphabet s

is_letter-slash : is_letter (code slash) ≡ false
unfolding is_letter position
is_letter-slash = refl

in_alphabet-Lacks : (s : String) → in_alphabet s ≡ true → Lacks slash s
unfolding in_alphabet
in_alphabet-Lacks String.[] h = tt
in_alphabet-Lacks (String.◌∷◌ c s) h =
    let (first, rest) = &&-true (is_letter (code c)) (in_alphabet s) h in
    (
      λ e.
          let letter : is_letter (code slash) ≡ true = ap is_letter (sym e) ∙ first in
          cc (is_letter-slash),
      in_alphabet-Lacks s rest,
    )

key_ne :
    (app_id : String) (a : AppId)
    → parse_app_id app_id ≡ some (ok a)
    → (a.key ≢ "") × (len a.key ≡ 32)
unfolding len
key_ne app_id a h =
    let segment = ((parse_app_id_iff app_id a).0 h).1 in
    ((λ e. absurd (omega (arith, segment.size, ap len e))), segment.size)

file_of-key :
    (dir : String) (a : AppId) (path : FilePath)
    → in_alphabet a.key ≡ true
    → IsCacheOf (some dir) path a
    → path ≡ file_of dir a.key
file_of-key dir a path written at =
    sym (
      some-injective _ _
        (sym (default_path-Lacks dir a.key (in_alphabet-Lacks a.key written)) ∙ at))

-- Two project keys that parse, whose last segments are written in the key alphabet, on one machine and
-- without a cache path of their own, have one cache file exactly when those segments are the same,
-- whatever their environments; a temporary file of the one is a temporary file of the other exactly
-- when the segments, the processes and the counters are the same; and it is never the cache file of
-- either. Files are told apart by the texts of their paths.
pub default_path-apart :
    (config_dir : Option String) (app_id app_id' : String) (a b : AppId) (path path' : FilePath)
    (p c q d : ℕ)
    → parse_app_id app_id ≡ some (ok a)
    → parse_app_id app_id' ≡ some (ok b)
    → in_alphabet a.key ≡ true
    → in_alphabet b.key ≡ true
    → IsCacheOf config_dir path a
    → IsCacheOf config_dir path' b
    → ((text_of path ≡ text_of path') ↔ (a.key ≡ b.key))
      × ((text_of (tmp_path path p c) ≡ text_of (tmp_path path' q d))
          ↔ ((a.key ≡ b.key) × (p ≡ q) × (c ≡ d)))
      × (text_of (tmp_path path p c) ≢ text_of path')
      × (text_of (tmp_path path p c) ≢ text_of path)
unfolding default_path
default_path-apart none app_id app_id' a b path path' p c q d ha hb wa wb at at' = cc
default_path-apart (some dir) app_id app_id' a b path path' p c q d ha hb wa wb at at' =
    let (ne, size) = key_ne app_id a ha in
    let (ne', size') = key_ne app_id' b hb in
    let here = file_of-key dir a path wa at in
    let there = file_of-key dir b path' wb at' in
    let sizes : len a.key ≡ len b.key = size ∙ sym size' in
    rw (here, there)
      (
        (cache-key dir a.key b.key sizes ne ne', ap (λ k. text_of (file_of dir k))),
        (
          (λ e.
              let same = tmp_path-key dir a.key b.key sizes ne ne' p c q d e in
              let (p≡q, c≡d) =
                tmp_path-injective (file_of dir b.key) p c q d
                  (ap (λ k. text_of (tmp_path (file_of dir k) p c)) (sym same) ∙ e) in
              (same, p≡q, c≡d)),
          (λ (same, p≡q, c≡d). rw (same, p≡q, c≡d) refl),
        ),
        tmp_path-cache_ne dir a.key b.key sizes ne ne' p c,
        tmp_path-cache_ne dir a.key a.key refl ne ne p c,
      )
