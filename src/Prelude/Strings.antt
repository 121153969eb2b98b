-- ===== src/Prelude/Strings.antt =====
-- Methods of `str` that split a text, and what they say about it.
use Prim.Native.Char.{Char, code}
use Prim.Native.String.append
use Prim.Native.String.{String, count}
use Prim.Native.Nat.{ℕ, ◌+◌, ◌≤◌}
use native.Mathlib.Omega.{arith}
use mathlib.Core.Bool.{Bool, true, false, ◌&&◌, ◌||◌}
use mathlib.Core.Option.{Option, none, some}
use mathlib.Core.Logic.{inl, inr}
use mathlib.Core.Path.{◌≡◌, ap}
use text.Mathlib.TextEquality.{Char-path}
use text.Mathlib.TextLemmas.{length-append}
use mill.Prelude.Tests.{◌==◌, ==_iff, leb, if◌then◌else◌, option_map, Bool-cases, Option-cases}
use mill.Prelude.Text.{◌<>◌, str_eq, str_eq_iff}

abbrev pub empty_text : String → Bool
empty_text String.[] = true
empty_text (String.◌∷◌ c s) = false

-- `s.strip_prefix(p)`
unfoldable pub strip_prefix : String → String → Option String
strip_prefix s String.[] = some s
strip_prefix String.[] (String.◌∷◌ d p) = none
strip_prefix (String.◌∷◌ c s) (String.◌∷◌ d p) =
    let rest = strip_prefix s p in if code c == code d then rest else none

cons_left : Char → String × String → String × String
cons_left c r = (String.◌∷◌ c r.0, r.1)

-- The text before and after the first occurrence of `p`, where `find` would give its place. No
-- caller passes an empty `p`.
unfoldable pub split_first : String → String → Option (String × String)
unfolding strip_prefix cons_left
split_first String.[] p = none
split_first (String.◌∷◌ c s) p =
    let later = split_first s p in
    elim (strip_prefix (String.◌∷◌ c s) p) [
      | some after ↦ some ("", after)
      | none ↦ option_map (cons_left c) later
    ]

-- `s.strip_suffix(p)`
unfoldable pub strip_suffix : String → String → Option String
strip_suffix String.[] p = if empty_text p then some "" else none
strip_suffix (String.◌∷◌ c s) p =
    let later = option_map (λ r. String.◌∷◌ c r) (strip_suffix s p) in
    if str_eq (String.◌∷◌ c s) p then some "" else later

-- The property `White_Space` of Unicode, which `trim` goes by.
is_whitespace : ℕ → Bool
is_whitespace c =
    (leb 9 c && leb c 13)
    || c == 32
    || c == 133
    || c == 160
    || c == 5760
    || (leb 8192 c && leb c 8202)
    || c == 8232
    || c == 8233
    || c == 8239
    || c == 8287
    || c == 12288

trim_start : String → String
unfolding is_whitespace
trim_start String.[] = ""
trim_start (String.◌∷◌ c s) =
    let rest = trim_start s in if is_whitespace (code c) then rest else String.◌∷◌ c s

trim_end : String → String
unfolding is_whitespace
trim_end String.[] = ""
trim_end (String.◌∷◌ c s) =
    let rest = trim_end s in
    if empty_text rest && is_whitespace (code c) then "" else String.◌∷◌ c rest

-- `s.trim()`
unfoldable pub trim : String → String
unfolding trim_start trim_end
trim s = trim_end (trim_start s)

pub strip_prefix_sound : (s p r : String) → strip_prefix s p ≡ some r → s ≡ p <> r
unfolding strip_prefix
strip_prefix_sound s String.[] r h = cc (h, append.nil r)
strip_prefix_sound String.[] (String.◌∷◌ d p) r h = cc
strip_prefix_sound (String.◌∷◌ c s) (String.◌∷◌ d p) r h = elim (Bool-cases (code c == code d)) [
  | inl e ↦
      let same = Char-path c d ((==_iff (code c) (code d)).0 e) in
      let rest = strip_prefix_sound s p r (ground (arith, h, e)) in
      cc (same, rest, append.cons d p r)
  | inr e ↦ absurd (ground (arith, h, e))
]

pub strip_suffix_sound : (s p r : String) → strip_suffix s p ≡ some r → s ≡ r <> p
unfolding strip_suffix
strip_suffix_sound String.[] String.[] r h = cc (h, append.nil "")
strip_suffix_sound String.[] (String.◌∷◌ d p) r h = cc
strip_suffix_sound (String.◌∷◌ c s) p r h = elim (Bool-cases (str_eq (String.◌∷◌ c s) p)) [
  | inl e ↦
      let found : some "" ≡ some r = ground (arith, h, e) in
      cc ((str_eq_iff (String.◌∷◌ c s) p).0 e, found, append.nil p)
  | inr e ↦ elim (Option-cases (strip_suffix s p)) [
    | inl n ↦ absurd (ground (arith, h, e, n))
    | inr (q, n) ↦
        let found : some (String.◌∷◌ c q) ≡ some r = ground (arith, h, e, n) in
        cc (found, strip_suffix_sound s p q n, append.cons c q p)
  ]
]

abbrev halves : String → String → Option (String × String)
halves a b = some (a, b)

pub split_first_sound : (s p a b : String) → split_first s p ≡ some (a, b) → s ≡ a <> (p <> b)
unfolding split_first cons_left
split_first_sound String.[] p a b h = cc
split_first_sound (String.◌∷◌ c s) p a b h = elim (Option-cases (strip_prefix (String.◌∷◌ c s) p)) [
  | inl n ↦ elim (Option-cases (split_first s p)) [
    | inl m ↦ absurd (ground (arith, h, n, m))
    | inr ((u, v), m) ↦
        let found : halves (String.◌∷◌ c u) v ≡ halves a b = ground (arith, h, n, m) in
        cc (found, split_first_sound s p u v m, append.cons c u (p <> v))
  ]
  | inr (r, n) ↦
      let found : halves "" r ≡ halves a b = ground (arith, h, n) in
      cc (found, strip_prefix_sound (String.◌∷◌ c s) p r n, append.nil (p <> r))
]

-- What follows the occurrence is shorter than the text by the length of `p`, at least.
pub split_first-count :
    (s p a b : String) → split_first s p ≡ some (a, b) → count p + count b ≤ count s
split_first-count s p a b h =
    omega
      (arith, ap count (split_first_sound s p a b h), length-append a (p <> b), length-append p b)
