-- ===== src/Base/Text.antt =====
-- The functions of the strings package that the source calls.
use Prim.Native.Char.{Char, code}
use go_label.Base.Tests.{concat, is_some, nat_eq, leb, ltb, is_blank, if◌then◌else◌}
use Prim.Native.Nat.{ℕ, ◌+◌, ◌*◌, ◌-◌, ◌^◌, min}
use Prim.Native.String.{String}
use mathlib.Core.Path.{◌≡◌, refl, ap}
use text.Mathlib.TextLemmas.{nil-append, cons-append}
use mathlib.Core.Option.{Option, none, some}
use native.Mathlib.Omega.{arith}
use go_label.Base.Int64.{ℤ, pos, sub_ℕ}
use mathlib.Core.Bool.{Bool, true, false, ◌&&◌, ◌||◌}

-- unicode.IsSpace.
unfoldable pub is_space : ℕ → Bool
is_space c =
    (leb 0x9 c && leb c 0xd)
    || (nat_eq c 0x20
        || (nat_eq c 0x85
            || (nat_eq c 0xa0
                || (nat_eq c 0x1680
                    || ((leb 0x2000 c && leb c 0x200a)
                        || (nat_eq c 0x2028
                            || (nat_eq c 0x2029
                                || (nat_eq c 0x202f || (nat_eq c 0x205f || nat_eq c 0x3000)))))))))

unfoldable pub trim_start : String → String
unfolding is_space
trim_start String.[] = ""
trim_start (String.◌∷◌ c s) =
    let rest = trim_start s in if is_space (code c) then rest else String.◌∷◌ c s

unfoldable pub trim_end : String → String
unfolding is_space
trim_end String.[] = ""
trim_end (String.◌∷◌ c s) =
    let rest = trim_end s in if is_blank rest && is_space (code c) then "" else String.◌∷◌ c rest

-- strings.TrimSpace.
unfoldable pub trim_space : String → String
unfolding trim_start trim_end
trim_space s = trim_end (trim_start s)

-- The letter of `to` at the place where a letter stands in `from`.
unfoldable pub shift : String → String → Char → Char
shift String.[] to c = c
shift (String.◌∷◌ a from) String.[] c = c
shift (String.◌∷◌ a from) (String.◌∷◌ b to) c =
    let rest = shift from to c in if nat_eq (code c) (code a) then b else rest

unfoldable pub map_chars : (Char → Char) → String → String
map_chars f String.[] = ""
map_chars f (String.◌∷◌ c s) = String.◌∷◌ (f c) (map_chars f s)

-- strings.ToLower and strings.ToUpper on the letters of ASCII; other letters are left alone.
unfoldable pub to_lower : String → String
unfolding map_chars shift
to_lower = map_chars (shift "ABCDEFGHIJKLMNOPQRSTUVWXYZ" "abcdefghijklmnopqrstuvwxyz")

unfoldable pub to_upper : String → String
unfolding map_chars shift
to_upper = map_chars (shift "abcdefghijklmnopqrstuvwxyz" "ABCDEFGHIJKLMNOPQRSTUVWXYZ")

login_name : to_lower (trim_space " Ops@Example.COM ") ≡ "ops@example.com"
unfolding to_lower trim_space
login_name = refl

-- The rest of a text after a prefix of it.
unfoldable pub strip_prefix : String → String → Option String
strip_prefix String.[] s = some s
strip_prefix (String.◌∷◌ c p) String.[] = none
strip_prefix (String.◌∷◌ c p) (String.◌∷◌ d s) =
    let rest = strip_prefix p s in if nat_eq (code c) (code d) then rest else none

-- strings.TrimPrefix.
unfoldable pub trim_prefix : String → String → String
unfolding strip_prefix
trim_prefix p s = elim (strip_prefix p s) [ none ↦ s | some rest ↦ rest ]

strip_prefix-append : (p s : String) → strip_prefix p (concat p s) ≡ some s
unfolding strip_prefix
strip_prefix-append String.[] s = ap some (nil-append s)
strip_prefix-append (String.◌∷◌ c p) s = rw cons-append (ground (arith, strip_prefix-append p s))

pub trim_prefix-append : (p s : String) → trim_prefix p (concat p s) ≡ s
unfolding trim_prefix
trim_prefix-append p s = ground (arith, strip_prefix-append p s)

-- The number that digits write after those read so far.
unfoldable pub digits_from : ℕ → String → Option ℕ
digits_from n String.[] = some n
digits_from n (String.◌∷◌ c s) =
    let rest = digits_from (n * 10 + (code c - 0x30)) s in
    if leb 0x30 (code c) && leb (code c) 0x39 then rest else none

unfoldable pub unsigned : String → Option ℕ
unfolding digits_from
unsigned s = if is_blank s then none else digits_from 0 s

-- The number of strconv.Atoi, its error dropped: 0 for a text that is no number, and the nearest
-- int for a number out of range.
unfoldable pub atoi : String → ℤ
unfolding unsigned strip_prefix
atoi s = elim (strip_prefix "-" s) [
  | some rest ↦ elim (unsigned rest) [ none ↦ pos 0 | some n ↦ sub_ℕ 0 (min n (2 ^ 63)) ]
  | none ↦ elim (unsigned (trim_prefix "+" s)) [ none ↦ pos 0 | some n ↦ pos (min n (2 ^ 63 - 1)) ]
]

limits_read :
    (atoi "25" ≡ pos 25)
    × (atoi "-3" ≡ sub_ℕ 0 3)
    × (atoi "9999999999999999999999" ≡ pos (2 ^ 63 - 1))
    × (atoi "1x" ≡ pos 0)
unfolding atoi trim_prefix
limits_read = (refl, refl, refl, refl)

-- `<` on strings: the order of bytes of UTF-8, which is that of code points.
unfoldable pub text_before : String → String → Bool
text_before s String.[] = false
text_before String.[] (String.◌∷◌ d t) = true
text_before (String.◌∷◌ c s) (String.◌∷◌ d t) =
    let rest = text_before s t in ltb (code c) (code d) || (nat_eq (code c) (code d) && rest)

pub text_before_asymmetric : (s t : String) → text_before s t ≡ true → text_before t s ≡ false
unfolding text_before
text_before_asymmetric s String.[] h = ground arith
text_before_asymmetric String.[] (String.◌∷◌ d t) h = refl
text_before_asymmetric (String.◌∷◌ c s) (String.◌∷◌ d t) h =
    ground (arith, text_before_asymmetric s t)

pub text_before_transitive :
    (s t u : String) → text_before s t ≡ false → text_before t u ≡ false → text_before s u ≡ false
unfolding text_before
text_before_transitive s t String.[] h k = refl
text_before_transitive String.[] String.[] (String.◌∷◌ e u) h k = ground arith
text_before_transitive String.[] (String.◌∷◌ d t) (String.◌∷◌ e u) h k = ground arith
text_before_transitive (String.◌∷◌ c s) String.[] (String.◌∷◌ e u) h k = ground arith
text_before_transitive (String.◌∷◌ c s) (String.◌∷◌ d t) (String.◌∷◌ e u) h k =
    ground (arith, text_before_transitive s t u)

-- strings.Contains.
unfoldable pub contains_text : String → String → Bool
unfolding strip_prefix
contains_text String.[] w = is_some (strip_prefix w "")
contains_text (String.◌∷◌ c v) w =
    let later = contains_text v w in is_some (strip_prefix w (String.◌∷◌ c v)) || later
