-- ===== src/Expr/Texts.antt =====
-- Bytes as Go's strings and unicode/utf8 see them, as far as api/pkg/expr uses them.
use helios_ci_cd.Prelude.{
  ℕ, zero, suc, ◌+◌, ◌-◌, ◌*◌, Bool, true, false, ◌&&◌, ◌||◌, List, [], ◌∷◌, ◌++◌, ltb, leb, ◌==◌,
  length, if◌then◌else◌,
}
use helios_ci_cd.Expr.{Bytes}

unfoldable pub bytes_eq : Bytes → Bytes → Bool
bytes_eq [] [] = true
bytes_eq [] (c ∷ t) = false
bytes_eq (b ∷ s) [] = false
bytes_eq (b ∷ s) (c ∷ t) = b == c && bytes_eq s t

-- strings.HasPrefix(s, p)
unfoldable pub has_prefix : Bytes → Bytes → Bool
has_prefix s [] = true
has_prefix [] (c ∷ p) = false
has_prefix (b ∷ s) (c ∷ p) = b == c && has_prefix s p

-- strings.Contains(s, p)
unfoldable pub contains : Bytes → Bytes → Bool
contains [] p = has_prefix [] p
contains (b ∷ s) p = has_prefix (b ∷ s) p || contains s p

-- strings.HasSuffix(s, p)
unfoldable pub has_suffix : Bytes → Bytes → Bool
has_suffix [] p = bytes_eq [] p
has_suffix (b ∷ s) p = bytes_eq (b ∷ s) p || has_suffix s p

-- s < t, byte by byte.
unfoldable pub bytes_lt : Bytes → Bytes → Bool
bytes_lt s [] = false
bytes_lt [] (c ∷ t) = true
bytes_lt (b ∷ s) (c ∷ t) = ltb b c || (b == c && bytes_lt s t)

-- strings.ReplaceAll(s, old, new) for an `old` that is not empty; the number is what is left to pass
-- over of an occurrence that was replaced.
unfoldable pub replace_from : ℕ → Bytes → Bytes → Bytes → Bytes
replace_from skip old new [] = []
replace_from (suc skip) old new (b ∷ s) = replace_from skip old new s
replace_from zero old new (b ∷ s) =
    let here = has_prefix (b ∷ s) old in
    (if here then new else b ∷ []) ++ replace_from (if here then length old - 1 else 0) old new s

unfoldable pub replace_all : Bytes → Bytes → Bytes → Bytes
unfolding replace_from
replace_all s old new = replace_from 0 old new s

-- strings.Join(parts, sep)
unfoldable pub join : Bytes → List Bytes → Bytes
join sep [] = []
join sep (s ∷ []) = s
join sep (s ∷ t ∷ ts) = s ++ (sep ++ join sep (t ∷ ts))

-- [\t\n\f\r ] of a regular expression.
unfoldable pub is_blank : ℕ → Bool
is_blank c = c == 9 || c == 10 || c == 12 || c == 13 || c == 32

unfoldable pub trim_left : Bytes → Bytes
unfolding is_blank
trim_left [] = []
trim_left (b ∷ s) = let rest = trim_left s in if is_blank b then rest else b ∷ s

unfoldable pub trim_right : Bytes → Bytes
unfolding is_blank
trim_right [] = []
trim_right (b ∷ s) = put (trim_right s)
  where
    put : Bytes → Bytes
    put [] = if is_blank b then [] else b ∷ []
    put (c ∷ t) = b ∷ c ∷ t

unfoldable pub cont : ℕ → Bool
cont b = leb 0x80 b && leb b 0xBF

unfoldable pub in_range : ℕ → ℕ → ℕ → Bool
in_range lo hi b = leb lo b && leb b hi

-- What utf8.DecodeRuneInString gives for ill-formed bytes.
abbrev rune_error : ℕ × ℕ
rune_error = (0xFFFD, 1)

unfoldable pub decode_2 : ℕ → Bytes → ℕ × ℕ
unfolding cont
decode_2 b0 [] = rune_error
decode_2 b0 (b1 ∷ s) = if cont b1 then ((b0 - 0xC0) * 64 + (b1 - 0x80), 2) else rune_error

unfoldable pub decode_3 : ℕ → ℕ → ℕ → Bytes → ℕ × ℕ
unfolding cont in_range
decode_3 lo hi b0 (b1 ∷ b2 ∷ s) =
    if in_range lo hi b1 && cont b2
    then ((b0 - 0xE0) * 4096 + (b1 - 0x80) * 64 + (b2 - 0x80), 3)
    else rune_error
decode_3 lo hi b0 _ = rune_error

unfoldable pub decode_4 : ℕ → ℕ → ℕ → Bytes → ℕ × ℕ
unfolding cont in_range
decode_4 lo hi b0 (b1 ∷ b2 ∷ b3 ∷ s) =
    if in_range lo hi b1 && cont b2 && cont b3
    then ((b0 - 0xF0) * 262144 + (b1 - 0x80) * 4096 + (b2 - 0x80) * 64 + (b3 - 0x80), 4)
    else rune_error
decode_4 lo hi b0 _ = rune_error

-- utf8.DecodeRuneInString: the code point and its size.
unfoldable pub decode_rune : ℕ → Bytes → ℕ × ℕ
unfolding decode_2 decode_3 decode_4 in_range
decode_rune b s =
    if ltb b 0x80
    then (b, 1)
    else if in_range 0xC2 0xDF b
    then decode_2 b s
    else if b == 0xE0
    then decode_3 0xA0 0xBF b s
    else if b == 0xED
    then decode_3 0x80 0x9F b s
    else if in_range 0xE1 0xEF b
    then decode_3 0x80 0xBF b s
    else if b == 0xF0
    then decode_4 0x90 0xBF b s
    else if in_range 0xF1 0xF3 b
    then decode_4 0x80 0xBF b s
    else if b == 0xF4
    then decode_4 0x80 0x8F b s
    else rune_error
