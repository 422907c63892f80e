-- ===== src/Expr/Lexer/Spelling.antt =====
-- How the tokens of api/pkg/expr/lexer.go are written, byte by byte, and where each of them must end.
use helios_ci_cd.Prelude.{
  ℕ, zero, suc, ◌+◌, ◌-◌, ◌≤◌, ◌<◌, Bool, true, false, not, ◌&&◌, ◌||◌, ◌≡◌, ◌≢◌, refl, ap, ◌⊎◌,
  inl, inr, none, some, [], ◌∷◌, ◌++◌, All, arith, ltb, leb, ◌==◌, Bool-cases, if◌then◌else◌,
}
use helios_ci_cd.Expr.{
  Bytes, codes, Go, Token, number, string, ident, bool_lit, null_lit, punct, Message,
  invalid_number, unterminated_string, lone, unexpected_character,
}
use helios_ci_cd.Expr.Texts.{decode_rune, decode_2, decode_3, decode_4, in_range, cont}
use helios_ci_cd.Expr.Lexer.{
  is_number, latin_letter, letter, is_ident_start, is_ident_cont, ident_rest, number_span,
}

abbrev pub among : ℕ → Bytes → Bool
among c [] = false
among c (b ∷ bs) = b == c || among c bs

-- What follows does not start with such a byte.
abbrev pub Stops : (ℕ → Bool) → Bytes → Type 0
Stops p [] = Unit
Stops p (b ∷ s) = p b ≡ false

abbrev pub digit : ℕ → Bool
digit b = leb b'0' b && leb b b'9'

abbrev pub points : Bytes → ℕ
points [] = 0
points (b ∷ s) = (if b == b'.' then 1 else 0) + points s

-- A letter, an underscore, or a byte that is not ASCII.
abbrev pub starts_name : ℕ → Bool
starts_name b = b == b'_' || (leb b'A' b && leb b b'Z') || (leb b'a' b && leb b b'z') || leb 128 b

abbrev pub goes_on : ℕ → Bool
goes_on b = starts_name b || b == b'-' || digit b

-- A word, up to a byte that is not ASCII or does not go on with it.
pub record IsWord (rest text : Bytes) : Type 0 where
  pub head : ℕ
  pub tail : Bytes
  pub whole : text ≡ head ∷ tail
  pub starts : starts_name head ≡ true
  pub goes : All (λ b. goes_on b ≡ true) tail
  pub stops : Stops (λ b. ltb b 128 && goes_on b) rest

pub record IsNumeral (rest text : Bytes) : Type 0 where
  pub head : ℕ
  pub tail : Bytes
  pub whole : text ≡ head ∷ tail
  pub starts : digit head ≡ true
  pub goes : All (λ b. (digit b || b == b'.') ≡ true) text
  pub one_point : points text ≤ 1
  pub stops : Stops digit rest

-- The marks: the longest one that fits.
pub data IsMark (rest : Bytes) : Bytes → Type 0 where
  with_equals :
      (c : ℕ) → among c (b'=' ∷ b'!' ∷ b'<' ∷ b'>' ∷ []) ≡ true → IsMark rest (c ∷ b'=' ∷ [])
  without_equals :
      (c : ℕ)
      → among c (b'=' ∷ b'!' ∷ b'<' ∷ b'>' ∷ []) ≡ true
      → Stops (λ b. b == b'=') rest
      → IsMark rest (c ∷ [])
  doubled : (c : ℕ) → among c (b'&' ∷ b'|' ∷ []) ≡ true → IsMark rest (c ∷ c ∷ [])
  single_sign :
      (c : ℕ)
      → among c (
          b'+' ∷ b'-' ∷ b'*' ∷ b'/' ∷ b'%' ∷ b'(' ∷ b')' ∷ b'[' ∷ b']' ∷ b',' ∷ b'.' ∷ b'?' ∷ b':'
          ∷ [])
        ≡ true
      → IsMark rest (c ∷ [])

-- How a token is written, with what follows it.
pub data Spells {F : Type 0} (go : Go F) (rest : Bytes) : Bytes → Token F → Type 0 where
  digits :
      (t : Token F)
      → t.kind ≡ number
      → go.scan_float t.value ≡ some t.number
      → IsNumeral rest t.value
      → Spells go rest t.value t
  quoted :
      (t : Token F) (q : ℕ) (s : Bytes)
      → t.kind ≡ string
      → (q ≡ 39) ⊎ (q ≡ 34)
      → All (λ b. b ≢ q) t.value
      → s ≡ q ∷ (t.value ++ (q ∷ []))
      → Spells go rest s t
  name :
      (t : Token F)
      → t.kind ≡ ident
      → IsWord rest t.value
      → t.value ≢ codes "true"
      → t.value ≢ codes "false"
      → t.value ≢ codes "null"
      → Spells go rest t.value t
  truth_value :
      (t : Token F)
      → t.kind ≡ bool_lit
      → IsWord rest t.value
      → t.value ≡ (if t.truth then codes "true" else codes "false")
      → Spells go rest t.value t
  nil_value :
      (t : Token F)
      → t.kind ≡ null_lit
      → IsWord rest t.value
      → t.value ≡ codes "null"
      → Spells go rest t.value t
  mark : (t : Token F) → t.kind ≡ punct → IsMark rest t.value → Spells go rest t.value t

-- White space, a quote, a digit or an ASCII letter or _.
abbrev pub starts_other : ℕ → Bool
starts_other c =
    among c (32 ∷ 9 ∷ 10 ∷ 13 ∷ 39 ∷ 34 ∷ []) || digit c || (ltb c 128 && starts_name c)

-- Bytes at which something starts.
abbrev pub is_known : ℕ → Bool
is_known c =
    starts_other c
    || among c (b'=' ∷ b'!' ∷ b'<' ∷ b'>' ∷ [])
    || among c (b'&' ∷ b'|' ∷ [])
    || among c (
        b'+' ∷ b'-' ∷ b'*' ∷ b'/' ∷ b'%' ∷ b'(' ∷ b')' ∷ b'[' ∷ b']' ∷ b',' ∷ b'.' ∷ b'?' ∷ b':'
        ∷ [])

-- Why the lexer stops at the byte c.
pub data IsError {F : Type 0} (go : Go F) (c : ℕ) (after : Bytes) : Message F → Type 0 where
  bad_number :
      (ds rest : Bytes)
      → c ∷ after ≡ ds ++ rest
      → IsNumeral rest ds
      → go.scan_float ds ≡ none
      → IsError go c after (invalid_number ds)
  open_string :
      (c ≡ 39) ⊎ (c ≡ 34) → All (λ b. b ≢ c) after → IsError go c after unterminated_string
  lone_mark :
      among c (b'&' ∷ b'|' ∷ []) ≡ true → Stops (λ b. b == c) after → IsError go c after (lone c)
  unknown : is_known c ≡ false → IsError go c after (unexpected_character c)

pub record IsSpan (dot : Bool) (s span : Bytes) : Type 0 where
  pub rest : Bytes
  pub split : s ≡ span ++ rest
  pub goes : All (λ b. (digit b || b == b'.') ≡ true) span
  pub pointed : points span + (if dot then 1 else 0) ≤ 1
  pub stops : Stops digit rest

pub number_span-IsSpan : (dot : Bool) (s : Bytes) → IsSpan dot s (number_span dot s)
unfolding number_span is_number
number_span-IsSpan dot [] = record {
  rest = [];
  split = refl;
  goes = tt;
  pointed = ground arith;
  stops = tt;
}
number_span-IsSpan dot (b ∷ s) = elim (Bool-cases (is_number b || (b == b'.' && not dot))) [
  | inl e ↦
      let more = number_span-IsSpan (dot || b == b'.') s in
      rw e (record {
        rest = more.rest;
        split = ap (λ t. b ∷ t) more.split;
        goes = (ground (arith, e), more.goes);
        pointed = ground (arith, e, more.pointed);
        stops = more.stops;
      })
  | inr e ↦ rw e (record {
    rest = b ∷ s;
    split = refl;
    goes = tt;
    pointed = ground arith;
    stops = ground (arith, e);
  })
]

-- The next bytes, so many, are not ASCII.
abbrev Wide : ℕ → Bytes → Type 0
Wide zero s = Unit
Wide (suc n) [] = ⊥
Wide (suc n) (b ∷ s) = (128 ≤ b) × Wide n s

decode_2-Wide : (b : ℕ) (s : Bytes) → Wide ((decode_2 b s).1 - 1) s
unfolding decode_2 cont
decode_2-Wide b [] = tt
decode_2-Wide b (c ∷ s) = elim (Bool-cases (cont c)) [
  | inl e ↦ rw e (ground (arith, e), tt)
  | inr e ↦ rw e tt
]

decode_3-Wide : (lo hi b : ℕ) (s : Bytes) → 128 ≤ lo → Wide ((decode_3 lo hi b s).1 - 1) s
unfolding decode_3 cont in_range
decode_3-Wide lo hi b [] h = tt
decode_3-Wide lo hi b (c ∷ []) h = tt
decode_3-Wide lo hi b (c ∷ d ∷ s) h = elim (Bool-cases (in_range lo hi c && cont d)) [
  | inl e ↦ rw e (ground (arith, e, h), (ground (arith, e), tt))
  | inr e ↦ rw e tt
]

decode_4-Wide : (lo hi b : ℕ) (s : Bytes) → 128 ≤ lo → Wide ((decode_4 lo hi b s).1 - 1) s
unfolding decode_4 cont in_range
decode_4-Wide lo hi b [] h = tt
decode_4-Wide lo hi b (c ∷ []) h = tt
decode_4-Wide lo hi b (c ∷ d ∷ []) h = tt
decode_4-Wide lo hi b (c ∷ d ∷ e ∷ s) h = elim (Bool-cases (in_range lo hi c && cont d && cont e)) [
  | inl ok ↦ rw ok (ground (arith, ok, h), (ground (arith, ok), (ground (arith, ok), tt)))
  | inr ill ↦ rw ill tt
]

Wide-if :
    (t : Bool) (x y : ℕ × ℕ) (s : Bytes)
    → Wide (x.1 - 1) s
    → Wide (y.1 - 1) s
    → Wide ((if t then x else y).1 - 1) s
Wide-if true x y s h k = h
Wide-if false x y s h k = k

decode_rune-Wide : (b : ℕ) (s : Bytes) → Wide ((decode_rune b s).1 - 1) s
unfolding decode_rune
decode_rune-Wide b s = Wide-if (ltb b 0x80) _ _ s tt (
    Wide-if (in_range 0xC2 0xDF b) _ _ s (decode_2-Wide b s) (
      Wide-if (b == 0xE0) _ _ s (decode_3-Wide 0xA0 0xBF b s (omega arith)) (
        Wide-if (b == 0xED) _ _ s (decode_3-Wide 0x80 0x9F b s (omega arith)) (
          Wide-if (in_range 0xE1 0xEF b) _ _ s (decode_3-Wide 0x80 0xBF b s (omega arith)) (
            Wide-if (b == 0xF0) _ _ s (decode_4-Wide 0x90 0xBF b s (omega arith)) (
              Wide-if (in_range 0xF1 0xF3 b) _ _ s (decode_4-Wide 0x80 0xBF b s (omega arith))
                (Wide-if (b == 0xF4) _ _ s (decode_4-Wide 0x80 0x8F b s (omega arith)) tt)))))))

decode_ascii : (b : ℕ) (s : Bytes) → b < 128 → (decode_rune b s).0 ≡ b
unfolding decode_rune
decode_ascii b s h = let small : ltb b 0x80 ≡ true = ground (arith, h) in rw small refl

module _ {F : Type 0} (go : Go F) where
  ascii_cont : (b : ℕ) → b < 128 → is_ident_cont go b ≡ goes_on b
  unfolding is_ident_cont letter latin_letter is_number
  ascii_cont b h = ground (arith, h)

  pub ident_start-starts : (b : ℕ) → is_ident_start go b ≡ true → starts_name b ≡ true
  unfolding is_ident_start letter latin_letter
  ident_start-starts b h = ground (arith, h)

  pub ident_start-ascii :
      (b : ℕ) → is_ident_start go b ≡ false → (ltb b 128 && starts_name b) ≡ false
  unfolding is_ident_start letter latin_letter
  ident_start-ascii b h = ground (arith, h)

  pub record IsRest (s more : Bytes) : Type 0 where
    pub rest : Bytes
    pub split : s ≡ more ++ rest
    pub goes : All (λ b. goes_on b ≡ true) more
    pub stops : Stops (λ b. ltb b 128 && goes_on b) rest

  rune_goes : (b : ℕ) (s : Bytes) → is_ident_cont go (decode_rune b s).0 ≡ true → goes_on b ≡ true
  rune_goes b s h = elim (Bool-cases (ltb b 128)) [
    | inl small ↦
        let less : b < 128 = ground (arith, small) in
        cc (ascii_cont b less, rw (decode_ascii b s less) at h)
    | inr wide ↦ ground (arith, wide)
  ]

  rune_stops :
      (b : ℕ) (s : Bytes)
      → is_ident_cont go (decode_rune b s).0 ≡ false
      → (ltb b 128 && goes_on b) ≡ false
  rune_stops b s h = elim (Bool-cases (ltb b 128)) [
    | inl small ↦
        let less : b < 128 = ground (arith, small) in
        let stop : goes_on b ≡ false = cc (ascii_cont b less, rw (decode_ascii b s less) at h) in
        rw (small, stop) refl
    | inr wide ↦ rw wide refl
  ]

  pub ident_rest-IsRest : (skip : ℕ) (s : Bytes) → Wide skip s → IsRest s (ident_rest go skip s)
  unfolding ident_rest
  ident_rest-IsRest zero [] w = record { rest = []; split = refl; goes = tt; stops = tt }
  ident_rest-IsRest (suc skip) [] w = absurd w
  ident_rest-IsRest (suc skip) (b ∷ s) (wide, w) =
      let more = ident_rest-IsRest skip s w in
      record {
        rest = more.rest;
        split = ap (λ t. b ∷ t) more.split;
        goes = (ground (arith, wide), more.goes);
        stops = more.stops;
      }
  ident_rest-IsRest zero (b ∷ s) w = elim (Bool-cases (is_ident_cont go (decode_rune b s).0)) [
    | inl e ↦
        let more = ident_rest-IsRest ((decode_rune b s).1 - 1) s (decode_rune-Wide b s) in
        rw e (record {
          rest = more.rest;
          split = ap (λ t. b ∷ t) more.split;
          goes = (rune_goes b s e, more.goes);
          stops = more.stops;
        })
    | inr e ↦ rw e (record { rest = b ∷ s; split = refl; goes = tt; stops = rune_stops b s e })
  ]
