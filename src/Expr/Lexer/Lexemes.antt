-- ===== src/Expr/Lexer/Lexemes.antt =====
-- What stands at a byte of the source, by the switch of Tokenize (api/pkg/expr/lexer.go).
use mathlib.Core.Path.{subst}
use mathlib.Core.List.{append_assoc}
use helios_ci_cd.Prelude.{
  ℕ, suc, Bool, true, false, ◌||◌, ◌≡◌, ◌≢◌, refl, sym, ap, ◌∙◌, inl, inr, none, some, [], ◌∷◌,
  ◌++◌, All, length, length-append, arith, ◌==◌, Bool-cases, Option-cases, some_inj, if◌then◌else◌,
}
use helios_ci_cd.Expr.{Bytes, codes, Go, Token, punct, Message, lone, unexpected_character}
use helios_ci_cd.Expr.Texts.{bytes_eq}
use helios_ci_cd.Expr.Lexer.Spelling.{
  among, Stops, Spells, IsWord, IsNumeral, IsMark, IsError, bad_number, open_string, lone_mark,
  unknown, starts_other, is_known, ident_start-ascii, with_equals, without_equals, doubled,
  single_sign, digits, quoted, name, truth_value, nil_value, mark, IsSpan, number_span-IsSpan,
  ident_start-starts, ident_rest-IsRest,
}
use helios_ci_cd.Expr.Lexer.{
  Lexeme, blank, token, bad, is_space, is_number, single, is_ident_start, number_span, until, plain,
  number_lexeme, string_lexeme, ident_lexeme, next_is, is_compare, is_single, lexeme,
}

bytes_eq→eq : (s t : Bytes) → bytes_eq s t ≡ true → s ≡ t
unfolding bytes_eq
bytes_eq→eq [] [] h = refl
bytes_eq→eq [] (c ∷ t) h = cc
bytes_eq→eq (b ∷ s) [] h = cc
bytes_eq→eq (b ∷ s) (c ∷ t) h = ground (arith, h, bytes_eq→eq s t)

bytes_eq_refl : (s : Bytes) → bytes_eq s s ≡ true
unfolding bytes_eq
bytes_eq_refl [] = refl
bytes_eq_refl (b ∷ s) = ground (arith, bytes_eq_refl s)

ne_of_bytes_eq : (s t : Bytes) → bytes_eq s t ≡ false → s ≢ t
ne_of_bytes_eq s t h e = cc (h, bytes_eq_refl t, subst (λ x. bytes_eq x t ≡ false) e h)

until-split :
    (q : ℕ) (s v : Bytes)
    → until q s ≡ some v
    → (rest : Bytes) × (s ≡ v ++ (q ∷ rest)) × All (λ b. b ≢ q) v
unfolding until
until-split q [] v h = cc
until-split q (b ∷ s) v h = elim (Bool-cases (b == q)) [
  | inl e ↦
      subst (λ w. (rest : Bytes) × (b ∷ s ≡ w ++ (q ∷ rest)) × All (λ x. x ≢ q) w)
        (some_inj (rw e at h)) (s, ap (λ x. x ∷ s) (ground (arith, e)), tt)
  | inr e ↦ elim (Option-cases (until q s)) [
    | inl n ↦ cc (rw (e, n) at h)
    | inr (w, k) ↦
        let (rest, split, apart) = until-split q s w k in
        subst (λ x. (rest : Bytes) × (b ∷ s ≡ x ++ (q ∷ rest)) × All (λ y. y ≢ q) x)
          (some_inj (rw (e, k) at h))
          (rest, ap (λ x. b ∷ x) split, (λ same. ground (arith, e), apart))
  ]
]

until-none : (q : ℕ) (s : Bytes) → until q s ≡ none → All (λ b. b ≢ q) s
unfolding until
until-none q [] h = tt
until-none q (b ∷ s) h = elim (Bool-cases (b == q)) [
  | inl e ↦ cc (rw e at h)
  | inr e ↦ elim (Option-cases (until q s)) [
    | inl n ↦ (λ same. ground (arith, e), until-none q s n)
    | inr (w, k) ↦ cc (rw (e, k) at h)
  ]
]

or_false :
    (a b c d : Bool) → a ≡ false → b ≡ false → c ≡ false → d ≡ false → (a || b || c || d) ≡ false
or_false a b c d ha hb hc hd = rw (ha, hb, hc, hd) refl

single-among :
    (c : ℕ)
    → is_single c ≡ false
    → among c (
        b'+' ∷ b'-' ∷ b'*' ∷ b'/' ∷ b'%' ∷ b'(' ∷ b')' ∷ b'[' ∷ b']' ∷ b',' ∷ b'.' ∷ b'?' ∷ b':'
        ∷ [])
      ≡ false
unfolding is_single
single-among c h = ground (arith, h)

compare-among : (c : ℕ) → is_compare c ≡ false → among c (b'=' ∷ b'!' ∷ b'<' ∷ b'>' ∷ []) ≡ false
unfolding is_compare
compare-among c h = ground (arith, h)

pair-among : (c : ℕ) → (c == b'&' || c == b'|') ≡ false → among c (b'&' ∷ b'|' ∷ []) ≡ false
pair-among c h = ground (arith, h)

unknown_byte :
    (c : ℕ)
    → starts_other c ≡ false
    → is_compare c ≡ false
    → (c == b'&' || c == b'|') ≡ false
    → is_single c ≡ false
    → is_known c ≡ false
unknown_byte c nothing no_compare no_pair no_single =
    or_false (starts_other c) _ _ _ nothing (compare-among c no_compare) (pair-among c no_pair)
      (single-among c no_single)

module _ {F : Type 0} (go : Go F) where
  -- What holds of the lexeme at a place.
  pub record IsToken (i n : ℕ) (s : Bytes) (t : Token F) : Type 0 where
    pub text : Bytes
    pub rest : Bytes
    pub whole : s ≡ text ++ rest
    pub long : length text ≡ suc n
    pub spelled : Spells go rest text t
    pub placed : t.at ≡ i

  pub data Stands (i c : ℕ) (s : Bytes) : Lexeme F → Type 0 where
    a_blank : among c (32 ∷ 9 ∷ 10 ∷ 13 ∷ []) ≡ true → Stands i c s blank
    a_token : (k n : ℕ) (t : Token F) → k ≡ suc n → IsToken i n (c ∷ s) t → Stands i c s (token k t)
    an_error : (m : Message F) → IsError go c s m → Stands i c s (bad m)

  Stands-if :
      {i c : ℕ} {s : Bytes} (b : Bool) {x y : Lexeme F}
      → (b ≡ true → Stands i c s x)
      → (b ≡ false → Stands i c s y)
      → Stands i c s (if b then x else y)
  Stands-if true hx hy = hx refl
  Stands-if false hx hy = hy refl

  -- Clauses for each kind of lexeme.
  number_lexeme-Stands :
      (i c : ℕ) (s ds rest : Bytes)
      → c ∷ s ≡ (c ∷ ds) ++ rest
      → IsNumeral rest (c ∷ ds)
      → Stands i c s (number_lexeme go i (c ∷ ds))
  unfolding number_lexeme
  number_lexeme-Stands i c s ds rest e numeral = elim (Option-cases (go.scan_float (c ∷ ds))) [
    | inl n ↦ rw (n, number_lexeme) (an_error _ (bad_number (c ∷ ds) rest e numeral n))
    | inr (v, k) ↦
        rw (k, number_lexeme)
          (a_token _ (length ds) _ refl (record {
            text = c ∷ ds;
            rest = rest;
            whole = e;
            long = refl;
            spelled = digits _ refl k numeral;
            placed = refl;
          }))
  ]

  string_lexeme-Stands :
      (i c : ℕ) (s : Bytes)
      → (c == 39 || c == 34) ≡ true
      → Stands i c s (string_lexeme go i (until c s))
  unfolding string_lexeme
  string_lexeme-Stands i c s q = elim (Option-cases (until c s)) [
    | inl n ↦ rw n (an_error _ (open_string (ground (arith, q)) (until-none c s n)))
    | inr (v, k) ↦
        let (rest, split, apart) = until-split c s v k in
        rw k (
          a_token _ (suc (length v)) _ (omega arith) (record {
            text = c ∷ (v ++ (c ∷ []));
            rest = rest;
            whole = ap (λ t. c ∷ t) (split ∙ sym (append_assoc v (c ∷ []) rest));
            long = omega (arith, length-append v (c ∷ []));
            spelled = quoted _ c _ refl (ground (arith, q)) apart refl;
            placed = refl;
          }))
  ]

  one_token :
      (i c : ℕ) (s text rest : Bytes) (t : Token F)
      → c ∷ s ≡ (c ∷ text) ++ rest
      → Spells go rest (c ∷ text) t
      → t.at ≡ i
      → Stands i c s (token (length (c ∷ text)) t)
  one_token i c s text rest t e sp at =
      a_token _ (length text) t refl
        (record { text = c ∷ text; rest = rest; whole = e; long = refl; spelled = sp; placed = at })

  ident_lexeme-Stands :
      (i c : ℕ) (s more rest : Bytes)
      → c ∷ s ≡ (c ∷ more) ++ rest
      → IsWord rest (c ∷ more)
      → Stands i c s (ident_lexeme go i (c ∷ more))
  unfolding ident_lexeme
  ident_lexeme-Stands i c s more rest e w =
      Stands-if (bytes_eq (c ∷ more) (codes "true"))
        (λ h. one_token i c s more rest _ e (truth_value _ refl w (bytes_eq→eq _ _ h)) refl)
        (λ no_true.
          Stands-if (bytes_eq (c ∷ more) (codes "false"))
            (λ h. one_token i c s more rest _ e (truth_value _ refl w (bytes_eq→eq _ _ h)) refl)
            (λ no_false.
              Stands-if (bytes_eq (c ∷ more) (codes "null"))
                (λ h. one_token i c s more rest _ e (nil_value _ refl w (bytes_eq→eq _ _ h)) refl)
                (λ no_null.
                  one_token i c s more rest _ e
                    (name _ refl w (ne_of_bytes_eq _ _ no_true) (ne_of_bytes_eq _ _ no_false)
                      (ne_of_bytes_eq _ _ no_null))
                    refl)))

  pair_token :
      (i c d : ℕ) (s : Bytes)
      → next_is d s ≡ true
      → ((rest : Bytes) → IsMark rest (c ∷ d ∷ []))
      → Stands i c s (token 2 (plain go punct (c ∷ d ∷ []) i))
  unfolding next_is
  pair_token i c d [] h m = cc
  pair_token i c d (b ∷ s) h m =
      let same : b ≡ d = ground (arith, h) in
      one_token i c (b ∷ s) (d ∷ []) s _ (ap (λ x. c ∷ x ∷ s) same) (mark _ refl (m s)) refl

  single_token :
      (i c : ℕ) (s : Bytes)
      → IsMark s (c ∷ [])
      → Stands i c s (token 1 (plain go punct (single c) i))
  single_token i c s m = one_token i c s [] s _ refl (mark _ refl m) refl

  next_is-Stops : (d : ℕ) (s : Bytes) → next_is d s ≡ false → Stops (λ b. b == d) s
  unfolding next_is
  next_is-Stops d [] h = tt
  next_is-Stops d (b ∷ s) h = h

  number_span-start :
      (c : ℕ) (s : Bytes)
      → is_number c ≡ true
      → number_span false (c ∷ s) ≡ c ∷ number_span (c == b'.') s
  unfolding number_span
  number_span-start c s h = rw h refl

  number_span-IsNumeral :
      (c : ℕ) (s : Bytes)
      → is_number c ≡ true
      → (span : IsSpan (c == b'.') s (number_span (c == b'.') s))
      → IsNumeral span.rest (c ∷ number_span (c == b'.') s)
  unfolding is_number
  number_span-IsNumeral c s h span = record {
    head = c;
    tail = number_span (c == b'.') s;
    whole = refl;
    starts = h;
    goes = (rw h refl, span.goes);
    one_point = ground (arith, span.pointed);
    stops = span.stops;
  }

  mark-Stands :
      (i c : ℕ) (s : Bytes)
      → starts_other c ≡ false
      → Stands i c s (
          if is_compare c
          then (if next_is b'=' s
              then token 2 (plain go punct (c ∷ b'=' ∷ []) i)
              else token 1 (plain go punct (single c) i))
          else if c == b'&' || c == b'|'
          then (if next_is c s then token 2 (plain go punct (c ∷ c ∷ []) i) else bad (lone c))
          else if is_single c
          then token 1 (plain go punct (single c) i)
          else bad (unexpected_character c))
  unfolding is_compare is_single
  mark-Stands i c s nothing =
      Stands-if (is_compare c)
        (λ h.
          Stands-if (next_is b'=' s)
            (λ q. pair_token i c b'=' s q (λ rest. with_equals c (ground (arith, h))))
            (λ q.
              single_token i c s (without_equals c (ground (arith, h)) (next_is-Stops b'=' s q))))
        (λ no_compare.
          Stands-if (c == b'&' || c == b'|')
            (λ h.
              Stands-if (next_is c s)
                (λ q. pair_token i c c s q (λ rest. doubled c (ground (arith, h))))
                (λ q. an_error _ (lone_mark (ground (arith, h)) (next_is-Stops c s q))))
            (λ no_pair.
              Stands-if (is_single c) (λ h. single_token i c s (single_sign c (ground (arith, h))))
                (λ no_single.
                  an_error _ (unknown (unknown_byte c nothing no_compare no_pair no_single)))))

  pub lexeme-Stands : (i c : ℕ) (s : Bytes) → Stands i c s (lexeme go i c s)
  unfolding lexeme is_space is_number
  lexeme-Stands i c s =
      Stands-if (is_space c) (λ h. a_blank (ground (arith, h)))
        (λ no_space.
          Stands-if (is_number c)
            (λ h.
              let span = number_span-IsSpan (c == b'.') s in
              subst (λ ds. Stands i c s (number_lexeme go i ds)) (sym (number_span-start c s h))
                (number_lexeme-Stands i c s _ span.rest (ap (λ t. c ∷ t) span.split)
                  (number_span-IsNumeral c s h span)))
            (λ no_digit. Stands-if (c == 39 || c == 34) (string_lexeme-Stands i c s) (λ no_quote.
              Stands-if (is_ident_start go c)
                (λ h.
                  let more = ident_rest-IsRest go 0 s tt in
                  ident_lexeme-Stands i c s _ more.rest (ap (λ t. c ∷ t) more.split) (record {
                    head = c;
                    tail = _;
                    whole = refl;
                    starts = ident_start-starts go c h;
                    goes = more.goes;
                    stops = more.stops;
                  }))
                (λ no_start. mark-Stands i c s (
                  ground (arith, no_space, no_digit, no_quote, ident_start-ascii go c no_start))))))
