-- ===== src/Expr/Eval/Places.antt =====
-- Where the errors of an evaluation of api/pkg/expr/eval.go point to.
use mathlib.Core.Path.{subst}
use helios_ci_cd.Prelude.{
  ℕ, ◌+◌, ◌≤◌, ◌≡◌, ap, List, [], ◌∷◌, ◌++◌, All, length, length-append, arith,
}
use helios_ci_cd.Expr.{Bytes, Go, Token, Node, Args, pos_of}
use helios_ci_cd.Expr.Lexer.Tiling.{Tiles, close, space, tile}
use helios_ci_cd.Expr.Parser.{parse}
use helios_ci_cd.Expr.Parser.Outcome.{Parsed, Yields, good, refused}
use helios_ci_cd.Expr.Parser.Outcome
use helios_ci_cd.Expr.Parser.Grammar.{
  Phrase, Derives, DerivesArgs, SomeArgs, no_choice, choice, single, chain, no_prefix, prefix,
  start, dot, subscript, apply, a_number, a_string, a_bool, a_null, a_name, bracket, none_given,
  some_given, last_given, more_given,
}
use helios_ci_cd.Expr.Parsing.{Reads, parse-Yields}
use helios_ci_cd.Expr.Eval.{Context, Reason, failed, eval_node}
use helios_ci_cd.Expr.Eval.Outcomes.{Within, Placed, PlacedArgs, eval_node-Within}

All-left {ℓ κ} : {A : Type ℓ} (P : A → Type κ) (xs ys : List A) → All P (xs ++ ys) → All P xs
All-left P [] ys h = tt
All-left P (x ∷ xs) ys h = (h.0, All-left P xs ys h.1)

All-right {ℓ κ} : {A : Type ℓ} (P : A → Type κ) (xs ys : List A) → All P (xs ++ ys) → All P ys
All-right P [] ys h = h
All-right P (x ∷ xs) ys h = All-right P xs ys h.1

module _ {F : Type 0} (Place : ℕ → Type 0) where
  abbrev At : List (Token F) → Type 0
  At = All (λ t. Place t.at)

  cut : (xs ys ts : List (Token F)) → ts ≡ xs ++ ys → At ts → At xs × At ys
  cut xs ys ts e h =
      let whole = subst At e h in
      (All-left (λ t. Place t.at) xs ys whole, All-right (λ t. Place t.at) xs ys whole)

  -- The places of a derived node are those of its tokens.
  mutual
    unfolding Placed PlacedArgs pos_of

    Derives-Placed :
        {ph : Phrase} {ts : List (Token F)} {n : Node F}
        → Derives F ph ts n
        → At ts
        → Placed {F = F} Place (Unit {0}) n × Place (pos_of n)
    Derives-Placed (no_choice d) h = Derives-Placed d h
    Derives-Placed (choice cs xs ys ts q k c x y dc is_q dx is_k dy e) h =
        let (hc, rest) = cut cs _ ts e h in
        let (pc, at) = Derives-Placed dc hc in
        (
          (
            pc,
            (Derives-Placed dx (All-left (λ t. Place t.at) xs (k ∷ ys) rest.1)).0,
            (Derives-Placed dy (All-right (λ t. Place t.at) xs (k ∷ ys) rest.1).1).0,
          ),
          at,
        )
    Derives-Placed (single l d) h = Derives-Placed d h
    Derives-Placed (chain l ls rs ts t left right dl is_op dr e) h =
        let (hl, rest) = cut ls _ ts e h in
        let (pl, at) = Derives-Placed dl hl in
        ((at, (λ risky. tt), pl, (Derives-Placed dr rest.1).0), at)
    Derives-Placed (no_prefix d) h = Derives-Placed d h
    Derives-Placed (prefix t ts right is_op d) h = ((h.0, (Derives-Placed d h.1).0), h.0)
    Derives-Placed (start d) h = Derives-Placed d h
    Derives-Placed (dot ls ts p t left dl is_dot k e) h = Derives-Placed dl (cut ls _ ts e h).0
    Derives-Placed (subscript ls is ts o c left i dl is_open di is_close e) h =
        let (hl, rest) = cut ls _ ts e h in
        let (pl, at) = Derives-Placed dl hl in
        ((pl, (Derives-Placed di (All-left (λ t. Place t.at) is (c ∷ []) rest.1)).0), at)
    Derives-Placed (apply ls as_given ts o left args dl able is_open da e) h =
        let (hl, rest) = cut ls _ ts e h in
        let (pl, at) = Derives-Placed dl hl in ((at, DerivesArgs-Placed da rest.1), at)
    Derives-Placed (a_number t k) h = (tt, h.0)
    Derives-Placed (a_string t k) h = (tt, h.0)
    Derives-Placed (a_bool t k) h = (tt, h.0)
    Derives-Placed (a_null t k) h = (tt, h.0)
    Derives-Placed (a_name t k) h = (tt, h.0)
    Derives-Placed (bracket o c is ts n is_open d is_close e) h =
        Derives-Placed d (All-left (λ t. Place t.at) is (c ∷ []) (cut (o ∷ []) _ ts e h).1)

    DerivesArgs-Placed :
        {ts : List (Token F)} {args : Args F}
        → DerivesArgs F ts args
        → At ts
        → PlacedArgs {F = F} Place (Unit {0}) args
    DerivesArgs-Placed (none_given c is_close) h = tt
    DerivesArgs-Placed (some_given s) h = SomeArgs-Placed s h

    SomeArgs-Placed :
        {ts : List (Token F)} {args : Args F}
        → SomeArgs F ts args
        → At ts
        → PlacedArgs {F = F} Place (Unit {0}) args
    SomeArgs-Placed (last_given is ts c n d is_close e) h =
        ((Derives-Placed d (cut is _ ts e h).0).0, tt)
    SomeArgs-Placed (more_given is others ts c n args d is_comma more e) h =
        let (hn, rest) = cut is _ ts e h in ((Derives-Placed d hn).0, SomeArgs-Placed more rest.1)

module _ {F : Type 0} (go : Go F) where
  widen :
      (i : ℕ) (m n : ℕ) (ts : List (Token F))
      → m ≤ n
      → All (λ t. t.at ≤ m) ts
      → All (λ t. t.at ≤ n) ts
  widen i m n [] le h = tt
  widen i m n (t ∷ ts) le h = (omega (arith, h.0, le), widen i m n ts le h.1)

  Tiles-At :
      {i : ℕ} {s : Bytes} {ts : List (Token F)}
      → Tiles go i s ts
      → All (λ t. t.at ≤ i + length s) ts
  Tiles-At (close i t k at) = (omega (arith, at), tt)
  Tiles-At (space i c s ts sp rest) = widen i _ _ ts (omega arith) (Tiles-At rest)
  Tiles-At (tile i src text rest t ts e sp at later) =
      let len = ap length e in
      (
        omega (arith, at),
        widen i _ _ ts (omega (arith, len, length-append text rest)) (Tiles-At later),
      )

  reads_places :
      (src : Bytes) (ctx : Context F) (n : Node F) (p : ℕ) (m : Reason F)
      → Reads go src n
      → eval_node go ctx n ≡ failed p m
      → p ≤ length src
  reads_places src ctx n p m r e =
      let all_at =
        subst (λ ts. All (λ t. t.at ≤ 0 + length src) ts) r.parsed.whole (Tiles-At r.tiled) in
      let placed =
        Derives-Placed (λ q. q ≤ 0 + length src) r.parsed.derived
          (All-left (λ t. t.at ≤ 0 + length src) r.parsed.used _ all_at) in
      let within = eval_node-Within (λ q. q ≤ 0 + length src) (Unit {0}) go ctx n placed.0 in
      omega (arith, subst (λ r. Within {F = F} (λ q. q ≤ 0 + length src) (Unit {0}) r) e within)

  -- The offset in an EvalError of an expression that was parsed from a source is an offset of that source.
  pub eval_node-parse :
      (src : Bytes) (ctx : Context F) (n : Node F) (p : ℕ) (m : Reason F)
      → parse go src ≡ Outcome.ok n
      → eval_node go ctx n ≡ failed p m
      → p ≤ length src
  eval_node-parse src ctx n p m parsed e = by_outcome (parse-Yields go src) parsed
    where
      by_outcome :
          {r : Parsed F (Node F)} → Yields (Reads go src) r → r ≡ Outcome.ok n → p ≤ length src
      by_outcome (good k h) same = reads_places src ctx n p m (subst (Reads go src) (cc) h) e
      by_outcome (refused q w) same = cc
