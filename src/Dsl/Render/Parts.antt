-- ===== src/Dsl/Render/Parts.antt =====
-- The parts of a stage that RenderStage of api/pkg/dsl/render.go gives.
use helios_ci_cd.Prelude.{
  ◌≡◌, refl, sym, some_inj, ◌∙◌, ap, Option, none, some, List, [], ◌∷◌, ◌++◌, arith, Bool-cases,
  inl, inr,
}
use helios_ci_cd.Expr.{Bytes, codes, Go}
use helios_ci_cd.Expr.Texts.{bytes_eq}
use helios_ci_cd.Expr.Values.{find}
use helios_ci_cd.Expr.Eval.{Context}
use helios_ci_cd.Expr.Render.{RenderError}
use helios_ci_cd.Dsl.Render.{
  Texts, Stage, Rendering, ok, panicked, append_errors, and_then, when_some, render_str,
  render_str_map, render_stage, render_filled, render_any_map, each_from, render_step, indexed,
}

pub ok_inj :
    {F A : Type 0} {a b : A} {es fs : List (RenderError F)}
    → ok a es ≡ ok b fs
    → (a ≡ b) × (es ≡ fs)
ok_inj e = ground (arith, e)

module _ {F : Type 0} {A B : Type 0} where
  pub and_then-ok :
      (r : Rendering F A) (next : A → Rendering F B) (b : B) (errs : List (RenderError F))
      → and_then r next ≡ ok b errs
      → (a : A) × (es es' : List (RenderError F)) × (r ≡ ok a es) × (next a ≡ ok b es')
  unfolding and_then append_errors
  and_then-ok (ok a es) next b errs h = last (next a) refl h
    where
      last :
          (n : Rendering F B)
          → next a ≡ n
          → append_errors es n ≡ ok b errs
          → (a' : A) × (es₁ es' : List (RenderError F)) × (ok a es ≡ ok a' es₁)
            × (next a' ≡ ok b es')
      last (ok b' more) e h' = (a, es, more, refl, e ∙ ap (λ z. ok z more) (ok_inj h').0)
      last panicked e h' = cc h'
  and_then-ok panicked next b errs h = cc h

when_some-ok :
    {F A : Type 0} (render : A → Rendering F A) (o d : Option A) (a : A)
    (errs : List (RenderError F))
    → when_some render o ≡ ok d errs
    → o ≡ some a
    → (b : A) × (es : List (RenderError F)) × (d ≡ some b) × (render a ≡ ok b es)
unfolding when_some
when_some-ok render none d a errs h e = cc e
when_some-ok render (some x) d a errs h e =
    let (b, es, es', gives, whole) = and_then-ok _ _ d errs h in
    (b, es, sym (ok_inj whole).0, ap render (sym (some_inj e)) ∙ gives)

module _ {F : Type 0} (go : Go F) (ctx : Option (Context F)) where
  pub render_str_map-cons :
      (path : Bytes) (e : Bytes × Bytes) (m out : Texts) (errs : List (RenderError F))
      → render_str_map go ctx path (e ∷ m) ≡ ok out errs
      → (s : Bytes) × (out' : Texts) × (es es' : List (RenderError F)) × (render_str go ctx
            (path ++ (codes "." ++ e.0))
            e.1
          ≡ ok s es)
        × (render_str_map go ctx path m ≡ ok out' es')
        × (out ≡ (e.0, s) ∷ out')
  unfolding render_str_map
  render_str_map-cons path e m out errs h =
      let (s, es, es', first, more) = and_then-ok _ _ out errs h in
      let (out', fs, fs', second, whole) = and_then-ok _ _ out es' more in
      (s, out', es, fs, first, second, sym (ok_inj whole).0)

  -- The keys of a map stay, each with what its own text gives.
  pub render_str_map-find :
      (path : Bytes) (m out : Texts) (errs : List (RenderError F)) (k s : Bytes)
      → render_str_map go ctx path m ≡ ok out errs
      → find k m ≡ some s
      → (t j : Bytes) × (es : List (RenderError F)) × (find k out ≡ some t)
        × (render_str go ctx j s ≡ ok t es)
  unfolding find
  render_str_map-find path [] out errs k s h f = cc f
  render_str_map-find path (e ∷ m) out errs k s h f =
      let (t, out', es, es', first, more, is) = render_str_map-cons path e m out errs h in
      elim (Bool-cases (bytes_eq e.0 k)) [
        | inl same ↦ (
          t,
          path ++ (codes "." ++ e.0),
          es,
          ap (find k) is ∙ rw same refl,
          ap (render_str go ctx (path ++ (codes "." ++ e.0))) (sym (some_inj (rw same at f)))
              ∙ first,
        )
        | inr other ↦
            let (u, j, fs, there, gives) =
              render_str_map-find path m out' es' k s more (rw other at f) in
            (u, j, fs, ap (find k) is ∙ rw other there, gives)
      ]

  pub render_str_map-none :
      (path : Bytes) (m out : Texts) (errs : List (RenderError F)) (k : Bytes)
      → render_str_map go ctx path m ≡ ok out errs
      → find k m ≡ none
      → find k out ≡ none
  unfolding find render_str_map
  render_str_map-none path [] out errs k h f = ap (find k) (out_nil h)
    where
      out_nil : render_str_map go ctx path [] ≡ ok out errs → out ≡ []
      out_nil e = sym (ok_inj e).0
  render_str_map-none path (e ∷ m) out errs k h f =
      let (t, out', es, es', first, more, is) = render_str_map-cons path e m out errs h in
      elim (Bool-cases (bytes_eq e.0 k)) [
        | inl same ↦ cc (rw same at f)
        | inr other ↦
            ap (find k) is ∙ rw other (render_str_map-none path m out' es' k more (rw other at f))
      ]

  -- The outputs of a rendered stage are its rendered outputs.
  pub render_stage-outputs :
      (path : Bytes) (s r : Stage F) (m : Texts) (errs : List (RenderError F))
      → render_stage go ctx path s ≡ ok r errs
      → s.outputs ≡ some m
      → (out : Texts) × (es : List (RenderError F)) × (r.outputs ≡ some out)
        × (render_str_map go ctx (path ++ codes ".outputs") m ≡ ok out es)
  unfolding render_stage
  render_stage-outputs path s r m errs h there =
      let (a, _, e1, _, h1) =
        and_then-ok (render_filled go ctx (path ++ codes ".if") s.if_expr) _ r errs h in
      let (b, _, e2, _, h2) =
        and_then-ok (when_some (render_filled go ctx (path ++ codes ".runs-on.image")) s.image) _ r
          e1 h1 in
      let (c, _, e3, _, h3) =
        and_then-ok (when_some (render_str_map go ctx (path ++ codes ".env")) s.env) _ r e2 h2 in
      let (d, ds, e4, outs, h4) =
        and_then-ok (when_some (render_str_map go ctx (path ++ codes ".outputs")) s.outputs) _ r e3
          h3 in
      let (f, _, e5, _, h5) =
        and_then-ok (when_some (render_any_map go ctx (path ++ codes ".with")) s.with) _ r e4 h4 in
      let (g, _, e6, _, h6) =
        and_then-ok (each_from (λ i. render_step go ctx (indexed go ctx path ".steps" i)) 0 s.steps)
          _ r e5 h5 in
      let (out, es, is, maps) =
        when_some-ok (render_str_map go ctx (path ++ codes ".outputs")) s.outputs d m ds outs
          there in
      (out, es, ap (λ z. z.outputs) (sym (ok_inj h6).0) ∙ is, maps)
