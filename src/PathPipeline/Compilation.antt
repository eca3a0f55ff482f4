-- ===== src/PathPipeline/Compilation.antt =====
-- What Normalize and Compile promise each other.
use rclone_sync_hub_go_backe.Prelude.{
  ℕ, suc, ◌+◌, text_eq, [], ◌∷◌, List, true, false, ◌≡◌, refl, sym, ap, ◌∙◌, subst, arith,
  Bool-cases, inl, inr, length, ltb, All,
}
use rclone_sync_hub_go_backe.Paths.{trim_space}
use rclone_sync_hub_go_backe.Paths.Trim.{trim_space-trim_space}
use rclone_sync_hub_go_backe.PathPipeline.{
  Regexp, Step, Extract, Outcome, ok, fail, ◌>>=◌, ◌>>◌, regex_extract, trimmed,
  compile_regex_extract, normalize_step, normalize_steps, normalize, compile_step, compile_steps,
  compile,
}

ok_of_bind {ℓ κ} :
    {A : Type ℓ} {B : Type κ} (m : Outcome A) (f : A → Outcome B) (b : B)
    → (m >>= f) ≡ ok b
    → (a : A) × (m ≡ ok a) × (f a ≡ ok b)
ok_of_bind (ok a) f b h = (a, refl, h)
ok_of_bind (fail e) f b h = cc

trimmed-trimmed : (s : Step) → trimmed (trimmed s) ≡ trimmed s
trimmed-trimmed s = rw (trim_space-trim_space s.kind, trim_space-trim_space s.pattern) refl

module _ (r : Regexp) where
  -- A step in canonical form, which compiles.
  pub record IsCanonical (s : Step) : Type 0 where
    pub extract : Extract
    pub fixed : trimmed s ≡ s
    pub known : text_eq s.kind regex_extract ≡ true
    pub compiles : compile_regex_extract r s ≡ ok extract

  -- A step that passes is its trimmed form, which has the known kind and compiles.
  passed :
      (i : ℕ) (s s' : Step)
      → normalize_step r i s ≡ ok s'
      → (text_eq (trim_space s.kind) regex_extract ≡ true)
        × ((x : Extract) × (compile_regex_extract r (trimmed s) ≡ ok x) × (trimmed s ≡ s'))
  unfolding normalize_step
  passed i s s' h = elim (Bool-cases (text_eq (trim_space s.kind) regex_extract)) [
    | inl k ↦ (k, by_compile (compile_regex_extract r (trimmed s)) refl (ground arith))
    | inr k ↦ absurd (ground arith)
  ]
    where
      by_compile :
          (o : Outcome Extract)
          → compile_regex_extract r (trimmed s) ≡ o
          → (o >> ok (trimmed s)) ≡ ok s'
          → (x : Extract) × (compile_regex_extract r (trimmed s) ≡ ok x) × (trimmed s ≡ s')
      by_compile (ok x) e k = (x, e, cc)
      by_compile (fail f) e k = cc

  normalize_step-IsCanonical : (i : ℕ) (s s' : Step) → normalize_step r i s ≡ ok s' → IsCanonical s'
  normalize_step-IsCanonical i s s' h =
      let (k, rest) = passed i s s' h in
      let (x, e, t) = rest in
      subst IsCanonical t
        (record { extract = x; fixed = trimmed-trimmed s; known = k; compiles = e })

  -- A step whose trimmed form has the known kind and compiles passes as its trimmed form.
  passes :
      (i : ℕ) (s : Step) (x : Extract)
      → text_eq (trim_space s.kind) regex_extract ≡ true
      → compile_regex_extract r (trimmed s) ≡ ok x
      → normalize_step r i s ≡ ok (trimmed s)
  unfolding normalize_step
  passes i s x k c = rw (k, c) refl

  normalize_step_fixed : (i : ℕ) (s : Step) → IsCanonical s → normalize_step r i s ≡ ok s
  normalize_step_fixed i s c =
      passes i s c.extract (subst (λ t. text_eq t.kind regex_extract ≡ true) (sym c.fixed) c.known)
        (subst (λ t. compile_regex_extract r t ≡ ok c.extract) (sym c.fixed) c.compiles)
      ∙ ap ok c.fixed

  normalize_steps-IsCanonical :
      (i : ℕ) (ss ss' : List Step)
      → normalize_steps r i ss ≡ ok ss'
      → All IsCanonical ss' × (length ss' ≡ length ss)
  unfolding normalize_steps
  normalize_steps-IsCanonical i [] ss' h =
      subst (λ xs. All IsCanonical xs × (length xs ≡ 0)) (ok_eq h) (tt, refl)
    where
      ok_eq : {xs ys : List Step} → ok xs ≡ ok ys → xs ≡ ys
      ok_eq e = cc
  normalize_steps-IsCanonical i (s ∷ ss) out h =
      let (t, et, kt) = ok_of_bind (normalize_step r i s) _ out h in
      let (ts, ets, kts) = ok_of_bind (normalize_steps r (i + 1) ss) _ out kt in
      let (all, same) = normalize_steps-IsCanonical (i + 1) ss ts ets in
      subst (λ xs. All IsCanonical xs × (length xs ≡ suc (length ss))) (ok_eq kts)
        ((normalize_step-IsCanonical i s t et, all), ap suc same)
    where
      ok_eq : {xs ys : List Step} → ok xs ≡ ok ys → xs ≡ ys
      ok_eq e = cc

  normalize_steps_fixed :
      (i : ℕ) (ss : List Step) → All IsCanonical ss → normalize_steps r i ss ≡ ok ss
  unfolding normalize_steps
  normalize_steps_fixed i [] h = refl
  normalize_steps_fixed i (s ∷ ss) h =
      rw (normalize_step_fixed i s h.0, normalize_steps_fixed (i + 1) ss h.1) refl

  normalize-steps :
      (ss ns : List Step)
      → normalize r ss ≡ ok ns
      → (ltb 16 (length ss) ≡ false) × (normalize_steps r 0 ss ≡ ok ns)
  unfolding normalize
  normalize-steps ss ns h = elim (Bool-cases (ltb 16 (length ss))) [
    | inl e ↦ absurd (ground arith)
    | inr e ↦ (e, ground arith)
  ]

  -- What Normalize returns is in canonical form: normalising it again changes nothing.
  pub normalize-normalize : (ss ns : List Step) → normalize r ss ≡ ok ns → normalize r ns ≡ ok ns
  normalize-normalize ss ns h =
      let (short, e) = normalize-steps ss ns h in
      let (all, same) = normalize_steps-IsCanonical 0 ss ns e in fixed all (rw same short)
    where
      fixed : All IsCanonical ns → ltb 16 (length ns) ≡ false → normalize r ns ≡ ok ns
      fixed all short = unfold normalize in rw short (normalize_steps_fixed 0 ns all)

  compile_steps_total :
      (ss : List Step)
      → All IsCanonical ss
      → (xs : List Extract) × (compile_steps r ss ≡ ok xs) × (length xs ≡ length ss)
  unfolding compile_steps compile_step
  compile_steps_total [] h = ([], refl, refl)
  compile_steps_total (s ∷ ss) h =
      let (xs, e, l) = compile_steps_total ss h.1 in
      (h.0.extract ∷ xs, rw (h.0.known, h.0.compiles, e) refl, ap suc l)

  -- Compile accepts what Normalize accepts: it finds a compiler for the type of each normalised step,
  -- the compiler accepts the step, and each step is compiled.
  pub compile_total :
      (ss ns : List Step)
      → normalize r ss ≡ ok ns
      → (xs : List Extract) × (compile r ss ≡ ok xs) × (length xs ≡ length ss)
  unfolding compile
  compile_total ss ns h =
      let (short, e) = normalize-steps ss ns h in
      let (all, same) = normalize_steps-IsCanonical 0 ss ns e in
      let (xs, c, l) = compile_steps_total ns all in (xs, rw h c, l ∙ same)
