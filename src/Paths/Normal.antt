-- ===== src/Paths/Normal.antt =====
-- The normal form that `path.Clean` reaches.
use rclone_sync_hub_go_backe.Prelude.{
  ℕ, zero, suc, Text, text_eq, [], ◌∷◌, ◌++◌, List, Bool, true, false, ◌≡◌, refl, subst, ◌||◌, All,
  arith, Bool-cases, inl, inr, codes,
}
use mathlib.Core.List.{reverse, reverse-cons}
use rclone_sync_hub_go_backe.Paths.{
  slash, split, join, dot, dotdot, has_prefix, Cleaning, go_up, clean_step, clean_all, dotdots,
  is_rooted, cleaned, render, clean,
}
use rclone_sync_hub_go_backe.Paths.Segments.{NoSlash, split-slash_free, split-join, split-NoSlash}

-- A segment that names something below its parent.
pub record IsName (s : Text) : Type 0 where
  pub is_filled : text_eq s [] ≡ false
  pub no_dot : text_eq s dot ≡ false
  pub no_dotdot : text_eq s dotdot ≡ false
  pub no_slash : NoSlash s

-- What holds of the state of the cleaning.
record IsNormal (rooted : Bool) (s : Cleaning) : Type 0 where
  named : All IsName s.names
  no_ups : rooted ≡ true → s.ups ≡ 0

go_up-IsNormal :
    (r : Bool) (u : ℕ) (names : List Text)
    → IsNormal r (record { ups = u; names = names })
    → IsNormal r (go_up r (record { ups = u; names = names }))
go_up-IsNormal true u [] h = h
go_up-IsNormal false u [] h = record { named = tt; no_ups = λ e. cc }
go_up-IsNormal r u (x ∷ xs) h = record { named = h.named.1; no_ups = h.no_ups }

clean_step-IsNormal :
    (r : Bool) (x : Text) (s : Cleaning) → NoSlash x → IsNormal r s → IsNormal r (clean_step r x s)
unfolding clean_step
clean_step-IsNormal r x s n h = elim (Bool-cases (text_eq x [] || text_eq x dot)) [
  | inl e ↦ rw e h
  | inr e ↦ elim (Bool-cases (text_eq x dotdot)) [
    | inl d ↦ rw (e, d) (go_up-IsNormal r s.ups s.names h)
    | inr d ↦
        rw (e, d)
          (record {
            named = (
              record {
                is_filled = ground arith;
                no_dot = ground arith;
                no_dotdot = d;
                no_slash = n;
              },
              h.named,
            );
            no_ups = h.no_ups;
          })
  ]
]

clean_all-IsNormal :
    (r : Bool) (xs : List Text) (s : Cleaning)
    → All NoSlash xs
    → IsNormal r s
    → IsNormal r (clean_all r xs s)
unfolding clean_all
clean_all-IsNormal r [] s n h = h
clean_all-IsNormal r (x ∷ xs) s n h =
    clean_all-IsNormal r xs (clean_step r x s) n.1 (clean_step-IsNormal r x s n.0 h)

cleaned-IsNormal : (s : Text) → IsNormal (is_rooted s) (cleaned s)
unfolding cleaned
cleaned-IsNormal s =
    clean_all-IsNormal (is_rooted s) (split s) _ (split-NoSlash s)
      (record { named = tt; no_ups = λ e. refl })

module _ {A : Type 0} (P : A → Type 0) where
  All-append : (xs ys : List A) → All P xs → All P ys → All P (xs ++ ys)
  All-append [] ys h k = k
  All-append (x ∷ xs) ys h k = (h.0, All-append xs ys h.1 k)

  All-reverse : (xs : List A) → All P xs → All P (reverse xs)
  All-reverse [] h = tt
  All-reverse (x ∷ xs) h =
      rw reverse-cons (All-append (reverse xs) (x ∷ []) (All-reverse xs h.1) (h.0, tt))

names_NoSlash : (xs : List Text) → All IsName xs → All NoSlash xs
names_NoSlash [] h = tt
names_NoSlash (x ∷ xs) h = (h.0.no_slash, names_NoSlash xs h.1)

-- What a cleaned path must not be, to stay below the directory that it is joined to.
abbrev pub escapes : Text → Bool
escapes s = text_eq s dot || text_eq s dotdot || has_prefix (codes "../") s

-- A path with a leading `..` is caught.
up_escapes : (n : ℕ) (xs : List Text) → escapes (render false (dotdots (suc n) ++ xs)) ≡ true
unfolding join text_eq
up_escapes zero [] = refl
up_escapes zero (x ∷ xs) = refl
up_escapes (suc n) xs = refl

split-render :
    (n : ℕ) (xs : List Text)
    → All IsName xs
    → escapes (render false (dotdots n ++ xs)) ≡ false
    → All IsName (split (render false (dotdots n ++ xs)))
split-render zero [] h e = absurd (dot_escapes e)
  where
    dot_escapes : escapes dot ≡ false → ⊥
    dot_escapes e = unfold text_eq in cc
split-render zero (x ∷ xs) h e = rw (split-join x xs h.0.no_slash (names_NoSlash xs h.1)) h
split-render (suc n) xs h e = absurd (both (up_escapes n xs) e)
  where
    both : {b : Bool} → b ≡ true → b ≡ false → ⊥
    both p q = cc

render_of : (s : Text) → List Text
render_of s = dotdots (cleaned s).ups ++ reverse (cleaned s).names

clean-render : (s : Text) (r : Bool) → is_rooted s ≡ r → clean s ≡ render r (render_of s)
unfolding clean render_of
clean-render s r e = rw e refl

-- A cleaned path that is not rooted and passes the check has only names for its segments.
pub clean-names :
    (s : Text) → is_rooted s ≡ false → escapes (clean s) ≡ false → All IsName (split (clean s))
unfolding render_of
clean-names s r e = rw (clean-render s false r) (
    split-render (cleaned s).ups (reverse (cleaned s).names)
      (All-reverse IsName (cleaned s).names (cleaned-IsNormal s).named)
      (subst (λ t. escapes t ≡ false) (clean-render s false r) e))

-- No segment of a path steps up or stays.
abbrev pub StaysBelow : Text → Type 0
StaysBelow seg = (text_eq seg dot ≡ false) × (text_eq seg dotdot ≡ false)

names_StaysBelow : (xs : List Text) → All IsName xs → All StaysBelow xs
names_StaysBelow [] h = tt
names_StaysBelow (x ∷ xs) h = ((h.0.no_dot, h.0.no_dotdot), names_StaysBelow xs h.1)

split-render_rooted : (xs : List Text) → All IsName xs → All StaysBelow (split (slash ∷ join xs))
unfolding split join text_eq
split-render_rooted [] h = ((refl, refl), ((refl, refl), tt))
split-render_rooted (x ∷ xs) h = (
  (refl, refl),
  rw (split-join x xs h.0.no_slash (names_NoSlash xs h.1)) (names_StaysBelow (x ∷ xs) h),
)

-- No segment of a cleaned path that passes the check steps up, rooted or not.
pub clean-StaysBelow : (s : Text) → escapes (clean s) ≡ false → All StaysBelow (split (clean s))
clean-StaysBelow s e = elim (Bool-cases (is_rooted s)) [
  | inl r ↦ rooted r
  | inr r ↦ names_StaysBelow (split (clean s)) (clean-names s r e)
]
  where
    rooted : is_rooted s ≡ true → All StaysBelow (split (clean s))
    rooted r = rw (clean-render s true r) (
        unfold render_of in
        rw ((cleaned-IsNormal s).no_ups r) (
          split-render_rooted (reverse (cleaned s).names)
            (All-reverse IsName (cleaned s).names (cleaned-IsNormal s).named)))

-- A name below the root is in normal form.
pub clean-rooted_name : (x : Text) → IsName x → clean (slash ∷ x) ≡ slash ∷ x
unfolding clean cleaned join text_eq
clean-rooted_name x i = rw (split-slash_free x i.no_slash, i.is_filled, i.no_dot, i.no_dotdot) refl
