-- ===== src/Prelude/Lists.antt =====
-- Lists measured by native numbers, membership and the two quantifiers, by recursion.
use Prim.Native.Nat.{ℕ, suc, ◌+◌}
use mathlib.Core.Path.{◌≡◌, refl, sym, subst}
use mathlib.Core.Logic.{◌⊎◌, inl, inr}
use mathlib.Core.Bool.{Bool, true, false, ◌&&◌, ◌||◌}
use mathlib.Core.List.{List, [], ◌∷◌, ◌++◌, map}
use native.Mathlib.Omega.{arith}
use rclone_sync_hub_go_backe.Prelude.Tests.{◌==◌, Bool-cases, if◌then◌else◌}

module _ {ℓ} {A : Type ℓ} where
  abbrev pub length : List A → ℕ
  length [] = 0
  length (x ∷ xs) = suc (length xs)

  pub length-append : (xs ys : List A) → length (xs ++ ys) ≡ length xs + length ys
  length-append [] ys = omega arith
  length-append (x ∷ xs) ys = omega (arith, length-append xs ys)

  -- The elements that pass a Boolean test.
  abbrev pub select : (A → Bool) → List A → List A
  select p [] = []
  select p (x ∷ xs) = let rest = select p xs in if p x then x ∷ rest else rest

  abbrev pub some_of : (A → Bool) → List A → Bool
  some_of p [] = false
  some_of p (x ∷ xs) = p x || some_of p xs

  abbrev pub every : (A → Bool) → List A → Bool
  every p [] = true
  every p (x ∷ xs) = p x && every p xs

abbrev pub has_id : ℕ → List ℕ → Bool
has_id id [] = false
has_id id (i ∷ is) = i == id || has_id id is

module _ {A : Type 0} where
  abbrev pub Member : A → List A → Type 0
  Member a [] = ⊥
  Member a (x ∷ xs) = (a ≡ x) ⊎ Member a xs

module _ {A : Type 0} (P : A → Type 0) where
  abbrev pub All : List A → Type 0
  All [] = Unit
  All (x ∷ xs) = P x × All xs

  abbrev pub Any : List A → Type 0
  Any [] = ⊥
  Any (x ∷ xs) = P x ⊎ Any xs

pub All-Member : {A : Type 0} (P : A → Type 0) {a : A} (xs : List A) → All P xs → Member a xs → P a
All-Member P [] h m = absurd m
All-Member P (x ∷ xs) h (inl e) = subst P (sym e) h.0
All-Member P (x ∷ xs) h (inr m) = All-Member P xs h.1 m

-- No element passes a test that none passes.
pub some_of-none :
    {A : Type 0} (p : A → Bool) (ts : List A) (u : A)
    → some_of p ts ≡ false
    → Member u ts
    → p u ≡ false
some_of-none p [] u h m = absurd m
some_of-none p (t ∷ ts) u h (inl e) = subst (λ v. p v ≡ false) (sym e) (ground arith)
some_of-none p (t ∷ ts) u h (inr m) = some_of-none p ts u (ground arith) m

-- An element that passes a test that some element passes.
pub some_of-Member :
    {A : Type 0} (p : A → Bool) (ts : List A)
    → some_of p ts ≡ true
    → (t : A) × Member t ts × (p t ≡ true)
some_of-Member p [] h = absurd (clash h)
  where
    clash : false ≡ true → ⊥
    clash k = cc
some_of-Member p (t ∷ ts) h = elim (Bool-cases (p t)) [
  | inl e ↦ (t, inl refl, e)
  | inr e ↦ let (u, m, k) = some_of-Member p ts (rest e h) in (u, inr m, k)
]
  where
    rest : p t ≡ false → (p t || some_of p ts) ≡ true → some_of p ts ≡ true
    rest a b = ground arith

-- Two lists of one length whose entries are related, place by place.
abbrev pub Rowwise : {A : Type 0} → (A → A → Type 0) → List A → List A → Type 0
Rowwise R [] [] = Unit
Rowwise R [] (y ∷ ys) = ⊥
Rowwise R (x ∷ xs) [] = ⊥
Rowwise R (x ∷ xs) (y ∷ ys) = R x y × Rowwise R xs ys

pub Rowwise-map :
    {A : Type 0} (R : A → A → Type 0) (h : A → A) (xs : List A)
    → ((x : A) → R x (h x))
    → Rowwise R xs (map h xs)
Rowwise-map R h [] k = tt
Rowwise-map R h (x ∷ xs) k = (k x, Rowwise-map R h xs k)
