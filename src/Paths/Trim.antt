-- ===== src/Paths/Trim.antt =====
-- Trimming white space twice is trimming it once.
use rclone_sync_hub_go_backe.Prelude.{
  Text, text_eq, [], ◌∷◌, false, ◌≡◌, refl, ap, ◌&&◌, ◌∙◌, Bool-cases, inl, inr,
}
use rclone_sync_hub_go_backe.Paths.{is_space, trim_left, trim_right, trim_space}

-- The first byte, if there is one, is no white space.
abbrev Unspaced : Text → Type 0
Unspaced [] = Unit
Unspaced (c ∷ s) = is_space c ≡ false

trim_left-Unspaced : (s : Text) → Unspaced (trim_left s)
unfolding trim_left
trim_left-Unspaced [] = tt
trim_left-Unspaced (c ∷ s) = elim (Bool-cases (is_space c)) [
  | inl e ↦ rw e (trim_left-Unspaced s)
  | inr e ↦ rw e e
]

trim_left-id : (s : Text) → Unspaced s → trim_left s ≡ s
unfolding trim_left
trim_left-id [] h = refl
trim_left-id (c ∷ s) h = rw h refl

trim_right-Unspaced : (s : Text) → Unspaced s → Unspaced (trim_right s)
unfolding trim_right
trim_right-Unspaced [] h = tt
trim_right-Unspaced (c ∷ s) h = rw h h

trim_right-trim_right : (s : Text) → trim_right (trim_right s) ≡ trim_right s
unfolding trim_right
trim_right-trim_right [] = refl
trim_right-trim_right (c ∷ s) = elim (Bool-cases (is_space c && text_eq (trim_right s) [])) [
  | inl e ↦ rw e refl
  | inr e ↦ rw (e, trim_right-trim_right s, e) refl
]

pub trim_space-trim_space : (s : Text) → trim_space (trim_space s) ≡ trim_space s
unfolding trim_space
trim_space-trim_space s =
    ap trim_right (
      trim_left-id (trim_right (trim_left s))
        (trim_right-Unspaced (trim_left s) (trim_left-Unspaced s)))
    ∙ trim_right-trim_right (trim_left s)
