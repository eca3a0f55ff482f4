-- ===== src/Examples/Tokens.antt =====
-- The theorems of Security.Auth with a codec that separates fields by zeros.
use rclone_sync_hub_go_backe.Prelude.{
  ℕ, zero, suc, ◌+◌, ◌-◌, ◌≡◌, refl, ap, Text, codes, text_eq, [], ◌∷◌, ◌++◌, true, false, ◌⊎◌,
  Option, none, some, ℤ, pos, negsuc, arith,
}
use rclone_sync_hub_go_backe.Security.Auth.{
  Claims, AuthService, Codec, anonymous, has_period, sign, verify, split_token, verify-sign,
  IsSigned, verify-IsSigned,
}

abbrev shift_up : Text → Text
shift_up [] = []
shift_up (c ∷ s) = (c + 47) ∷ shift_up s

abbrev shift_down : Text → Text
shift_down [] = []
shift_down (c ∷ s) = (c - 47) ∷ shift_down s

shift_down-shift_up : (s : Text) → shift_down (shift_up s) ≡ s
shift_down-shift_up [] = refl
shift_down-shift_up (c ∷ s) = ground (arith, shift_down-shift_up s)

has_period-shift_up : (s : Text) → has_period (shift_up s) ≡ false
has_period-shift_up [] = refl
has_period-shift_up (c ∷ s) = ground (arith, has_period-shift_up s)

abbrev put_text : Text → Text → Text
put_text [] rest = 0 ∷ rest
put_text (c ∷ s) rest = 1 ∷ c ∷ put_text s rest

abbrev put_number : ℤ → Text → Text
put_number (pos n) rest = 0 ∷ n ∷ rest
put_number (negsuc n) rest = 1 ∷ n ∷ rest

abbrev marshal : Claims → Text
marshal c =
    put_number c.issued_at
      (put_number c.expires_at (put_text c.subject (put_text c.role (put_text c.token_id []))))

abbrev add_byte : ℕ → Option (Text × Text) → Option (Text × Text)
add_byte c none = none
add_byte c (some (s, rest)) = some (c ∷ s, rest)

abbrev get_text : Text → Option (Text × Text)
get_text [] = none
get_text (zero ∷ rest) = some ([], rest)
get_text (suc n ∷ []) = none
get_text (suc n ∷ c ∷ rest) = add_byte c (get_text rest)

get_text-put_text : (s rest : Text) → get_text (put_text s rest) ≡ some (s, rest)
get_text-put_text [] rest = refl
get_text-put_text (c ∷ s) rest = rw (get_text-put_text s rest) refl

abbrev get_number : Text → Option (ℤ × Text)
get_number (zero ∷ n ∷ rest) = some (pos n, rest)
get_number (suc m ∷ n ∷ rest) = some (negsuc n, rest)
get_number _ = none

get_number-put_number : (z : ℤ) (rest : Text) → get_number (put_number z rest) ≡ some (z, rest)
get_number-put_number (pos n) rest = refl
get_number-put_number (negsuc n) rest = refl

abbrev and_then : {A B : Type 0} → Option (A × Text) → (A → Text → Option B) → Option B
and_then none f = none
and_then (some (a, rest)) f = f a rest

abbrev unmarshal : Text → Option Claims
unmarshal s = and_then (get_number s) λ i r1. and_then (get_number r1) λ e r2.
    and_then (get_text r2) λ subject r3. and_then (get_text r3) λ role r4.
      and_then (get_text r4) λ id r5.
        some
          (record { subject = subject; role = role; issued_at = i; expires_at = e; token_id = id })

unmarshal-marshal : (c : Claims) → unmarshal (marshal c) ≡ some c
unmarshal-marshal c =
    rw
      (
        get_number-put_number c.issued_at _,
        get_number-put_number c.expires_at _,
        get_text-put_text c.subject _,
        get_text-put_text c.role _,
        get_text-put_text c.token_id _,
      )
      refl

abbrev codec : Codec
codec = record {
  is_utf8 = λ s. true;
  mac = λ secret message. secret ++ message;
  marshal = marshal;
  unmarshal = unmarshal;
  encode = shift_up;
  decode = λ s. some (shift_down s);
  unmarshal_law = λ c h. unmarshal-marshal c;
  decode_law = λ s. ap some (shift_down-shift_up s);
  encode_law = has_period-shift_up;
}

abbrev admin : Claims
admin = record {
  subject = codes "root";
  role = codes "admin";
  issued_at = pos 100;
  expires_at = pos 200;
  token_id = codes "t1";
}

abbrev key : AuthService
key = record { enabled = true; secret = codes "secret" }

verify-sign_example : verify codec key 150 (sign codec key admin) ≡ some admin
unfolding sign text_eq
verify-sign_example = verify-sign codec key 150 admin refl refl refl refl refl refl

accepted : verify codec key 150 (sign codec key admin) ≡ some admin
unfolding verify sign text_eq split_token
accepted = refl

verify-IsSigned_example :
    ((true ≡ true) × IsSigned codec key 150 (sign codec key admin) admin)
    ⊎ ((true ≡ false) × (admin ≡ anonymous codec key 150))
verify-IsSigned_example = verify-IsSigned codec key 150 (sign codec key admin) admin accepted
