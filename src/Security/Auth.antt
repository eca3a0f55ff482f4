-- ===== src/Security/Auth.antt =====
-- internal/security/auth.go: access tokens, their signature and their check. HMAC, JSON and the raw
-- URL encoding of base64 are the parameter `Codec`, with what their packages document.
use rclone_sync_hub_go_backe.Prelude.{
  ℕ, ◌+◌, ◌-◌, ◌^◌, ◌⊎◌, inl, inr, not, negsuc, ltb_ℤ, ◌≡◌, refl, ◌∙◌, ap, subst, Text, codes,
  text_eq, text_eq_refl, eq_of_text_eq, [], ◌∷◌, ◌++◌, List, Bool, true, false, ◌&&◌, ◌||◌, ◌==◌,
  ltb, length, some_of, if◌then◌else◌, Option, none, some, ℤ, pos, leb_ℤ, arith,
}

abbrev pub role_admin : Text
role_admin = codes "admin"

abbrev pub role_viewer : Text
role_viewer = codes "viewer"

pub record Claims : Type 0 where
  pub subject : Text
  pub role : Text
  pub issued_at : ℤ
  pub expires_at : ℤ
  pub token_id : Text

abbrev period : ℕ
period = 46

abbrev pub has_period : Text → Bool
has_period s = some_of (λ c. c == period) s

-- The parts of the service that Verify reads. A nil service is one that is not enabled.
pub record AuthService : Type 0 where
  pub enabled : Bool
  pub secret : Text

-- A signed integer of 64 bits.
abbrev pub in_int64 : ℤ → Bool
in_int64 z = leb_ℤ (negsuc (2 ^ 63 - 1)) z && ltb_ℤ z (pos (2 ^ 63))

-- Claims that JSON represents: `encoding/json` replaces bytes that are not UTF-8.
abbrev pub representable : (Text → Bool) → Claims → Bool
representable is_utf8 c =
    (is_utf8 c.subject && (is_utf8 c.role && is_utf8 c.token_id))
    && (in_int64 c.issued_at && in_int64 c.expires_at)

pub record Codec : Type 0 where
  pub is_utf8 : Text → Bool
  pub mac : (secret message : Text) → Text
  pub marshal : Claims → Text
  pub unmarshal : Text → Option Claims
  pub encode : Text → Text
  pub decode : Text → Option Text
  pub unmarshal_law : (c : Claims) → representable is_utf8 c ≡ true → unmarshal (marshal c) ≡ some c
  pub decode_law : (s : Text) → decode (encode s) ≡ some s
  pub encode_law : (s : Text) → has_period (encode s) ≡ false

abbrev extend_part : ℕ → List Text → List Text
extend_part c [] = (c ∷ []) ∷ []
extend_part c (p ∷ ps) = (c ∷ p) ∷ ps

-- `strings.Split(token, ".")`
unfoldable pub split_token : Text → List Text
split_token [] = [] ∷ []
split_token (c ∷ s) =
    let rest = split_token s in if c == period then [] ∷ rest else extend_part c rest

abbrev pub version : Text
version = codes "v1"

abbrev pub signed_value : Text → Text
signed_value payload = version ++ (period ∷ payload)

abbrev pub known_role : Text → Bool
known_role role = text_eq role role_admin || text_eq role role_viewer

module _ (k : Codec) (service : AuthService) where
  open k use {
    is_utf8, mac, marshal, unmarshal, encode, decode, unmarshal_law, decode_law, encode_law,
  }

  unfoldable pub sign : Claims → Text
  sign c =
      signed_value (encode (marshal c))
      ++ (period ∷ encode (mac service.secret (signed_value (encode (marshal c)))))

  abbrev pub check_claims : ℕ → Option Claims → Option Claims
  check_claims now none = none
  check_claims now (some c) =
      if text_eq c.subject [] || leb_ℤ c.expires_at (pos now)
      then none
      else if known_role c.role
      then some c
      else none

  abbrev pub check_payload : ℕ → Option Text → Option Claims
  check_payload now none = none
  check_payload now (some json) = check_claims now (unmarshal json)

  abbrev pub genuine : Text → Option Text → Bool
  genuine payload none = false
  genuine payload (some provided) = text_eq provided (mac service.secret (signed_value payload))

  abbrev pub check_parts : ℕ → List Text → Option Claims
  check_parts now (v ∷ payload ∷ signature ∷ []) =
      if text_eq v version && genuine payload (decode signature)
      then check_payload now (decode payload)
      else none
  check_parts now _ = none

  -- What Verify answers without authentication.
  abbrev pub anonymous : ℕ → Claims
  anonymous now = record {
    subject = codes "anonymous";
    role = role_admin;
    issued_at = pos 0;
    expires_at = pos (now + 3600);
    token_id = [];
  }

  abbrev pub check_token : ℕ → Text → Option Claims
  check_token now token =
      if ltb 4096 (length token) then none else check_parts now (split_token token)

  -- Verify; none for an error.
  unfoldable pub verify : ℕ → Text → Option Claims
  verify now token = if not service.enabled then some (anonymous now) else check_token now token

  split_token-one : (x : Text) → has_period x ≡ false → split_token x ≡ x ∷ []
  unfolding split_token
  split_token-one [] h = refl
  split_token-one (c ∷ x) h = ground (arith, split_token-one x)

  split_token-append :
      (x s : Text) → has_period x ≡ false → split_token (x ++ (period ∷ s)) ≡ x ∷ split_token s
  unfolding split_token
  split_token-append [] s h = refl
  split_token-append (c ∷ x) s h = ground (arith, split_token-append x s)

  append_assoc : (x y z : Text) → (x ++ y) ++ z ≡ x ++ (y ++ z)
  append_assoc [] y z = refl
  append_assoc (c ∷ x) y z = ap (λ l. c ∷ l) (append_assoc x y z)

  split_token-sign :
      (c : Claims)
      → split_token (sign c)
        ≡ version
          ∷ encode (marshal c)
          ∷ encode (mac service.secret (signed_value (encode (marshal c))))
          ∷ []
  unfolding sign
  split_token-sign c =
      let p = encode (marshal c) in
      let m = encode (mac service.secret (signed_value p)) in
      ap split_token (append_assoc version (period ∷ p) (period ∷ m))
      ∙ split_token-append version (p ++ (period ∷ m)) refl
      ∙ ap (λ l. version ∷ l) (split_token-append p m (encode_law (marshal c)))
      ∙ ap (λ l. version ∷ p ∷ l)
          (split_token-one m (encode_law (mac service.secret (signed_value p))))

  -- Where authentication is enabled, a token that is signed with the secret is accepted with its
  -- claims, if it has at most 4096 bytes, JSON represents the claims, and they name a subject and a
  -- known role and have not expired.
  pub verify-sign :
      (now : ℕ) (c : Claims)
      → service.enabled ≡ true
      → representable is_utf8 c ≡ true
      → ltb 4096 (length (sign c)) ≡ false
      → text_eq c.subject [] ≡ false
      → leb_ℤ c.expires_at (pos now) ≡ false
      → known_role c.role ≡ true
      → verify now (sign c) ≡ some c
  unfolding verify text_eq sign
  verify-sign now c enabled fits short named live role =
      rw
        (
          enabled,
          short,
          split_token-sign c,
          decode_law (mac service.secret (signed_value (encode (marshal c)))),
          text_eq_refl (mac service.secret (signed_value (encode (marshal c)))),
          decode_law (marshal c),
          unmarshal_law c fits,
          named,
          live,
          role,
        )
        refl

  -- What an accepted token proves.
  pub record IsSigned (now : ℕ) (token : Text) (c : Claims) : Type 0 where
    pub payload : Text
    pub signature : Text
    pub json : Text
    pub parts : split_token token ≡ version ∷ payload ∷ signature ∷ []
    pub authentic : decode signature ≡ some (mac service.secret (signed_value payload))
    pub decoded : decode payload ≡ some json
    pub parsed : unmarshal json ≡ some c
    pub named : text_eq c.subject [] ≡ false
    pub live : leb_ℤ c.expires_at (pos now) ≡ false
    pub role : known_role c.role ≡ true

  check_token-IsSigned :
      (now : ℕ) (token : Text) (c : Claims) → check_token now token ≡ some c → IsSigned now token c
  check_token-IsSigned now token c h =
      by_parts (split_token token) refl (long (ltb 4096 (length token)) h)
    where
      long :
          (b : Bool)
          → (if b then none else check_parts now (split_token token)) ≡ some c
          → check_parts now (split_token token) ≡ some c
      long true e = cc
      long false e = e

      by_claims :
          (p s json : Text) (o : Option Claims)
          → split_token token ≡ version ∷ p ∷ s ∷ []
          → decode s ≡ some (mac service.secret (signed_value p))
          → decode p ≡ some json
          → unmarshal json ≡ o
          → check_claims now o ≡ some c
          → IsSigned now token c
      by_claims p s json none es a d u e = cc
      by_claims p s json (some x) es a d u e =
          let same : x ≡ c = ground arith in
          record {
            payload = p;
            signature = s;
            json = json;
            parts = es;
            authentic = a;
            decoded = d;
            parsed = u ∙ ap some same;
            named = subst (λ y. text_eq y.subject [] ≡ false) same (ground arith);
            live = subst (λ y. leb_ℤ y.expires_at (pos now) ≡ false) same (ground arith);
            role = subst (λ y. known_role y.role ≡ true) same (ground arith);
          }

      by_payload :
          (p s : Text) (o : Option Text)
          → split_token token ≡ version ∷ p ∷ s ∷ []
          → decode s ≡ some (mac service.secret (signed_value p))
          → decode p ≡ o
          → check_payload now o ≡ some c
          → IsSigned now token c
      by_payload p s none es a d e = cc
      by_payload p s (some json) es a d e = by_claims p s json (unmarshal json) es a d refl e

      by_signature :
          (v p s : Text) (o : Option Text)
          → split_token token ≡ v ∷ p ∷ s ∷ []
          → decode s ≡ o
          → (if text_eq v version && genuine p o then check_payload now (decode p) else none)
            ≡ some c
          → IsSigned now token c
      by_signature v p s none es d e = absurd (ground arith)
      by_signature v p s (some q) es d e =
          let ev : text_eq v version ≡ true = ground arith in
          let eq : text_eq q (mac service.secret (signed_value p)) ≡ true = ground arith in
          by_payload p s (decode p) (es ∙ ap (λ x. x ∷ p ∷ s ∷ []) (eq_of_text_eq v version ev))
            (d ∙ ap some (eq_of_text_eq q (mac service.secret (signed_value p)) eq)) refl
            (ground arith)

      by_parts :
          (ps : List Text)
          → split_token token ≡ ps
          → check_parts now ps ≡ some c
          → IsSigned now token c
      by_parts (v ∷ p ∷ s ∷ []) e k = by_signature v p s (decode s) e refl k
      by_parts _ e k = cc

  -- Where authentication is enabled, a token is accepted only if it carries the code of its payload
  -- under the secret, and its claims are those of the payload, name a subject and a known role, and
  -- have not expired. Where it is not, every token is accepted as that of an anonymous administrator.
  pub verify-IsSigned :
      (now : ℕ) (token : Text) (c : Claims)
      → verify now token ≡ some c
      → ((service.enabled ≡ true) × IsSigned now token c)
        ⊎ ((service.enabled ≡ false) × (c ≡ anonymous now))
  unfolding verify
  verify-IsSigned now token c h = by_switch service.enabled refl h
    where
      by_switch :
          (b : Bool)
          → service.enabled ≡ b
          → (if not b then some (anonymous now) else check_token now token) ≡ some c
          → ((service.enabled ≡ true) × IsSigned now token c)
            ⊎ ((service.enabled ≡ false) × (c ≡ anonymous now))
      by_switch true e k = inl (e, check_token-IsSigned now token c k)
      by_switch false e k = inr (e, same (some (anonymous now)) refl k)
        where
          same : (o : Option Claims) → o ≡ some (anonymous now) → o ≡ some c → c ≡ anonymous now
          same o p q = cc
