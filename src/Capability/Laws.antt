-- ===== src/Capability/Laws.antt =====
-- What a verified capability token authorizes, and that a minted one is verified.
use Prim.Native.String.{String}
use openkedge.Prelude.{
  ℕ, ◌+◌, ◌≤◌, ◌<◌, ◌≡◌, refl, ◌∙◌, sym, ap, inl, inr, Bool, true, false, Option, none, some, List,
  [], ◌∷◌, Result, ok, err, ◌>>=◌, All, arith, ◌==◌, string_eq, not, ◌||◌, concat, ltb, leb, eqb,
  is_safe_integer, Bool-cases, if◌then◌else◌,
}
use openkedge.Json.{Value, fields, read_path}
use openkedge.Json.Canonical.{canonical_json}
use openkedge.Contracts.{CapabilityToken, IeecRecord}
use openkedge.Trace.{is_success}
use openkedge.Signing.{Hmac, sign_json, is_hex, valid_signature}
use openkedge.Capability.{
  Validation, valid, invalid, matches_bound, mismatch, reads, capability_of, is_empty, check_paths,
  capability_domain, unsigned_token, well_formed, check_token, authorizes, mint_capability_token,
  verify_capability_token,
}

-- The payload has the value that the token is bound to.
abbrev pub IsBound : Value → String × Value → Type 0
IsBound payload (path, expected) =
    (actual : Value) × (text : String) × (read_path (some payload) path ≡ ok (some actual))
    × (canonical_json actual ≡ ok text)
    × (canonical_json expected ≡ ok text)

bind-ok :
    {A B : Type 0} (m : Result String A) (f : A → Result String B) (b : B)
    → (m >>= f) ≡ ok b
    → (a : A) × (m ≡ ok a) × (f a ≡ ok b)
bind-ok (ok a) f b h = (a, refl, h)
bind-ok (err e) f b h = cc

matches_bound-IsBound :
    (payload : Value) (path : String) (found : Option Value) (expected : Value)
    → read_path (some payload) path ≡ ok found
    → matches_bound found expected ≡ ok true
    → IsBound payload (path, expected)
matches_bound-IsBound payload path none expected is m = absurd (ground arith)
matches_bound-IsBound payload path (some v) expected is m =
    let (l, is_l, m₁) = bind-ok (canonical_json v) _ true m in
    let (r, is_r, m₂) = bind-ok (canonical_json expected) _ true m₁ in
    let same : (l == r) ≡ true = ground arith in
    (v, l, is, is_l, is_r ∙ ap ok (sym ((string_eq.beq_iff l r).0 same)))

authorizes-IsBound :
    (payload : Value) (bound : List (String × Value))
    → authorizes payload bound ≡ ok valid
    → All (IsBound payload) bound
unfolding authorizes
authorizes-IsBound payload [] h = tt
authorizes-IsBound payload ((path, expected) ∷ rest) h =
    let (found, is_found, h₁) = bind-ok (read_path (some payload) path) _ valid h in
    let (same, is_same, h₂) = bind-ok (matches_bound found expected) _ valid h₁ in
    let (is_true, later) = chosen same h₂ in
    (
      matches_bound-IsBound payload path found expected is_found (is_same ∙ ap ok is_true),
      authorizes-IsBound payload rest later,
    )
  where
    chosen :
        (same : Bool)
        → (if same then authorizes payload rest else ok (mismatch path)) ≡ ok valid
        → (same ≡ true) × (authorizes payload rest ≡ ok valid)
    chosen same c = ground arith

module _ (h : Hmac) (token : CapabilityToken) (payload : Value) (secret_key : String)
    (now : ℕ) where
  -- What is left to check once the expected signature is known.
  abbrev checked : String → Result String Validation
  checked expected =
      if not (valid_signature token.signature expected)
      then ok (invalid "CAPABILITY_SIGNATURE_ERROR" "Invalid capability signature")
      else if not (is_safe_integer now) || ltb now token.issued_at || leb token.expires_at now
      then ok (invalid "CAPABILITY_EXPIRED_ERROR" "Capability is outside its validity window")
      else authorizes payload token.bound_attributes

  valid-checked :
      (expected : String)
      → checked expected ≡ ok valid
      → (valid_signature token.signature expected ≡ true)
        × (token.issued_at ≤ now)
        × (now < token.expires_at)
        × (authorizes payload token.bound_attributes ≡ ok valid)
  valid-checked expected c = ground arith

  valid-check_token :
      verify_capability_token h token payload secret_key now ≡ valid
      → check_token h token payload secret_key now ≡ ok valid
  unfolding verify_capability_token
  valid-check_token v = ground arith

  valid-signed :
      check_token h token payload secret_key now ≡ ok valid
      → (sign_json h capability_domain (unsigned_token token) secret_key >>= checked) ≡ ok valid
  unfolding check_token
  valid-signed c = elim (Bool-cases (well_formed token)) [
    | inl well ↦ simp well at c
    | inr bad ↦ absurd (ground (arith, simp bad at c))
  ]

-- A token that is verified is within its window, is signed, and binds the payload in every attribute.
pub verify_capability_token-IsBound :
    (h : Hmac) (token : CapabilityToken) (payload : Value) (secret_key : String) (now : ℕ)
    → verify_capability_token h token payload secret_key now ≡ valid
    → (token.issued_at ≤ now)
      × (now < token.expires_at)
      × ((expected : String) × (sign_json h capability_domain (unsigned_token token) secret_key
            ≡ ok expected)
          × (token.signature ≡ expected))
      × All (IsBound payload) token.bound_attributes
unfolding valid_signature
verify_capability_token-IsBound h token payload secret_key now v =
    let c =
      valid-signed h token payload secret_key now
        (valid-check_token h token payload secret_key now v) in
    let (expected, signed, k) =
      bind-ok (sign_json h capability_domain (unsigned_token token) secret_key) _ valid c in
    let (good, from, before, bound) = valid-checked h token payload secret_key now expected k in
    let same : (token.signature == expected) ≡ true = ground arith in
    (
      from,
      before,
      (expected, signed, (string_eq.beq_iff token.signature expected).0 same),
      authorizes-IsBound payload token.bound_attributes bound,
    )

guarded :
    {A : Type 0} (stop : Bool) (e : String) (m : Result String A) (a : A)
    → (if stop then err e else m) ≡ ok a
    → (stop ≡ false) × (m ≡ ok a)
guarded true e m a g = absurd (ground arith)
guarded false e m a g = (refl, g)

sign_json-is_hex :
    (h : Hmac) (domain : String) (value : Value) (secret_key signature : String)
    → ((key text : String) → is_hex 64 (h.digest key text) ≡ true)
    → sign_json h domain value secret_key ≡ ok signature
    → is_hex 64 signature ≡ true
unfolding sign_json
sign_json-is_hex h domain value secret_key signature hex s =
    let (long, m) =
      guarded (ltb (h.byte_length secret_key) 32) "Signing key must contain at least 32 bytes" _
        signature s in
    let (text, is_text, d) =
      bind-ok (canonical_json value)
        (λ x. ok (h.digest secret_key (concat (domain ∷ "\n" ∷ x ∷ [])))) signature m in
    let same : h.digest secret_key (concat (domain ∷ "\n" ∷ text ∷ [])) ≡ signature =
      ground arith in
    ap (is_hex 64) (sym same) ∙ hex _ _

module _ (h : Hmac) (token_id : String) (source : IeecRecord) (bound : List (String × Value))
    (secret_key : String) (ttl now : ℕ) where
  abbrev signing : Result String String
  signing =
      sign_json h capability_domain
        (unsigned_token (capability_of token_id source bound ttl now "")) secret_key

  mint-signed :
      (token : CapabilityToken)
      → mint_capability_token h token_id source bound secret_key ttl now ≡ ok token
      → (signature : String) × (signing ≡ ok signature)
        × (token ≡ capability_of token_id source bound ttl now signature)
        × (is_empty bound ≡ false)
        × (is_safe_integer now ≡ true)
        × (is_safe_integer (now + ttl) ≡ true)
  unfolding mint_capability_token
  mint-signed token m =
      let (source_ok, m₁) =
        guarded
          (not (is_success source.status) || not (reads source.kind) || ltb now source.timestamp)
          "Capabilities require a completed successful READ or PROBE" _ token m in
      let (lifetime, m₂) =
        guarded
          (not (is_safe_integer ttl)
            || eqb ttl 0
            || not (is_safe_integer now)
            || not (is_safe_integer (now + ttl)))
          "Invalid capability lifetime" _ token m₁ in
      let (some_bound, m₃) =
        guarded (is_empty bound) "Capability bindings cannot be empty" _ token m₂ in
      let (_, _, m₄) =
        bind-ok (canonical_json (fields bound))
          (λ _. check_paths bound >>= λ _.
            signing >>= λ x. ok (capability_of token_id source bound ttl now x))
          token m₃ in
      let (_, _, m₅) =
        bind-ok (check_paths bound)
          (λ _. signing >>= λ x. ok (capability_of token_id source bound ttl now x)) token m₄ in
      let (signature, signed, m₆) =
        bind-ok signing (λ x. ok (capability_of token_id source bound ttl now x)) token m₅ in
      (signature, signed, ground arith, some_bound, ground arith, ground arith)

-- A token that is well formed, in its window, rightly signed and authorizing is verified.
verified :
    (h : Hmac) (token : CapabilityToken) (payload : Value) (secret_key : String) (now : ℕ)
    (expected : String)
    → well_formed token ≡ true
    → sign_json h capability_domain (unsigned_token token) secret_key ≡ ok expected
    → checked h token payload secret_key now expected ≡ ok valid
    → verify_capability_token h token payload secret_key now ≡ valid
unfolding verify_capability_token check_token
verified h token payload secret_key now expected well signed c =
    rw (verify_capability_token, check_token, well, signed, c) refl

-- A token that is minted is verified with the same key at any time of its window, for a payload
-- that it authorizes, when its identifiers are not empty and digests are 64 digits in hexadecimal.
pub verify-mint :
    (h : Hmac) (token_id : String) (source : IeecRecord) (bound : List (String × Value))
    (secret_key : String) (ttl now later : ℕ) (token : CapabilityToken) (payload : Value)
    → ((key text : String) → is_hex 64 (h.digest key text) ≡ true)
    → is_hex 64 source.hash ≡ true
    → (token_id == "") ≡ false
    → (source.proposal_id == "") ≡ false
    → (source.actor_id == "") ≡ false
    → mint_capability_token h token_id source bound secret_key ttl now ≡ ok token
    → now ≤ later
    → later < now + ttl
    → authorizes payload bound ≡ ok valid
    → verify_capability_token h token payload secret_key later ≡ valid
unfolding valid_signature
verify-mint h token_id source bound secret_key ttl now later token payload hex source_hex i₁ i₂ i₃
      minted from before authorized =
    let (signature, signed, is, nonempty, safe_now, safe_end) =
      mint-signed h token_id source bound secret_key ttl now token minted in
    let signature_hex = sign_json-is_hex h capability_domain _ secret_key signature hex signed in
    rw is (
      verified h (capability_of token_id source bound ttl now signature) payload secret_key later
        signature (ground arith) signed
        (rest signature signature_hex (ground arith) (ground arith) (ground arith)))
  where
    rest :
        (signature : String)
        → is_hex 64 signature ≡ true
        → is_safe_integer later ≡ true
        → ltb later now ≡ false
        → leb (now + ttl) later ≡ false
        → checked h
            (capability_of token_id source bound ttl now signature)
            payload
            secret_key
            later
            signature
          ≡ ok valid
    rest signature sh safe l₁ l₂ = ground (arith, string_eq.beq_iff signature signature)
