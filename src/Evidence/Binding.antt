-- ===== src/Evidence/Binding.antt =====
-- The hash of the last link binds the whole evidence chain.
use Prim.Native.String.{String}
use openkedge.Prelude.{
  ◌≡◌, refl, ◌∙◌, sym, ap, ◌⊎◌, inl, inr, Bool, true, false, ◌&&◌, List, [], ◌∷◌, ◌++◌, map, last,
  ok, ◌==◌, string_eq,
}
use mathlib.Core.List.{reverse, reverse_aux, reverse-reverse}
use openkedge.Json.{Value, str, obj, Fields, field}
use openkedge.Evidence.{
  EvidenceLink, genesis_prev_link_hash, verify_integrity, link_value, body_value,
  justification_value,
}
use openkedge.Evidence.Chain.{integrity_from, assert_integrity, hash_of, last_hash}
use openkedge.Evidence.Laws.{integrity-inv, hash_of-last}

map-reverse_aux :
    {A B : Type 0} (f : A → B) (xs acc : List A)
    → map f (reverse_aux xs acc) ≡ reverse_aux (map f xs) (map f acc)
map-reverse_aux f [] acc = refl
map-reverse_aux f (x ∷ xs) acc = map-reverse_aux f xs (x ∷ acc)

map-eq-reversed :
    {A B : Type 0} (f : A → B) (xs ys : List A)
    → map f (reverse_aux xs []) ≡ map f (reverse_aux ys [])
    → map f xs ≡ map f ys
map-eq-reversed f xs ys same =
    sym (reverse-reverse (map f xs))
    ∙ ap reverse (sym (map-reverse_aux f xs []) ∙ same ∙ map-reverse_aux f ys [])
    ∙ reverse-reverse (map f ys)

-- The previous hash in what a link's hash is over: the first field of the last one.
first_text : Value → String
first_text (obj (field k (str s) rest)) = s
first_text _ = ""

fifth : Value → Value
fifth (obj (field a v (field b w (field c x (field d y (field e z rest)))))) = z
fifth v = v

prev_in : EvidenceLink → String
prev_in l = first_text (fifth (link_value l))

prev_in_lem : (l : EvidenceLink) → prev_in l ≡ l.proof.prev_link_hash
unfolding prev_in first_text fifth link_value body_value
prev_in_lem l = refl

second_eq : (a b : String) (first : Bool) → (first && a == b) ≡ true → a ≡ b
second_eq a b true e = (string_eq.beq_iff a b).0 e
second_eq a b false e = absurd (cc)

str-ne-obj : {s : String} {fs : Fields} → ¬ (str s ≡ obj fs)
str-ne-obj e = cc

abbrev genesis_value : Value
genesis_value = str "openkedge:evidence-chain:genesis"

-- A value is one of a list.
abbrev pub In : Value → List Value → Type 0
In v [] = ⊥
In v (x ∷ xs) = (v ≡ x) ⊎ In v xs

-- The values that are hashed for the links of two chains.
abbrev pub hashed : List EvidenceLink → List EvidenceLink → List Value
hashed xs ys = genesis_value ∷ map link_value (xs ++ ys)

Covers : (Value → Type 0) → List EvidenceLink → Type 0
Covers C [] = Unit {0}
Covers C (l ∷ ls) = C (link_value l) × Covers C ls

Covers-left :
    (C : Value → Type 0) (xs ys : List EvidenceLink)
    → ((v : Value) → In v (map link_value (xs ++ ys)) → C v)
    → Covers C xs
unfolding Covers
Covers-left C [] ys every = tt
Covers-left C (x ∷ xs) ys every =
    (every (link_value x) (inl refl), Covers-left C xs ys (λ v i. every v (inr i)))

Covers-right :
    (C : Value → Type 0) (xs ys : List EvidenceLink)
    → ((v : Value) → In v (map link_value (xs ++ ys)) → C v)
    → Covers C ys
unfolding Covers
Covers-right C [] [] every = tt
Covers-right C [] (y ∷ ys) every =
    (every (link_value y) (inl refl), Covers-right C [] ys (λ v i. every v (inr i)))
Covers-right C (x ∷ xs) ys every = Covers-right C xs ys (λ v i. every v (inr i))

module _ (hash_value : Value → String) (C : Value → Type 0)
    (injective : (a b : Value) → C a → C b → hash_value a ≡ hash_value b → a ≡ b)
    (genesis : C genesis_value) where
  head_hash : List EvidenceLink → String
  head_hash [] = genesis_prev_link_hash hash_value
  head_hash (l ∷ ls) = l.proof.link_hash

  -- A chain with its newest link first.
  abbrev Linked : List EvidenceLink → Type 0
  Linked [] = Unit {0}
  Linked (l ∷ ls) =
      (l.proof.link_hash ≡ hash_value (link_value l))
      × (l.proof.prev_link_hash ≡ head_hash ls)
      × C (link_value l)
      × Linked ls

  verified-hash :
      (l : EvidenceLink)
      → verify_integrity hash_value l ≡ true
      → l.proof.link_hash ≡ hash_value (link_value l)
  unfolding verify_integrity
  verified-hash l verified =
      second_eq l.proof.link_hash (hash_value (link_value l))
        (l.proof.justification_hash
          == hash_value (justification_value l.intent.raw_justification l.evaluation))
        verified

  linked :
      (acc ls : List EvidenceLink)
      → Linked acc
      → Covers C ls
      → integrity_from hash_value (head_hash acc) ls ≡ ok tt
      → Linked (reverse_aux ls acc)
  unfolding head_hash Covers
  linked acc [] before covers sound = before
  linked acc (l ∷ ls) before covers sound =
      let (verified, follows, rest) = integrity-inv hash_value (head_hash acc) l ls sound in
      linked (l ∷ acc) ls
        (
          verified-hash l verified,
          (string_eq.beq_iff l.proof.prev_link_hash (head_hash acc)).0 follows,
          covers.0,
          before,
        )
        covers.1 rest

  head-reverse :
      (acc ls : List EvidenceLink)
      → head_hash (reverse_aux ls acc) ≡ hash_of (last ls) (head_hash acc)
  unfolding head_hash
  head-reverse acc [] = refl
  head-reverse acc (l ∷ []) = refl
  head-reverse acc (l ∷ m ∷ ls) =
      head-reverse (l ∷ acc) (m ∷ ls) ∙ hash_of-last m ls l.proof.link_hash (head_hash acc)

  genesis-ne-link :
      (l : EvidenceLink)
      → C (link_value l)
      → ¬ (genesis_prev_link_hash hash_value ≡ hash_value (link_value l))
  unfolding link_value body_value
  genesis-ne-link l covered same =
      str-ne-obj (injective genesis_value (link_value l) genesis covered same)

  same_bodies :
      (xs ys : List EvidenceLink)
      → Linked xs
      → Linked ys
      → head_hash xs ≡ head_hash ys
      → map link_value xs ≡ map link_value ys
  unfolding head_hash first_text prev_in
  same_bodies [] [] lx ly same = refl
  same_bodies [] (y ∷ ys) lx ly same = absurd (genesis-ne-link y ly.2 (same ∙ ly.0))
  same_bodies (x ∷ xs) [] lx ly same = absurd (genesis-ne-link x lx.2 (sym same ∙ lx.0))
  same_bodies (x ∷ xs) (y ∷ ys) lx ly same =
      let body = injective (link_value x) (link_value y) lx.2 ly.2 (sym lx.0 ∙ same ∙ ly.0) in
      let before =
        sym (prev_in_lem x) ∙ ap (λ (v : Value). first_text (fifth v)) body ∙ prev_in_lem y in
      ap (λ (b : Value). b ∷ map link_value xs) body
      ∙ ap (λ (bs : List Value). link_value y ∷ bs)
          (same_bodies xs ys lx.3 ly.3 (sym lx.1 ∙ before ∙ ly.1))

  bound :
      (xs ys : List EvidenceLink)
      → Covers C xs
      → Covers C ys
      → assert_integrity hash_value xs ≡ ok tt
      → assert_integrity hash_value ys ≡ ok tt
      → last_hash hash_value xs ≡ last_hash hash_value ys
      → map link_value xs ≡ map link_value ys
  unfolding head_hash
  bound xs ys cx cy sound sound' same = map-eq-reversed link_value xs ys (
      same_bodies (reverse_aux xs []) (reverse_aux ys []) (linked [] xs tt cx sound)
        (linked [] ys tt cy sound') (head-reverse [] xs ∙ same ∙ sym (head-reverse [] ys)))

-- Two intact chains whose last links have one hash have the same links, in all that the hashes are
-- over, if no two different values among those hashed for them have one hash. So no link can be
-- changed, added, dropped or moved under the last hash without a collision.
pub assert_integrity-binds :
    (hash_value : Value → String) (xs ys : List EvidenceLink)
    → ((a b : Value)
        → In a (hashed xs ys)
        → In b (hashed xs ys)
        → hash_value a ≡ hash_value b
        → a ≡ b)
    → assert_integrity hash_value xs ≡ ok tt
    → assert_integrity hash_value ys ≡ ok tt
    → last_hash hash_value xs ≡ last_hash hash_value ys
    → map link_value xs ≡ map link_value ys
assert_integrity-binds hash_value xs ys injective sound sound' same =
    let C = λ (v : Value). In v (hashed xs ys) in
    bound hash_value C injective (inl refl) xs ys (Covers-left C xs ys (λ v i. inr i))
      (Covers-right C xs ys (λ v i. inr i)) sound sound' same
