-- ===== src/Tests/Chains.antt =====
-- Evidence chains with one link.
use Prim.Native.String.{String}
use openkedge.Prelude.{
  ◌≡◌, refl, ◌∙◌, sym, ap, ◌⊎◌, inl, inr, true, false, none, List, [], ◌∷◌, map, ok, err,
}
use openkedge.Json.{Value, str}
use openkedge.Evidence.{EvidenceLink, EvidenceLinkInput, create, link_value, body_value}
use openkedge.Evidence.Chain.{
  EvidenceChain, input, append, assert_integrity, integrity_from, assert_trace_consistency,
}
use openkedge.Evidence.Laws.{IsValid, fits, next_of, extended, append-result}
use openkedge.Evidence.Binding.{In, hashed, assert_integrity-binds}

-- A hash that tells a text from anything else.
abbrev shape_hash : Value → String
shape_hash (str s) = "text"
shape_hash _ = "other"

abbrev seen : EvidenceLinkInput
seen = record {
  identity = record { agent_id = "a"; trace_id = "t" };
  foreign_model = "m";
  abstracted_payload = "p";
  raw_justification = none;
  evaluation = none;
  execution = record { real_resource = "r"; actual_command = "c"; timestamp = "now" };
  prev_link_hash = none;
  signature = none;
}

abbrev one : List EvidenceLink
one = create shape_hash seen ∷ []

one-intact : assert_integrity shape_hash one ≡ ok tt
unfolding integrity_from create
one-intact = refl

abbrev body : Value
body = link_value (create shape_hash seen)

abbrev genesis : Value
genesis = str "openkedge:evidence-chain:genesis"

one_of_two : (v : Value) → In v (hashed one one) → (v ≡ genesis) ⊎ (v ≡ body)
one_of_two v (inl e) = inl e
one_of_two v (inr (inl e)) = inr e
one_of_two v (inr (inr (inl e))) = inr e
one_of_two v (inr (inr (inr x))) = elim x [ ]

other_than_text : ◌≡◌ {A = String} "text" "other" → ⊥
other_than_text e = cc

genesis-ne-body : ¬ (shape_hash genesis ≡ shape_hash body)
unfolding link_value body_value
genesis-ne-body e = other_than_text e

told_apart :
    (a b : Value)
    → (a ≡ genesis) ⊎ (a ≡ body)
    → (b ≡ genesis) ⊎ (b ≡ body)
    → shape_hash a ≡ shape_hash b
    → a ≡ b
told_apart a b (inl p) (inl q) e = p ∙ sym q
told_apart a b (inr p) (inr q) e = p ∙ sym q
told_apart a b (inl p) (inr q) e =
    absurd (genesis-ne-body (ap shape_hash (sym p) ∙ e ∙ ap shape_hash q))
told_apart a b (inr p) (inl q) e =
    absurd (genesis-ne-body (ap shape_hash (sym q) ∙ sym e ∙ ap shape_hash p))

assert_integrity-binds_example : map link_value one ≡ map link_value one
assert_integrity-binds_example =
    assert_integrity-binds shape_hash one one
      (λ a b i j. told_apart a b (one_of_two a i) (one_of_two b j)) one-intact one-intact refl

abbrev empty : EvidenceChain
empty = record { version = "rfc-0005"; trace_id = none; links = [] }

empty-IsValid : IsValid shape_hash empty
unfolding integrity_from assert_trace_consistency
empty-IsValid = record { intact = refl; consistent = refl; named = λ e. refl }

append-result_example :
    (fits empty (next_of shape_hash empty (input seen)) ≡ true
      → (append shape_hash empty (input seen)
          ≡ ok (extended empty (next_of shape_hash empty (input seen))))
        × IsValid shape_hash (extended empty (next_of shape_hash empty (input seen))))
    × (fits empty (next_of shape_hash empty (input seen)) ≡ false
        → (e : String) × (append shape_hash empty (input seen) ≡ err e))
append-result_example = append-result shape_hash empty (input seen) empty-IsValid
