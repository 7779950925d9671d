-- ===== src/Evidence/Laws.antt =====
-- Appending to an evidence chain: what comes of it on every chain that the constructor allows.
use Prim.Native.String.{String}
use openkedge.Prelude.{
  ◌≡◌, refl, ◌∙◌, sym, ap, subst, inl, inr, Bool, true, false, not, ◌&&◌, Bool-cases, Option, none,
  some, List, [], ◌∷◌, ◌++◌, last, Result, ok, err, ◌==◌, string_eq, or_else, arith, if◌then◌else◌,
}
use openkedge.Json.{Value}
use openkedge.Evidence.{
  EvidenceLink, EvidenceLinkInput, genesis_prev_link_hash, create, sealed, with_prev_link_hash,
  again, as_input, verify_integrity, link_value,
}
use openkedge.Evidence.Chain.{
  EvidenceChain, Appended, same_trace, assert_trace_consistency, other_trace, hash_of,
  integrity_from, assert_integrity, construct, link_from, last_hash, append,
}

same_trace-concat :
    (id : String) (ls : List EvidenceLink) (l : EvidenceLink)
    → same_trace id ls ≡ ok tt
    → same_trace id (ls ++ l ∷ []) ≡ (
        if l.identity.trace_id == id then ok tt else err "EvidenceChain contains multiple traceIds")
unfolding same_trace
same_trace-concat id [] l same = refl
same_trace-concat id (x ∷ ls) l same = ground (arith, same_trace-concat id ls l)

consistency-some :
    (id : String) (ls : List EvidenceLink)
    → assert_trace_consistency (some id) ls ≡ same_trace id ls
unfolding assert_trace_consistency same_trace
consistency-some id [] = refl
consistency-some id (l ∷ ls) = refl

both_self : (a b : String) → (a == a && b == b) ≡ true
both_self a b = ground (arith, string_eq.beq_iff a a, string_eq.beq_iff b b)

pub hash_of-last :
    (y : EvidenceLink) (ls : List EvidenceLink) (p q : String)
    → hash_of (last (y ∷ ls)) p ≡ hash_of (last (y ∷ ls)) q
hash_of-last y [] p q = refl
hash_of-last y (z ∷ ls) p q = hash_of-last z ls p q

-- What the constructor makes sure of.
pub record IsValid (hash_value : Value → String) (c : EvidenceChain) : Type 0 where
  pub intact : assert_integrity hash_value c.links ≡ ok tt
  pub consistent : assert_trace_consistency c.trace_id c.links ≡ ok tt
  pub named : c.trace_id ≡ none → c.links ≡ []

-- Whether a link belongs to the trace of the chain, if that has one.
abbrev pub fits : EvidenceChain → EvidenceLink → Bool
fits c l = elim c.trace_id [ none ↦ true | some id ↦ l.identity.trace_id == id ]

-- The link as the next one of the chain.
abbrev pub next_of : (Value → String) → EvidenceChain → Appended → EvidenceLink
next_of hash_value c new =
    with_prev_link_hash hash_value (link_from hash_value new) (last_hash hash_value c.links)

abbrev pub extended : EvidenceChain → EvidenceLink → EvidenceChain
extended c l = record {
  version = c.version;
  trace_id = some l.identity.trace_id;
  links = c.links ++ l ∷ [];
}

some-ne-none : (t : String) → ¬ (◌≡◌ {A = Option String} (some t) none)
some-ne-none t e = cc

passed :
    {A : Type 0} (blank same : Bool) (e x : A)
    → same ≡ true
    → (if not blank && not same then e else x) ≡ x
passed true same e x is = refl
passed false same e x is = rw is refl

-- The choice that `append` makes by the trace.
chosen :
    {A : Type 0} (trace : Option String) (t : String) (e : A) (k : String → A)
    → elim trace [ none ↦ true | some id ↦ t == id ] ≡ true
    → (if other_trace trace t then e else k (or_else trace t)) ≡ k t
chosen none t e k fit = refl
chosen (some id) t e k fit =
    passed (id == "") (t == id) e (k id) fit ∙ ap k (sym ((string_eq.beq_iff t id).0 fit))

module _ (hash_value : Value → String) where
  pub create-verifies :
      (i : EvidenceLinkInput) → verify_integrity hash_value (create hash_value i) ≡ true
  unfolding verify_integrity create sealed link_value
  create-verifies i =
      both_self (create hash_value i).proof.justification_hash (create hash_value i).proof.link_hash

  integrity-cons :
      (previous : String) (l : EvidenceLink) (ls : List EvidenceLink)
      → verify_integrity hash_value l ≡ true
      → (l.proof.prev_link_hash == previous) ≡ true
      → integrity_from hash_value previous (l ∷ ls) ≡ integrity_from hash_value l.proof.link_hash ls
  unfolding integrity_from
  integrity-cons previous l ls verified follows = rw (verified, follows) refl

  pub integrity-inv :
      (previous : String) (l : EvidenceLink) (ls : List EvidenceLink)
      → integrity_from hash_value previous (l ∷ ls) ≡ ok tt
      → (verify_integrity hash_value l ≡ true)
        × ((l.proof.prev_link_hash == previous) ≡ true)
        × (integrity_from hash_value l.proof.link_hash ls ≡ ok tt)
  unfolding integrity_from
  integrity-inv previous l ls sound =
      split (verify_integrity hash_value l) (l.proof.prev_link_hash == previous)
        (integrity_from hash_value l.proof.link_hash ls) sound
    where
      split :
          (v f : Bool) (rest : Result String (Unit {0}))
          → (if not v
              then err "EvidenceChain contains a tampered link"
              else if not f
              then err "EvidenceChain contains a broken prev_link_hash"
              else rest)
            ≡ ok tt
          → (v ≡ true) × (f ≡ true) × (rest ≡ ok tt)
      split v f rest e = ground arith

  integrity-concat :
      (previous : String) (ls : List EvidenceLink) (l : EvidenceLink)
      → integrity_from hash_value previous ls ≡ ok tt
      → verify_integrity hash_value l ≡ true
      → (l.proof.prev_link_hash == hash_of (last ls) previous) ≡ true
      → integrity_from hash_value previous (ls ++ l ∷ []) ≡ ok tt
  unfolding integrity_from
  integrity-concat previous [] l sound verified follows =
      integrity-cons previous l [] verified follows
  integrity-concat previous (x ∷ []) l sound verified follows =
      let (v, f, _) = integrity-inv previous x [] sound in
      integrity-cons previous x (l ∷ []) v f
      ∙ integrity-cons x.proof.link_hash l [] verified follows
  integrity-concat previous (x ∷ y ∷ ls) l sound verified follows =
      let (v, f, rest) = integrity-inv previous x (y ∷ ls) sound in
      integrity-cons previous x ((y ∷ ls) ++ l ∷ []) v f
      ∙ integrity-concat x.proof.link_hash (y ∷ ls) l rest verified
          (rw (hash_of-last y ls x.proof.link_hash previous) follows)

  -- The constructor on a list of links, for a trace that is given.
  construct-ok :
      (links : List EvidenceLink) (version id : String)
      → assert_trace_consistency (some id) links ≡ ok tt
      → assert_integrity hash_value links ≡ ok tt
      → construct hash_value links (some version) (some id)
        ≡ ok (record { version = version; trace_id = some id; links = links })
  unfolding construct
  construct-ok links version id consistent intact = rw (consistent, intact) refl

  construct-err :
      (links : List EvidenceLink) (version id e : String)
      → assert_trace_consistency (some id) links ≡ err e
      → construct hash_value links (some version) (some id) ≡ err e
  unfolding construct
  construct-err links version id e other = rw other refl

  old_trace :
      (c : EvidenceChain) (id : String)
      → c.trace_id ≡ some id
      → IsValid hash_value c
      → same_trace id c.links ≡ ok tt
  old_trace c id is valid =
      sym (consistency-some id c.links)
      ∙ subst (λ t. assert_trace_consistency t c.links ≡ ok tt) is valid.consistent

  consistent-extended :
      (c : EvidenceChain) (l : EvidenceLink) (trace : Option String)
      → c.trace_id ≡ trace
      → IsValid hash_value c
      → elim trace [ none ↦ true | some id ↦ l.identity.trace_id == id ] ≡ true
      → assert_trace_consistency (some l.identity.trace_id) (c.links ++ l ∷ []) ≡ ok tt
  unfolding same_trace
  consistent-extended c l none is valid fit =
      rw (valid.named is, consistency-some l.identity.trace_id (l ∷ []))
        (ground (arith, string_eq.beq_iff l.identity.trace_id l.identity.trace_id))
  consistent-extended c l (some id) is valid fit =
      subst (λ t. assert_trace_consistency (some t) (c.links ++ l ∷ []) ≡ ok tt)
        (sym ((string_eq.beq_iff l.identity.trace_id id).0 fit))
        (consistency-some id (c.links ++ l ∷ [])
          ∙ same_trace-concat id c.links l (old_trace c id is valid)
          ∙ rw fit refl)

  -- A link that verifies, fits and follows the last one extends a valid chain.
  extended-IsValid :
      (c : EvidenceChain) (l : EvidenceLink)
      → IsValid hash_value c
      → fits c l ≡ true
      → verify_integrity hash_value l ≡ true
      → (l.proof.prev_link_hash == last_hash hash_value c.links) ≡ true
      → IsValid hash_value (extended c l)
  extended-IsValid c l valid fit verified follows = record {
    intact =
        integrity-concat (genesis_prev_link_hash hash_value) c.links l valid.intact verified
          follows;
    consistent = consistent-extended c l c.trace_id refl valid fit;
    named = λ e. absurd (some-ne-none l.identity.trace_id e);
  }

  next_of-verifies :
      (c : EvidenceChain) (new : Appended)
      → verify_integrity hash_value (next_of hash_value c new) ≡ true
  unfolding with_prev_link_hash
  next_of-verifies c new =
      let l = link_from hash_value new in
      create-verifies (
        again hash_value l l.intent.raw_justification (as_input hash_value l.evaluation)
          (last_hash hash_value c.links) l.proof.signature)

  next_of-follows :
      (c : EvidenceChain) (new : Appended)
      → ((next_of hash_value c new).proof.prev_link_hash == last_hash hash_value c.links) ≡ true
  unfolding with_prev_link_hash create sealed
  next_of-follows c new =
      (string_eq.beq_iff (last_hash hash_value c.links) (last_hash hash_value c.links)).1 refl

  fits-append :
      (c : EvidenceChain) (new : Appended)
      → fits c (next_of hash_value c new) ≡ true
      → append hash_value c new
        ≡ construct hash_value
            (c.links ++ next_of hash_value c new ∷ [])
            (some c.version)
            (some (next_of hash_value c new).identity.trace_id)
  unfolding append
  fits-append c new fit =
      let l = next_of hash_value c new in
      chosen c.trace_id l.identity.trace_id (err "EvidenceChain only supports a single traceId")
        (λ id. construct hash_value (c.links ++ l ∷ []) (some c.version) (some id)) fit

  refused :
      (c : EvidenceChain) (new : Appended) (trace : Option String)
      → c.trace_id ≡ trace
      → IsValid hash_value c
      → elim trace [ none ↦ true | some id ↦ (next_of hash_value c new).identity.trace_id == id ]
        ≡ false
      → (e : String) × (append hash_value c new ≡ err e)
  unfolding append
  refused c new none is valid other = absurd (cc)
  refused c new (some id) is valid other = elim (Bool-cases (id == "")) [
    | inl blank ↦
        let l = next_of hash_value c new in
        (
          "EvidenceChain contains multiple traceIds",
          rw (is, blank)
              (construct-err (c.links ++ l ∷ []) c.version id _ (
                consistency-some id (c.links ++ l ∷ [])
                ∙ same_trace-concat id c.links l (old_trace c id is valid)
                ∙ rw other refl)),
        )
    | inr named ↦ ("EvidenceChain only supports a single traceId", rw (is, named, other) refl)
  ]

  -- On a valid chain: a link of its trace is appended under the hash of the last link, with the chain
  -- that results valid again, and a link of another trace is refused.
  pub append-result :
      (c : EvidenceChain) (new : Appended)
      → IsValid hash_value c
      → (fits c (next_of hash_value c new) ≡ true
          → (append hash_value c new ≡ ok (extended c (next_of hash_value c new)))
            × IsValid hash_value (extended c (next_of hash_value c new)))
        × (fits c (next_of hash_value c new) ≡ false
            → (e : String) × (append hash_value c new ≡ err e))
  append-result c new valid = (
    λ fit.
        let l = next_of hash_value c new in
        let longer =
          extended-IsValid c l valid fit (next_of-verifies c new) (next_of-follows c new) in
        (
          fits-append c new fit
              ∙ construct-ok (c.links ++ l ∷ []) c.version l.identity.trace_id longer.consistent
                  longer.intact,
          longer,
        ),
    λ other. refused c new c.trace_id refl valid other,
  )
