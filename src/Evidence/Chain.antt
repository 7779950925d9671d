-- ===== src/Evidence/Chain.antt =====
-- src/core/evidence/EvidenceChain.ts: links of one trace, each with the hash of the one before.
use Prim.Native.String.{String}
use openkedge.Prelude.{
  Bool, true, false, not, ◌&&◌, Option, none, some, List, [], ◌∷◌, ◌++◌, last, head, Result, ok,
  err, ◌>>◌, ◌==◌, string_eq, or_else, or_option, if◌then◌else◌,
}
use openkedge.Json.{Value}
use openkedge.Evidence.{
  EvidenceLink, EvidenceLinkInput, genesis_prev_link_hash, create, with_prev_link_hash,
  verify_integrity,
}

pub record EvidenceChain : Type 0 where
  pub version : String
  pub trace_id : Option String
  pub links : List EvidenceLink

pub data Appended : Type 0 where
  link : EvidenceLink → Appended
  input : EvidenceLinkInput → Appended

abbrev trace_of : Option EvidenceLink → Option String
trace_of none = none
trace_of (some l) = some l.identity.trace_id

-- `assertTraceConsistency`: the loop over the links.
unfoldable pub same_trace : String → List EvidenceLink → Result String (Unit {0})
same_trace expected [] = ok tt
same_trace expected (l ∷ ls) =
    if l.identity.trace_id == expected
    then same_trace expected ls
    else err "EvidenceChain contains multiple traceIds"

unfoldable pub assert_trace_consistency :
    Option String → List EvidenceLink → Result String (Unit {0})
unfolding same_trace
assert_trace_consistency trace_id [] = ok tt
assert_trace_consistency trace_id (l ∷ ls) =
    same_trace (or_else trace_id l.identity.trace_id) (l ∷ ls)

-- `this.traceId && finalized.identity.traceId !== this.traceId`
abbrev pub other_trace : Option String → String → Bool
other_trace none new = false
other_trace (some id) new = not (id == "") && not (new == id)

abbrev pub hash_of : Option EvidenceLink → String → String
hash_of none genesis = genesis
hash_of (some l) genesis = l.proof.link_hash

module _ (hash_value : Value → String) where
  -- `assertIntegrity`: the loop over the links, with the hash of the one before.
  unfoldable pub integrity_from : String → List EvidenceLink → Result String (Unit {0})
  unfolding verify_integrity
  integrity_from previous [] = ok tt
  integrity_from previous (l ∷ ls) =
      let rest = integrity_from l.proof.link_hash ls in
      if not (verify_integrity hash_value l)
      then err "EvidenceChain contains a tampered link"
      else if not (l.proof.prev_link_hash == previous)
      then err "EvidenceChain contains a broken prev_link_hash"
      else rest

  abbrev pub assert_integrity : List EvidenceLink → Result String (Unit {0})
  assert_integrity links = integrity_from (genesis_prev_link_hash hash_value) links

  -- The constructor.
  unfoldable pub construct :
      List EvidenceLink → Option String → Option String → Result String EvidenceChain
  unfolding assert_trace_consistency integrity_from
  construct links version trace_id =
      let trace = or_option trace_id (trace_of (head links)) in
      assert_trace_consistency trace links
      >> assert_integrity links
      >> ok (record { version = or_else version "rfc-0005"; trace_id = trace; links = links })

  abbrev pub link_from : Appended → EvidenceLink
  link_from (link l) = l
  link_from (input i) = create hash_value i

  -- `this.links[this.links.length - 1]?.proof.link_hash ?? GENESIS_PREV_LINK_HASH`
  abbrev pub last_hash : List EvidenceLink → String
  last_hash links = hash_of (last links) (genesis_prev_link_hash hash_value)

  unfoldable pub append : EvidenceChain → Appended → Result String EvidenceChain
  unfolding create with_prev_link_hash construct
  append c new =
      let finalized = with_prev_link_hash hash_value (link_from new) (last_hash c.links) in
      if other_trace c.trace_id finalized.identity.trace_id
      then err "EvidenceChain only supports a single traceId"
      else construct (c.links ++ finalized ∷ []) (some c.version)
          (some (or_else c.trace_id finalized.identity.trace_id))

  -- `verify_integrity` of a chain
  unfoldable pub is_intact : EvidenceChain → Bool
  unfolding integrity_from
  is_intact c = elim (assert_integrity c.links) [ ok _ ↦ true | err _ ↦ false ]
