-- ===== src/ExecutionContracts/Laws.antt =====
-- A contract that is minted holds through its window.
use Prim.Native.String.{String}
use openkedge.Prelude.{
  ℕ, ◌≤◌, ◌<◌, ◌≡◌, true, not, ◌||◌, Option, List, Result, ok, err, ◌>>=◌, any, arith, ◌==◌,
  string_eq, if◌then◌else◌,
}
use openkedge.Contracts.{CapabilityToken, TemporalBounds, ExecutionContract, Intent}
use openkedge.Trace.{Hashing}
use openkedge.Signing.{Hmac}
use openkedge.ExecutionContracts.{
  token_ids, all_distinct, sound_bounds, contract_of, mint_execution_contract,
  assert_contract_bounds,
}

module _ (hash : Hashing) (h : Hmac) (contract_id : String) (intent : Intent)
    (capabilities : List CapabilityToken) (preconditions : List String) (bounds : TemporalBounds)
    (secret_key : String) (issued : ℕ) (policy_version : Option String) where
  abbrev minting : Result String ExecutionContract
  minting =
      mint_execution_contract hash h contract_id intent capabilities preconditions bounds secret_key
        issued policy_version

  minted :
      (s : Result String String) (c : ExecutionContract)
      → (s >>= λ signature. ok (
          contract_of hash contract_id intent capabilities preconditions bounds issued
            policy_version signature))
        ≡ ok c
      → (signature : String) × (contract_of hash contract_id intent capabilities preconditions
            bounds issued policy_version signature
          ≡ c)
  minted (ok s) c m = (s, ground arith)
  minted (err e) c m = absurd (ground arith)

  mint-contract_of :
      (c : ExecutionContract)
      → minting ≡ ok c
      → (sound_bounds bounds issued ≡ true)
        × (signature : String) × (contract_of hash contract_id intent capabilities preconditions
              bounds issued policy_version signature
            ≡ c)
  unfolding mint_execution_contract
  mint-contract_of c m =
      let (sound, rest) = checked _ m in
      let (signature, is) = minted _ c rest in (sound, signature, is)
    where
      checked :
          (s : Result String ExecutionContract)
          → (if not (sound_bounds bounds issued)
                || any (λ (t : CapabilityToken). t.token_id == "") capabilities
                || not (all_distinct (token_ids capabilities))
              then err "Invalid execution contract bounds or capabilities"
              else s)
            ≡ ok c
          → (sound_bounds bounds issued ≡ true) × (s ≡ ok c)
      checked s g = ground arith

  -- A contract that is minted passes the check of its bounds, for the intent that it is minted for,
  -- at every time of its window.
  pub assert_contract_bounds-mint :
      (c : ExecutionContract) (now : ℕ)
      → minting ≡ ok c
      → bounds.not_before ≤ now
      → now < bounds.not_after
      → assert_contract_bounds hash c intent now ≡ ok tt
  unfolding assert_contract_bounds
  assert_contract_bounds-mint c now m from before =
      let (sound, signature, is) = mint-contract_of c m in
      rw (← is) (
        ground (
          arith,
          string_eq.beq_iff intent.id intent.id,
          string_eq.beq_iff intent.metadata.actor intent.metadata.actor,
          string_eq.beq_iff intent.type intent.type,
          string_eq.beq_iff (hash.hash_intent intent) (hash.hash_intent intent),
        ))
