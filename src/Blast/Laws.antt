-- ===== src/Blast/Laws.antt =====
-- What the blast radius policy lets pass.
use openkedge.Prelude.{◌≤◌, ◌≡◌, ◌↔◌, Bool, true, false, ◌&&◌, [], any, length, arith, or_else}
use openkedge.Contracts.{Intent}
use openkedge.Blast.{
  Context, extract_resource_ids, base_risk_level, bump_risk_level, adjusted, estimate, PolicyConfig,
  exceeds, high_allowed, evaluate, is_termination, is_critical_instance, is_production_instance,
}

-- The instances with a tag that an intent to terminate is about.
abbrev pub touches : Intent → Context → Bool
touches intent context = is_termination intent && any is_critical_instance (or_else context [])

abbrev pub touches_production : Intent → Context → Bool
touches_production intent context =
    is_termination intent && any is_production_instance (or_else context [])

-- An intent is allowed exactly when it terminates no critical instance, has at most the configured
-- number of resources and at most 20, or 5 when it terminates a production instance; and when high
-- risk is disabled, at most 5, or 1 when it terminates a production instance.
pub evaluate-estimate_iff :
    (config : PolicyConfig) (intent : Intent) (context : Context)
    → ((evaluate config (estimate intent context)).allowed ≡ true) ↔ (
        (touches intent context ≡ false)
        × (exceeds config.max_allowed (length (extract_resource_ids intent context)) ≡ false)
        × ((touches_production intent context ≡ true)
            → length (extract_resource_ids intent context) ≤ 5)
        × (length (extract_resource_ids intent context) ≤ 20)
        × ((high_allowed config ≡ false)
            → (length (extract_resource_ids intent context) ≤ 5)
              × ((touches_production intent context ≡ true)
                  → length (extract_resource_ids intent context) ≤ 1)))
unfolding evaluate estimate adjusted base_risk_level bump_risk_level
evaluate-estimate_iff config intent context = ground arith
