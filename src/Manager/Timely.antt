-- ===== src/Manager/Timely.antt =====
-- What holds of `withIdentity` when its function runs against a timer: the identity is revoked once, and
-- after the function unless the timer has fired.
use openkedge.Prelude.{◌≡◌, ◌⊎◌, Bool, false, List, [], ◌++◌, Result, err, if◌then◌else◌}
use openkedge.Governance.{Thrown, plain}
use openkedge.Manager.Race.{Phase, racing, closing, revoking, auditing, returned, Race}
use openkedge.Manager.Entries.{effects, revocations, late_effects, due_in, is_racing}

-- What the race decides.
abbrev decided : {A : Type 0} → Bool → Result Thrown A → Result Thrown A
decided fired o = if fired then err (plain "CONTRACT_EXECUTION_TIMEOUT_ERROR") else o

-- The decision, or what the `finally` block has thrown instead.
abbrev Tells : {A : Type 0} → Bool → Result Thrown A → Phase A → Type 0
Tells fired o racing = fired ≡ false
Tells fired o (closing x) = x ≡ decided fired o
Tells fired o (revoking x) = x ≡ decided fired o
Tells fired o (auditing x) = x ≡ decided fired o
Tells fired o (returned x) = (x ≡ decided fired o) ⊎ ((e : Thrown) × (x ≡ err e))

module _ {E A : Type 0} (fs : List E) (o : Result Thrown A) where
  record Inv (r : Race E A) : Type 0 where
    same : r.outcome ≡ o
    all_there : effects r.seen ++ r.todo ≡ fs
    once : revocations r.seen ≡ due_in r.phase
    settled : r.fired ≡ false → is_racing r.phase ≡ false → r.todo ≡ []
    in_time : r.fired ≡ false → late_effects r.seen ≡ []
    tells : Tells r.fired o r.phase
