-- ===== src/Manager/Race.antt =====
-- The end of `withIdentity` of src/core/identity/IdentityManager.ts, where the function runs against
-- the timer of its contract: the race, and the `finally` block after it. The function is the list of
-- its effects with its outcome; what goes next is the event.
use openkedge.Prelude.{Bool, true, false, List, [], ◌∷◌, ◌++◌, Result, err}
use openkedge.Governance.{Thrown, plain}

-- What others see of it.
pub data Entry (E : Type 0) : Type 0 where
  effect : E → Entry E
  revoked audited : Entry E

-- Where `withIdentity` stands: the race, the `finally` block with its two awaits, and the end.
pub data Phase (A : Type 0) : Type 0 where
  racing : Phase A
  closing revoking auditing returned : Result Thrown A → Phase A

pub record Race (E A : Type 0) : Type 0 where
  pub todo : List E
  pub outcome : Result Thrown A
  pub guarded : Bool
  pub fired : Bool
  pub phase : Phase A
  pub seen : List (Entry E)

-- The function has its next effect, its outcome is seen, the timer fires, the `finally` block goes on,
-- or what it awaits throws.
pub data Turn : Type 0 where
  go_on settle fire next : Turn
  refuse : Thrown → Turn

module _ {E A : Type 0} where
  abbrev pub work_on : List E → Race E A → Race E A
  work_on [] r = r
  work_on (x ∷ xs) r = record r { todo = xs; seen = r.seen ++ effect x ∷ [] }

  abbrev pub settled_by : List E → Phase A → Race E A → Race E A
  settled_by [] racing r = record r { phase = closing r.outcome }
  settled_by _ _ r = r

  abbrev pub fired_in : Bool → Phase A → Race E A → Race E A
  fired_in true racing r = record r {
    fired = true;
    phase = closing (err (plain "CONTRACT_EXECUTION_TIMEOUT_ERROR"));
  }
  fired_in _ _ r = r

  abbrev pub closed_from : Phase A → Race E A → Race E A
  closed_from racing r = r
  closed_from (closing o) r = record r { phase = revoking o; seen = r.seen ++ revoked ∷ [] }
  closed_from (revoking o) r = record r { phase = auditing o; seen = r.seen ++ audited ∷ [] }
  closed_from (auditing o) r = record r { phase = returned o }
  closed_from (returned o) r = r

  abbrev pub refused_in : Thrown → Phase A → Race E A → Race E A
  refused_in e (revoking o) r = record r { phase = returned (err e) }
  refused_in e (auditing o) r = record r { phase = returned (err e) }
  refused_in e _ r = r

  unfoldable pub take_turn : Race E A → Turn → Race E A
  take_turn r go_on = work_on r.todo r
  take_turn r settle = settled_by r.todo r.phase r
  take_turn r fire = fired_in r.guarded r.phase r
  take_turn r next = closed_from r.phase r
  take_turn r (refuse e) = refused_in e r.phase r

  unfoldable pub turns : Race E A → List Turn → Race E A
  unfolding take_turn
  turns r [] = r
  turns r (t ∷ ts) = turns (take_turn r t) ts

  abbrev pub begin_race : List E → Result Thrown A → Bool → Race E A
  begin_race todo outcome guarded = record {
    todo = todo;
    outcome = outcome;
    guarded = guarded;
    fired = false;
    phase = racing;
    seen = [];
  }
