-- ===== src/Controller/Changes.antt =====
-- Every event of src/control-plane/controller.ts makes changes that the ledger allows.
use Prim.Native.String.{String}
use openkedge.Prelude.Int.{ℤ}
use openkedge.Prelude.{
  if◌then◌else◌, ℕ, ◌+◌, ◌&&◌, option_eq, ◌⊎◌, ◌≡◌, refl, sym, subst, inl, inr, Bool, true, false,
  Option, none, some, List, [], ◌∷◌, arith, Result, ok, err, ltb, string_eq,
}
use openkedge.Json.{Value}
use openkedge.Gateway.{GatewayPolicy}
use openkedge.Controller.{
  PolicyBundle, PermitRequest, Permit, Outcome, Controller, Env, sign_bundle, is_null, is_text,
  property, validate_permit_request, text_of, safe_integer,
}
use openkedge.Controller.Handlers.{
  Reply, Request, Call, ack, permit, outcome, update, answer, await_body, replied, updating, prune,
  count_active, find_permit, find_outcome, receive, handle_ack, matches_bundle, acknowledge,
  conflicts, of_request, outcome_from, reported, of_permit, of_outcome, handle_outcome, policy_from,
  start_update, try_update, has_key, begin_update, Reception, Handled, conclude_update,
}
use openkedge.Controller.System.{
  answered, delivered, tried, System, Event, arrive, deliver, turn, restart, pick, handle, received,
  handled, turned, step,
}
use openkedge.Controller.Ledger.{
  Input, asked, restarted, says, due, Reports, Change, kept, pruned, acknowledged, granted, settled,
  announced, given_up, replaced, resumed, both,
}
use openkedge.Controller.Checks.{matches_bundle-Acknowledges, conflicts-Lets, outcome_from-Reports}

-- A result whose state comes from a change.
record After (env : Env) (i : Input) {A : Type 0} (c : Controller) (m : A × Controller)
    : Type 0 where
  change : Change env i c m.1

after :
    {env : Env} {i : Input} {A : Type 0} {c d : Controller} {a : A}
    → Change env i c d
    → After env i c (a, d)
after h = record { change = h }

stay :
    {env : Env} {i : Input} {A : Type 0} {P : Type 0} {c : Controller} {a : A}
    → P
    → After env i c (a, c)
stay _ = after (kept _)

if-After :
    {env : Env} {i : Input} {A : Type 0} {c : Controller} (b : Bool) (x y : A × Controller)
    → (b ≡ true → After env i c x)
    → (b ≡ false → After env i c y)
    → After env i c (if b then x else y)
if-After true x y left right = left refl
if-After false x y left right = right refl

receive-state :
    (env : Env) (now : ℕ) (r : Request) (c : Controller)
    → ((receive env now r c).1 ≡ c) ⊎ ((receive env now r c).1 ≡ prune now c)
unfolding receive
receive-state env now r c = ground arith

receive-Change :
    (env : Env) (now : ℕ) (r : Request) (c : Controller)
    → Change env asked c (receive env now r c).1
receive-Change env now r c = elim (receive-state env now r c) [
  | inl e ↦ subst (Change env asked c) (sym e) (kept c)
  | inr e ↦ subst (Change env asked c) (sym e) (pruned c now)
]

acknowledge-After :
    (env : Env) (g : String) (body : Value) (c : Controller) (at : Option ℤ)
    → matches_bundle env body c.bundle ≡ true
    → safe_integer (property "activatedAt" body) ≡ at
    → After env (says body) c (acknowledge g at c)
acknowledge-After env g body c none matches time = stay time
acknowledge-After env g body c (some at) matches time =
    after (acknowledged c body g at (matches_bundle-Acknowledges env body c.bundle at matches time))

handle_ack-After :
    (env : Env) (g : String) (body : Value) (c : Controller)
    → After env (says body) c (handle_ack env g body c)
unfolding handle_ack
handle_ack-After env g body c = if-After (is_null body) _ _ stay λ _.
    if-After (matches_bundle env body c.bundle) _ _
      (λ matches. acknowledge-After env g body c _ matches refl) stay

has_key-none : (o : Option Permit) → has_key o ≡ false → o ≡ none
has_key-none none e = refl
has_key-none (some p) e = absurd (cc)

of_request-After :
    (env : Env) (now later : ℕ) (id g : String) (body : Value) (c : Controller)
    (r : Result String PermitRequest)
    → validate_permit_request body ≡ r
    → After env (says body) c (of_request env now later id g c r)
of_request-After env now later id g body c (err e) valid = stay e
of_request-After env now later id g body c (ok r) valid =
    if-After (conflicts env r c.bundle now) _ _ stay λ lets.
      if-After (has_key (find_permit id c.permits)) _ _ stay λ fresh. after (
        granted c body r now later id g valid (conflicts-Lets env r c.bundle now lets)
          (has_key-none (find_permit id c.permits) fresh))

find_permit-id :
    (id : String) (ps : List Permit) (p : Permit) → find_permit id ps ≡ some p → p.permit_id ≡ id
unfolding find_permit
find_permit-id id [] p e = absurd (cc)
find_permit-id id (q ∷ ps) p e =
    ground (arith, find_permit-id id ps p, string_eq.beq_iff q.permit_id id)

reported-After :
    (env : Env) (body : Value) (p : Permit) (o : Outcome) (c : Controller) (prior : Option Outcome)
    → find_permit o.permit_id c.permits ≡ some p
    → find_outcome o.permit_id c.outcomes ≡ prior
    → Reports body p o
    → After env (says body) c (reported body o prior c)
reported-After env body p o c none known first reports =
    after (settled c body p o known first reports)
reported-After env body p o c (some prior) known first reports =
    if-After
      (is_text (property "status" body) prior.status
        && option_eq.beq prior.evidence_hash o.evidence_hash)
      _ _ stay stay

-- The permit that is found, and the outcome for it, belong together.
of_outcome-After :
    (env : Env) (body : Value) (c : Controller) (p : Permit) (o : Option Outcome)
    → find_permit p.permit_id c.permits ≡ some p
    → ((x : Outcome) → o ≡ some x → Reports body p x)
    → After env (says body) c (of_outcome body c p o)
of_outcome-After env body c p none found reports = stay found
of_outcome-After env body c p (some o) found reports =
    let report = reports o refl in
    reported-After env body p o c (find_outcome p.permit_id c.outcomes)
      (subst (λ i. find_permit i c.permits ≡ some p) (sym report.permit) found)
      (rw report.permit refl) report

of_permit-After :
    (env : Env) (g : String) (body : Value) (c : Controller) (id : String) (p : Option Permit)
    → find_permit id c.permits ≡ p
    → After env (says body) c (of_permit env g body c p)
of_permit-After env g body c id none found = stay found
of_permit-After env g body c id (some p) found =
    of_outcome-After env body c p (outcome_from env g body p)
      (subst (λ i. find_permit i c.permits ≡ some p) (sym (find_permit-id id c.permits p found))
        found)
      (outcome_from-Reports env g body p)

handle_outcome-After :
    (env : Env) (g : String) (body : Value) (c : Controller)
    → After env (says body) c (handle_outcome env g body c)
unfolding handle_outcome
handle_outcome-After env g body c =
    if-After (is_null body) _ _ stay
      λ _. of_permit-After env g body c (text_of env (property "permitId" body)) _ refl

-- A bundle that is signed has the policy and the epoch that it is signed for.
sign_bundle-result :
    (env : Env) (policy : GatewayPolicy) (epoch : ℕ) (id : String) (now lease : ℕ)
    (b : PolicyBundle)
    → sign_bundle env policy epoch id now lease ≡ ok b
    → (b.epoch ≡ epoch) × (b.policy ≡ policy)
unfolding sign_bundle
sign_bundle-result env policy epoch id now lease b e = ground arith

conclude_update-After :
    (env : Env) (policy : GatewayPolicy) (c : Controller) (next : Result String PolicyBundle)
    → count_active c.permits ≡ 0
    → ((b : PolicyBundle) → next ≡ ok b → (b.epoch ≡ c.bundle.epoch + 1) × (b.policy ≡ policy))
    → After env (due policy) c (conclude_update c next)
conclude_update-After env policy c (err e) quiet following = after (given_up c policy)
conclude_update-After env policy c (ok b) quiet following =
    let (epoch, same) = following b refl in
    subst (λ p. After env (due p) c (conclude_update c (ok b))) same
      (after (replaced c b quiet epoch))

both-After :
    {env : Env} {i : Input} {A : Type 0} {c d : Controller} {m : A × Controller}
    → Change env i c d
    → After env i d m
    → After env i c m
both-After h n = record { change = both h n.change }

none_active : (n : ℕ) → ltb 0 n ≡ false → n ≡ 0
none_active n e = ground arith

try_update-After :
    (env : Env) (now : ℕ) (id : String) (policy : GatewayPolicy) (c : Controller)
    → After env (due policy) c (try_update env now id policy c)
unfolding try_update
try_update-After env now id policy c = both-After (pruned c now) (
    if-After (ltb 0 (count_active (prune now c).permits)) _ _ stay λ quiet.
      conclude_update-After env policy (prune now c)
        (sign_bundle env policy (c.bundle.epoch + 1) id now 60000) (none_active _ quiet)
        (sign_bundle-result env policy (c.bundle.epoch + 1) id now 60000))

start_update-After :
    (env : Env) (body : Value) (c : Controller) → After env (says body) c (start_update env body c)
unfolding start_update
start_update-After env body c =
    if-After (is_null body) _ _ stay λ _. begun (policy_from env body) refl
  where
    begun :
        (p : Option GatewayPolicy)
        → policy_from env body ≡ p
        → After env (says body) c (begin_update p c)
    begun none valid = stay c
    begun (some p) valid = after (announced c body p valid)

answered-After :
    {env : Env} {i : Input} {c : Controller} (m : Reply × Controller)
    → After env i c m
    → After env i c (answered m)
answered-After (r, d) h = after h.change

-- What a request that waited for its body says.
abbrev pub told : Result String Value → Input
told (err e) = asked
told (ok body) = says body

handle-After :
    (env : Env) (now later : ℕ) (id : String) (call : Call) (g : String)
    (body : Result String Value) (c : Controller)
    → After env (told body) c (handle env now later id call g body c)
unfolding handle
handle-After env now later id call g (err e) c = stay e
handle-After env now later id ack g (ok body) c = answered-After _ (handle_ack-After env g body c)
handle-After env now later id permit g (ok body) c =
    answered-After _ (of_request-After env now later id g body c _ refl)
handle-After env now later id outcome g (ok body) c =
    answered-After _ (handle_outcome-After env g body c)
handle-After env now later id update g (ok body) c = start_update-After env body c

received-state :
    (s : System) (g : String) (m : Reception × Controller) → (received s g m).controller ≡ m.1
received-state s g (answer r, c) = refl
received-state s g (await_body call, c) = refl

handled-state :
    (s : System) (rest : List (Call × String)) (m : Handled × Controller)
    → (handled s rest m).controller ≡ m.1
handled-state s rest (replied r, c) = refl
handled-state s rest (updating p, c) = refl

turned-state :
    (s : System) (rest : List GatewayPolicy) (m : Option Reply × Controller)
    → (turned s rest m).controller ≡ m.1
turned-state s rest (none, c) = refl
turned-state s rest (some r, c) = refl

abbrev pub told_at : Result String Value → Option ((Call × String) × List (Call × String)) → Input
told_at body none = asked
told_at body (some request) = told body

abbrev pub due_at : Option (GatewayPolicy × List GatewayPolicy) → Input
due_at none = asked
due_at (some (policy, rest)) = due policy

-- What an event tells the controller.
unfoldable pub input_of : System → Event → Input
unfolding pick
input_of s (arrive now r) = asked
input_of s (deliver i now later id body) = told_at body (pick i s.awaited)
input_of s (turn i now id) = due_at (pick i s.updates)
input_of s restart = restarted

delivered-Change :
    (env : Env) (s : System) (now later : ℕ) (id : String) (body : Result String Value)
    (o : Option ((Call × String) × List (Call × String)))
    → Change env (told_at body o) s.controller (delivered env s now later id body o).controller
delivered-Change env s now later id body none = kept s.controller
delivered-Change env s now later id body (some ((call, g), rest)) =
    subst (Change env (told body) s.controller)
      (sym (handled-state s rest (handle env now later id call g body s.controller)))
      (handle-After env now later id call g body s.controller).change

tried-Change :
    (env : Env) (s : System) (now : ℕ) (id : String)
    (o : Option (GatewayPolicy × List GatewayPolicy))
    → Change env (due_at o) s.controller (tried env s now id o).controller
tried-Change env s now id none = kept s.controller
tried-Change env s now id (some (policy, rest)) =
    subst (Change env (due policy) s.controller)
      (sym (turned-state s rest (try_update env now id policy s.controller)))
      (try_update-After env now id policy s.controller).change

pub step-Change :
    (env : Env) (s : System) (e : Event)
    → Change env (input_of s e) s.controller (step env s e).controller
unfolding step input_of
step-Change env s (arrive now r) =
    subst (Change env asked s.controller)
      (sym (received-state s r.gateway_id (receive env now r s.controller)))
      (receive-Change env now r s.controller)
step-Change env s (deliver i now later id body) =
    delivered-Change env s now later id body (pick i s.awaited)
step-Change env s (turn i now id) = tried-Change env s now id (pick i s.updates)
step-Change env s restart = resumed s.controller
