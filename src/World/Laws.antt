-- ===== src/World/Laws.antt =====
-- What every step of the world keeps.
use openkedge.Prelude.{ℕ, String, ◌≡◌, refl, List, [], ◌∷◌, ◌++◌, Result, ok, err}
use openkedge.Prelude.Effects.{Post, Triple, Keeps}
use openkedge.Contracts.{EventInput}
use openkedge.Trace.{Hashing}
use openkedge.Store.{Store}
use openkedge.Transaction.{Work, append_work, transaction, append_one}
use openkedge.Governance.{Thrown}
use openkedge.World.{
  Call, Trouble, fine, refused, lost, Env, World, Async, run_others, stored, draw, settled, await,
  on_store, put_back, lifted, append_event, log, reading, local, assign,
}

-- A property of the store, the calls and the locals, of a world.
abbrev pub At : {L : Type 0} → (Store → List Call → L → Type 0) → World L → Type 0
At P w = P w.store w.calls w.locals

-- What keeps it, whether it returns or throws.
abbrev pub Holding : {L A : Type 0} → (Store → List Call → L → Type 0) → Async L A → Type 0
Holding P m = Keeps (At P) m

-- A property that every transaction keeps.
pub record Stable {L : Type 0} (h : Hashing) (P : Store → List Call → L → Type 0) : Type 1 where
  pub keeps :
      {E A : Type 0} (work : Work E A) (st : Store) (cs : List Call) (l : L)
      → P st cs l
      → P (transaction h st work).1 cs l

Post-same :
    {W E A : Type 0} (P : W → Type 0) (r : Result E A) (w : W) → P w → Post (λ _. P) (λ _. P) (r, w)
Post-same P (ok a) w p = p
Post-same P (err e) w p = p

module _ {L : Type 0} (h : Hashing) (env : Env) {P : Store → List Call → L → Type 0}
    (stable : Stable h P) where
  run_others-keeps :
      (ws : List (Work String (Unit {0}))) (st : Store) (cs : List Call) (l : L)
      → P st cs l
      → P (run_others h ws st) cs l
  unfolding run_others
  run_others-keeps [] st cs l p = p
  run_others-keeps (w ∷ ws) st cs l p = run_others-keeps ws _ cs l (stable.keeps w st cs l p)

  settled-keeps : (w : World L) → At P w → At P (settled h env w)
  settled-keeps w p = run_others-keeps (env.others w.ticks) w.store w.calls w.locals p

  pub await-Holds : {A : Type 0} (f : ℕ → Result Thrown A) → Holding P (await h env f)
  unfolding await
  await-Holds f = record {
    at = λ w p. Post-same (At P) (f w.ticks) (settled h env w) (settled-keeps w p);
  }

  -- A call of the store: what holds if it returns, and what holds in any case.
  pub on_store-Triple :
      {A : Type 0} (f : Store → Result Thrown A × Store) (Q : A → Store → List Call → L → Type 0)
      → ((st : Store) (cs : List Call) (l : L) → P st cs l → P (f st).1 cs l)
      → ((st : Store) (cs : List Call) (l : L) (a : A)
          → P st cs l
          → (f st).0 ≡ ok a
          → Q a (f st).1 cs l)
      → Triple (At P) (on_store h env f) (λ a. At (Q a)) (λ _. At P)
  unfolding on_store
  on_store-Triple {A} f Q always returned = record {
    at = λ w p.
        let v = settled h env w in
        let q = settled-keeps w p in
        step v (f v.store) (env.trouble w.ticks) q (always v.store v.calls v.locals q)
          (λ a e. returned v.store v.calls v.locals a q e);
  }
    where
      step :
          (v : World L) (r : Result Thrown A × Store) (t : Trouble)
          → At P v
          → P r.1 v.calls v.locals
          → ((a : A) → r.0 ≡ ok a → Q a r.1 v.calls v.locals)
          → Post (λ a. At (Q a)) (λ _. At P) (put_back v (stored r t v.store))
      step v (ok a, st) fine p always q = q a refl
      step v (err e, st) fine p always q = always
      step v r (refused e) p always q = p
      step v r (lost e) p always q = always

  pub on_store-Holds :
      {A : Type 0} (f : Store → Result Thrown A × Store)
      → ((st : Store) (cs : List Call) (l : L) → P st cs l → P (f st).1 cs l)
      → Holding P (on_store h env f)
  on_store-Holds f always = on_store-Triple f (λ _. P) always (λ st cs l a p e. always st cs l p)

  pub reading-Holds : {A : Type 0} (f : Store → Result Thrown A) → Holding P (reading h env f)
  unfolding reading
  reading-Holds f = on_store-Holds (λ st. (f st, st)) (λ st cs l p. p)

  lifted-keeps :
      {A : Type 0} (r : Result String A × Store) (cs : List Call) (l : L)
      → P r.1 cs l
      → P (lifted r).1 cs l
  lifted-keeps (ok a, st) cs l p = p
  lifted-keeps (err e, st) cs l p = p

  pub append_event-Holds : (input : EventInput) → Holding P (append_event h env input)
  unfolding append_event append_one
  append_event-Holds input =
      on_store-Holds (λ st. lifted (append_one h st input))
        (λ st cs l p.
          lifted-keeps (append_one h st input) cs l (stable.keeps (append_work input) st cs l p))

module _ {L : Type 0} (P : Store → List Call → L → Type 0) where
  pub draw-Holds : {A : Type 0} (f : ℕ → A) → Holding P (draw {L = L} f)
  unfolding draw
  draw-Holds f = record { at = λ w p. p }

  pub local-Holds : Holding P (local {L = L})
  unfolding local
  local-Holds = record { at = λ w p. p }

  -- One more call, if the property allows it.
  pub log-Holds :
      (c : Call)
      → ((st : Store) (cs : List Call) (l : L) → P st cs l → P st (cs ++ c ∷ []) l)
      → Holding P (log {L = L} c)
  unfolding log
  log-Holds c keeps = record { at = λ w p. keeps w.store w.calls w.locals p }

  pub assign-Holds :
      (f : L → L)
      → ((st : Store) (cs : List Call) (l : L) → P st cs l → P st cs (f l))
      → Holding P (assign f)
  unfolding assign
  assign-Holds f keeps = record { at = λ w p. keeps w.store w.calls w.locals p }
