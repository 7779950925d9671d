-- ===== src/World.antt =====
-- What the asynchronous parts run in: a store that they share with others, the time, and the calls
-- that they make of what the repository does not implement. At each `await` one step of time passes
-- (`ticks`), and other clients of the store may have finished transactions of theirs.
pub mod Laws
use Prim.Native.String.{String}
use openkedge.Prelude.{ℕ, ◌+◌, Bool, Option, none, some, List, [], ◌∷◌, ◌++◌, Result, ok, err}
use openkedge.Prelude.Effects.{Eff}
use openkedge.Contracts.{EventInput, EvidenceEvent}
use openkedge.Trace.{Hashing}
use openkedge.Store.{Store}
use openkedge.Transaction.{Work, transaction, append_one}
use openkedge.Governance.{Thrown, plain, lift}

-- What a caller can tell from outside: an identity issued or revoked, by its id; the adapter called
-- for an intent; a permit begun for an intent, and finished.
pub data Call : Type 0 where
  issued revoked terminated begun : String → Call
  permit_finished : String → String → String → Call

-- How a call of the store ends: as the code says, refused before it does anything, or done with its
-- answer lost.
pub data Trouble : Type 0 where
  fine : Trouble
  refused lost : Thrown → Trouble

-- What is drawn, told or done by others, at each step.
pub record Env : Type 0 where
  pub clock : ℕ → ℕ
  pub date : ℕ → ℕ
  pub uuid : ℕ → String
  pub others : ℕ → List (Work String (Unit {0}))
  pub trouble : ℕ → Trouble
  -- `new Date(time).toISOString()`, which throws on a time out of its range
  pub iso_date : ℕ → Result Thrown String

-- `locals` are the variables that a closure shares with the code around it.
pub record World (L : Type 0) : Type 0 where
  pub store : Store
  pub ticks : ℕ
  pub calls : List Call
  pub locals : L

abbrev pub Async : Type 0 → Type 0 → Type 0
Async L A = Eff (World L) Thrown A

unfoldable pub run_others : Hashing → List (Work String (Unit {0})) → Store → Store
unfolding transaction
run_others h [] st = st
run_others h (w ∷ ws) st = run_others h ws (transaction h st w).1

abbrev pub stored :
    {A : Type 0} → Result Thrown A × Store → Trouble → Store → Result Thrown A × Store
stored r fine before = r
stored r (refused e) before = (err e, before)
stored r (lost e) before = (err e, r.1)

abbrev pub lifted : {A : Type 0} → Result String A × Store → Result Thrown A × Store
lifted (r, st) = (lift r, st)

module _ {L : Type 0} where
  unfoldable pub log : Call → Async L (Unit {0})
  log c w = (ok tt, record w { calls = w.calls ++ c ∷ [] })

  unfoldable pub assign : (L → L) → Async L (Unit {0})
  assign f w = (ok tt, record w { locals = f w.locals })

  unfoldable pub local : Async L L
  local w = (ok w.locals, w)

  -- What synchronous code is told; two readings of a clock may differ.
  unfoldable pub draw : {A : Type 0} → (ℕ → A) → Async L A
  draw f w = (ok (f w.ticks), record w { ticks = w.ticks + 1 })

  abbrev pub put_back : {A : Type 0} → World L → Result Thrown A × Store → Result Thrown A × World L
  put_back w (r, st) = (r, record w { store = st })

  module _ (h : Hashing) (env : Env) where
    -- One `await`: time passes and the others go on.
    abbrev pub settled : World L → World L
    settled w = record w { store = run_others h (env.others w.ticks) w.store; ticks = w.ticks + 1 }

    -- `await` of something that is not the store.
    unfoldable pub await : {A : Type 0} → (ℕ → Result Thrown A) → Async L A
    await f w = (f w.ticks, settled w)

    -- `await` of a call of the store.
    unfoldable pub on_store : {A : Type 0} → (Store → Result Thrown A × Store) → Async L A
    on_store f w =
        let v = settled w in put_back v (stored (f v.store) (env.trouble w.ticks) v.store)

    unfoldable pub reading : {A : Type 0} → (Store → Result Thrown A) → Async L A
    unfolding on_store
    reading f = on_store (λ st. (f st, st))

    unfoldable pub append_event : EventInput → Async L EvidenceEvent
    unfolding on_store append_one
    append_event input = on_store (λ st. lifted (append_one h st input))
