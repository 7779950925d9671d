-- ===== src/Store/Index.antt =====
-- The indexes of the store and the map of latest records say the same: `IsIndexed`, kept by `commit`.
use Prim.Native.String.{String}
use openkedge.Prelude.{
  ◌≡◌, ◌∙◌, Bool, ◌&&◌, Option, none, some, Perm, arith, filter, Eq, ◌==◌, string_eq, option_eq,
  pair_eq, values, lookup, insert, remove, lookup-insert, if◌then◌else◌,
}
use openkedge.Prelude.Keys.{Unique, keep_if}
use openkedge.Contracts.{IeecRecord}
use openkedge.Trace.{is_success, is_open, actor_matches}
use openkedge.Store.{
  Stored, Key, Store, place, successes_at, reservations_at, fresh, remember, file_under,
  file_record,
}
use openkedge.Store.Order.{InOrder}

-- The records that a key indexes.
abbrev pub filed : Key → Stored → Bool
filed key s = s.trace.action == key.0 && actor_matches key.1 s.trace.actor_id

abbrev pub filed_success : Key → Stored → Bool
filed_success key s = is_success s.trace.status && filed key s

abbrev pub filed_open : Key → Stored → Bool
filed_open key s = is_open s.trace.status && filed key s

pub record IsIndexed (st : Store) : Type 0 where
  pub ordered : (key : Key) → InOrder (successes_at st key)
  pub complete :
      (key : Key) → Perm (successes_at st key) (filter (filed_success key) (values st.latest))
  pub open_agree :
      (key : Key) (p : String)
      → lookup p (reservations_at st key) ≡ keep_if (filed_open key) (lookup p st.latest)
  pub open_unique : (key : Key) → Unique (reservations_at st key)
  pub unique : Unique st.latest
  pub homed : (p : String) (s : Stored) → lookup p st.latest ≡ some s → s.trace.proposal_id ≡ p

abbrev key_eq : Eq Key
key_eq = pair_eq

abbrev key_of : Stored → Option String → Key
key_of s actor = (s.trace.action, actor)

module _ (s : Stored) (a : Option String) (st : Store) (key : Key) where
  successes-file_under : successes_at (file_under s a st) key ≡ (
      if is_success s.trace.status && key_eq.beq (key_of s a) key
      then place s (successes_at st key)
      else successes_at st key)
  unfolding file_under
  successes-file_under = ground (
    arith,
    key_eq.beq_iff (key_of s a) key,
    lookup-insert (key_of s a) key (place s (successes_at st (key_of s a))) st.successes,
  )

  reservations-file_under : reservations_at (file_under s a st) key ≡ (
      if key_eq.beq (key_of s a) key
      then (if is_open s.trace.status
          then insert s.trace.proposal_id s (reservations_at st key)
          else remove s.trace.proposal_id (reservations_at st key))
      else reservations_at st key)
  unfolding file_under remove
  reservations-file_under = ground (
    arith,
    key_eq.beq_iff (key_of s a) key,
    lookup-insert (key_of s a) key (insert s.trace.proposal_id s (reservations_at st (key_of s a)))
        st.reservations,
    lookup-insert (key_of s a) key (remove s.trace.proposal_id (reservations_at st (key_of s a)))
        st.reservations,
  )

module _ (trace : IeecRecord) (st : Store) (key : Key) where
  abbrev by_actor : Store
  by_actor = file_under (fresh trace st) (some trace.actor_id) (remember trace st)

  pub successes-file_record : successes_at (file_record trace st) key ≡ (
      if filed_success key (fresh trace st)
      then place (fresh trace st) (successes_at st key)
      else successes_at st key)
  unfolding file_record
  successes-file_record = ground (
    arith,
    successes-file_under (fresh trace st) none by_actor key,
    successes-file_under (fresh trace st) (some trace.actor_id) (remember trace st) key,
  )

  pub reservations-file_record : reservations_at (file_record trace st) key ≡ (
      if filed key (fresh trace st)
      then (if is_open trace.status
          then insert trace.proposal_id (fresh trace st) (reservations_at st key)
          else remove trace.proposal_id (reservations_at st key))
      else reservations_at st key)
  unfolding file_record
  reservations-file_record = ground (
    arith,
    reservations-file_under (fresh trace st) none by_actor key,
    reservations-file_under (fresh trace st) (some trace.actor_id) (remember trace st) key,
  )

latest-file_under :
    (s : Stored) (a : Option String) (st : Store) → (file_under s a st).latest ≡ st.latest
unfolding file_under
latest-file_under s a st = ground arith

pub latest-file_record :
    (trace : IeecRecord) (st : Store)
    → (file_record trace st).latest ≡ insert trace.proposal_id (fresh trace st) st.latest
unfolding file_record
latest-file_record trace st =
    latest-file_under (fresh trace st) none _
    ∙ latest-file_under (fresh trace st) (some trace.actor_id) (remember trace st)
