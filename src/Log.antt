-- ===== src/Log.antt =====
-- crates/raft/src/log_store.rs: the log in memory, and the vote. A `Vote` and a `LogId` are
-- openraft's. The lock is not modelled: each method runs alone.
pub mod Laws
use mill.Prelude.{
  ◌&&◌, values, true, false, is_some, none, [], if◌then◌else◌, ◌∷◌, some, String, ltb, List, leb,
  Option, ℕ, Bool, keys,
}
use mill.Prelude.Sorted.{Sorted, put, select, last, delete_all}
use mill.Store.{Openraft, Entry}

pub record LogStore (L M W : Type 0) : Type 0 where
  pub vote : Option W
  pub committed : Option L
  pub log : Sorted (Entry L M)
  pub last_purged : Option L
  pub raft_dir : Option String
  pub disk_vote : Option W

pub data Bound : Type 0 where
  included : ℕ → Bound
  excluded : ℕ → Bound
  unbounded : Bound

pub record LogState (L : Type 0) : Type 0 where
  pub last_purged_log_id : Option L
  pub last_log_id : Option L

abbrev pub after_start : Bound → ℕ → Bool
after_start (included a) k = leb a k
after_start (excluded a) k = ltb a k
after_start unbounded k = true

abbrev pub before_end : Bound → ℕ → Bool
before_end (included b) k = leb k b
before_end (excluded b) k = ltb k b
before_end unbounded k = true

-- `BTreeMap::range` panics on a range that starts after its end, and on an excluded single key.
unfoldable pub range_panics : Bound → Bound → Bool
range_panics (excluded a) (excluded b) = leb b a
range_panics (included a) (included b) = ltb b a
range_panics (included a) (excluded b) = ltb b a
range_panics (excluded a) (included b) = ltb b a
range_panics unbounded e = false
range_panics s unbounded = false

module _ {L M S : Type 0} (o : Openraft L M S) where
  unfoldable pub append_entries : Sorted (Entry L M) → List (Entry L M) → Sorted (Entry L M)
  append_entries m [] = m
  append_entries m (e ∷ es) = append_entries (put (Openraft.index o e.log_id) e m) es

module _ {L M S W : Type 0} (o : Openraft L M S) where
  -- `new` and `with_persistence`
  unfoldable pub new_log : Option String → Option W → LogStore L M W
  new_log raft_dir vote = record {
    vote = vote;
    committed = none;
    log = [];
    last_purged = none;
    raft_dir = raft_dir;
    disk_vote = vote;
  }

  -- `none` is the panic.
  unfoldable pub try_get_log_entries : LogStore L M W → Bound → Bound → Option (List (Entry L M))
  unfolding range_panics
  try_get_log_entries l s e =
      if range_panics s e
      then none
      else some (values (select (λ k. after_start s k && before_end e k) l.log))

  unfoldable pub get_log_state : LogStore L M W → LogState L
  get_log_state l = record {
    last_purged_log_id = l.last_purged;
    last_log_id = elim (last l.log) [ none ↦ l.last_purged | some e ↦ some (Entry.log_id e.1) ];
  }

  -- The write to disk may fail, which is only logged.
  unfoldable pub save_vote : Bool → LogStore L M W → W → LogStore L M W
  save_vote written l vote = record l {
    vote = some vote;
    disk_vote = if is_some l.raft_dir && written then some vote else l.disk_vote;
  }

  abbrev pub read_vote : LogStore L M W → Option W
  read_vote l = l.vote

  unfoldable pub save_committed : LogStore L M W → Option L → LogStore L M W
  save_committed l committed = record l { committed = committed }

  abbrev pub read_committed : LogStore L M W → Option L
  read_committed l = l.committed

  unfoldable pub append : LogStore L M W → List (Entry L M) → LogStore L M W
  append l entries = record l { log = append_entries o l.log entries }

  -- `range(log_id.index..)`
  unfoldable pub truncate : LogStore L M W → L → LogStore L M W
  truncate l log_id =
      let to_remove = keys (select (λ k. leb (Openraft.index o log_id) k) l.log) in
      record l { log = delete_all to_remove l.log }

  -- `range(..=log_id.index)`
  unfoldable pub purge : LogStore L M W → L → LogStore L M W
  purge l log_id =
      let to_remove = keys (select (λ k. leb k (Openraft.index o log_id)) l.log) in
      record l { log = delete_all to_remove l.log; last_purged = some log_id }
