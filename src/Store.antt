-- ===== src/Store.antt =====
-- crates/raft/src/fsm/mod.rs: the state machine store that openraft drives. `LogId`, the membership
-- and the stored membership are openraft's and so parameters, as is the snapshot codec, which calls
-- serde_json. The locks are not modelled: each method runs alone.
pub mod Replay
pub mod Snapshots
use mill.Prelude.{
  ℕ, ◌+◌, String, Bool, true, false, Option, none, some, List, [], ◌∷◌, is_some, ◌&&◌,
  if◌then◌else◌, display, ◌<>◌,
}
use mill.Fsm.State.{FsmState, default_state}
use mill.Fsm.Command.{Command, Response, ok}
use mill.Fsm.Apply.{apply_command}

-- What the store uses of openraft.
pub record Openraft (L M S : Type 0) : Type 0 where
  pub index : L → ℕ
  pub stored : Option L → M → S
  pub default_stored : S

pub data EntryPayload (M : Type 0) : Type 0 where
  blank : EntryPayload M
  normal : Command → EntryPayload M
  membership : M → EntryPayload M

pub record Entry (L M : Type 0) : Type 0 where
  pub log_id : L
  pub payload : EntryPayload M

pub record SnapshotMeta (L S : Type 0) : Type 0 where
  pub last_log_id : Option L
  pub last_membership : S
  pub snapshot_id : String

-- The bytes of a snapshot are a list of numbers.
pub record Snapshot (L S : Type 0) : Type 0 where
  pub meta : SnapshotMeta L S
  pub bytes : List ℕ

-- `StateMachineInner`, the snapshot slot, the value of the change channel, and what the last
-- successful write left in `raft_dir`.
pub record StateMachineStore (L S : Type 0) : Type 0 where
  pub fsm : FsmState
  pub last_applied : Option L
  pub last_membership : S
  pub version : ℕ
  pub current_snapshot : Option (Snapshot L S)
  pub change_tx : ℕ
  pub raft_dir : Option String
  pub disk : Option (Snapshot L S)

-- `StateMachineSnapshotBuilder`; its slot is the store's.
pub record SnapshotBuilder (L S : Type 0) : Type 0 where
  pub fsm_snapshot : FsmState
  pub last_applied : Option L
  pub last_membership : S

pub record Codec : Type 0 where
  pub encode : FsmState → Option (List ℕ)
  pub decode : List ℕ → Option FsmState

module _ {L M S : Type 0} (o : Openraft L M S) where
  -- `new` and `with_persistence`
  unfoldable pub new_store : Option String → StateMachineStore L S
  new_store raft_dir = record {
    fsm = default_state;
    last_applied = none;
    last_membership = Openraft.default_stored o;
    version = 0;
    current_snapshot = none;
    change_tx = 0;
    raft_dir = raft_dir;
    disk = none;
  }

  -- `get_membership`, and the assignment under it.
  abbrev pub note_membership : S → Entry L M → S
  note_membership stored e = elim (e.payload) [
    | blank ↦ stored
    | normal cmd ↦ stored
    | membership m ↦ Openraft.stored o (some e.log_id) m
  ]

  abbrev pub entry_fsm : FsmState → EntryPayload M → FsmState
  entry_fsm s (normal cmd) = (apply_command s cmd).0
  entry_fsm s blank = s
  entry_fsm s (membership m) = s

  abbrev pub entry_response : FsmState → EntryPayload M → Response
  entry_response s (normal cmd) = (apply_command s cmd).1
  entry_response s blank = ok
  entry_response s (membership m) = ok

  abbrev pub apply_entry : StateMachineStore L S → Entry L M → StateMachineStore L S
  apply_entry st e = record st {
    last_applied = some e.log_id;
    last_membership = note_membership st.last_membership e;
    fsm = entry_fsm st.fsm e.payload;
  }

  -- The loop of `apply`.
  unfoldable pub apply_entries :
      StateMachineStore L S → List (Entry L M) → StateMachineStore L S × List Response
  apply_entries st [] = (st, [])
  apply_entries st (e ∷ es) =
      let (st', rs) = apply_entries (apply_entry st e) es in
      (st', entry_response st.fsm e.payload ∷ rs)

  abbrev pub bump : StateMachineStore L S → StateMachineStore L S
  bump st = record st { version = st.version + 1; change_tx = st.version + 1 }

  unfoldable pub apply :
      StateMachineStore L S → List (Entry L M) → StateMachineStore L S × List Response
  unfolding apply_entries
  apply st es = let (st', rs) = apply_entries st es in (bump st', rs)

  unfoldable pub get_snapshot_builder : StateMachineStore L S → SnapshotBuilder L S
  get_snapshot_builder st = record {
    fsm_snapshot = st.fsm;
    last_applied = st.last_applied;
    last_membership = st.last_membership;
  }

  -- A write to disk is made if there is a directory, and its failure is only logged.
  abbrev pub persist : Bool → StateMachineStore L S → Snapshot L S → StateMachineStore L S
  persist written st snap =
      if is_some st.raft_dir && written then record st { disk = some snap } else st

  abbrev pub last_index : Option L → ℕ
  last_index none = 0
  last_index (some id) = Openraft.index o id

  unfoldable pub builder_meta : SnapshotBuilder L S → SnapshotMeta L S
  builder_meta b = record {
    last_log_id = b.last_applied;
    last_membership = b.last_membership;
    snapshot_id = "snapshot-" <> display (last_index b.last_applied);
  }

  -- `build_snapshot`: `none` is the storage error. The store may have moved on since the builder was
  -- taken.
  unfoldable pub build_snapshot :
      Codec
      → Bool
      → StateMachineStore L S
      → SnapshotBuilder L S
      → StateMachineStore L S × Option (Snapshot L S)
  unfolding builder_meta
  build_snapshot c written st b = elim (Codec.encode c b.fsm_snapshot) [
    | none ↦ (st, none)
    | some bytes ↦
        let snap : Snapshot L S = record { meta = builder_meta b; bytes = bytes } in
        (record (persist written st snap) { current_snapshot = some snap }, some snap)
  ]

  -- `install_snapshot`: the Boolean is false for the storage error.
  unfoldable pub install_snapshot :
      Codec → Bool → StateMachineStore L S → Snapshot L S → StateMachineStore L S × Bool
  install_snapshot c written st snap = elim (Codec.decode c snap.bytes) [
    | none ↦ (st, false)
    | some fsm ↦ (
      persist written
          (record (bump st) {
            fsm = fsm;
            last_applied = snap.meta.last_log_id;
            last_membership = snap.meta.last_membership;
            current_snapshot = some snap;
          })
          snap,
      true,
    )
  ]

  -- `from_snapshot`, with the decoding that `MillRaft::open` makes before it.
  unfoldable pub from_snapshot : String → FsmState → Snapshot L S → StateMachineStore L S
  from_snapshot raft_dir fsm snap = record {
    fsm = fsm;
    last_applied = snap.meta.last_log_id;
    last_membership = snap.meta.last_membership;
    version = 0;
    current_snapshot = some snap;
    change_tx = 0;
    raft_dir = some raft_dir;
    disk = some snap;
  }
