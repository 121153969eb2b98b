-- ===== src/Examples/Stores.antt =====
-- The store of the state machine and the log, with numbers for log ids and for memberships.
use mill.Prelude.{
  refl, none, some, ◌≡◌, Option, true, false, ◌∷◌, [], List, ℕ, String, string_key, nat_key, Map,
  display,
}
use mill.Prelude.Sorted.{at}
use mill.Config.Runtime.{Alloc, AllocId}
use mill.Config.Resolved.{ClusterConfig}
use mill.Fsm.State.{FsmState, FsmNode, EncryptedSecret, FsmVolume, default_state}
use mill.Fsm.Command.{node_register}
use mill.Store.{
  builder_meta, Openraft, Entry, normal, blank, membership, StateMachineStore, Snapshot, Codec,
  new_store, apply, build_snapshot, get_snapshot_builder, install_snapshot,
}
use mill.Store.Snapshots.{Agrees, recovery}
use mill.Log.{LogStore, new_log, append}
use mill.Log.Laws.{IsValid, append-IsValid}
use mill.Examples.Data.{registration}

abbrev raft : Openraft ℕ ℕ ℕ
raft = record { index = λ l. l; stored = λ l m. m; default_stored = 0 }

abbrev entries : List (Entry ℕ ℕ)
entries =
    record { log_id = 1; payload = blank }
    ∷ record { log_id = 2; payload = normal (node_register registration) }
    ∷ record { log_id = 3; payload = membership 5 }
    ∷ []

abbrev store : StateMachineStore ℕ ℕ
store = new_store raft none

-- A codec of the empty state alone.
encode_parts :
    Option ClusterConfig
    → Map ℕ FsmNode
    → Map AllocId Alloc
    → Map String EncryptedSecret
    → Map String FsmVolume
    → Option (List ℕ)
encode_parts none [] [] [] [] = some []
encode_parts _ _ _ _ _ = none

decode_empty : List ℕ → Option FsmState
decode_empty [] = some default_state
decode_empty _ = none

abbrev codec : Codec
codec = record {
  encode = λ s. encode_parts s.config s.nodes s.allocs s.secrets s.volumes;
  decode = decode_empty;
}

codec_parts :
    (c : Option ClusterConfig) (n : Map ℕ FsmNode) (a : Map AllocId Alloc)
    (s : Map String EncryptedSecret) (v : Map String FsmVolume) (bytes : List ℕ)
    → encode_parts c n a s v ≡ some bytes
    → decode_empty bytes
      ≡ some (record { config = c; nodes = n; allocs = a; secrets = s; volumes = v })
unfolding encode_parts decode_empty
codec_parts none [] [] [] [] [] h = refl
codec_parts none [] [] [] [] (b ∷ bs) h = cc
codec_parts (some c) n a s v bytes h = cc
codec_parts none (x ∷ n) a s v bytes h = cc
codec_parts none [] (x ∷ a) s v bytes h = cc
codec_parts none [] [] (x ∷ s) v bytes h = cc
codec_parts none [] [] [] (x ∷ v) bytes h = cc

codec_round_trip :
    (s : FsmState) (bytes : List ℕ)
    → Codec.encode codec s ≡ some bytes
    → Codec.decode codec bytes ≡ some s
codec_round_trip s bytes h = codec_parts s.config s.nodes s.allocs s.secrets s.volumes bytes h

abbrev snapshot : Snapshot ℕ ℕ
snapshot = record {
  meta = record { last_log_id = none; last_membership = 0; snapshot_id = "snapshot-0" };
  bytes = [];
}

built :
    (build_snapshot raft codec true
      (apply raft store entries).0
      (get_snapshot_builder raft store)).1
    ≡ some snapshot
unfolding build_snapshot builder_meta get_snapshot_builder new_store encode_parts display
built = refl

recovery_example :
    let fresh = (install_snapshot raft codec false (apply raft store entries).0 snapshot).0 in
    Agrees (apply raft fresh entries).0 (apply raft store entries).0
    × ((apply raft fresh entries).1 ≡ (apply raft store entries).1)
recovery_example =
    recovery raft codec codec_round_trip store (apply raft store entries).0
      (apply raft store entries).0 true false snapshot entries built

abbrev fresh_log : LogStore ℕ ℕ ℕ
fresh_log = new_log raft none none

abbrev log : LogStore ℕ ℕ ℕ
log = append raft fresh_log entries

new-IsValid : IsValid raft fresh_log
unfolding new_log at
new-IsValid = record { ascending = tt; indexed = λ k e h. cc }

log-IsValid : IsValid raft log
log-IsValid = append-IsValid raft fresh_log entries new-IsValid
