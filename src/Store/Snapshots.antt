-- ===== src/Store/Snapshots.antt =====
-- About crates/raft/src/fsm/mod.rs: how a store with an installed snapshot compares with the other.
use mill.Prelude.{
  inr, arith, inl, Option-cases, refl, [], true, Bool, some, ap₂, ◌∷◌, ℕ, ap, List, ◌≡◌,
}
use mill.Store.{
  note_membership, entry_response, entry_fsm, Openraft, Entry, Snapshot, StateMachineStore, Codec,
  apply_entry, apply_entries, apply, build_snapshot, get_snapshot_builder, install_snapshot,
}
use mill.Fsm.State.{FsmState}
use mill.Fsm.Command.{Response}

-- The replicated part of a store.
pub record Agrees {L S : Type 0} (a b : StateMachineStore L S) : Type 0 where
  pub fsm : a.fsm ≡ b.fsm
  pub last_applied : a.last_applied ≡ b.last_applied
  pub last_membership : a.last_membership ≡ b.last_membership

module _ {L M S : Type 0} (o : Openraft L M S) where
  Agrees-apply_entry :
      (a b : StateMachineStore L S) (e : Entry L M)
      → Agrees a b
      → Agrees (apply_entry o a e) (apply_entry o b e)
  Agrees-apply_entry a b e h = record {
    fsm = ap (λ s. entry_fsm o s e.payload) h.fsm;
    last_applied = refl;
    last_membership = ap (λ m. note_membership o m e) h.last_membership;
  }

  Agrees-apply_entries :
      (a b : StateMachineStore L S) (es : List (Entry L M))
      → Agrees a b
      → Agrees (apply_entries o a es).0 (apply_entries o b es).0
        × ((apply_entries o a es).1 ≡ (apply_entries o b es).1)
  unfolding apply_entries
  Agrees-apply_entries a b [] h = (h, refl)
  Agrees-apply_entries a b (e ∷ es) h =
      let (later, rs) =
        Agrees-apply_entries (apply_entry o a e) (apply_entry o b e) es
          (Agrees-apply_entry a b e h) in
      (
        later,
        ap₂ (λ (r : Response) (rest : List Response). r ∷ rest)
            (ap (λ s. entry_response o s e.payload) h.fsm) rs,
      )

  Agrees-apply :
      (a b : StateMachineStore L S) (es : List (Entry L M))
      → Agrees a b
      → Agrees (apply o a es).0 (apply o b es).0 × ((apply o a es).1 ≡ (apply o b es).1)
  unfolding apply
  Agrees-apply a b es h =
      let (later, rs) = Agrees-apply_entries a b es h in
      (
        record {
          fsm = later.fsm;
          last_applied = later.last_applied;
          last_membership = later.last_membership;
        },
        rs,
      )

  module _ (c : Codec)
      (round_trip : (s : FsmState) (bytes : List ℕ)
        → Codec.encode c s ≡ some bytes
        → Codec.decode c bytes ≡ some s) where
    install-Agrees :
        (st later other : StateMachineStore L S) (w w' : Bool) (snap : Snapshot L S)
        → (build_snapshot o c w later (get_snapshot_builder o st)).1 ≡ some snap
        → ((install_snapshot o c w' other snap).1 ≡ true)
          × Agrees (install_snapshot o c w' other snap).0 st
    unfolding build_snapshot get_snapshot_builder install_snapshot
    install-Agrees st later other w w' snap h = elim (Option-cases (Codec.encode c st.fsm)) [
      | inl e ↦ absurd (ground arith)
      | inr (bytes, e) ↦
          let d : Codec.decode c snap.bytes ≡ some st.fsm =
            ground (arith, round_trip st.fsm bytes e) in
          (
            ground arith,
            record {
              fsm = ground arith;
              last_applied = ground arith;
              last_membership = ground arith;
            },
          )
    ]

    -- Take a builder of a store, let any other entries be applied while it builds, install the
    -- snapshot in any other store, and feed both the entries that follow: the two hold the same
    -- state, the same last id and membership, and answer alike. The codec gives back what it wrote.
    pub recovery :
        (st later other : StateMachineStore L S) (w w' : Bool) (snap : Snapshot L S)
        (es : List (Entry L M))
        → (build_snapshot o c w later (get_snapshot_builder o st)).1 ≡ some snap
        → let fresh = (install_snapshot o c w' other snap).0 in
          Agrees (apply o fresh es).0 (apply o st es).0 × ((apply o fresh es).1 ≡ (apply o st es).1)
    recovery st later other w w' snap es h =
        Agrees-apply _ st es (install-Agrees st later other w w' snap h).1
