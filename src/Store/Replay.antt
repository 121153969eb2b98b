-- ===== src/Store/Replay.antt =====
-- About crates/raft/src/fsm/mod.rs: what a batch of entries leaves in the store.
use mill.Prelude.{refl, suc, some, [], ◌+◌, arith, ap, ◌∷◌, length, ◌≡◌, List, Option}
use mill.Store.{
  Openraft, Entry, normal, blank, membership, StateMachineStore, apply_entry, apply_entries, apply,
}
use mill.Fsm.Apply.{run_commands}
use mill.Fsm.Command.{Command}

module _ {L M : Type 0} where
  pub commands : List (Entry L M) → List Command
  commands [] = []
  commands (e ∷ es) =
      let rest = commands es in
      elim (e.payload) [ blank ↦ rest | normal cmd ↦ cmd ∷ rest | membership m ↦ rest ]

  abbrev pub last_id : Option L → List (Entry L M) → Option L
  last_id id [] = id
  last_id id (e ∷ es) = last_id (some e.log_id) es

module _ {L M S : Type 0} (o : Openraft L M S) where
  fsm-apply_entries :
      (st : StateMachineStore L S) (es : List (Entry L M))
      → (apply_entries o st es).0.fsm ≡ run_commands st.fsm (commands es)
  unfolding apply_entries run_commands commands
  fsm-apply_entries st [] = refl
  fsm-apply_entries st (e ∷ es) = ground (arith, fsm-apply_entries (apply_entry o st e) es)

  length-apply_entries :
      (st : StateMachineStore L S) (es : List (Entry L M))
      → length (apply_entries o st es).1 ≡ length es
  unfolding apply_entries
  length-apply_entries st [] = refl
  length-apply_entries st (e ∷ es) = ap suc (length-apply_entries (apply_entry o st e) es)

  last-apply_entries :
      (st : StateMachineStore L S) (es : List (Entry L M))
      → (apply_entries o st es).0.last_applied ≡ last_id st.last_applied es
  unfolding apply_entries
  last-apply_entries st [] = refl
  last-apply_entries st (e ∷ es) = last-apply_entries (apply_entry o st e) es

  version-apply_entries :
      (st : StateMachineStore L S) (es : List (Entry L M))
      → (apply_entries o st es).0.version ≡ st.version
  unfolding apply_entries
  version-apply_entries st [] = refl
  version-apply_entries st (e ∷ es) = version-apply_entries (apply_entry o st e) es

  -- A batch leaves the state that its commands leave in order, answers every entry, applied or not,
  -- with one response, remembers the last entry's id, and bumps the version by one, which the
  -- subscribers see.
  pub apply_exact :
      (st : StateMachineStore L S) (es : List (Entry L M))
      → let (t, rs) = apply o st es in
        (t.fsm ≡ run_commands st.fsm (commands es))
        × (length rs ≡ length es)
        × (t.last_applied ≡ last_id st.last_applied es)
        × (t.version ≡ st.version + 1)
        × (t.change_tx ≡ t.version)
  unfolding apply
  apply_exact st es = (
    fsm-apply_entries st es,
    length-apply_entries st es,
    last-apply_entries st es,
    ap (λ v. v + 1) (version-apply_entries st es),
    refl,
  )
