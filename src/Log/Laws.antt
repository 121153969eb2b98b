-- ===== src/Log/Laws.antt =====
-- What the log holds after each operation.
use mill.Prelude.{
  leb, [], ◌==◌, if◌then◌else◌, refl, inr, inl, Option-cases, ◌≤◌, ap, ◌⊎◌, keys, arith, ◌∙◌, none,
  ◌≡◌, Option, Bool, ◌∷◌, List, ℕ, some,
}
use mill.Prelude.Sorted.{
  Sorted, at, put, select, last, delete_all, Above, at-put, at-delete_selected, put-Above,
  delete_all-Above, last_greatest, last-none,
}
use mill.Store.{Openraft, Entry}
use mill.Log.{LogStore, get_log_state, append_entries, append, truncate, purge}

module _ {L M S : Type 0} (o : Openraft L M S) where
  abbrev pub Indexed : Sorted (Entry L M) → Type 0
  Indexed m = (k : ℕ) (e : Entry L M) → at k m ≡ some e → Openraft.index o e.log_id ≡ k

  append_entries-valid :
      (m : Sorted (Entry L M)) (es : List (Entry L M))
      → Above 0 m
      → Indexed m
      → Above 0 (append_entries o m es) × Indexed (append_entries o m es)
  unfolding append_entries
  append_entries-valid m [] a i = (a, i)
  append_entries-valid m (e ∷ es) a i =
      append_entries-valid (put (Openraft.index o e.log_id) e m) es
        (put-Above 0 (Openraft.index o e.log_id) e m (omega arith) a)
        (λ k x h. ground (arith, at-put (Openraft.index o e.log_id) k e m, i k x))

  -- The last of the entries that has the index.
  abbrev pub newest : ℕ → Option (Entry L M) → List (Entry L M) → Option (Entry L M)
  newest k old [] = old
  newest k old (e ∷ es) = newest k (if k == Openraft.index o e.log_id then some e else old) es

module _ {L M S W : Type 0} (o : Openraft L M S) where
  -- The entries rise, and each stands under its index.
  pub record IsValid (l : LogStore L M W) : Type 0 where
    pub ascending : Above 0 l.log
    pub indexed : (k : ℕ) (e : Entry L M) → at k l.log ≡ some e → Openraft.index o e.log_id ≡ k

  pub append-IsValid :
      (l : LogStore L M W) (es : List (Entry L M)) → IsValid l → IsValid (append o l es)
  unfolding append append_entries
  append-IsValid l es v =
      let (a, i) = append_entries-valid o l.log es v.ascending v.indexed in
      record { ascending = a; indexed = i }

  delete_selected-IsValid :
      (p : ℕ → Bool) (l : LogStore L M W) (purged : Option L)
      → IsValid l
      → IsValid (record l { log = delete_all (keys (select p l.log)) l.log; last_purged = purged })
  delete_selected-IsValid p l purged v = record {
    ascending = delete_all-Above 0 (keys (select p l.log)) l.log v.ascending;
    indexed = λ k e h. ground (arith, at-delete_selected p k l.log, v.indexed k e);
  }

  pub truncate-IsValid : (l : LogStore L M W) (id : L) → IsValid l → IsValid (truncate o l id)
  unfolding truncate
  truncate-IsValid l id v = delete_selected-IsValid _ l l.last_purged v

  pub purge-IsValid : (l : LogStore L M W) (id : L) → IsValid l → IsValid (purge o l id)
  unfolding purge
  purge-IsValid l id v = delete_selected-IsValid _ l (some id) v

  pub at-append :
      (l : LogStore L M W) (es : List (Entry L M)) (k : ℕ)
      → at k (append o l es).log ≡ newest o k (at k l.log) es
  unfolding append append_entries
  at-append l es k = go l.log es
    where
      go :
          (m : Sorted (Entry L M)) (es : List (Entry L M))
          → at k (append_entries o m es) ≡ newest o k (at k m) es
      go m [] = refl
      go m (e ∷ es) =
          go (put (Openraft.index o e.log_id) e m) es
          ∙ ap (λ x. newest o k x es) (at-put (Openraft.index o e.log_id) k e m)

  -- `truncate` drops exactly the entries from the index on.
  pub at-truncate :
      (l : LogStore L M W) (id : L) (k : ℕ)
      → at k (truncate o l id).log ≡ (if leb (Openraft.index o id) k then none else at k l.log)
  unfolding truncate
  at-truncate l id k = at-delete_selected _ k l.log

  -- `purge` drops exactly the entries up to the index.
  pub at-purge :
      (l : LogStore L M W) (id : L) (k : ℕ)
      → at k (purge o l id).log ≡ (if leb k (Openraft.index o id) then none else at k l.log)
  unfolding purge
  at-purge l id k = at-delete_selected _ k l.log

  -- A log that is cut at an entry's index and appended to again holds the old entries below the
  -- index and only appended ones from it on.
  pub truncate-append :
      (l : LogStore L M W) (id : L) (es : List (Entry L M)) (k : ℕ)
      → at k (append o (truncate o l id) es).log
        ≡ newest o k (if leb (Openraft.index o id) k then none else at k l.log) es
  truncate-append l id es k =
      at-append (truncate o l id) es k ∙ ap (λ x. newest o k x es) (at-truncate l id k)

  -- The state that a valid log reports: the id of the entry with the greatest index, and that of
  -- the last purged one where no entry is left.
  pub get_log_state_exact :
      (l : LogStore L M W)
      → IsValid l
      → (((k : ℕ) → at k l.log ≡ none) × ((get_log_state o l).last_log_id ≡ l.last_purged))
        ⊎ ((e : Entry L M) × (at (Openraft.index o e.log_id) l.log ≡ some e)
            × ((get_log_state o l).last_log_id ≡ some e.log_id)
            × ((k : ℕ) (x : Entry L M) → at k l.log ≡ some x → k ≤ Openraft.index o e.log_id))
  unfolding get_log_state
  get_log_state_exact l v = elim (Option-cases (last l.log)) [
    | inl h ↦ inl (last-none l.log h, rw (h, get_log_state) refl)
    | inr (e, h) ↦ inr (found e h)
  ]
    where
      found :
          (e : ℕ × Entry L M)
          → last l.log ≡ some e
          → (x : Entry L M) × (at (Openraft.index o x.log_id) l.log ≡ some x)
            × ((get_log_state o l).last_log_id ≡ some x.log_id)
            × ((k : ℕ) (y : Entry L M) → at k l.log ≡ some y → k ≤ Openraft.index o x.log_id)
      found e h =
          let (here, above, greatest) = last_greatest 0 l.log e v.ascending h in
          let i = v.indexed e.0 e.1 here in
          (e.1, rw i here, rw (h, get_log_state) refl, λ k y g. rw i (greatest k y g))
