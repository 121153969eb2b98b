-- ===== src/Container/Lifecycle/Rollback.antt =====
-- What a start leaves behind.
use mill.Prelude.{
  arith, ◌≡◌, Bool, true, false, ◌∷◌, [], ℕ, ◌&&◌, if◌then◌else◌, String, str_eq, str_eq_iff,
  string_key, nat_key, Map, length,
}
use mill.Prelude.Exec.{◌>>◌, continue, Exec, Result, ok, err, ◌>>=◌}
use mill.Config.Runtime.{AllocId, ContainerSpec}
use mill.Container.Lifecycle.{
  start_task, build_labels, ImageInfo, with_snapshot, make, snapshot_mounts, prepare_snapshot, ask,
  spec_or_error, build_oci_spec, OciSpec, accept, image_info, mounts_from, must, created,
  create_and_start, Call, create_task, delete_task, create_container, delete_container, Answer,
  done, ContainerdError, Calls, Outside, deleted, container_id, start, not_found, already_exists,
  failed, late,
}

-- What a call did to one thing.
pub data Effect : Type 0 where
  makes clears spares : Effect

abbrev is_done : Answer → Bool
is_done (done n) = true
is_done a = false

abbrev if_same : String → String → Bool → Effect → Effect
if_same s t b e = if str_eq s t && b then e else spares

abbrev pub task_effect : String → Call → Answer → Effect
task_effect cid (create_task s) a = if_same s cid (is_done a) makes
task_effect cid (delete_task s) a = if_same s cid (deleted a) clears
task_effect cid c a = spares

-- A task that is deleted does not run any more.
abbrev pub run_effect : String → Call → Answer → Effect
run_effect cid (start_task s) a = if_same s cid (is_done a) makes
run_effect cid (delete_task s) a = if_same s cid (deleted a) clears
run_effect cid c a = spares

abbrev pub container_effect : String → Call → Answer → Effect
container_effect cid (create_container s labels) a = if_same s cid (is_done a) makes
container_effect cid (delete_container s) a = if_same s cid (deleted a) clears
container_effect cid c a = spares

unfoldable pub after_effect : Effect → Bool → Bool
after_effect makes before = true
after_effect clears before = false
after_effect spares before = before

-- Whether the thing is there after the calls.
unfoldable pub is_left : (Call → Answer → Effect) → Calls → Bool
unfolding after_effect
is_left effect [] = false
is_left effect ((c, a) ∷ calls) = after_effect (effect c a) (is_left effect calls)

abbrev pub task_left : AllocId → Calls → Bool
task_left id calls = is_left (task_effect (container_id id)) calls

-- Whether the task is there and was started.
abbrev pub task_runs : AllocId → Calls → Bool
task_runs id calls = is_left (run_effect (container_id id)) calls

abbrev pub container_left : AllocId → Calls → Bool
container_left id calls = is_left (container_effect (container_id id)) calls

-- Deletions are not refused.
pub record Deletes (o : Outside) : Type 0 where
  pub task_goes : (n : ℕ) (s : String) → deleted (Outside.answer o n (delete_task s)) ≡ true
  pub container_goes :
      (n : ℕ) (s : String) → deleted (Outside.answer o n (delete_container s)) ≡ true

abbrev pub Absent : AllocId → Calls → Type 0
Absent id calls =
    (container_left id calls ≡ false) × (task_left id calls ≡ false) × (task_runs id calls ≡ false)

-- All or nothing.
abbrev pub AllOrNothing : AllocId → Result ContainerdError ℕ × Calls → Type 0
AllOrNothing id (ok n, calls) =
    (container_left id calls ≡ true) × (task_left id calls ≡ true) × (task_runs id calls ≡ true)
AllOrNothing id (err e, calls) = Absent id calls

start-AllOrNothing :
    (o : Outside) (spec : ContainerSpec) (calls : Calls)
    → Deletes o
    → container_left spec.alloc_id calls ≡ true
    → task_left spec.alloc_id calls ≡ false
    → task_runs spec.alloc_id calls ≡ false
    → AllOrNothing spec.alloc_id (start o spec calls)
unfolding start ◌>>=◌ is_left after_effect
start-AllOrNothing o spec calls d c t r =
    grind (arith, d, str_eq_iff (container_id spec.alloc_id) (container_id spec.alloc_id))

bind-AllOrNothing :
    {A : Type 0} (id : AllocId) (m : Exec ContainerdError Calls A)
    (f : A → Exec ContainerdError Calls ℕ) (calls : Calls)
    → Absent id (m calls).1
    → ((a : A) → AllOrNothing id (f a (m calls).1))
    → AllOrNothing id ((m >>= f) calls)
unfolding ◌>>=◌
bind-AllOrNothing {A} id m f calls h k = go (m calls).0
  where
    go : (r : Result ContainerdError A) → AllOrNothing id (continue r f (m calls).1)
    go (ok a) = k a
    go (err e) = h

module _ (o : Outside) (spec : ContainerSpec) (d : Deletes o) where
  created-AllOrNothing :
      (labels : Map String String) (calls : Calls) (a : Answer)
      → Absent spec.alloc_id calls
      → AllOrNothing spec.alloc_id (
          (created spec.alloc_id a >>= λ n. start o spec)
            ((create_container (container_id spec.alloc_id) labels, a) ∷ calls))
  unfolding ◌>>=◌ is_left after_effect
  created-AllOrNothing labels calls (done n) h =
      start-AllOrNothing o spec _ d
        (ground (arith, str_eq_iff (container_id spec.alloc_id) (container_id spec.alloc_id))) h.1
        h.2
  created-AllOrNothing labels calls not_found h = ground (arith, h)
  created-AllOrNothing labels calls already_exists h = ground (arith, h)
  created-AllOrNothing labels calls failed h = ground (arith, h)
  created-AllOrNothing labels calls late h = ground (arith, h)

  accept-Absent :
      (a : Answer) (calls : Calls)
      → Absent spec.alloc_id calls
      → Absent spec.alloc_id (accept a calls).1
  accept-Absent (done n) calls h = h
  accept-Absent not_found calls h = h
  accept-Absent already_exists calls h = h
  accept-Absent failed calls h = h
  accept-Absent late calls h = h

  spec_or_error-Absent :
      (r : Result String OciSpec) (calls : Calls)
      → Absent spec.alloc_id calls
      → Absent spec.alloc_id (spec_or_error r calls).1
  spec_or_error-Absent (ok s) calls h = h
  spec_or_error-Absent (err e) calls h = h

  mounts-Absent :
      (cid : String) (calls : Calls) (a : Answer)
      → Absent spec.alloc_id calls
      → Absent spec.alloc_id (mounts_from o cid a calls).1
  unfolding ◌>>=◌ is_left after_effect
  mounts-Absent cid calls (done n) h = h
  mounts-Absent cid calls not_found h = h
  mounts-Absent cid calls already_exists h =
      let answer = Outside.answer o (length calls) (snapshot_mounts cid) in
      accept-Absent answer ((snapshot_mounts cid, answer) ∷ calls) h
  mounts-Absent cid calls failed h = h
  mounts-Absent cid calls late h = h

  make-AllOrNothing :
      (calls : Calls) → Absent spec.alloc_id calls → AllOrNothing spec.alloc_id (make o spec calls)
  unfolding make ◌>>=◌
  make-AllOrNothing calls h =
      let labels = build_labels (Outside.texts o) spec in
      created-AllOrNothing labels calls
        (Outside.answer o (length calls) (create_container (container_id spec.alloc_id) labels)) h

  with_snapshot-AllOrNothing :
      (calls : Calls)
      → Absent spec.alloc_id calls
      → AllOrNothing spec.alloc_id (with_snapshot o spec calls)
  unfolding with_snapshot is_left after_effect
  with_snapshot-AllOrNothing calls h =
      let cid = container_id spec.alloc_id in
      let prepare =
        ask o (prepare_snapshot cid (ImageInfo.chain_id (Outside.image o spec.image))) in
      bind-AllOrNothing spec.alloc_id prepare (λ a. mounts_from o cid a >> make o spec) calls h
        (λ a.
          let mounted = mounts-Absent cid (prepare calls).1 a h in
          bind-AllOrNothing spec.alloc_id (mounts_from o cid a) (λ m. make o spec) (prepare calls).1
            mounted (λ m. make-AllOrNothing _ mounted))

-- A container is started as a whole or not at all: if there was neither a container nor a task of
-- the allocation and containerd refuses no deletion, then where the start succeeds the container and
-- the task were made and the task was started, and where it fails, at whichever call, there is
-- neither. A call that was answered with an error is taken to have had no effect.
pub create_and_start-AllOrNothing :
    (o : Outside) (spec : ContainerSpec) (calls : Calls)
    → Deletes o
    → container_left spec.alloc_id calls ≡ false
    → task_left spec.alloc_id calls ≡ false
    → task_runs spec.alloc_id calls ≡ false
    → AllOrNothing spec.alloc_id (create_and_start o spec calls)
unfolding create_and_start is_left after_effect
create_and_start-AllOrNothing o spec calls d c t r =
    let id = spec.alloc_id in
    let image = Outside.image o spec.image in
    let first = must o (image_info spec.image) in
    let found = Outside.answer o (length calls) (image_info spec.image) in
    let before = accept-Absent o spec d found ((image_info spec.image, found) ∷ calls) (c, t, r) in
    let built = build_oci_spec (Outside.oci o) (Outside.data_dir o) spec image in
    bind-AllOrNothing id first (λ n. spec_or_error built >> with_snapshot o spec) calls before
      (λ n.
        let specified = spec_or_error-Absent o spec d built (first calls).1 before in
        bind-AllOrNothing id (spec_or_error built) (λ s. with_snapshot o spec) (first calls).1
          specified (λ s. with_snapshot-AllOrNothing o spec d _ specified))
