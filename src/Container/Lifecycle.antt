-- ===== src/Container/Lifecycle.antt =====
-- crates/containerd/src/container.rs: how a container is started, stopped and removed. containerd
-- and the files of the logs are outside: a call is answered by its number, and the calls are kept
-- with their answers. The state of the client is the list of them, the last one first.
pub mod Rollback
use mill.Prelude.{
  inr, inl, Option-cases, Bool-cases, ◌≤◌, ◌<◌, ap, ◌⊎◌, arith, ◌∙◌, sym, subst, refl, none, some,
  ◌≡◌, Option, Bool, true, false, ◌∷◌, [], List, ℕ, zero, suc, ◌+◌, ◌-◌, ◌*◌, ◌%◌, ◌&&◌, ◌||◌, not,
  ltb, leb, ◌==◌, if◌then◌else◌, and_then, option_map, is_some, String, str_eq, str_eq_iff,
  string_key, nat_key, Map, lookup, insert, remove, retain, keys, values, Distinct, map, ◌++◌, ◌<>◌,
  display, any, filterb, find_first, length, In, any-true, any-false, In-filterb, filterb-In,
  lookup-insert, lookup-remove, lookup-retain, ite, max, ℕ_discrete, string_discrete, ◌↔◌, ◌≢◌, ◌^◌,
}
use mill.Prelude.Int.{ℤ, pos, negsuc}
use mill.Prelude.Exec.{Result, ok, err, Exec, pure, raise, ◌>>=◌, ◌>>◌}
use mill.Config.Runtime.{AllocId, ContainerSpec}
use mill.Container.{Texts, build_labels}
use mill.Container.Oci.{Oci, ImageInfo, OciSpec, build_oci_spec}

pub data Call : Type 0 where
  image_info : String → Call
  prepare_snapshot : String → String → Call
  snapshot_mounts : String → Call
  create_container : String → Map String String → Call
  setup_fifos : AllocId → Call
  create_task start_task delete_task delete_container delete_snapshot wait_task : String → Call
  wait_task_for : String → ℕ → Call
  kill_task : String → ℕ → Call
  cleanup_fifos : AllocId → Call

-- `done` has the exit status of a wait and is 0 for other calls; `late` ends a wait with a limit.
pub data Answer : Type 0 where
  done : ℕ → Answer
  not_found already_exists failed late : Answer

pub data ContainerdError : Type 0 where
  grpc log_io : Answer → ContainerdError
  not_found_error already_exists_error : AllocId → ContainerdError
  spec_build : String → ContainerdError

abbrev pub Calls : Type 0
Calls = List (Call × Answer)

-- The answer to a call depends on its number. The image's data is given with the call for it.
pub record Outside : Type 0 where
  pub answer : ℕ → Call → Answer
  pub image : String → ImageInfo
  pub oci : Oci
  pub texts : Texts
  pub data_dir : String

abbrev pub ask : Outside → Call → Exec ContainerdError Calls Answer
ask o call calls = let a = Outside.answer o (length calls) call in (ok a, (call, a) ∷ calls)

abbrev pub accept : Answer → Exec ContainerdError Calls ℕ
accept (done n) = pure n
accept a = raise (grpc a)

-- A call whose failure ends the method.
abbrev pub must : Outside → Call → Exec ContainerdError Calls ℕ
must o call = do a ← ask o call; accept a

-- A call whose answer is not looked at.
abbrev pub attempt : Outside → Call → Exec ContainerdError Calls Answer
attempt o call = ask o call

-- `delete_task` and its like take NotFound for success.
abbrev pub deleted : Answer → Bool
deleted (done n) = true
deleted not_found = true
deleted a = false

abbrev pub container_id : AllocId → String
container_id alloc_id = "mill-" <> alloc_id

-- the `match` on the answer to the preparation
abbrev pub mounts_from : Outside → String → Answer → Exec ContainerdError Calls ℕ
mounts_from o cid (done n) = pure n
mounts_from o cid already_exists = must o (snapshot_mounts cid)
mounts_from o cid a = raise (grpc a)

abbrev pub created : AllocId → Answer → Exec ContainerdError Calls ℕ
created alloc_id (done n) = pure n
created alloc_id already_exists = raise (already_exists_error alloc_id)
created alloc_id a = raise (grpc a)

-- the three ways to give up after the container was made
abbrev pub after_fifos : Outside → String → Answer → Exec ContainerdError Calls ℕ
after_fifos o cid (done n) = pure n
after_fifos o cid a = do attempt o (delete_container cid); raise (log_io a)

abbrev pub after_create_task : Outside → String → AllocId → Answer → Exec ContainerdError Calls ℕ
after_create_task o cid alloc_id (done n) = pure n
after_create_task o cid alloc_id a = do
  attempt o (delete_container cid)
  attempt o (delete_snapshot cid)
  attempt o (cleanup_fifos alloc_id)
  raise (grpc a)

abbrev pub after_start_task : Outside → String → AllocId → Answer → Exec ContainerdError Calls ℕ
after_start_task o cid alloc_id (done n) = pure n
after_start_task o cid alloc_id a = do
  attempt o (delete_task cid)
  attempt o (delete_container cid)
  attempt o (delete_snapshot cid)
  attempt o (cleanup_fifos alloc_id)
  raise (grpc a)

abbrev pub spec_or_error : Result String OciSpec → Exec ContainerdError Calls OciSpec
spec_or_error (ok s) = pure s
spec_or_error (err e) = raise (spec_build e)

-- from the fifos on
unfoldable pub start : Outside → ContainerSpec → Exec ContainerdError Calls ℕ
unfolding ◌>>=◌
start o spec =
    let cid = container_id spec.alloc_id in
    do
      fifos ← ask o (setup_fifos spec.alloc_id)
      after_fifos o cid fifos
      task ← ask o (create_task cid)
      after_create_task o cid spec.alloc_id task
      started ← ask o (start_task cid)
      after_start_task o cid spec.alloc_id started

-- from the container's metadata on
unfoldable pub make : Outside → ContainerSpec → Exec ContainerdError Calls ℕ
unfolding start build_labels
make o spec = do
  answer ←
      ask o (create_container (container_id spec.alloc_id) (build_labels (Outside.texts o) spec))
  created spec.alloc_id answer
  start o spec

-- from the snapshot on
unfoldable pub with_snapshot : Outside → ContainerSpec → Exec ContainerdError Calls ℕ
unfolding make
with_snapshot o spec =
    let cid = container_id spec.alloc_id in
    do
      prepared ← ask o (prepare_snapshot cid (ImageInfo.chain_id (Outside.image o spec.image)))
      mounts_from o cid prepared
      make o spec

unfoldable pub create_and_start : Outside → ContainerSpec → Exec ContainerdError Calls ℕ
unfolding with_snapshot build_oci_spec
create_and_start o spec = do
  must o (image_info spec.image)
  spec_or_error
      (build_oci_spec (Outside.oci o) (Outside.data_dir o) spec (Outside.image o spec.image))
  with_snapshot o spec

abbrev pub known_or : AllocId → Answer → Exec ContainerdError Calls ℕ
known_or alloc_id (done n) = pure n
known_or alloc_id not_found = raise (not_found_error alloc_id)
known_or alloc_id a = raise (grpc a)

abbrev pub stop_timeout : ℕ
stop_timeout = 10000000000

-- `exit_status as i32`
abbrev pub as_i32 : ℕ → ℤ
as_i32 n = if ltb n (2 ^ 31) then pos n else negsuc (2 ^ 32 - n - 1)

abbrev pub escalate : Outside → String → Answer → Exec ContainerdError Calls ℕ
escalate o cid (done n) = pure n
escalate o cid late = do must o (kill_task cid 9); must o (wait_task cid)
escalate o cid a = raise (grpc a)

unfoldable pub stop : Outside → AllocId → Exec ContainerdError Calls ℤ
unfolding ◌>>=◌
stop o alloc_id =
    let cid = container_id alloc_id in
    do
      killed ← ask o (kill_task cid 15)
      known_or alloc_id killed
      waited ← ask o (wait_task_for cid stop_timeout)
      status ← escalate o cid waited
      pure (as_i32 status)

abbrev pub deleted_or : AllocId → Answer → Exec ContainerdError Calls ℕ
deleted_or alloc_id not_found = pure 0
deleted_or alloc_id (done n) = pure n
deleted_or alloc_id a = raise (grpc a)

unfoldable pub remove_container : Outside → AllocId → Exec ContainerdError Calls Answer
unfolding ◌>>=◌
remove_container o alloc_id =
    let cid = container_id alloc_id in
    do
      attempt o (delete_task cid)
      answer ← ask o (delete_container cid)
      deleted_or alloc_id answer
      attempt o (delete_snapshot cid)
      attempt o (cleanup_fifos alloc_id)

-- The containers that the filter on the label of mill leaves.
abbrev pub list_managed : List (Map String String) → List AllocId
list_managed [] = []
list_managed (labels ∷ rest) =
    let later = list_managed rest in
    elim (lookup "mill.alloc-id" labels) [ some id ↦ id ∷ later | none ↦ later ]
