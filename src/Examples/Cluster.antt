-- ===== src/Examples/Cluster.antt =====
-- The replicated state.
use mill.Fsm.Removal.{node_remove_effect, node_remove_iff, Drained}
use mill.Fsm.Resources.{scheduled_no_overcommit, memory_on}
use mill.Config.Runtime.{AllocStatus, Alloc, NodeResources, AllocId}
use mill.Prelude.{
  ◌≤◌, arith, refl, none, some, ◌≡◌, true, false, ◌∷◌, [], List, ℕ, str_eq_iff, string_key, nat_key,
  Map, lookup, values, Distinct, display, ℕ_discrete, string_discrete, ◌↔◌, ◌≢◌,
}
use mill.Fsm.State.{sum_used, available_on, FsmNode, node_available_resources, default_state}
use mill.Fsm.Command.{Command, node_register, node_down, node_remove, alloc_scheduled, deploy, ok}
use mill.Fsm.Apply.{apply_node_remove, apply_node_down, apply_command, run_commands}
use mill.Fsm.Valid.{IsValid}
use mill.Fsm.Valid.Commands.{run_commands-IsValid}
use mill.Fsm.Errors.{error_unchanged, ok_iff_Accepted}
use mill.Examples.Data.{whole, node_of, alloc_of, cluster, config, registration, placement}

abbrev script : List Command
script = deploy config ∷ node_register registration ∷ alloc_scheduled placement ∷ node_remove 1 ∷ []

run_commands-IsValid_example : IsValid (run_commands default_state script)
run_commands-IsValid_example = run_commands-IsValid script

error_unchanged_example : (apply_command cluster (node_down 7)).0 ≡ cluster
unfolding apply_command apply_node_down lookup ℕ_discrete display
error_unchanged_example = error_unchanged cluster (node_down 7) "unknown node 7" refl

not_remove : (id : ℕ) → node_down 1 ≢ node_remove id
not_remove id h = cc

ok_iff_Accepted_example :
    ((apply_command cluster (node_down 1)).1 ≡ ok) ↔ (lookup 1 cluster.nodes ≢ none)
ok_iff_Accepted_example = ok_iff_Accepted cluster (node_down 1) not_remove

cluster-Distinct : Distinct cluster.allocs
unfolding lookup string_discrete
cluster-Distinct = (refl, (refl, tt))

node_remove_iff_example :
    ((apply_command cluster (node_remove 2)).1 ≡ ok)
    ↔ ((n : FsmNode) × (lookup 2 cluster.nodes ≡ some n) × Drained cluster n.mill_id)
node_remove_iff_example = node_remove_iff cluster 2 cluster-Distinct

removed_ok : (apply_command cluster (node_remove 2)).1 ≡ ok
unfolding apply_command apply_node_remove lookup ℕ_discrete
removed_ok = refl

node_two : lookup 2 cluster.nodes ≡ some (node_of 2 "n2")
unfolding lookup ℕ_discrete
node_two = refl

node_one : lookup 1 cluster.nodes ≡ some (node_of 1 "n1")
unfolding lookup ℕ_discrete
node_one = refl

node_remove_effect_example :
    let t = (apply_command cluster (node_remove 2)).0 in
    (lookup 2 t.nodes ≡ none)
    × ((j : ℕ) → j ≢ 2 → lookup j t.nodes ≡ lookup j cluster.nodes)
    × ((c : AllocId) (a : Alloc) → lookup c t.allocs ≡ some a → a.node ≢ "n2")
    × ((c : AllocId) (a : Alloc)
        → lookup c cluster.allocs ≡ some a
        → a.node ≢ "n2"
        → lookup c t.allocs ≡ some a)
    × (t.volumes ≡ cluster.volumes)
node_remove_effect_example =
    node_remove_effect cluster 2 (node_of 2 "n2") cluster-Distinct node_two removed_ok

abbrev report : Map AllocId AllocStatus
report = ("web-2", AllocStatus.running) ∷ ("web-9", AllocStatus.running) ∷ []

abbrev report' : Map AllocId AllocStatus
report' = ("web-9", AllocStatus.running) ∷ ("web-2", AllocStatus.running) ∷ []

report-Distinct : Distinct report
unfolding lookup string_discrete
report-Distinct = (refl, (refl, tt))

report'-Distinct : Distinct report'
unfolding lookup string_discrete
report'-Distinct = (refl, (refl, tt))

same_reports : (c : AllocId) → lookup c report ≡ lookup c report'
unfolding lookup
same_reports c = ground (arith, distinct_ids)
  where
    distinct_ids : ◌≢◌ {A = AllocId} "web-2" "web-9"
    distinct_ids h = not_equal ((str_eq_iff "web-2" "web-9").1 h)
      where
        not_equal : false ≡ true → ⊥
        not_equal e = cc

web_two : lookup "web-2" cluster.allocs ≡ some (alloc_of "web-2" "n2" (AllocStatus.failed "oom"))
unfolding lookup string_discrete
web_two = refl

web_two_runs : lookup "web-2" report ≡ some AllocStatus.running
unfolding lookup string_discrete
web_two_runs = refl

abbrev left : NodeResources
left = record { cpu_total = 4; cpu_available = 3; memory_total = 8000; memory_available = 7500 }

left_on_one : node_available_resources whole cluster 1 ≡ some left
unfolding node_available_resources available_on sum_used lookup ℕ_discrete
left_on_one = refl

fresh_id : lookup "web-3" cluster.allocs ≡ none
unfolding lookup string_discrete
fresh_id = refl

fits_now : memory_on "n1" (values cluster.allocs) ≤ 8000
unfolding memory_on
fits_now = omega arith

scheduled_no_overcommit_example :
    memory_on "n1" (values (apply_command cluster (alloc_scheduled placement)).0.allocs) ≤ 8000
scheduled_no_overcommit_example =
    scheduled_no_overcommit whole cluster placement (node_of 1 "n1") left node_one fresh_id fits_now
      (omega arith) left_on_one (omega arith)
