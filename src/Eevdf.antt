-- ===== src/Eevdf.antt =====
-- kernel/sched/eevdf.c: the run queue. A node of `node_pool` is named by its place plus one. Its
-- `task` stands in `node_task` and its links in `tree`; `bitmap` is `node_bitmap`, the next four
-- fields are those of `eevdf_rq_t`, and `tasks` is the memory of the tasks.
pub mod Tree
pub mod Weights
pub mod Tasks
pub mod Pool
pub mod Membership
pub mod Slice
pub mod Order
pub mod Queue
pub mod Enqueue
mod Tests
use arcline.Base.{
  ℕ, zero, suc, ◌+◌, ◌-◌, ◌*◌, ◌/◌, Bool, true, false, not, ◌&&◌, ◌||◌, ltb, leb, is_null, ◌==◌,
  if◌then◌else◌, Array, store, add32, add64, sub32, sub64, mul64, mul32, ℤ, pos, negsuc, ltb_ℤ,
}
use arcline.Bitmap.{Words, masked, include, exclude}
use arcline.Task.{Task, Context, task_ready}
use arcline.Rb.{Tree as Links}
use Tree.{insert_node, remove_node, next_leftmost}
use Weights.{weight_of}

pub record RunQueue : Type 0 where
  pub tree : Links
  pub node_task : Array ℕ
  pub bitmap : Words
  pub leftmost : ℕ
  pub min_vruntime : ℕ
  pub load_weight : ℕ
  pub nr_running : ℕ
  pub tasks : Array Task

abbrev pub pool_size : ℕ
pool_size = 64

abbrev pub put_task : ℕ → Task → RunQueue → RunQueue
put_task a r q = record q { tasks = store q.tasks a r }

-- The loop of `alloc_node`: the rounds left and `i`. The result is the node, 0 for NULL.
pub alloc_loop : ℕ → ℕ → Words → ℕ × Words
alloc_loop zero i m = (0, m)
alloc_loop (suc k) i m =
    let rest = alloc_loop k (i + 1) m in
    if not (masked 64 m i) then (suc i, include 64 m i) else rest

pub alloc_node : Words → ℕ × Words
unfolding alloc_loop
alloc_node m = alloc_loop pool_size 0 m

pub free_node : ℕ → Words → Words
free_node zero m = m
free_node (suc idx) m = if leb pool_size idx then m else exclude 64 m idx

-- The search of `eevdf_dequeue` and `eevdf_is_queued`: the rounds left and `i`. The result is the
-- node, 0 if no node in use has the task.
pub find_node : ℕ → ℕ → ℕ → RunQueue → ℕ
find_node zero i task q = 0
find_node (suc k) i task q =
    let rest = find_node k (i + 1) task q in
    if masked 64 q.bitmap i && q.node_task (suc i) == task then suc i else rest

-- `memset` of all three static variables.
unfoldable pub init : Array Task → RunQueue
init tasks = record {
  tree = record { root = 0; left = λ _. 0; right = λ _. 0; parent = λ _. 0; color = λ _. 0 };
  node_task = λ _. 0;
  bitmap = λ _. 0;
  leftmost = 0;
  min_vruntime = 0;
  load_weight = 0;
  nr_running = 0;
  tasks = tasks;
}

-- `if (task->vruntime < runqueue.min_vruntime) task->vruntime = runqueue.min_vruntime`
pub lift_vruntime : ℕ → RunQueue → RunQueue
lift_vruntime task q =
    if ltb (q.tasks task).vruntime q.min_vruntime
    then put_task task (record (q.tasks task) { vruntime = q.min_vruntime }) q
    else q

-- `eevdf_enqueue` from the allocation of the node on.
pub link_task : ℕ → ℕ → ℕ → RunQueue → RunQueue
link_task k task node q =
    let node_task = store q.node_task node task in
    let key = λ (n : ℕ). (q.tasks (node_task n)).vruntime in
    let inserted = insert_node key (q.tasks task).vruntime k node q.tree in
    record q {
      tree = inserted.1;
      node_task = node_task;
      leftmost = if inserted.0 then node else q.leftmost;
      load_weight = add32 q.load_weight (weight_of (q.tasks task).priority);
      nr_running = add32 q.nr_running 1;
    }

-- `k` bounds the rounds of each loop over the tree.
pub enqueue : ℕ → ℕ → RunQueue → RunQueue
enqueue k task q =
    if task == 0 || not ((q.tasks task).state == task_ready)
    then q
    else let q1 = lift_vruntime task q in
      let got = alloc_node q1.bitmap in
      if is_null got.0 then q1 else link_task k task got.0 (record q1 { bitmap = got.1 })

-- `eevdf_dequeue` once the node is found.
pub unlink_task : ℕ → ℕ → ℕ → RunQueue → RunQueue
unlink_task k task node q =
    let weight = weight_of (q.tasks task).priority in
    record q {
      tree = remove_node k node q.tree;
      leftmost = if q.leftmost == node then next_leftmost k node q.tree else q.leftmost;
      load_weight = if leb weight q.load_weight then q.load_weight - weight else 0;
      nr_running = if ltb 0 q.nr_running then q.nr_running - 1 else q.nr_running;
      bitmap = free_node node q.bitmap;
    }

pub dequeue : ℕ → ℕ → RunQueue → RunQueue
dequeue k task q =
    let node = find_node pool_size 0 task q in
    if task == 0 then q else if is_null node then q else unlink_task k task node q

-- The task to run next, 0 for NULL.
pub pick_next : RunQueue → ℕ
pick_next q = if q.leftmost == 0 then 0 else q.node_task q.leftmost

abbrev pub start_time : Task → ℕ
start_time t = t.context.x 23

abbrev pub set_start : ℕ → Task → Task
set_start now t = record t { context = record (t.context) { x = store t.context.x 23 now } }

pub update_curr : ℕ → ℕ → RunQueue → RunQueue
update_curr task now q =
    let t = q.tasks task in
    let delta = sub64 now (start_time t) in
    let load = if q.load_weight == 0 then 1024 else q.load_weight in
    let fair = mul64 delta 1024 / load in
    let t1 = record (set_start now t) { vruntime = add64 t.vruntime fair } in
    let q1 = put_task task t1 q in
    if task == 0 || delta == 0 then q else record q1 {
      min_vruntime =
          if not (q.leftmost == 0)
          then (q1.tasks (q.node_task q.leftmost)).vruntime
          else t1.vruntime;
    }

-- EEVDF_TARGET_LATENCY is an `int` and the weight a `uint32_t`, so the product is one of 32 bits.
pub calc_slice : ℕ → RunQueue → ℕ
calc_slice task q =
    let weight = weight_of (q.tasks task).priority in
    let slice = mul32 6000000 weight / (if q.load_weight == 0 then 1024 else q.load_weight) in
    let low = if ltb slice 750000 then 750000 else slice in
    let high = if ltb 100000000 low then 100000000 else low in
    if q.nr_running == 0 then 4000000 else high

-- `nice` held between EEVDF_MIN_NICE and EEVDF_MAX_NICE.
pub clamp_nice : ℤ → ℤ
clamp_nice nice =
    if ltb_ℤ nice (negsuc 19) then negsuc 19 else if ltb_ℤ (pos 19) nice then pos 19 else nice

pub set_nice : ℕ → ℤ → RunQueue → RunQueue
set_nice task nice q =
    if task == 0 then q else put_task task (record (q.tasks task) { priority = clamp_nice nice }) q

pub is_queued : ℕ → RunQueue → Bool
is_queued task q = not (task == 0) && not (is_null (find_node pool_size 0 task q))
