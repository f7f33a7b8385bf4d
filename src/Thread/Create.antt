-- ===== src/Thread/Create.antt =====
-- New threads and new VMs: `thread_newvm`, `sys_thread_new`, `thread_run` and `thread_runvm`. What
-- can fail is given by the caller. The functions and the arguments that are moved between the Lua
-- stacks are not modelled.
use luasys.Base.{ℕ, ◌+◌, ◌%◌, ◌^◌, Bool, true, false, Option, none, some}
use luasys.Thread.{Thread, Vm, Store, set_thread, set_vm, unlist}

-- The data that `sys_thread_new` and `thread_newvm` fill with 0, and the fields that they set
abbrev pub new_thread : (vmtd : ℕ) → Option ℕ → Thread
new_thread vmtd reftd = record {
  vmtd = vmtd;
  reftd = reftd;
  exit_status = 0;
  wakes = 0;
  suspended = false;
  flags = 0;
  listed = false;
}

-- `thread_newvm`, at address `td`, for thread `reftd`; false is the result NULL.
unfoldable pub newvm : (td : ℕ) (reftd : Option ℕ) (sync_ok : Bool) → Store → Bool × Store
newvm td reftd sync_ok s =
    let v : Vm = record {
      owner = none;
      nref = 0;
      cpu = elim reftd [ none ↦ 0 | some r ↦ (s.vm (s.thread r).vmtd).cpu ];
      stack_size = elim reftd [ none ↦ 0 | some r ↦ (s.vm (s.thread r).vmtd).stack_size ];
      closed = false;
    } in
    let t = record (new_thread td reftd) { listed = sync_ok } in
    (sync_ok, set_vm td v (set_thread td t s))

-- `sys_thread_new`, at address `td`, in the VM of thread `by`, for itself or for the VM `vmtd2`
unfoldable pub thread_new : (td by : ℕ) (vmtd2 : Option ℕ) (cond_ok : Bool) → Store → Bool × Store
thread_new td by vmtd2 cond_ok s =
    let vmref : ℕ = (s.thread by).vmtd in
    let reftd : Option ℕ = elim vmtd2 [ none ↦ some vmref | some v ↦ some v ] in
    let t = record (new_thread vmref reftd) { listed = cond_ok } in
    let v = s.vm vmref in
    (cond_ok, set_vm vmref (record v { nref = (v.nref + 1) % 2 ^ 32 }) (set_thread td t s))

-- `thread_init` in a thread that has no data yet, with the main thread's data at `td`
unfoldable pub init_vm : (td stack_size : ℕ) → Store → Store
unfolding newvm
init_vm td stack_size s =
    let s1 = (newvm td none true s).1 in
    set_vm td (record (s1.vm td) { owner = some td; stack_size = stack_size }) s1

-- How far the creation of a thread comes: no coroutine or VM with its lock, no condition, no thread
-- of the system, or all of it
pub data Creation : Type 0 where
  no_memory no_cond no_thread created : Creation

-- `thread_run`, called in thread `by`, with the new thread at `td`
unfoldable pub run_thread : Creation → (td by : ℕ) → Store → Bool × Store
unfolding thread_new
run_thread no_memory td by s = (false, s)
run_thread no_cond td by s = (false, (thread_new td by none false s).1)
run_thread no_thread td by s = (false, unlist td (thread_new td by none true s).1)
run_thread created td by s = (true, (thread_new td by none true s).1)

-- `thread_runvm`, called in thread `by`: the main thread of the new VM at `td`, and at `fake` the
-- thread that stands for it in the VM of `by`. A function that cannot be loaded ends it the way a
-- failure to create the thread does, but with an error: the new VM is closed.
unfoldable pub runvm : Creation → (td fake by : ℕ) → Option ℕ → Store → Bool × Store
unfolding newvm thread_new
runvm no_memory td fake by cpu s = (false, (newvm td (some by) false s).1)
runvm no_cond td fake by cpu s =
    (false, (thread_new fake by (some td) false (newvm td (some by) true s).1).1)
runvm no_thread td fake by cpu s =
    let s1 = (thread_new fake by (some td) true (newvm td (some by) true s).1).1 in
    (false, set_vm td (record (s1.vm td) { closed = true }) s1)
runvm created td fake by cpu s =
    let s1 = (thread_new fake by (some td) true (newvm td (some by) true s).1).1 in
    let v = s1.vm td in
    (true, set_vm td (record v { cpu = elim cpu [ none ↦ v.cpu | some c ↦ c ] }) s1)
