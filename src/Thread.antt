-- ===== src/Thread.antt =====
-- thread/sys_thread.c: threads, the VMs they run in, and the locks of these. A thread is named by the
-- address of its data, which for the main thread of a VM is also that of the VM. The contexts of
-- schedulers, which `sched_vm_switch` sets, are in Sched, and `pthread_create` and the memory that
-- Lua allocates are outcomes that the caller gives. Statuses are bit patterns of lua_Integer.
pub mod Exit
pub mod Create
pub mod Control
pub mod World
pub mod Counts
pub mod Shape
pub mod Flags
pub mod Dropping
pub mod NewValid
pub mod NewVm
pub mod Made
pub mod Making
pub mod Going
pub mod Calm
pub mod Moving
pub mod Invariant
pub mod Closing
pub mod Stands
pub mod Fake
pub mod Last
mod Tests
use luasys.Base.{
  ℕ, ◌+◌, ◌-◌, ◌*◌, ◌/◌, ◌%◌, ◌^◌, Bool, true, false, not, ◌&&◌, Option, none, some, ◌==◌,
  if◌then◌else◌,
}

-- `struct sys_thread`. `wakes` counts the broadcasts of `cond`, and `listed` is that the table of the
-- threads has it, which keeps it from the collector.
pub record Thread : Type 0 where
  pub vmtd : ℕ
  pub reftd : Option ℕ
  pub exit_status : ℕ
  pub wakes : ℕ
  pub suspended : Bool
  pub flags : ℕ
  pub listed : Bool

-- `struct sys_vmthread`, without the data of the thread. `owner` is the thread that has `vmcs`, and
-- `closed` is that `lua_close` was called.
pub record Vm : Type 0 where
  pub owner : Option ℕ
  pub nref : ℕ
  pub cpu : ℕ
  pub stack_size : ℕ
  pub closed : Bool

pub record Store : Type 0 where
  pub thread : ℕ → Thread
  pub vm : ℕ → Vm

abbrev pub set_thread : ℕ → Thread → Store → Store
set_thread a t s = record s { thread = λ b. if b == a then t else s.thread b }

abbrev pub set_vm : ℕ → Vm → Store → Store
set_vm a v s = record s { vm = λ b. if b == a then v else s.vm b }

-- SYS_THREAD_KILLED, SYS_THREAD_TERMINATE and SYS_THREAD_INTERRUPT
abbrev pub killed : ℕ
killed = 1

abbrev pub terminated : ℕ
terminated = 2

abbrev pub interrupted : ℕ
interrupted = 4

-- `thread_getvm` and `thread_isvm`
abbrev pub getvm : ℕ → Store → ℕ
getvm td s = (s.thread td).vmtd

abbrev pub isvm : ℕ → Store → Bool
isvm td s = td == getvm td s

-- `thread_unfake`: for the thread that stands for another VM, the main thread of that VM
unfoldable pub unfake : ℕ → Store → ℕ
unfake td s = elim (s.thread td).reftd [
  | none ↦ td
  | some r ↦ if not (isvm td s) && not (r == getvm td s) then r else td
]

-- `thread_critsect_enter` and `thread_critsect_leave` on the lock of a VM, which is free or has this
-- owner.
abbrev pub lock : (by v : ℕ) → Store → Store
lock by v s = set_vm v (record (s.vm v) { owner = some by }) s

abbrev pub unlock : ℕ → Store → Store
unlock v s = set_vm v (record (s.vm v) { owner = none }) s

-- `pthread_cond_broadcast` on `cond`
abbrev pub broadcast : ℕ → Store → Store
broadcast td s = set_thread td (record (s.thread td) { wakes = (s.thread td).wakes + 1 }) s

-- `sys_thread_del`
abbrev pub unlist : ℕ → Store → Store
unlist td s = set_thread td (record (s.thread td) { listed = false }) s
