-- ===== src/Thread/Exit.antt =====
-- `thread_exit`, split where it gives up the lock of the VM, and `thread_waitvm`.
use luasys.Base.{ℕ, ◌+◌, ◌-◌, ◌%◌, ◌^◌, true, none, some, ◌==◌, if◌then◌else◌}
use luasys.Thread.{Store, set_thread, set_vm, killed, getvm, isvm, unlock, broadcast, unlist}

-- How a thread goes on in `thread_exit`: the main thread of a VM waits for the others, with the lock
-- given up; or the thread is past its own VM, and a reference to another may be left.
pub data Exiting : Type 0 where
  waits_refs leaves : Exiting

-- The status is the value on top of the stack, unless the thread has one already.
unfoldable pub set_status : (td top : ℕ) → Store → Store
set_status td top s =
    let t = s.thread td in
    if t.flags == killed
    then s
    else set_thread td (record t { flags = killed; exit_status = top }) s

-- A round of `thread_waitvm` with no timeout, and what follows it: `lua_close`, which also gives up
-- the lock and deletes it.
unfoldable pub close_or_wait : ℕ → Store → Exiting × Store
close_or_wait td s =
    if (s.vm td).nref == 0
    then (leaves, set_vm td (record (s.vm td) { owner = none; closed = true }) s)
    else (waits_refs, unlock td s)

-- `thread_exit` in any other thread than the main one
unfoldable pub leave_vm : ℕ → Store → Store
leave_vm td s = let s1 = unlist td (broadcast td s) in unlock (getvm td s) s1

-- `thread_exit` of `td` by the thread that has the lock of its VM
unfoldable pub exit_thread : (td top : ℕ) → Store → Exiting × Store
unfolding set_status close_or_wait leave_vm
exit_thread td top s =
    let s1 = set_status td top s in
    if isvm td s then close_or_wait td s1 else (leaves, leave_vm td s1)

-- The thread `r` that the main thread of another VM refers to is taken for one that has ended.
unfoldable pub end_ref : (r status : ℕ) → Store → Store
end_ref r status s =
    let t = s.thread r in
    unlist r (broadcast r (set_thread r (record t { flags = killed; exit_status = status }) s))

-- One reference to VM `v` less, and a signal to its main thread after the last one
unfoldable pub drop_ref : ℕ → Store → Store
drop_ref v s =
    let n : ℕ = ((s.vm v).nref + (2 ^ 32 - 1)) % 2 ^ 32 in
    let s1 = set_vm v (record (s.vm v) { nref = n }) s in if n == 0 then broadcast v s1 else s1

-- `thread_exit` from `if (reftd)` on. The lock that it enters, it also leaves.
unfoldable pub exit_ref : ℕ → Store → Store
unfolding end_ref drop_ref
exit_ref td s = elim (s.thread td).reftd [
  | none ↦ s
  | some r ↦
      let s1 = if isvm td s then end_ref r (s.thread td).exit_status s else s in
      drop_ref (getvm r s) s1
]
