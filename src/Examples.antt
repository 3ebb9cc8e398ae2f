-- ===== src/Examples.antt =====
-- The theorems about the kernel, each applied at a concrete state.
pub mod World
pub mod Links
pub mod Heap
pub mod Text
pub mod Calendar
pub mod Naming
pub mod Console
pub mod Command
use xinu_c_mips.Base.{
  ◌⊎◌, ℕ, zero, suc, ◌+◌, ◌<◌, ◌^◌, ◌≡◌, ◌≢◌, refl, sym, ◌∙◌, ap, false, true, List, [], ◌∷◌, ◌++◌,
  has, ℤ, pos, update, arith, ◌==◌, if◌then◌else◌,
}
use xinu_c_mips.Kernel.{
  nsem, nproc, syserr, Kernel, ◌>>◌, done, ok, Safe, with_qnext, with_qprev, with_qkey,
}
use xinu_c_mips.Queue.{enqueue, getitem, getfirst, getlast, dequeue, insert, insertd}
use xinu_c_mips.Queue.Chain.{Table}
use xinu_c_mips.Queue.Table.{Queues, IsOff}
use xinu_c_mips.Queue.Fifo.{
  Front, enqueue-append, getitem-remove, getfirst-Front, getlast-remove, dequeue-Front,
}
use xinu_c_mips.Queue.Insert.{Sorted, above, below, insert-Sorted}
use xinu_c_mips.Queue.Due.{Delays, due, place, passed, behind}
use xinu_c_mips.Queue.Delta.{insertd-due}
use xinu_c_mips.Sched.{resched, ready}
use xinu_c_mips.Sched.Dispatch.{Steady}
use xinu_c_mips.Sched.Resched.{resched-Safe, ready-Safe}
use xinu_c_mips.Sched.{sched_cntl, defer_start, defer_stop}
use xinu_c_mips.Sched.Deferral.{Event, tries, starts, stops, happen, Deferred, sched_cntl-Deferred}
use xinu_c_mips.Sched.Choice.{Choice, resched-Choice}
use xinu_c_mips.Semaphore.{wait, signal}
use xinu_c_mips.Semaphore.Wait.{wait-Safe}
use xinu_c_mips.Semaphore.Signalled.{Signalled, signal-Signalled}
use xinu_c_mips.Process.{suspend, resume}
use xinu_c_mips.Process.Suspend.{resume-Safe}
use xinu_c_mips.Process.Suspended.{Suspended, suspend-Suspended}
use xinu_c_mips.Message.{sleepms, recvtime}
use xinu_c_mips.Message.Sleep.{sleepms-Safe, recvtime-Safe}
use xinu_c_mips.Semaphore.{newsem, signaln}
use xinu_c_mips.Semaphore.Signals.{signaln-Safe}
use xinu_c_mips.Semaphore.Allocate.{Allocated, sem_free, newsem-Allocated}
use xinu_c_mips.Process.{newpid}
use xinu_c_mips.Process.Slots.{Found, slot_free, newpid-Found}
use xinu_c_mips.Message.{receive}
use xinu_c_mips.Message.Taken.{Takes, receive-Takes}
use xinu_c_mips.Message.{unsleep, send, wakeup}
use xinu_c_mips.Message.Unsleep.{unsleep-due}
use xinu_c_mips.Message.Sent.{Sent, send-Sent}
use xinu_c_mips.Message.Wake.{wakeup-Safe}
use xinu_c_mips.Message.Ticked.{Ticked}
use xinu_c_mips.Invariant.{Loose}
use xinu_c_mips.Memory.{getmem, roundmb}
use xinu_c_mips.Memory.Blocks.{first_fit}
use xinu_c_mips.Memory.Allocation.{Grant}
use xinu_c_mips.Memory.Getmem.{getmem-Grant}
use xinu_c_mips.Init.{init_tables}
use xinu_c_mips.Init.Empty.{init_tables-Consistent}
use xinu_c_mips.Invariant.{Consistent}
use xinu_c_mips.Invariant.Placing.{loosen, IsOff-of}
use xinu_c_mips.Examples.World.{
  world, world_queues, world_lists, world_queues-Queues, world-Consistent, three-IsOff,
}

resched-Choice_example : Choice world world_lists (resched world)
resched-Choice_example = resched-Choice world world_lists world-Consistent refl refl

resched-Safe_example : Safe Steady (λ _. Steady) (resched world)
resched-Safe_example = resched-Safe world world_lists world-Consistent

ready-Safe_example : Safe Steady (λ _. Steady) (ready (pos 3) true world)
ready-Safe_example =
    ready-Safe world world_lists world-Consistent.counted world-Consistent.running 3 (omega arith)
      (loosen world-Consistent.placed 3 three-IsOff) (omega arith)

wait-Safe_example : Safe Steady (λ _. Steady) (wait (pos 0) world)
wait-Safe_example = wait-Safe (pos 0) world world_lists world-Consistent refl (omega arith)

resume-Safe_example : Safe Steady (λ _. Steady) (resume (pos 3) world)
resume-Safe_example = resume-Safe (pos 3) world world_lists world-Consistent

sleepms-Safe_example : Safe Steady (λ _. Steady) (sleepms 7 world)
sleepms-Safe_example =
    sleepms-Safe world world_lists world-Consistent refl (omega arith) 7 (omega arith)

recvtime-Safe_example : Safe Steady (λ _. Steady) (recvtime (pos 2) world)
recvtime-Safe_example =
    recvtime-Safe (pos 2) world world_lists world-Consistent refl (omega arith)
      (omega arith, omega arith)

init_tables-Consistent_example :
    (k' : Kernel) × (init_tables 4096 world ≡ done tt k') × Consistent k' (λ _. [])
init_tables-Consistent_example = init_tables-Consistent 4096 world

signaln-Safe_example : Safe Steady (λ _. Steady) (signaln (pos 0) (pos 2) world)
signaln-Safe_example =
    signaln-Safe (pos 0) (pos 2) world world_lists world-Consistent (λ j h. ground arith)

newsem-Allocated_example :
    Allocated world (newsem world)
    ⊎ (((j : ℕ) → j < nsem → sem_free world j ≡ false) × (newsem world ≡ done syserr world))
newsem-Allocated_example = newsem-Allocated world (omega arith)

newpid-Found_example :
    Found world (newpid world)
    ⊎ (((i : ℕ) → i < nproc → slot_free world i ≡ false)
        × (n : ℕ) × (newpid world ≡ done syserr (record world { nextpid = n })))
newpid-Found_example = newpid-Found world

unsleep-due_example :
    (t' : Table) × (l' : ℕ → List ℕ) × (unsleep (pos 4) world
      ≡ done ok (record world { queuetab = t' }))
    × Loose t' world.proctab l' 4
    × (due t' 0 (l' 82) ≡ [])
    × ((r : ℕ) → r ≢ 82 → l' r ≡ world_lists r)
unfolding update with_qnext with_qprev with_qkey
unsleep-due_example = unsleep-due world world_lists 4 world-Consistent (omega arith) refl

signal-Signalled_example :
    Safe Steady (λ _. Steady) (signal (pos 0) world)
    × Signalled world world_lists (pos 0) (signal (pos 0) world)
signal-Signalled_example =
    signal-Signalled (pos 0) world world_lists world-Consistent (λ j h. ground arith)

send-Sent_example :
    Safe Steady (λ _. Steady) (send (pos 3) 99 world)
    × Sent world world_lists 99 (pos 3) (send (pos 3) 99 world)
send-Sent_example = send-Sent (pos 3) 99 world world_lists world-Consistent

suspend-Suspended_example :
    Safe Steady (λ _. Steady) (suspend (pos 1) world)
    × Suspended world world_lists (pos 1) (suspend (pos 1) world)
suspend-Suspended_example = suspend-Suspended (pos 1) world world_lists world-Consistent

receive-Takes_example :
    Safe Steady (λ _. Steady) (receive world) × Takes world world_lists (receive world)
receive-Takes_example = receive-Takes world world_lists world-Consistent refl (omega arith)

-- `resched` is called before, and inside, a deferral within the deferral.
abbrev nested_events : List Event
nested_events = tries ∷ starts ∷ tries ∷ stops ∷ []

sched_cntl-Deferred_example :
    Deferred world nested_events
      ((sched_cntl defer_start >> (happen nested_events >> sched_cntl defer_stop)) world)
sched_cntl-Deferred_example = sched_cntl-Deferred world nested_events refl refl (omega arith)
