-- ===== src/Message/Ticked.antt =====
-- What a clock tick does to the sleeping processes.
use xinu_c_mips.Base.{ℕ, ◌+◌, ◌-◌, ◌*◌, ◌%◌, ◌^◌, ◌<◌, ◌≡◌, List, [], ◌∷◌, ◌==◌, if◌then◌else◌}
use xinu_c_mips.Kernel.{Kernel, Run, Cmd, done, pure, and_then, quantum}
use xinu_c_mips.Queue.Chain.{Table}
use xinu_c_mips.Queue.Due.{due}
use xinu_c_mips.Sched.{resched}
use xinu_c_mips.Message.{clkticks_per_sec}
use xinu_c_mips.Message.Wake.{later, Rose}
use xinu_c_mips.Invariant.{Consistent, sleep_q}

-- The sleeping processes and when they are due, one tick later; but a first process that is due at once
-- wakes without time going on for the others.
abbrev pub ticked : List (ℕ × ℕ) → List (ℕ × ℕ)
ticked [] = []
ticked ((x, d) ∷ ds) = later (if d == 0 then 0 else 1) ((x, d) ∷ ds)

-- The tick of the sleep queue: no process wakes, or some do, and then `resched` runs.
pub data Passed (k : Kernel) (l : ℕ → List ℕ) : Run (Unit {0}) → Type 0 where
  quiet :
      {t : Table}
      → Consistent (record k { queuetab = t }) l
      → due t 0 (l sleep_q) ≡ ticked (due k.queuetab 0 (l sleep_q))
      → Passed k l (done tt (record k { queuetab = t }))
  wakes :
      (k' : Kernel)
      → Rose k (l sleep_q) (ticked (due k.queuetab 0 (l sleep_q))) k'
      → Passed k l (resched k')

-- The end of a tick: the time slice of the process that runs then is one tick shorter, and `resched` runs
-- when it is over.
abbrev pub time_slice : Cmd (Unit {0})
time_slice k =
    let left = (k.preempt + 2 ^ 32 - 1) % 2 ^ 32 in
    (if left == 0 then (λ kr. resched (record kr { preempt = quantum })) else pure tt)
      (record k { preempt = left })

-- The clock counts a tick, and the sleeping processes are due one tick earlier; those whose time has come
-- become ready, and then `resched` runs; then the time slice is shortened.
pub data Ticked (k : Kernel) (l : ℕ → List ℕ) : Run (Unit {0}) → Type 0 where
  ticks :
      {r : Run (Unit {0})} (a b : ℕ)
      → a < clkticks_per_sec
      → b * clkticks_per_sec + a ≡ k.clktime * clkticks_per_sec + k.clkticks + 1
      → Passed (record k { clkticks = a; clktime = b }) l r
      → Ticked k l (and_then r (λ _. time_slice))
