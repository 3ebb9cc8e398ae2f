-- ===== src/Kernel/Guarantee.antt =====
-- What a command guarantees and relies on: `P` holds whenever another process takes over, and if it
-- holds when this one is resumed, the command ends with `Q`. It never faults or runs out of fuel.
use xinu_c_mips.Kernel.State.{Kernel}
use xinu_c_mips.Kernel.Command.{Run, Cmd, done, switch, halted, and_then}

pub data Safe {A : Type 0} (P : Kernel → Type 0) (Q : A → Kernel → Type 0) : Run A → Type 0 where
  ends : {a : A} {k : Kernel} → Q a k → Safe P Q (done a k)
  switches :
      {k : Kernel} {c : Kernel → Run A}
      → P k
      → ((k' : Kernel) → P k' → Safe P Q (c k'))
      → Safe P Q (switch k c)
  stops : {k : Kernel} → P k → Safe P Q (halted k)

module _ {A B : Type 0} {P : Kernel → Type 0} {Q : A → Kernel → Type 0}
    {R : B → Kernel → Type 0} where
  pub Safe-bind :
      {m : Run A} {f : A → Cmd B}
      → Safe P Q m
      → ((a : A) (k : Kernel) → Q a k → Safe P R (f a k))
      → Safe P R (and_then m f)
  Safe-bind (ends q) next = next _ _ q
  Safe-bind (switches p rest) next = switches p (λ k' p'. Safe-bind (rest k' p') next)
  Safe-bind (stops p) next = stops p
