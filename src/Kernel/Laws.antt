-- ===== src/Kernel/Laws.antt =====
-- Laws of the composition of commands.
use xinu_c_mips.Base.{◌≡◌, refl, ap}
use xinu_c_mips.Kernel.Command.{Run, Cmd, done, switch, fault, out_of_fuel, halted, and_then}

module _ {A B C : Type 0} where
  pub and_then_assoc :
      (r : Run A) (f : A → Cmd B) (g : B → Cmd C)
      → and_then (and_then r f) g ≡ and_then r (λ a k. and_then (f a k) g)
  and_then_assoc (done a k) f g = refl
  and_then_assoc (switch k rest) f g = ap (switch k) (λ i k'. and_then_assoc (rest k') f g i)
  and_then_assoc fault f g = refl
  and_then_assoc out_of_fuel f g = refl
  and_then_assoc (halted k) f g = refl
