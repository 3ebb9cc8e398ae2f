-- ===== src/Terminal/Ring.antt =====
-- A buffer of the driver as a queue: the bytes from an offset on, going round at its end.
use xinu_c_mips.Base.{
  ℕ, zero, suc, ◌+◌, ◌-◌, ◌<◌, ◌≡◌, refl, ap, ◌∙◌, List, [], ◌∷◌, ◌++◌, length, arith, ltb, lt→ltb,
  if◌then◌else◌, update, update_same, update_other, pos, ◌+ℤ◌,
}
use mathlib.Core.Path.{ap₂}
use xinu_c_mips.Terminal.{Tty, done, offset, wrap_at, step}

-- The offset `n` places behind `h` in a buffer of `cap` bytes.
abbrev pub place_at : ℕ → ℕ → ℕ → ℕ
place_at cap h n = if ltb (h + n) cap then h + n else h + n - cap

abbrev pub window : (ℕ → ℕ) → ℕ → ℕ → ℕ → List ℕ
window buf cap h zero = []
window buf cap h (suc n) = buf h ∷ window buf cap (place_at cap h 1) n

pub length-window : (buf : ℕ → ℕ) (cap h n : ℕ) → length (window buf cap h n) ≡ n
length-window buf cap h zero = refl
length-window buf cap h (suc n) = ap suc (length-window buf cap (place_at cap h 1) n)

-- Writing at the place behind the last byte adds it at the end.
pub window-update :
    (buf : ℕ → ℕ) (cap h n x i : ℕ)
    → h < cap
    → n < cap
    → i ≡ place_at cap h n
    → window (update buf i x) cap h (suc n) ≡ window buf cap h n ++ (x ∷ [])
window-update buf cap h zero x i hh hn e =
    let at : h ≡ i = ground arith in ap (λ y. y ∷ []) (ap (update buf i x) at ∙ update_same buf i x)
window-update buf cap h (suc n) x i hh hn e =
    let next : place_at cap h 1 < cap = ground arith in
    let at : i ≡ place_at cap (place_at cap h 1) n = ground arith in
    ap₂ ◌∷◌ (update_other buf i x h (ground arith))
      (window-update buf cap (place_at cap h 1) n x i next (omega arith) at)

-- A pointer of the driver that is stepped and wrapped.
pub wrap_at-step : (cap i : ℕ) → i < cap → wrap_at cap (step (pos i)) ≡ pos (place_at cap i 1)
unfolding wrap_at step ◌+ℤ◌
wrap_at-step cap i h = ground arith

pub offset-pos : (bound i : ℕ) (s : Tty) → i < bound → offset bound (pos i) s ≡ done i s
unfolding offset
offset-pos bound i s h = rw (lt→ltb i bound h) refl
