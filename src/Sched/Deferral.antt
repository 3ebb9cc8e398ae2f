-- ===== src/Sched/Deferral.antt =====
-- What deferred rescheduling is for: between its start and its end nothing is rescheduled, and the end
-- makes up for it.
use mathlib.Core.Path.{ap₂}
use xinu_c_mips.Base.{
  ◌<◌, ◌^◌, ◌≡◌, refl, ap, ◌∙◌, ◌+◌, ◌-◌, ltb, leb_ℤ, ◌==◌, ◌&&◌, ◌||◌, length, [], ◌∷◌, arith,
  ltb_ℤ, ◌+ℤ◌, to_uint32, to_int32, ℕ, Bool, true, false, List, ℤ, pos, eqb_ℤ, ◌-ℤ◌, wrap32,
  if◌then◌else◌,
}
use xinu_c_mips.Kernel.{Kernel, Cmd, Run, done, pure, ◌>>◌, ok}
use xinu_c_mips.Sched.{resched, sched_cntl, defer_start, defer_stop}

-- What happens while rescheduling is deferred: a call of `resched`, or a start or an end of a deferral.
pub data Event : Type 0 where
  tries : Event
  starts : Event
  stops : Event

abbrev pub happens : Event → Cmd (Unit {0})
happens tries = resched
happens starts = sched_cntl defer_start >> pure tt
happens stops = sched_cntl defer_stop >> pure tt

abbrev pub happen : List Event → Cmd (Unit {0})
happen [] = pure tt
happen (e ∷ es) = happens e >> happen es

-- From `n` deferrals on there is always at least one, and in the end exactly one.
abbrev pub nested : ℕ → List Event → Bool
nested n [] = n == 1
nested n (tries ∷ es) = nested n es
nested n (starts ∷ es) = nested (n + 1) es
nested n (stops ∷ es) = ltb 1 n && nested (n - 1) es

abbrev pub tried : List Event → Bool
tried [] = false
tried (tries ∷ es) = true
tried (starts ∷ es) = tried es
tried (stops ∷ es) = tried es

one_more : (n : ℕ) → n + 1 < 2 ^ 31 → wrap32 (pos n +ℤ pos 1) ≡ pos (n + 1)
unfolding ◌+ℤ◌ wrap32 to_uint32 to_int32
one_more n h = ground arith

one_less : (n : ℕ) → 0 < n → n < 2 ^ 31 → wrap32 (pos n -ℤ pos 1) ≡ pos (n - 1)
unfolding ◌-ℤ◌ wrap32 to_uint32 to_int32
one_less n h g = ground arith

module _ (k : Kernel) (n : ℕ) (e : k.ndefers ≡ pos n) (small : n < 2 ^ 31) where
  resched_waits : 0 < n → resched k ≡ done tt (record k { attempt = true })
  unfolding resched
  resched_waits h =
      let test : ltb_ℤ (pos 0) k.ndefers ≡ true = ap (ltb_ℤ (pos 0)) e ∙ ground arith in
      rw test refl

  start_inner :
      0 < n
      → n + 1 < 2 ^ 31
      → sched_cntl defer_start k ≡ done ok (record k { ndefers = pos (n + 1) })
  unfolding sched_cntl
  start_inner h g =
      let test : eqb_ℤ k.ndefers (pos 0) ≡ false = ap (λ z. eqb_ℤ z (pos 0)) e ∙ ground arith in
      let up : wrap32 (k.ndefers +ℤ pos 1) ≡ pos (n + 1) =
        ap (λ z. wrap32 (z +ℤ pos 1)) e ∙ one_more n g in
      rw (test, up) refl

  stop_inner : 1 < n → sched_cntl defer_stop k ≡ done ok (record k { ndefers = pos (n - 1) })
  unfolding sched_cntl
  stop_inner h =
      let some_out : leb_ℤ k.ndefers (pos 0) ≡ false = ap (λ z. leb_ℤ z (pos 0)) e ∙ ground arith in
      let down : wrap32 (k.ndefers -ℤ pos 1) ≡ pos (n - 1) =
        ap (λ z. wrap32 (z -ℤ pos 1)) e ∙ one_less n (omega arith) small in
      let more : eqb_ℤ (pos (n - 1)) (pos 0) ≡ false = ground arith in
      rw (some_out, down, more) refl

-- The last end, and the first start.
stop_outer :
    (k : Kernel)
    → k.ndefers ≡ pos 1
    → sched_cntl defer_stop k
      ≡ ((if k.attempt then resched else pure tt) >> pure ok) (record k { ndefers = pos 0 })
unfolding sched_cntl
stop_outer k e =
    let some_out : leb_ℤ k.ndefers (pos 0) ≡ false = ap (λ z. leb_ℤ z (pos 0)) e in
    let down : wrap32 (k.ndefers -ℤ pos 1) ≡ pos 0 =
      ap (λ z. wrap32 (z -ℤ pos 1)) e ∙ one_less 1 (omega arith) (omega arith) in
    rw (some_out, down) refl

start_outer :
    (k : Kernel)
    → k.ndefers ≡ pos 0
    → sched_cntl defer_start k ≡ done ok (record k { ndefers = pos 1; attempt = false })
unfolding sched_cntl
start_outer k e =
    let test : eqb_ℤ k.ndefers (pos 0) ≡ true = ap (λ z. eqb_ℤ z (pos 0)) e in
    let up : wrap32 (k.ndefers +ℤ pos 1) ≡ pos 1 =
      ap (λ z. wrap32 (z +ℤ pos 1)) e ∙ one_more 0 (omega arith) in
    rw (test, up) refl

or_false : (b : Bool) → b ≡ b || false
or_false true = refl
or_false false = refl

or_true : (b : Bool) → true ≡ b || true
or_true true = refl
or_true false = refl

happen_deferred :
    (es : List Event) (k : Kernel) (n : ℕ)
    → k.ndefers ≡ pos n
    → 0 < n
    → nested n es ≡ true
    → n + length es < 2 ^ 31
    → happen es k ≡ done tt (record k { ndefers = pos 1; attempt = k.attempt || tried es })
happen_deferred [] k n e h g small =
    ap₂ (λ z b. done tt (record k { ndefers = z; attempt = b })) (e ∙ ap pos (ground arith))
      (or_false k.attempt)
happen_deferred (tries ∷ es) k n e h g small = rw (resched_waits k n e (omega arith) h) (
    happen_deferred es (record k { attempt = true }) n e h g (omega arith)
    ∙ ap (λ b. done tt (record k { ndefers = pos 1; attempt = b })) (or_true k.attempt))
happen_deferred (starts ∷ es) k n e h g small =
    rw (start_inner k n e (omega arith) h (omega arith)) (
      happen_deferred es (record k { ndefers = pos (n + 1) }) (n + 1) refl (omega arith) g
        (omega arith))
happen_deferred (stops ∷ es) k n e h g small = rw (stop_inner k n e (omega arith) (ground arith)) (
    happen_deferred es (record k { ndefers = pos (n - 1) }) (n - 1) refl (ground arith)
      (ground arith) (omega arith))

-- What a start of a deferral, what happens, and its end come to: what `resched` is to do is done once,
-- in the end, if it was called in between.
abbrev pub Deferred : Kernel → List Event → Run ℤ → Type 0
Deferred k es out =
    out
    ≡ ((if tried es then resched else pure tt) >> pure ok)
        (record k { ndefers = pos 0; attempt = tried es })

-- From a start of a deferral to its end, whatever calls of `resched` and further deferrals, each with
-- its end, lie in between, nothing is rescheduled; the end calls `resched` once if it was called in
-- between, and not otherwise. Nothing is deferred at the start, and the calls are fewer than
-- 2 ^ 31.
pub sched_cntl-Deferred :
    (k : Kernel) (es : List Event)
    → k.ndefers ≡ pos 0
    → nested 1 es ≡ true
    → 1 + length es < 2 ^ 31
    → Deferred k es ((sched_cntl defer_start >> (happen es >> sched_cntl defer_stop)) k)
sched_cntl-Deferred k es e h small = rw (start_outer k e) (
    rw
      (happen_deferred es (record k { ndefers = pos 1; attempt = false }) 1 refl (omega arith) h
        small)
      (stop_outer (record k { ndefers = pos 1; attempt = tried es }) refl))
