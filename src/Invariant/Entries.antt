-- ===== src/Invariant/Entries.antt =====
-- Writes to a process's entry that leave its state alone, and to the rest of the kernel's state,
-- keep the tables consistent.
use xinu_c_mips.Base.{ℕ, ◌≡◌, ◌∙◌, ap, Bool-cases, ◌==◌, ==→eq, List, inl, inr, update, ◌<ℤ◌}
use xinu_c_mips.Kernel.{Kernel, Procent, minkey}
use xinu_c_mips.Queue.Chain.{Table}
use xinu_c_mips.Invariant.{Placed, Consistent, on}

module _ {t : Table} {p : ℕ → Procent} {l : ℕ → List ℕ} (v : Placed t p l) (pid : ℕ) (p' : Procent)
    (state : p'.prstate ≡ (p pid).prstate) (sem : p'.prsem ≡ (p pid).prsem)
    (prio : minkey <ℤ p'.prprio) where
  Placed-entry : Placed t (update p pid p') l
  unfolding update
  Placed-entry = record {
    queues = v.queues;
    member = λ i q h iq. elim (Bool-cases (i == pid)) [
      | inl e ↦ rw (e, state, sem) (v.member i q h iq ∙ ap (λ (n : ℕ). on (p n) q) (==→eq i pid e))
      | inr n ↦ rw n (v.member i q h iq)
    ];
    waits = λ i h. elim (Bool-cases (i == pid)) [
      | inl e ↦ rw (e, state, sem) (rw (==→eq i pid e) at (v.waits i h))
      | inr n ↦ rw n (v.waits i h)
    ];
    sorted = v.sorted;
    delays = v.delays;
    prios = λ i h. elim (Bool-cases (i == pid)) [ inl e ↦ rw e prio | inr n ↦ rw n (v.prios i h) ];
    idle = elim (Bool-cases (0 == pid)) [
      | inl e ↦ rw (e, state) (rw (==→eq 0 pid e) at (v.idle))
      | inr n ↦ rw n v.idle
    ];
  }

module _ (k : Kernel) (l : ℕ → List ℕ) (inv : Consistent k l) (pid : ℕ) (p' : Procent)
    (state : p'.prstate ≡ (k.proctab pid).prstate) (sem : p'.prsem ≡ (k.proctab pid).prsem)
    (prio : minkey <ℤ p'.prprio) where
  pub Consistent-entry : Consistent (record k { proctab = update k.proctab pid p' }) l
  unfolding update
  Consistent-entry = record {
    placed = Placed-entry inv.placed pid p' state sem prio;
    counted = inv.counted;
    running = record {
      ready_id = inv.running.ready_id;
      sleep_id = inv.running.sleep_id;
      low = inv.running.low;
      single = λ i h. elim (Bool-cases (i == pid)) [
        | inl e ↦
            rw (e, state)
              (λ z.
                inv.running.single i h (ap (λ (n : ℕ). (k.proctab n).prstate) (==→eq i pid e) ∙ z))
        | inr n ↦ rw n (inv.running.single i h)
      ];
    };
  }
