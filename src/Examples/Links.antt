-- ===== src/Examples/Links.antt =====
-- The theorems about the queues, each applied at a concrete state.
use xinu_c_mips.Base.{
  ℕ, ◌≡◌, ◌≢◌, refl, false, [], ◌∷◌, has, pos, update, arith, ◌==◌, if◌then◌else◌,
}
use xinu_c_mips.Kernel.{done, ok, with_qnext, with_qprev, with_qkey}
use xinu_c_mips.Queue.{enqueue, getitem, dequeue, insert, insertd}
use xinu_c_mips.Queue.Chain.{Table}
use xinu_c_mips.Queue.Table.{Queues, IsOff}
use xinu_c_mips.Queue.Fifo.{Front, enqueue-append, getitem-remove, dequeue-Front}
use xinu_c_mips.Queue.Insert.{Sorted, insert-Sorted}
use xinu_c_mips.Queue.Due.{Delays, due}
use xinu_c_mips.Queue.Delta.{insertd-due}
use xinu_c_mips.Examples.World.{world, world_queues, world_lists, world_queues-Queues, three-IsOff}

dequeue-Front_example : Front world world_lists 16 dequeue (2 ∷ [])
unfolding update
dequeue-Front_example =
    dequeue-Front world world_lists world_queues-Queues 16 (omega arith) (2 ∷ []) refl

enqueue-append_example :
    (t : Table) × (enqueue (pos 3) (pos 16) world ≡ done (pos 3) (record world { queuetab = t }))
    × Queues t (update world_lists 16 (2 ∷ 3 ∷ []))
    × ((i : ℕ) → (t i).qkey ≡ (world_queues i).qkey)
unfolding update
enqueue-append_example =
    enqueue-append world world_lists world_queues-Queues 16 (omega arith) 3 (omega arith)
      (omega arith) three-IsOff

getitem-remove_example :
    (t : Table) × (getitem (pos 2) world ≡ done (pos 2) (record world { queuetab = t }))
    × Queues t (update world_lists 16 [])
    × IsOff (update world_lists 16 []) 2
    × ((i : ℕ) → (t i).qkey ≡ (world_queues i).qkey)
unfolding update
getitem-remove_example =
    getitem-remove world world_lists world_queues-Queues 16 (omega arith) [] 2 [] refl

insert-Sorted_example :
    (t : Table) × (insert (pos 3) (pos 80) (pos 10) world ≡ done ok (record world { queuetab = t }))
    × Queues t (update world_lists 80 (3 ∷ 0 ∷ []))
    × ((i : ℕ) → (t i).qkey ≡ (if i == 3 then pos 10 else (world_queues i).qkey))
    × (Sorted world_queues (0 ∷ []) → Sorted t (3 ∷ 0 ∷ []))
unfolding update with_qnext with_qprev with_qkey
insert-Sorted_example =
    insert-Sorted world world_lists world_queues-Queues 80 (omega arith) 3 (pos 10) (omega arith)
      (omega arith) three-IsOff (omega arith)

insertd-due_example :
    (t : Table) × (insertd (pos 3) (pos 82) (pos 9) world ≡ done ok (record world { queuetab = t }))
    × Queues t (update world_lists 82 (4 ∷ 3 ∷ []))
    × Delays t (4 ∷ 3 ∷ [])
    × (due t 0 (4 ∷ 3 ∷ []) ≡ (4, 5) ∷ (3, 9) ∷ [])
    × ((i : ℕ) → i ≢ 3 → has i (4 ∷ 83 ∷ []) ≡ false → (t i).qkey ≡ (world_queues i).qkey)
unfolding update with_qnext with_qprev with_qkey
insertd-due_example =
    insertd-due world world_lists world_queues-Queues 82 (omega arith) 3 9 (omega arith)
      (omega arith) three-IsOff (omega arith) (refl, omega arith, tt)
