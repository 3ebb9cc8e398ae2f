-- ===== src/Memory/Release.antt =====
-- What giving a block back does to the list of free blocks: it takes its place in the order and joins
-- the neighbours that it touches.
use xinu_c_mips.Base.{
  ℕ, ◌+◌, ◌%◌, ◌^◌, ◌<◌, ◌≤◌, ◌≡◌, ◌≢◌, refl, sym, subst, ◌∙◌, Bool, false, Option, none, some,
  List, [], ◌∷◌, ltb, ◌==◌, if◌then◌else◌, arith, update, update_other, Bool-cases, inl, inr, ==→eq,
  eq→==, ne→==,
}
use xinu_c_mips.Kernel.{Kernel, Run, done, ◌>>◌}
use xinu_c_mips.Memory.{load, store, add32, join_next}
use xinu_c_mips.Memory.Blocks.{Blocks, Blocks-move}

-- A block in front of a list, as one block with the first when they touch.
abbrev pub join : ℕ × ℕ → List (ℕ × ℕ) → List (ℕ × ℕ)
join (p, n) [] = (p, n) ∷ []
join (p, n) ((r, t) ∷ bs) = if p + n == r then (p, n + t) ∷ bs else (p, n) ∷ (r, t) ∷ bs

-- A block in front of the list, unless it overlaps the first one.
abbrev pub settle : ℕ × ℕ → List (ℕ × ℕ) → Option (List (ℕ × ℕ))
settle (p, n) [] = some ((p, n) ∷ [])
settle (p, n) ((r, t) ∷ bs) = if ltb r (p + n) then none else some (join (p, n) ((r, t) ∷ bs))

abbrev pub on_some : (List (ℕ × ℕ) → List (ℕ × ℕ)) → Option (List (ℕ × ℕ)) → Option (List (ℕ × ℕ))
on_some f none = none
on_some f (some bs) = some (f bs)

-- Whether the first block is below an address.
abbrev pub starts_below : ℕ → List (ℕ × ℕ) → Bool
starts_below p [] = false
starts_below p ((r, t) ∷ bs) = ltb r p

-- The block `(p, n)` given back behind the block `(q, s)`.
abbrev pub release_behind : ℕ × ℕ → ℕ × ℕ → List (ℕ × ℕ) → Option (List (ℕ × ℕ))
release_behind (q, s) (p, n) [] = if ltb p (q + s) then none else some (join (q, s) ((p, n) ∷ []))
release_behind (q, s) (p, n) ((r, t) ∷ bs) =
    let rest = release_behind (r, t) (p, n) bs in
    if ltb r p
    then on_some (λ l. (q, s) ∷ l) rest
    else if ltb p (q + s)
    then none
    else on_some (join (q, s)) (settle (p, n) ((r, t) ∷ bs))

abbrev pub release : ℕ × ℕ → List (ℕ × ℕ) → Option (List (ℕ × ℕ))
release (p, n) [] = settle (p, n) []
release (p, n) ((r, t) ∷ bs) =
    if ltb r p then release_behind (r, t) (p, n) bs else settle (p, n) ((r, t) ∷ bs)

-- Joining with a block in front that touches, and with one that does not.
pub join_touch :
    (q s p n : ℕ) (bs : List (ℕ × ℕ))
    → q + s ≡ p
    → join (q, s) (join (p, n) bs) ≡ join (q, s + n) bs
join_touch q s p n [] e = rw (eq→== (q + s) p e) refl
join_touch q s p n ((r, t) ∷ bs) e =
    let e' : q + (s + n) ≡ p + n = omega arith in
    let a : s + (n + t) ≡ s + n + t = omega arith in
    elim (Bool-cases (p + n == r)) [
      | inl w ↦ rw (e', w, eq→== (q + s) p e, a) refl
      | inr w ↦ rw (e', w, eq→== (q + s) p e) refl
    ]

pub join_apart :
    (q s p n : ℕ) (bs : List (ℕ × ℕ))
    → q + s < p
    → join (q, s) (join (p, n) bs) ≡ (q, s) ∷ join (p, n) bs
join_apart q s p n [] h = rw (ne→== (q + s) p (omega arith)) refl
join_apart q s p n ((r, t) ∷ bs) h = elim (Bool-cases (p + n == r)) [
  | inl w ↦ rw (w, ne→== (q + s) p (omega arith)) refl
  | inr w ↦ rw (w, ne→== (q + s) p (omega arith)) refl
]

-- A free block behind the header `a`.
pub linked-Blocks :
    (m : ℕ → ℕ) (a lo hi p n : ℕ) (bs : List (ℕ × ℕ))
    → a + 8 ≤ lo
    → lo ≤ p
    → p + n ≤ hi
    → n % 8 ≡ 0
    → 0 < n
    → Blocks m a (p + n) hi bs
    → Blocks (update (update (update m p (m a)) (p + 4) n) a p) a lo hi ((p, n) ∷ bs)
unfolding update
linked-Blocks m a lo hi p n bs h above below round some_size apart = (
  ground arith,
  ground arith,
  above,
  below,
  round,
  some_size,
  Blocks-move m _ a p (p + n) (p + n) hi bs (ground arith) (omega arith) (λ x g. ground arith)
      apart,
)

-- What `join_next` makes of the list from the block on: only the two words of the block change.
abbrev pub Joined : Kernel → ℕ → ℕ → ℕ → ℕ → List (ℕ × ℕ) → Run (Unit {0}) → Type 0
Joined k a lo hi p bs out =
    (m : ℕ → ℕ) × (out ≡ done tt (record k { mem = m }))
    × Blocks m a lo hi bs
    × ((y : ℕ) → y ≢ p → y ≢ p + 4 → m y ≡ k.mem y)

-- The memory after the block takes in the one behind it.
joined_memory : (ℕ → ℕ) → ℕ → ℕ → ℕ → ℕ → ℕ
joined_memory m p r l = update (update m (p + 4) l) p (m r)

joined_memory_other : (m : ℕ → ℕ) (p r l y : ℕ) → y ≢ p → y ≢ p + 4 → joined_memory m p r l y ≡ m y
unfolding joined_memory update
joined_memory_other m p r l y ne ne' = ground arith

joined_memory-Blocks :
    (m : ℕ → ℕ) (a lo hi p n r t : ℕ) (bs : List (ℕ × ℕ))
    → a + 8 ≤ lo
    → r ≡ p + n
    → Blocks m a lo hi ((p, n) ∷ (r, t) ∷ bs)
    → Blocks (joined_memory m p r (n + t)) a lo hi ((p, n + t) ∷ bs)
unfolding joined_memory update
joined_memory-Blocks m a lo hi p n r t bs h at b =
    let c = b.6 in
    (
      ground (arith, b.0, b.2),
      ground arith,
      b.2,
      omega (arith, c.3),
      omega (arith, b.4, c.4),
      omega (arith, b.5),
      Blocks-move m _ r p (r + t) (p + (n + t)) hi bs (ground arith) (omega arith)
          (λ x g. ground (arith, b.4, b.5, c.5)) c.6,
    )

pub join_next-Joined :
    (k : Kernel) (a lo hi p n : ℕ) (bs : List (ℕ × ℕ))
    → hi < 2 ^ 32
    → a + 8 ≤ lo
    → Blocks k.mem a lo hi ((p, n) ∷ bs)
    → Joined k a lo hi p (join (p, n) bs) (join_next p (k.mem p) k)
unfolding join_next load store joined_memory
join_next-Joined k a lo hi p n [] small h b =
    rw (b.1, b.6, ne→== (add32 p n) 0 (omega (arith, b.2, b.3, b.5)))
      (k.mem, refl, b, λ y ne ne'. refl)
join_next-Joined k a lo hi p n ((r, t) ∷ bs) small h b =
    let e : add32 p n ≡ p + n = omega (arith, b.3) in
    let c = b.6 in
    elim (Bool-cases (p + n == r)) [
      | inl touch ↦
          let at : r ≡ p + n = sym (==→eq (p + n) r touch) in
          let l : add32 n t ≡ n + t = omega (arith, c.3) in
          let after : update k.mem (p + 4) (n + t) r ≡ k.mem r =
            update_other k.mem (p + 4) (n + t) r (omega (arith, b.4, b.5)) in
          rw (b.1, e, c.0, touch, c.1, l, after)
            (
              joined_memory k.mem p r (n + t),
              refl,
              joined_memory-Blocks k.mem a lo hi p n r t bs h at b,
              λ y ne ne'. joined_memory_other k.mem p r (n + t) y ne ne',
            )
      | inr apart ↦ rw (b.1, e, c.0, apart) (k.mem, refl, b, λ y ne ne'. refl)
    ]

-- A block linked behind the header `a`, and then joined with the next.
pub link_join-Joined :
    (k : Kernel) (a lo hi p n : ℕ) (bs : List (ℕ × ℕ))
    → hi < 2 ^ 32
    → a + 8 ≤ lo
    → lo ≤ p
    → p + n ≤ hi
    → n % 8 ≡ 0
    → 0 < n
    → Blocks k.mem a (p + n) hi bs
    → (m : ℕ → ℕ) × ((store p (k.mem a)
            >> (store (p + 4) n >> (store a p >> join_next p (k.mem a))))
          k
        ≡ done tt (record k { mem = m }))
      × Blocks m a lo hi (join (p, n) bs)
      × ((y : ℕ) → y ≢ a → y ≢ p → y ≢ p + 4 → m y ≡ k.mem y)
unfolding store update
link_join-Joined k a lo hi p n bs small h above below round some_size b =
    let m1 = update (update (update k.mem p (k.mem a)) (p + 4) n) a p in
    let j =
      join_next-Joined (record k { mem = m1 }) a lo hi p n bs small h
        (linked-Blocks k.mem a lo hi p n bs h above below round some_size b) in
    let next : m1 p ≡ k.mem a = ground arith in
    (
      j.0,
      subst (λ x. join_next p x (record k { mem = m1 }) ≡ done tt (record k { mem = j.0 })) next
          j.1,
      j.2,
      λ y na np np'. j.3 y np np' ∙ ground arith,
    )
