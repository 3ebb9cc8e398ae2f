-- ===== src/Queue/Chain.antt =====
-- Doubly linked chains of queue entries, the shape that every queue of the table has, and what
-- linking or unlinking one entry does to them.
use xinu_c_mips.Base.{
  ℕ, ◌≡◌, ◌≢◌, refl, sym, ◌∙◌, true, false, List, [], ◌∷◌, ◌++◌, has, Distinct, pos, eq→==, arith,
}
use xinu_c_mips.Kernel.{Qentry}

abbrev pub Table : Type 0
Table = ℕ → Qentry

-- From entry `a` the `qnext` fields lead through `xs` to `b`, and the `qprev` fields back.
abbrev pub Linked : Table → ℕ → List ℕ → ℕ → Type 0
Linked t a [] b = ((t a).qnext ≡ pos b) × ((t b).qprev ≡ pos a)
Linked t a (x ∷ xs) b = ((t a).qnext ≡ pos x) × ((t x).qprev ≡ pos a) × Linked t x xs b

abbrev pub first : List ℕ → ℕ → ℕ
first [] b = b
first (x ∷ xs) b = x

abbrev pub last : ℕ → List ℕ → ℕ
last a [] = a
last a (x ∷ xs) = last x xs

-- All the entries of a chain, its ends included.
abbrev pub nodes : ℕ → List ℕ → ℕ → List ℕ
nodes a xs b = a ∷ (xs ++ b ∷ [])

pub qnext-first :
    (t : Table) (a : ℕ) (xs : List ℕ) (b : ℕ) → Linked t a xs b → (t a).qnext ≡ pos (first xs b)
qnext-first t a [] b l = l.0
qnext-first t a (x ∷ xs) b l = l.0

pub qprev-last :
    (t : Table) (a : ℕ) (xs : List ℕ) (b : ℕ) → Linked t a xs b → (t b).qprev ≡ pos (last a xs)
qprev-last t a [] b l = l.1
qprev-last t a (x ∷ xs) b l = qprev-last t x xs b l.2

pub qprev-first :
    (t : Table) (a : ℕ) (xs ys : List ℕ) (b : ℕ)
    → Linked t a (xs ++ ys) b
    → (t (first ys b)).qprev ≡ pos (last a xs)
qprev-first t a [] [] b l = l.1
qprev-first t a [] (y ∷ ys) b l = l.1
qprev-first t a (x ∷ xs) ys b l = qprev-first t x xs ys b l.2

pub qnext-last :
    (t : Table) (a : ℕ) (xs ys : List ℕ) (b : ℕ)
    → Linked t a (xs ++ ys) b
    → (t (last a xs)).qnext ≡ pos (first ys b)
qnext-last t a [] ys b l = qnext-first t a ys b l
qnext-last t a (x ∷ xs) ys b l = qnext-last t x xs ys b l.2

pub qnext-mid :
    (t : Table) (a : ℕ) (xs : List ℕ) (x : ℕ) (ys : List ℕ) (b : ℕ)
    → Linked t a (xs ++ x ∷ ys) b
    → (t x).qnext ≡ pos (first ys b)
qnext-mid t a [] x ys b l = qnext-first t x ys b l.2
qnext-mid t a (y ∷ xs) x ys b l = qnext-mid t y xs x ys b l.2

pub ne_of_has : (i j : ℕ) (xs : List ℕ) → has i xs ≡ true → has j xs ≡ false → i ≢ j
ne_of_has i j xs h g e = cc

-- A chain survives every change that keeps its own fields.
pub Linked-frame :
    (t t' : Table) (a : ℕ) (xs : List ℕ) (b : ℕ)
    → ((i : ℕ) → has i (a ∷ xs) ≡ true → (t' i).qnext ≡ (t i).qnext)
    → ((i : ℕ) → has i (xs ++ b ∷ []) ≡ true → (t' i).qprev ≡ (t i).qprev)
    → Linked t a xs b
    → Linked t' a xs b
Linked-frame t t' a [] b f g l = ground (arith, f a, g b)
Linked-frame t t' a (x ∷ xs) b f g l = (
  ground (arith, f a),
  ground (arith, g x),
  Linked-frame t t' x xs b (λ i h. f i (ground arith)) (λ i h. g i (ground arith)) l.2,
)

-- `t'` is `t` with `pid` linked in between `p` and `n`.
pub record Spliced (t t' : Table) (p pid n : ℕ) : Type 0 where
  pub next_pid : (t' pid).qnext ≡ pos n
  pub prev_pid : (t' pid).qprev ≡ pos p
  pub next_p : (t' p).qnext ≡ pos pid
  pub prev_n : (t' n).qprev ≡ pos pid
  pub next_other : (i : ℕ) → i ≢ pid → i ≢ p → (t' i).qnext ≡ (t i).qnext
  pub prev_other : (i : ℕ) → i ≢ pid → i ≢ n → (t' i).qprev ≡ (t i).qprev

-- `t'` is `t` with the entry between `p` and `n` passed over.
pub record Unspliced (t t' : Table) (p n : ℕ) : Type 0 where
  pub next_p : (t' p).qnext ≡ pos n
  pub prev_n : (t' n).qprev ≡ pos p
  pub next_other : (i : ℕ) → i ≢ p → (t' i).qnext ≡ (t i).qnext
  pub prev_other : (i : ℕ) → i ≢ n → (t' i).qprev ≡ (t i).qprev

pub has-last : (a : ℕ) (xs ys : List ℕ) (b : ℕ) → has (last a xs) (nodes a (xs ++ ys) b) ≡ true
has-last a [] ys b = ground (arith, eq→== a a refl)
has-last a (x ∷ xs) ys b = ground (arith, has-last x xs ys b)

has-end : (xs : List ℕ) (b : ℕ) → has b (xs ++ b ∷ []) ≡ true
has-end [] b = ground arith
has-end (x ∷ xs) b = ground (arith, has-end xs b)

pub has-first : (xs ys : List ℕ) (b : ℕ) → has (first ys b) ((xs ++ ys) ++ b ∷ []) ≡ true
has-first [] [] b = ground arith
has-first [] (y ∷ ys) b = ground arith
has-first (x ∷ xs) ys b = ground (arith, has-first xs ys b)

pub has-init : (i : ℕ) (xs : List ℕ) (b : ℕ) → has i xs ≡ true → has i (xs ++ b ∷ []) ≡ true
has-init i [] b h = cc
has-init i (x ∷ xs) b h = ground (arith, has-init i xs b)

pub has-next :
    (xs : List ℕ) (pid : ℕ) (ys : List ℕ) (b : ℕ)
    → has (first ys b) ((xs ++ pid ∷ ys) ++ b ∷ []) ≡ true
has-next [] pid [] b = ground arith
has-next [] pid (y ∷ ys) b = ground arith
has-next (x ∷ xs) pid ys b = ground (arith, has-next xs pid ys b)

-- Linking an entry in between two neighbours of a chain.
pub Linked-splice :
    (t t' : Table) (a : ℕ) (xs ys : List ℕ) (b pid : ℕ)
    → Linked t a (xs ++ ys) b
    → Spliced t t' (last a xs) pid (first ys b)
    → Distinct (nodes a (xs ++ ys) b)
    → has pid (nodes a (xs ++ ys) b) ≡ false
    → Linked t' a (xs ++ pid ∷ ys) b
Linked-splice t t' a [] [] b pid l s d new = (s.next_p, s.prev_pid, (s.next_pid, s.prev_n))
Linked-splice t t' a [] (y ∷ ys) b pid l s d new = (
  s.next_p,
  s.prev_pid,
  (
    s.next_pid,
    s.prev_n,
    Linked-frame t t' y ys b
        (λ i h.
          s.next_other i (ne_of_has i pid (nodes y ys b) (has-init i (y ∷ ys) b h) (ground arith))
            (ne_of_has i a (nodes y ys b) (has-init i (y ∷ ys) b h) d.0))
        (λ i h.
          s.prev_other i (ne_of_has i pid (ys ++ b ∷ []) h (ground arith))
            (ne_of_has i y (ys ++ b ∷ []) h d.1.0))
        l.2,
  ),
)
Linked-splice t t' a (x ∷ xs) ys b pid l s d new = (
  s.next_other a (ground arith)
        (λ e. ne_of_has (last x xs) a (nodes x (xs ++ ys) b) (has-last x xs ys b) d.0 (sym e))
      ∙ l.0,
  s.prev_other x (ground arith)
        (λ e. ne_of_has (first ys b) x ((xs ++ ys) ++ b ∷ []) (has-first xs ys b) d.1.0 (sym e))
      ∙ l.1,
  Linked-splice t t' x xs ys b pid l.2 s d.1 (ground arith),
)

-- Passing over an entry of a chain.
pub Linked-unsplice :
    (t t' : Table) (a : ℕ) (xs ys : List ℕ) (b pid : ℕ)
    → Linked t a (xs ++ pid ∷ ys) b
    → Unspliced t t' (last a xs) (first ys b)
    → Distinct (nodes a (xs ++ pid ∷ ys) b)
    → Linked t' a (xs ++ ys) b
Linked-unsplice t t' a [] [] b pid l s d = (s.next_p, s.prev_n)
Linked-unsplice t t' a [] (y ∷ ys) b pid l s d = (
  s.next_p,
  s.prev_n,
  Linked-frame t t' y ys b
      (λ i h.
        s.next_other i (ne_of_has i a (nodes y ys b) (has-init i (y ∷ ys) b h) (ground arith)))
      (λ i h. s.prev_other i (ne_of_has i y (ys ++ b ∷ []) h d.1.1.0)) l.2.2,
)
Linked-unsplice t t' a (x ∷ xs) ys b pid l s d = (
  s.next_other a (λ e.
        ne_of_has (last x xs) a (nodes x (xs ++ pid ∷ ys) b) (has-last x xs (pid ∷ ys) b) d.0
          (sym e))
      ∙ l.0,
  s.prev_other x (λ e.
        ne_of_has (first ys b) x ((xs ++ pid ∷ ys) ++ b ∷ []) (has-next xs pid ys b) d.1.0 (sym e))
      ∙ l.1,
  Linked-unsplice t t' x xs ys b pid l.2 s d.1,
)
