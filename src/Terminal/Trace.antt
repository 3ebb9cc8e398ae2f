-- ===== src/Terminal/Trace.antt =====
-- Writers and transmitter interrupts of a line in any order.
use mathlib.Core.List.{append_assoc, append-nil}
use xinu_c_mips.Base.{
  ℕ, ◌≡◌, refl, sym, subst, ap, ◌∙◌, List, [], ◌∷◌, ◌++◌, take, drop, Bool, true, false,
}
use xinu_c_mips.Terminal.{Tty, done, inter_out}
use xinu_c_mips.Terminal.Calls.{put_char}
use xinu_c_mips.Terminal.Late.{go_on, same_state, go_on-Put}
use xinu_c_mips.Terminal.Output.{Output, NoEcho, Sent, inter_out-Sent}

-- From one state to another by calls of `put_char`, which write the bytes of the list, and by interrupts
-- of the transmitter. A call that finds no room waits for the next interrupt and goes on at once.
pub data Moves : Tty → List ℕ → Tty → Type 0 where
  stop : {s : Tty} → Moves s [] s
  put :
      {s s' s'' : Tty} {cs : List ℕ} (tx_empty : Bool) (ch : ℕ)
      → go_on (put_char tx_empty ch s) ≡ done tt s'
      → Moves s' cs s''
      → Moves s (ch ∷ cs) s''
  interrupt :
      {s s' s'' : Tty} {cs : List ℕ} → inter_out s ≡ done tt s' → Moves s' cs s'' → Moves s cs s''

-- What has been sent, followed by what waits in the queue.
abbrev pub Delivers : Tty → Tty → List ℕ → Type 0
Delivers s s' stream = (q' : List ℕ) × Output s' q' × (s'.sent ++ q' ≡ stream)

take-drop : (q : List ℕ) → take 1 q ++ drop 1 q ≡ q
take-drop [] = refl
take-drop (c ∷ cs) = refl

Sent-stream :
    (s s' : Tty) (q : List ℕ) (held : Bool)
    → Sent s q held
    → inter_out s ≡ done tt s'
    → (q' : List ℕ) × Output s' q' × (s'.sent ++ q' ≡ s.sent ++ q) × NoEcho s'
Sent-stream s s' q true r e =
    let at : r.0 ≡ s' = same_state (inter_out s) r.0 s' r.1 e in
    (
      q,
      subst (λ x. Output x q) at r.2,
      ap (λ l. l ++ q) (sym (ap (λ x. x.sent) at) ∙ r.3),
      subst NoEcho at r.4,
    )
Sent-stream s s' q false r e =
    let at : r.0 ≡ s' = same_state (inter_out s) r.0 s' r.1 e in
    (
      drop 1 q,
      subst (λ x. Output x (drop 1 q)) at r.2,
      ap (λ l. l ++ drop 1 q) (sym (ap (λ x. x.sent) at) ∙ r.3)
          ∙ (append_assoc s.sent (take 1 q) (drop 1 q) ∙ ap (λ l. s.sent ++ l) (take-drop q)),
      subst NoEcho at r.4,
    )

regroup :
    (a q : List ℕ) (c : ℕ) (rest : List ℕ) → (a ++ (q ++ (c ∷ []))) ++ rest ≡ (a ++ q) ++ (c ∷ rest)
regroup a q c rest =
    ap (λ l. l ++ rest) (sym (append_assoc a q (c ∷ []))) ∙ append_assoc (a ++ q) (c ∷ []) rest

-- The output of a line is a queue: in whatever order calls of `put_char` and transmitter interrupts come,
-- what has been sent, followed by what still waits, is what had been sent and waited before,
-- followed by the bytes that were written, in order. A call that finds the queue full waits for the
-- next interrupt, while output is not held, and goes on before anything else happens. The echo
-- queue is empty at the start, and the bytes of the output queue stand between its head and its
-- tail.
pub Moves-Delivers :
    (s s' : Tty) (q cs : List ℕ)
    → Output s q
    → NoEcho s
    → Moves s cs s'
    → Delivers s s' ((s.sent ++ q) ++ cs)
Moves-Delivers s s' q cs o echo Moves.stop = (q, o, sym (append-nil (s.sent ++ q)))
Moves-Delivers s s' q cs o echo (Moves.put {s' = m} {cs = rest} tx_empty ch e more) =
    let r = go_on-Put tx_empty ch s m q o echo e in
    let d = Moves-Delivers m s' r.0 rest r.1 r.3 more in
    (d.0, d.1, d.2 ∙ (ap (λ l. l ++ rest) r.2 ∙ regroup s.sent q ch rest))
Moves-Delivers s s' q cs o echo (Moves.interrupt {s' = m} e more) =
    let t = Sent-stream s m q s.tyoheld (inter_out-Sent s q o echo) e in
    let d = Moves-Delivers m s' t.0 cs t.1 t.3 more in (d.0, d.1, d.2 ∙ ap (λ l. l ++ cs) t.2)
