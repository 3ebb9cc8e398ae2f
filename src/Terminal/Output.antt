-- ===== src/Terminal/Output.antt =====
-- The output queue of a line: `ttyPutc` puts characters in, and `ttyInter_out` sends them, in order.
use xinu_c_mips.Base.{
  ℕ, zero, suc, ◌+◌, ◌-◌, ◌<◌, ◌≤◌, ◌≡◌, refl, sym, subst, ap, ◌∙◌, List, [], ◌∷◌, ◌++◌, length,
  arith, le→ltb, lt→leb, take, drop, Bool-cases, inl, inr, if◌then◌else◌, update, pos, leb_ℤ, eqb_ℤ,
  ◌-ℤ◌, ◌+ℤ◌, wrap32, to_uint32, to_int32, pos_part, Bool, true, false, ◌&&◌, ◌||◌,
}
use mathlib.Core.List.{append-nil}
use xinu_c_mips.Terminal.{
  Tty, Do, Act, done, get, modify, and_then, ◌>>=◌, ◌>>◌, offset, wrap_at, step, wait_output,
  signal_output, transmit, kick_out, send_echo, send_output, inter_out, ty_obuflen,
}
use xinu_c_mips.Terminal.Calls.{put_char}
use xinu_c_mips.Terminal.Ring.{
  place_at, window, length-window, window-update, wrap_at-step, offset-pos,
}

-- The output queue holds the bytes `q`: they stand from the head on, the tail is behind them, and the
-- count of the semaphore is the space that is left.
abbrev pub Output : Tty → List ℕ → Type 0
Output s q =
    (h : ℕ) × (n : ℕ) × (h < 128)
    × (n ≤ 128)
    × (s.tyohead ≡ pos h)
    × (s.tyotail ≡ pos (place_at 128 h n))
    × (s.tyosem ≡ pos (128 - n))
    × (q ≡ window s.tyobuff 128 h n)

pub less_one : (n : ℕ) → 0 < n → n ≤ 128 → wrap32 (pos n -ℤ pos 1) ≡ pos (n - 1)
unfolding wrap32 to_uint32 to_int32 ◌-ℤ◌
less_one n h u = ground arith

-- Nothing waits in the echo queue.
abbrev pub NoEcho : Tty → Type 0
NoEcho s = eqb_ℤ s.tyehead s.tyetail ≡ true

-- What a step of the driver leaves: the output queue, and what has been sent.
abbrev pub Ran : Act (Unit {0}) → List ℕ → List ℕ → Type 0
Ran out q sent = (s' : Tty) × (out ≡ done tt s') × Output s' q × (s'.sent ≡ sent) × NoEcho s'

wait_output-pos :
    (s : Tty) (n : ℕ)
    → s.tyosem ≡ pos n
    → 0 < n
    → n ≤ 128
    → wait_output s ≡ done tt (record s { tyosem = pos (n - 1) })
unfolding wait_output
wait_output-pos s n e h u = rw (e, less_one n h u, le→ltb (n - 1) 0 (omega arith)) refl

-- `put_char` behind its `wait`
unfoldable pub store_char : Bool → ℕ → ℕ → Do (Unit {0})
unfolding kick_out
store_char tx_empty ch i = do
  modify λ s. record s {
    tyobuff = update s.tyobuff i ch;
    tyotail = wrap_at ty_obuflen (step s.tyotail);
  }
  kick_out tx_empty

pub put_char-Ran :
    (tx_empty : Bool) (ch : ℕ) (s : Tty) (q : List ℕ)
    → Output s q
    → NoEcho s
    → length q < 128
    → Ran (put_char tx_empty ch s) (q ++ (ch ∷ [])) s.sent
unfolding put_char store_char kick_out
put_char-Ran tx_empty ch s q o echo room =
    let h = o.0 in
    let n = o.1 in
    let few : n < 128 = omega (arith, ap length o.7, length-window s.tyobuff 128 h n) in
    let t = place_at 128 h n in
    let tin : t < 128 = ground (arith, o.2) in
    let s1 = record s { tyosem = pos (128 - n - 1) } in
    let s2 = record s1 {
      tyobuff = update s.tyobuff t ch;
      tyotail = wrap_at ty_obuflen (step s.tyotail);
      prog_tx = true;
      set_tx = if tx_empty then true else s.set_tx;
    } in
    let w : wait_output s ≡ done tt s1 =
      wait_output-pos s (128 - n) o.6 (omega arith) (omega arith) in
    let f : offset ty_obuflen s.tyotail s1 ≡ done t s1 =
      ap (λ p. offset ty_obuflen p s1) o.5 ∙ offset-pos ty_obuflen t s1 tin in
    (
      s2,
      ap
            (λ r.
              and_then r (λ _. get >>= λ s. offset ty_obuflen s.tyotail >>= store_char tx_empty ch))
            w
          ∙ ap (λ r. and_then r (store_char tx_empty ch)) f,
      (
        h,
        suc n,
        o.2,
        omega arith,
        o.4,
        ap (λ p. wrap_at ty_obuflen (step p)) o.5
            ∙ (wrap_at-step 128 t tin ∙ ap pos (ground (arith, o.2))),
        ap pos (omega arith),
        ap (λ l. l ++ (ch ∷ [])) o.7 ∙ sym (window-update s.tyobuff 128 h n ch t o.2 few refl),
      ),
      refl,
      echo,
    )

pub one_more : (n : ℕ) → n < 128 → wrap32 (pos n +ℤ pos 1) ≡ pos (n + 1)
unfolding wrap32 to_uint32 to_int32 ◌+ℤ◌
one_more n h = ground arith

taken : (n : ℕ) → n ≤ 128 → pos_part (pos 128 -ℤ pos (128 - n)) ≡ n
unfolding ◌-ℤ◌
taken n h = ground arith

-- What `ttyInter_out` does when it has something to send from the output queue.
unfoldable pub send_one : Tty → ℕ → Tty
unfolding transmit
send_one s h = record s {
  sent = s.sent ++ (s.tyobuff h ∷ []);
  tyohead = wrap_at ty_obuflen (step s.tyohead);
  tyosem = wrap32 (s.tyosem +ℤ pos 1);
}

pub inter_out_sends_one :
    (s : Tty) (h m : ℕ)
    → s.tyoheld ≡ false
    → eqb_ℤ s.tyehead s.tyetail ≡ true
    → h < 128
    → s.tyohead ≡ pos h
    → leb_ℤ (pos ty_obuflen) s.tyosem ≡ false
    → pos_part (pos ty_obuflen -ℤ s.tyosem) ≡ suc m
    → inter_out s ≡ done tt (send_one s h)
unfolding inter_out send_echo send_output transmit signal_output send_one
inter_out_sends_one s h m held echo hh eh full av =
    let f : offset ty_obuflen s.tyohead s ≡ done h s =
      ap (λ p. offset ty_obuflen p s) eh ∙ offset-pos ty_obuflen h s hh in
    let test : (s.tyoheld || (eqb_ℤ s.tyehead s.tyetail && leb_ℤ (pos ty_obuflen) s.tyosem))
        ≡ false =
      rw (held, echo, full) refl in
    rw (test, echo, av, f) refl

inter_out_sends :
    (s : Tty) (h n : ℕ)
    → s.tyoheld ≡ false
    → eqb_ℤ s.tyehead s.tyetail ≡ true
    → h < 128
    → suc n ≤ 128
    → s.tyohead ≡ pos h
    → s.tyosem ≡ pos (128 - suc n)
    → inter_out s ≡ done tt (send_one s h)
inter_out_sends s h n held echo hh hn eh es =
    inter_out_sends_one s h n held echo hh eh
      (ap (leb_ℤ (pos ty_obuflen)) es ∙ lt→leb 128 (128 - suc n) (omega arith))
      (ap (λ z. pos_part (pos ty_obuflen -ℤ z)) es ∙ taken (suc n) hn)

inter_out_stops :
    (s : Tty)
    → (s.tyoheld || (eqb_ℤ s.tyehead s.tyetail && leb_ℤ (pos ty_obuflen) s.tyosem)) ≡ true
    → inter_out s ≡ done tt (record s { prog_tx = false })
unfolding inter_out
inter_out_stops s test = rw test refl

-- The bytes of the queue when one may have been sent.
abbrev pub Sent : Tty → List ℕ → Bool → Type 0
Sent s q held =
    Ran (inter_out s) (if held then q else drop 1 q) (if held then s.sent else s.sent ++ take 1 q)

pub inter_out-Sent : (s : Tty) (q : List ℕ) → Output s q → NoEcho s → Sent s q s.tyoheld
unfolding send_one
inter_out-Sent s q (h, zero, hh, u, eh, et, es, eq) echo = elim (Bool-cases s.tyoheld) [
  | inl held ↦ subst (Sent s q) (sym held) (
    record s { prog_tx = false },
    inter_out_stops s (rw held refl),
    (h, zero, hh, u, eh, et, es, eq),
    refl,
    echo,
  )
  | inr free ↦ subst (Sent s q) (sym free) (
    record s { prog_tx = false },
    inter_out_stops s (rw (free, echo, ap (leb_ℤ (pos ty_obuflen)) es) refl),
    (h, zero, hh, u, eh, et, es, ap (drop 1) eq),
    sym (ap (λ l. s.sent ++ take 1 l) eq ∙ append-nil s.sent),
    echo,
  )
]
inter_out-Sent s q (h, suc n, hh, u, eh, et, es, eq) echo = elim (Bool-cases s.tyoheld) [
  | inl held ↦ subst (Sent s q) (sym held) (
    record s { prog_tx = false },
    inter_out_stops s (rw held refl),
    (h, suc n, hh, u, eh, et, es, eq),
    refl,
    echo,
  )
  | inr free ↦ subst (Sent s q) (sym free) (
    send_one s h,
    inter_out_sends s h n free echo hh u eh es,
    (
      place_at 128 h 1,
      n,
      ground arith,
      omega arith,
      ap (λ p. wrap_at ty_obuflen (step p)) eh ∙ wrap_at-step 128 h hh,
      et ∙ ap pos (ground arith),
      ap (λ z. wrap32 (z +ℤ pos 1)) es
          ∙ (one_more (128 - suc n) (omega arith) ∙ ap pos (omega arith)),
      ap (drop 1) eq,
    ),
    ap (λ l. s.sent ++ l) (sym (ap (take 1) eq)),
    echo,
  )
]
