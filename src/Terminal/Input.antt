-- ===== src/Terminal/Input.antt =====
-- The input queue of a line in raw mode: the receiver's interrupt puts characters in, and `ttyGetc`
-- takes them out, in order.
use xinu_c_mips.Base.{
  ℕ, zero, suc, ◌<◌, ◌≤◌, ◌≡◌, refl, sym, subst, ap, ◌∙◌, List, [], ◌∷◌, ◌++◌, length, arith, ltb,
  ltb→lt, ltb→le, le→ltb, lt→leb, Bool-cases, inl, inr, Bool, true, false, ℤ, pos, negsuc, leb_ℤ,
  wrap32, to_uint32, to_int32, ◌-ℤ◌, ◌+ℤ◌, if◌then◌else◌, update, update_same,
}
use xinu_c_mips.Libxc.{schar}
use xinu_c_mips.Terminal.{
  Tty, Do, Act, raw, done, blocked, and_then, offset, wrap_at, step, wait_input, signal_input,
  put_input, wrap_input, inter_in, inter_in_mode, inter_in_raw, available, ty_ibuflen,
}
use xinu_c_mips.Terminal.Calls.{tty_getc, take_char, is_cooked}
use xinu_c_mips.Terminal.Ring.{
  place_at, window, length-window, window-update, wrap_at-step, offset-pos,
}
use xinu_c_mips.Terminal.Output.{less_one, one_more}

-- The input queue holds the bytes `q`: they stand from the head on, the tail is behind them, and the
-- count of the semaphore is their number. No reader waits.
abbrev pub Input : Tty → List ℕ → Type 0
Input s q =
    (h : ℕ) × (n : ℕ) × (h < 128)
    × (n ≤ 128)
    × (s.tyihead ≡ pos h)
    × (s.tyitail ≡ pos (place_at 128 h n))
    × (s.tyisem ≡ pos n)
    × (q ≡ window s.tyibuff 128 h n)

available-pos : (s : Tty) (n : ℕ) → s.tyisem ≡ pos n → available s ≡ pos n
unfolding available
available-pos s n e = rw (e, le→ltb n 0 (omega arith)) refl

-- The state after a character has been stored.
received : Tty → ℕ → ℕ → Tty
received s i ch = record s {
  tyibuff = update s.tyibuff i ch;
  tyitail = wrap_at ty_ibuflen (step s.tyitail);
  tyisem = wrap32 (s.tyisem +ℤ pos 1);
}

inter_in_raw_puts :
    (s : Tty) (i ch : ℕ)
    → leb_ℤ (pos ty_ibuflen) (available s) ≡ false
    → i < 128
    → s.tyitail ≡ pos i
    → inter_in_raw ch s ≡ done tt (received s i ch)
unfolding inter_in_raw put_input wrap_input signal_input received
inter_in_raw_puts s i ch room hi et =
    let f : offset ty_ibuflen s.tyitail s ≡ done i s =
      ap (λ p. offset ty_ibuflen p s) et ∙ offset-pos ty_ibuflen i s hi in
    rw (room, f) refl

inter_in_raw_stores :
    (s : Tty) (i n ch : ℕ)
    → n < 128
    → i < 128
    → s.tyisem ≡ pos n
    → s.tyitail ≡ pos i
    → inter_in_raw ch s ≡ done tt (received s i ch)
inter_in_raw_stores s i n ch hn hi es et =
    inter_in_raw_puts s i ch (ap (leb_ℤ (pos ty_ibuflen)) (available-pos s n es) ∙ lt→leb 128 n hn)
      hi et

inter_in_raw_drops : (s : Tty) (ch : ℕ) → s.tyisem ≡ pos 128 → inter_in_raw ch s ≡ done tt s
unfolding inter_in_raw
inter_in_raw_drops s ch es =
    let full : leb_ℤ (pos ty_ibuflen) (available s) ≡ true =
      ap (leb_ℤ (pos ty_ibuflen)) (available-pos s 128 es) in
    rw full refl

wait_input-pos :
    (s : Tty) (n : ℕ)
    → s.tyisem ≡ pos (suc n)
    → suc n ≤ 128
    → wait_input s ≡ done tt (record s { tyisem = pos n })
unfolding wait_input
wait_input-pos s n e u =
    let c : wrap32 (pos (suc n) -ℤ pos 1) ≡ pos n =
      less_one (suc n) (omega arith) u ∙ ap pos (omega arith) in
    rw (e, c, le→ltb n 0 (omega arith)) refl

-- What an arriving character leaves: the queue with it at the end, or the line as it was if the buffer
-- is full.
abbrev pub Arrived : Tty → List ℕ → ℕ → Act (Unit {0}) → Type 0
Arrived s q ch out =
    if ltb (length q) 128
    then ((s' : Tty) × (out ≡ done tt s') × Input s' (q ++ (ch ∷ [])))
    else out ≡ done tt s

-- A reader that waits gets the character that arrives next, and leaves the queue empty.
abbrev pub Gets : Bool → ℕ → Tty → Do ℤ → Type 0
Gets tx_empty next s rest =
    (s1 : Tty) × (s2 : Tty) × (inter_in tx_empty next s ≡ done tt s1)
    × (rest s1 ≡ done (schar next) s2)
    × Input s2 []

-- What a reader gets: the first character, or it waits for the next one that arrives.
abbrev pub Taken : Bool → ℕ → List ℕ → Act ℤ → Type 0
Taken tx_empty next [] out =
    (s' : Tty) × (rest : Do ℤ) × (out ≡ blocked s' rest) × Gets tx_empty next s' rest
Taken tx_empty next (c ∷ cs) out = (s' : Tty) × (out ≡ done (schar c) s') × Input s' cs

inter_in-Arrived :
    (tx_empty : Bool) (ch : ℕ) (s : Tty) (q : List ℕ)
    → s.tyimode ≡ raw
    → Input s q
    → Arrived s q ch (inter_in tx_empty ch s)
unfolding inter_in received
inter_in-Arrived tx_empty ch s q mode o =
    let h = o.0 in
    let n = o.1 in
    let l : length q ≡ n = ap length o.7 ∙ length-window s.tyibuff 128 h n in
    let t = place_at 128 h n in
    let as_raw : inter_in tx_empty ch s ≡ inter_in_raw ch s =
      ap (λ m. inter_in_mode m tx_empty ch s) mode in
    elim (Bool-cases (ltb (length q) 128)) [
      | inl room ↦
          let few : n < 128 = omega (arith, l, ltb→lt (length q) 128 room) in
          let tin : t < 128 = ground (arith, o.2) in
          rw room (
            received s t ch,
            as_raw ∙ inter_in_raw_stores s t n ch few tin o.6 o.5,
            (
              h,
              suc n,
              o.2,
              omega arith,
              o.4,
              ap (λ p. wrap_at ty_ibuflen (step p)) o.5
                  ∙ (wrap_at-step 128 t tin ∙ ap pos (ground (arith, o.2))),
              ap (λ z. wrap32 (z +ℤ pos 1)) o.6 ∙ (one_more n few ∙ ap pos (omega arith)),
              ap (λ l. l ++ (ch ∷ [])) o.7
                  ∙ sym (window-update s.tyibuff 128 h n ch t o.2 few refl),
            ),
          )
      | inr full ↦ rw full (
          as_raw
          ∙ inter_in_raw_drops s ch
              (o.6 ∙ ap pos (omega (arith, l, o.3, ltb→le (length q) 128 full))))
    ]

wait_input_none :
    (s : Tty) → s.tyisem ≡ pos 0 → wait_input s ≡ blocked (record s { tyisem = negsuc 0 }) (done tt)
unfolding wait_input wrap32 to_uint32 to_int32 ◌-ℤ◌
wait_input_none s e = rw e refl

take_char-raw :
    (s : Tty) (h : ℕ)
    → h < 128
    → s.tyihead ≡ pos h
    → is_cooked s.tyimode ≡ false
    → take_char s
      ≡ done (schar (s.tyibuff h)) (record s { tyihead = wrap_at ty_ibuflen (step s.tyihead) })
unfolding take_char
take_char-raw s h hh eh mode =
    let f : offset ty_ibuflen s.tyihead s ≡ done h s =
      ap (λ p. offset ty_ibuflen p s) eh ∙ offset-pos ty_ibuflen h s hh in
    rw (f, mode) refl

-- A reader waits, and a character arrives.
waiting-Gets :
    (tx_empty : Bool) (next : ℕ) (s : Tty) (h : ℕ)
    → s.tyimode ≡ raw
    → h < 128
    → s.tyihead ≡ pos h
    → s.tyitail ≡ pos h
    → Gets tx_empty next (record s { tyisem = negsuc 0 }) (λ s'. take_char s')
unfolding inter_in available received wrap32 to_uint32 to_int32 ◌+ℤ◌
waiting-Gets tx_empty next s h mode hh eh et =
    let s0 = record s { tyisem = negsuc 0 } in
    let s1 = received s0 h next in
    let is : s1.tyibuff h ≡ next = update_same s.tyibuff h next in
    let end_at : wrap_at ty_ibuflen (step (pos h)) ≡ pos (place_at 128 h 1) =
      wrap_at-step 128 h hh in
    (
      s1,
      record s1 { tyihead = wrap_at ty_ibuflen (step s.tyihead) },
      ap (λ m. inter_in_mode m tx_empty next s0) mode ∙ inter_in_raw_puts s0 h next refl hh et,
      take_char-raw s1 h hh eh (ap is_cooked mode)
          ∙ ap (λ c. done (schar c) (record s1 { tyihead = wrap_at ty_ibuflen (step s.tyihead) }))
              is,
      (
        place_at 128 h 1,
        0,
        ground arith,
        omega arith,
        ap (λ p. wrap_at ty_ibuflen (step p)) eh ∙ end_at,
        ap (λ p. wrap_at ty_ibuflen (step p)) et ∙ (end_at ∙ ap pos (ground arith)),
        refl,
        refl,
      ),
    )

tty_getc-Taken :
    (tx_empty : Bool) (next : ℕ) (s : Tty) (q : List ℕ)
    → s.tyimode ≡ raw
    → Input s q
    → Taken tx_empty next q (tty_getc s)
unfolding tty_getc
tty_getc-Taken tx_empty next s q mode (h, zero, hh, u, eh, et, es, eq) =
    subst (λ l. Taken tx_empty next l (tty_getc s)) (sym eq)
      (
        record s { tyisem = negsuc 0 },
        (λ s'. take_char s'),
        ap (λ r. and_then r (λ _. take_char)) (wait_input_none s es),
        waiting-Gets tx_empty next s h mode hh eh (et ∙ ap pos (ground arith)),
      )
tty_getc-Taken tx_empty next s q mode (h, suc n, hh, u, eh, et, es, eq) =
    let s1 = record s { tyisem = pos n } in
    subst (λ l. Taken tx_empty next l (tty_getc s)) (sym eq)
      (
        record s1 { tyihead = wrap_at ty_ibuflen (step s.tyihead) },
        ap (λ r. and_then r (λ _. take_char)) (wait_input-pos s n es u)
            ∙ take_char-raw s1 h hh eh (ap is_cooked mode),
        (
          place_at 128 h 1,
          n,
          ground arith,
          omega arith,
          ap (λ p. wrap_at ty_ibuflen (step p)) eh ∙ wrap_at-step 128 h hh,
          et ∙ ap pos (ground arith),
          refl,
          refl,
        ),
      )

-- The input of a line in raw mode is a queue of 128 characters: an arriving character goes to its end,
-- or is dropped, and nothing changes, if it is full; a reader gets its first character, as a signed
-- `char`; if it is empty the reader blocks, and it gets the character that arrives next, which then
-- leaves the queue empty again. No reader waits at the start, and the bytes of the queue stand
-- between the head and the tail.
pub inter_in-Input :
    (tx_empty : Bool) (ch next : ℕ) (s : Tty) (q : List ℕ)
    → s.tyimode ≡ raw
    → Input s q
    → Arrived s q ch (inter_in tx_empty ch s) × Taken tx_empty next q (tty_getc s)
inter_in-Input tx_empty ch next s q mode o =
    (inter_in-Arrived tx_empty ch s q mode o, tty_getc-Taken tx_empty next s q mode o)
