-- ===== src/Terminal/Late.antt =====
-- A writer that finds the output queue full.
use mathlib.Core.List.{append_assoc}
use xinu_c_mips.Base.{
  ℕ, ◌<◌, ◌≡◌, refl, sym, subst, ap, ◌∙◌, List, [], ◌∷◌, ◌++◌, length, arith, ltb, ltb→lt, ltb→le,
  Bool-cases, inl, inr, if◌then◌else◌, update, pos, negsuc, ◌-ℤ◌, ◌+ℤ◌, wrap32, to_uint32, to_int32,
  pos_part, Bool, true, false,
}
use xinu_c_mips.Terminal.{
  Tty, Do, Act, done, blocked, fault, get, and_then, ◌>>=◌, offset, wrap_at, step, wait_output,
  transmit, kick_out, inter_out, ty_obuflen,
}
use xinu_c_mips.Terminal.Calls.{put_char}
use xinu_c_mips.Terminal.Ring.{
  place_at, window, length-window, window-update, wrap_at-step, offset-pos,
}
use xinu_c_mips.Terminal.Output.{
  Output, NoEcho, Ran, store_char, put_char-Ran, send_one, inter_out_sends_one,
}

-- A call that blocks waits for the transmitter's next interrupt, which gives it room unless output is
-- held, and goes on.
abbrev pub go_on : Act (Unit {0}) → Act (Unit {0})
go_on (done a s) = done a s
go_on (blocked s rest) = if s.tyoheld then blocked s rest else and_then (inter_out s) (λ _. rest)
go_on fault = fault

wait_output_none :
    (s : Tty)
    → s.tyosem ≡ pos 0
    → wait_output s ≡ blocked (record s { tyosem = negsuc 0 }) (done tt)
unfolding wait_output wrap32 to_uint32 to_int32 ◌-ℤ◌
wait_output_none s e = rw e refl

-- `put_char` behind its `wait`
stores : Bool → ℕ → Do (Unit {0})
stores tx_empty ch = get >>= λ s. offset ty_obuflen s.tyotail >>= store_char tx_empty ch

put_char_none :
    (tx_empty : Bool) (ch : ℕ) (s : Tty)
    → s.tyosem ≡ pos 0
    → put_char tx_empty ch s
      ≡ blocked (record s { tyosem = negsuc 0 }) (λ s'. stores tx_empty ch s')
unfolding put_char store_char stores kick_out
put_char_none tx_empty ch s e =
    ap (λ r. and_then r (λ _. stores tx_empty ch)) (wait_output_none s e)

full_and_one : pos_part (pos ty_obuflen -ℤ negsuc 0) ≡ 129
unfolding ◌-ℤ◌
full_and_one = refl

signalled : wrap32 (negsuc 0 +ℤ pos 1) ≡ pos 0
unfolding wrap32 to_uint32 to_int32 ◌+ℤ◌
signalled = refl

late-Ran :
    (tx_empty : Bool) (ch h : ℕ) (s : Tty)
    → s.tyoheld ≡ false
    → NoEcho s
    → h < 128
    → s.tyohead ≡ pos h
    → s.tyotail ≡ pos h
    → s.tyosem ≡ pos 0
    → Ran
        (go_on (put_char tx_empty ch s))
        (window s.tyobuff 128 (place_at 128 h 1) 127 ++ (ch ∷ []))
        (s.sent ++ (s.tyobuff h ∷ []))
unfolding stores store_char kick_out send_one transmit
late-Ran tx_empty ch h s held echo hh eh et es =
    let s1 = record s { tyosem = negsuc 0 } in
    let s2 = send_one s1 h in
    let s3 = record s2 {
      tyobuff = update s.tyobuff h ch;
      tyotail = wrap_at ty_obuflen (step s.tyotail);
      prog_tx = true;
      set_tx = if tx_empty then true else s.set_tx;
    } in
    let out : inter_out s1 ≡ done tt s2 =
      inter_out_sends_one s1 h 128 held echo hh eh refl full_and_one in
    let f : offset ty_obuflen s.tyotail s2 ≡ done h s2 =
      ap (λ p. offset ty_obuflen p s2) et ∙ offset-pos ty_obuflen h s2 hh in
    let next : place_at 128 h 1 < 128 = ground arith in
    (
      s3,
      ap go_on (put_char_none tx_empty ch s es)
          ∙ (ap
                (λ b.
                  (if b
                    then blocked s1 (stores tx_empty ch)
                    else and_then (inter_out s1) (λ _. stores tx_empty ch)))
                held
              ∙ (ap (λ r. and_then r (λ _. stores tx_empty ch)) out
                  ∙ ap (λ r. and_then r (store_char tx_empty ch)) f)),
      (
        place_at 128 h 1,
        128,
        next,
        omega arith,
        ap (λ p. wrap_at ty_obuflen (step p)) eh ∙ wrap_at-step 128 h hh,
        ap (λ p. wrap_at ty_obuflen (step p)) et ∙ (wrap_at-step 128 h hh ∙ ap pos (ground arith)),
        signalled,
        sym (
            window-update s.tyobuff 128 (place_at 128 h 1) 127 ch h next (omega arith)
              (ground arith)),
      ),
      refl,
      echo,
    )

ended : Act (Unit {0}) → Bool
ended (done a s) = true
ended (blocked s rest) = false
ended fault = false

-- A call that goes on stores its character, and a late one lets the first one of the queue go.
abbrev pub Put : Tty → List ℕ → ℕ → Tty → Type 0
Put s q ch s' =
    (q' : List ℕ) × Output s' q' × (s'.sent ++ q' ≡ s.sent ++ (q ++ (ch ∷ []))) × NoEcho s'

-- The state in which a command has ended.
state_of : Tty → Act (Unit {0}) → Tty
state_of s0 (done a s) = s
state_of s0 (blocked s rest) = s0
state_of s0 fault = s0

pub same_state : (out : Act (Unit {0})) (a b : Tty) → out ≡ done tt a → out ≡ done tt b → a ≡ b
unfolding state_of
same_state out a b e f = ap (state_of a) (sym e ∙ f)

held_waits :
    (tx_empty : Bool) (ch : ℕ) (s : Tty)
    → s.tyosem ≡ pos 0
    → s.tyoheld ≡ true
    → ended (go_on (put_char tx_empty ch s)) ≡ false
unfolding ended
held_waits tx_empty ch s es held =
    let s1 = record s { tyosem = negsuc 0 } in
    ap (λ r. ended (go_on r)) (put_char_none tx_empty ch s es)
    ∙ ap
        (λ b. ended (
          if b
          then blocked s1 (stores tx_empty ch)
          else and_then (inter_out s1) (λ _. stores tx_empty ch)))
        held

Put-of :
    (s s' : Tty) (q q' : List ℕ) (ch : ℕ) (sent : List ℕ) (out : Act (Unit {0}))
    → Ran out q' sent
    → out ≡ done tt s'
    → sent ++ q' ≡ s.sent ++ (q ++ (ch ∷ []))
    → Put s q ch s'
Put-of s s' q q' ch sent out r e g =
    let at : r.0 ≡ s' = same_state out r.0 s' r.1 e in
    (
      q',
      subst (λ x. Output x q') at r.2,
      ap (λ l. l ++ q') (sym (ap (λ x. x.sent) at) ∙ r.3) ∙ g,
      subst NoEcho at r.4,
    )

pub go_on-Put :
    (tx_empty : Bool) (ch : ℕ) (s s' : Tty) (q : List ℕ)
    → Output s q
    → NoEcho s
    → go_on (put_char tx_empty ch s) ≡ done tt s'
    → Put s q ch s'
unfolding ended
go_on-Put tx_empty ch s s' q o echo e = elim (Bool-cases (ltb (length q) 128)) [
  | inl room ↦
      let r = put_char-Ran tx_empty ch s q o echo (ltb→lt (length q) 128 room) in
      Put-of s s' q (q ++ (ch ∷ [])) ch s.sent (put_char tx_empty ch s) r
        (r.1 ∙ (sym (ap go_on r.1) ∙ e)) refl
  | inr full ↦
      let h = o.0 in
      let n128 : o.1 ≡ 128 =
        omega
          (arith, ap length o.7, length-window s.tyobuff 128 o.0 o.1, ltb→le (length q) 128 full) in
      let none : s.tyosem ≡ pos 0 = o.6 ∙ ap pos (omega arith) in
      let w = window s.tyobuff 128 (place_at 128 h 1) 127 in
      let is : q ≡ s.tyobuff h ∷ w = o.7 ∙ ap (window s.tyobuff 128 h) n128 in
      elim (Bool-cases s.tyoheld) [
        | inl held ↦
            let no_end : false ≡ true = sym (held_waits tx_empty ch s none held) ∙ ap ended e in cc
        | inr free ↦
            Put-of s s' q (w ++ (ch ∷ [])) ch (s.sent ++ (s.tyobuff h ∷ []))
              (go_on (put_char tx_empty ch s))
              (late-Ran tx_empty ch h s free echo o.2 o.4 (o.5 ∙ ap pos (ground arith)) none) e
              (append_assoc s.sent (s.tyobuff h ∷ []) (w ++ (ch ∷ []))
                ∙ ap (λ l. s.sent ++ (l ++ (ch ∷ []))) (sym is))
      ]
]
