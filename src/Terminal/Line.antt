-- ===== src/Terminal/Line.antt =====
-- The state of a terminal line, and the small commands that the driver is made of.
use xinu_c_mips.Base.{
  ℕ, ltb, if◌then◌else◌, ℤ, pos, negsuc, ◌+ℤ◌, ◌-ℤ◌, ltb_ℤ, wrap32, update, List, [], ◌∷◌, ◌++◌,
  Bool,
}

-- `TY_IBUFLEN`, `TY_OBUFLEN` and `TY_EBUFLEN`
abbrev pub ty_ibuflen : ℕ
ty_ibuflen = 128

abbrev pub ty_obuflen : ℕ
ty_obuflen = 128

abbrev pub ty_ebuflen : ℕ
ty_ebuflen = 32

pub data Mode : Type 0 where
  raw : Mode
  cooked : Mode
  cbreak : Mode

-- `struct ttycblk`, with the pointers as offsets into their buffers, the counts of the two semaphores,
-- the bits of the UART's interrupt register, and the bytes that have been written to its data
-- register.
pub record Tty : Type 0 where
  pub tyihead : ℤ
  pub tyitail : ℤ
  pub tyibuff : ℕ → ℕ
  pub tyohead : ℤ
  pub tyotail : ℤ
  pub tyobuff : ℕ → ℕ
  pub tyehead : ℤ
  pub tyetail : ℤ
  pub tyebuff : ℕ → ℕ
  pub tyisem : ℤ
  pub tyosem : ℤ
  pub tyimode : Mode
  pub tyiecho : Bool
  pub tyieback : Bool
  pub tyevis : Bool
  pub tyecrlf : Bool
  pub tyicrlf : Bool
  pub tyierase : Bool
  pub tyierasec : ℕ
  pub tyeof : Bool
  pub tyeofch : ℕ
  pub tyikill : Bool
  pub tyikillc : ℕ
  pub tyoflow : Bool
  pub tyoheld : Bool
  pub tyostop : ℕ
  pub tyostart : ℕ
  pub tyicursor : ℤ
  pub tyocrlf : Bool
  pub tyifullc : ℕ
  pub prog_tx : Bool
  pub set_tx : Bool
  pub clr_tx : Bool
  pub clr_rx : Bool
  pub sent : List ℕ

-- A command ends, or blocks in `wait` and goes on from a later state, or reads or writes outside a
-- buffer.
pub data Act (A : Type 0) : Type 0 where
  done : A → Tty → Act A
  blocked : Tty → (Tty → Act A) → Act A
  fault : Act A

abbrev pub Do : Type 0 → Type 0
Do A = Tty → Act A

abbrev pub pure : {A : Type 0} → A → Do A
pure = done

module _ {A B : Type 0} where
  abbrev pub and_then : Act A → (A → Do B) → Act B
  and_then (done a s) f = f a s
  and_then (blocked s rest) f = blocked s (λ s'. and_then (rest s') f)
  and_then fault f = fault

  infixl 5 ◌>>=◌ ◌>>◌
  abbrev pub ◌>>=◌ : Do A → (A → Do B) → Do B
  m >>= f = λ s. and_then (m s) f

  abbrev pub ◌>>◌ : Do A → Do B → Do B
  m >> n = m >>= λ _. n

abbrev pub get : Do Tty
get s = done s s

abbrev pub modify : (Tty → Tty) → Do (Unit {0})
modify f s = done tt (f s)

-- An offset in a buffer of `bound` bytes.
unfoldable pub offset : ℕ → ℤ → Do ℕ
offset bound (pos i) s = if ltb i bound then done i s else fault
offset bound (negsuc n) s = fault

-- A pointer that has been stepped, wrapped at the end of its buffer: `if (p >= &buf[len]) p = buf`.
unfoldable pub wrap_at : ℕ → ℤ → ℤ
wrap_at len p = if ltb_ℤ p (pos len) then p else pos 0

unfoldable pub step : ℤ → ℤ
step p = p +ℤ pos 1

-- `signal`, `signaln` and `semcount` of the two semaphores, and `wait`, which blocks when the count
-- falls below zero.
unfoldable pub signal_input : ℤ → Do (Unit {0})
signal_input n = modify λ s. record s { tyisem = wrap32 (s.tyisem +ℤ n) }

unfoldable pub signal_output : ℤ → Do (Unit {0})
signal_output n = modify λ s. record s { tyosem = wrap32 (s.tyosem +ℤ n) }

unfoldable pub wait_input : Do (Unit {0})
wait_input s =
    let s' = record s { tyisem = wrap32 (s.tyisem -ℤ pos 1) } in
    if ltb_ℤ s'.tyisem (pos 0) then blocked s' (done tt) else done tt s'

unfoldable pub wait_output : Do (Unit {0})
wait_output s =
    let s' = record s { tyosem = wrap32 (s.tyosem -ℤ pos 1) } in
    if ltb_ℤ s'.tyosem (pos 0) then blocked s' (done tt) else done tt s'

-- `*typtr->tyitail++ = ch`
unfoldable pub put_input : ℕ → Do (Unit {0})
put_input ch = do
  s ← get
  i ← offset ty_ibuflen s.tyitail
  modify λ s. record s { tyibuff = update s.tyibuff i ch; tyitail = step s.tyitail }

-- The wrap of `tyitail`
unfoldable pub wrap_input : Do (Unit {0})
wrap_input = modify λ s. record s { tyitail = wrap_at ty_ibuflen s.tyitail }

-- A byte for the UART's data register.
unfoldable pub transmit : ℕ → Do (Unit {0})
transmit ch = modify λ s. record s { sent = s.sent ++ (ch ∷ []) }
