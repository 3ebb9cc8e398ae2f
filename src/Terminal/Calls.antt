-- ===== src/Terminal/Calls.antt =====
-- The calls of the terminal driver: ttyInit.c, ttyGetc.c, ttyPutc.c, ttyRead.c, ttyWrite.c and
-- ttyControl.c. A caller's buffer is the list of the bytes that it holds.
use xinu_c_mips.Base.{
  ℕ, zero, suc, ◌==◌, if◌then◌else◌, ℤ, pos, negsuc, ltb_ℤ, eqb_ℤ, pos_part, update, length, take,
  ◌-◌, List, [], ◌∷◌, Bool, true, false, ◌&&◌, ◌||◌,
}
use xinu_c_mips.Kernel.{ok, syserr}
use xinu_c_mips.Libxc.{schar, uchar}
use xinu_c_mips.Terminal.{
  Tty, Mode, raw, cooked, cbreak, Do, pure, get, modify, ◌>>=◌, ◌>>◌, offset, wrap_at, step,
  signal_input, wait_input, wait_output, ty_ibuflen, ty_obuflen, kick_out,
}

-- `EOF`
abbrev pub eof : ℤ
eof = negsuc 1

abbrev pub is_cooked : Mode → Bool
is_cooked raw = false
is_cooked cooked = true
is_cooked cbreak = false

-- What `ttyInit` leaves of a line: the buffers keep what they held.
unfoldable pub tty_init : Tty → Tty
tty_init s = record s {
  tyihead = pos 0;
  tyitail = pos 0;
  tyisem = pos 0;
  tyohead = pos 0;
  tyotail = pos 0;
  tyosem = pos ty_obuflen;
  tyehead = pos 0;
  tyetail = pos 0;
  tyimode = raw;
  tyiecho = false;
  tyieback = true;
  tyevis = true;
  tyecrlf = true;
  tyicrlf = true;
  tyierase = true;
  tyierasec = 8;
  tyeof = true;
  tyeofch = 4;
  tyikill = true;
  tyikillc = 21;
  tyicursor = pos 0;
  tyoflow = true;
  tyoheld = false;
  tyostop = 19;
  tyostart = 17;
  tyocrlf = false;
  tyifullc = 7;
}

-- `ttyGetc` behind its `wait`
unfoldable pub take_char : Do ℤ
take_char = do
  s ← get
  i ← offset ty_ibuflen s.tyihead
  let ch = s.tyibuff i
  modify λ s. record s { tyihead = wrap_at ty_ibuflen (step s.tyihead) }
  if is_cooked s.tyimode && s.tyeof && (ch == s.tyeofch) then pure eof else pure (schar ch)

unfoldable pub tty_getc : Do ℤ
tty_getc = do wait_input; take_char

-- `ttyPutc` for one character, behind the carriage return that it may send first.
unfoldable pub put_char : Bool → ℕ → Do (Unit {0})
put_char tx_empty ch = do
  wait_output
  s ← get
  i ← offset ty_obuflen s.tyotail
  modify λ s. record s {
    tyobuff = update s.tyobuff i ch;
    tyotail = wrap_at ty_obuflen (step s.tyotail);
  }
  kick_out tx_empty

unfoldable pub tty_putc : Bool → ℕ → Do ℤ
tty_putc tx_empty ch = do
  s ← get
  if (ch == 10) && s.tyocrlf then put_char tx_empty 13 else pure tt
  put_char tx_empty ch
  pure ok

unfoldable pub write_loop : Bool → List ℕ → Do ℤ
write_loop tx_empty [] = pure ok
write_loop tx_empty (c ∷ cs) = do tty_putc tx_empty c; write_loop tx_empty cs

unfoldable pub tty_write : Bool → List ℕ → ℤ → Do ℤ
tty_write tx_empty buff count =
    if ltb_ℤ count (pos 0) then pure syserr else write_loop tx_empty (take (pos_part count) buff)

-- The loop of `ttyRead` in raw and cbreak mode: the bytes that are stored, the last one first.
unfoldable pub read_loop : ℕ → List ℕ → Do (List ℕ)
read_loop zero buff = pure buff
read_loop (suc count) buff = do ch ← tty_getc; read_loop count (uchar ch ∷ buff)

-- The loop in cooked mode, behind the character `ch`.
unfoldable pub read_line : ℕ → ℕ → List ℕ → Do (List ℕ)
read_line zero ch buff = pure buff
read_line (suc left) ch buff =
    if (ch == 10) || (ch == 13)
    then pure buff
    else (do c ← tty_getc; read_line left (uchar c) (uchar c ∷ buff))

abbrev pub count_of : ℤ → ℤ → ℤ
count_of count avail = if eqb_ℤ count (pos 0) then avail else count

-- `ttyRead`: the result and the bytes, the last one first. In cooked mode at least one is read.
unfoldable pub tty_read : ℤ → Do (ℤ × List ℕ)
tty_read count = if ltb_ℤ count (pos 0) then pure (syserr, []) else do
  s ← get
  if is_cooked s.tyimode
      then (do
        first ← tty_getc
        if eqb_ℤ first eof then pure (eof, []) else (do
          buff ← read_line (pos_part count - 1) (uchar first) (uchar first ∷ [])
          pure (pos (length buff), buff)))
      else (do
        buff ← read_loop (pos_part (count_of count s.tyisem)) []
        pure (pos (length buff), buff))

-- `TC_NEXTC` and so on
pub data Func : Type 0 where
  nextc : Func
  moder : Func
  modec : Func
  modek : Func
  ichars : Func
  echo : Func
  noecho : Func
  other_func : Func

-- `ttyControl`; the look ahead reads at the tail.
unfoldable pub tty_control : Func → Do ℤ
tty_control nextc = do
  wait_input
  s ← get
  i ← offset ty_ibuflen s.tyitail
  signal_input (pos 1)
  pure (schar (s.tyibuff i))
tty_control moder = do modify λ s. record s { tyimode = raw }; pure ok
tty_control modec = do modify λ s. record s { tyimode = cooked }; pure ok
tty_control modek = do modify λ s. record s { tyimode = cbreak }; pure ok
tty_control ichars = do s ← get; pure s.tyisem
tty_control echo = do modify λ s. record s { tyiecho = true }; pure ok
tty_control noecho = do modify λ s. record s { tyiecho = false }; pure ok
tty_control other_func = pure syserr
