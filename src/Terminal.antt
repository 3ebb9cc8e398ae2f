-- ===== src/Terminal.antt =====
-- The terminal driver, xinu/device/tty. The state of a line and the commands over it are in
-- Terminal/Line; `tx_empty` says whether the UART's status register shows an empty transmitter, and
-- `ch` is the byte in its data register. The console is the only line.
mod Line
unfoldable pub use Line.*
pub mod Calls
pub mod Ring
pub mod Input
pub mod Output
pub mod Late
pub mod Trace
use xinu_c_mips.Base.{
  ℕ, zero, suc, ◌+◌, ◌-◌, ◌%◌, ltb, leb, ◌==◌, if◌then◌else◌, ℤ, pos, negsuc, ◌+ℤ◌, ◌-ℤ◌, ltb_ℤ,
  leb_ℤ, eqb_ℤ, pos_part, update, List, [], ◌∷◌, ◌++◌, Bool, true, false, not, ◌&&◌, ◌||◌,
}
use xinu_c_mips.Kernel.{ok, syserr}
use xinu_c_mips.Libxc.{schar}

-- `ttyKickOut`
unfoldable pub kick_out : Bool → Do (Unit {0})
kick_out tx_empty =
    modify λ s. record s { prog_tx = true; set_tx = if tx_empty then true else s.set_tx }

unfoldable pub eputc : Bool → ℕ → Do (Unit {0})
eputc tx_empty ch = do
  s ← get
  i ← offset ty_ebuflen s.tyetail
  modify λ s. record s {
    tyebuff = update s.tyebuff i ch;
    tyetail = wrap_at ty_ebuflen (step s.tyetail);
  }
  kick_out tx_empty

-- A character that is not printable: below a blank, as a signed `char`, or 0177.
unfoldable pub is_control : ℕ → Bool
is_control ch = ltb_ℤ (schar ch) (pos 32) || (ch == 127)

unfoldable pub echoch : Bool → ℕ → Do (Unit {0})
echoch tx_empty ch = do
  s ← get
  if ((ch == 10) || (ch == 13)) && s.tyecrlf
      then (do eputc tx_empty 13; eputc tx_empty 10)
      else if is_control ch && s.tyevis
      then (do eputc tx_empty 94; eputc tx_empty ((ch + 64) % 256))
      else eputc tx_empty ch

-- A backspace, and the blank that erases when `tyieback` is set.
unfoldable pub echo_erase : Bool → Do (Unit {0})
echo_erase tx_empty = do
  s ← get
  eputc tx_empty 8
  if s.tyieback then (do eputc tx_empty 32; eputc tx_empty 8) else pure tt

unfoldable pub erase1 : Bool → Do (Unit {0})
erase1 tx_empty = do
  modify λ s. record s {
    tyitail =
        if ltb_ℤ (s.tyitail -ℤ pos 1) (pos 0)
        then (s.tyitail -ℤ pos 1) +ℤ pos ty_ibuflen
        else s.tyitail -ℤ pos 1;
  }
  s ← get
  i ← offset ty_ibuflen s.tyitail
  let ch = s.tyibuff i
  if s.tyiecho
      then (if is_control ch
          then (do (if s.tyevis then echo_erase tx_empty else pure tt); echo_erase tx_empty)
          else echo_erase tx_empty)
      else pure tt

-- `semcount` of the input semaphore, but 0 if processes wait.
unfoldable pub available : Tty → ℤ
available s = if ltb_ℤ s.tyisem (pos 0) then pos 0 else s.tyisem

unfoldable pub inter_in_raw : ℕ → Do (Unit {0})
inter_in_raw ch = do
  s ← get
  if leb_ℤ (pos ty_ibuflen) (available s)
      then pure tt
      else (do put_input ch; wrap_input; signal_input (pos 1))

unfoldable pub inter_in_cbreak : Bool → ℕ → Do (Unit {0})
inter_in_cbreak tx_empty ch = do
  s ← get
  if leb_ℤ (pos ty_ibuflen) (available s)
      then eputc tx_empty s.tyifullc
      else (do put_input ch; wrap_input; (if s.tyiecho then echoch tx_empty ch else pure tt))

-- The kill character moves the head, not the tail, when the tail has gone below the buffer.
unfoldable pub kill_line : Bool → Do (Unit {0})
kill_line tx_empty = do
  modify λ s. record s { tyitail = s.tyitail -ℤ s.tyicursor }
  modify λ s. record s {
    tyihead = if ltb_ℤ s.tyitail (pos 0) then s.tyihead +ℤ pos ty_ibuflen else s.tyihead;
    tyicursor = pos 0;
  }
  eputc tx_empty 13
  eputc tx_empty 10

unfoldable pub end_line : Bool → ℕ → Do (Unit {0})
end_line tx_empty ch = do
  s ← get
  if s.tyiecho then echoch tx_empty ch else pure tt
  put_input ch
  wrap_input
  s ← get
  signal_input (s.tyicursor +ℤ pos 1)
  modify λ s. record s { tyicursor = pos 0 }

-- A character of a line, or the EOF character, whose place in the buffer does not wrap.
unfoldable pub insert_char : Bool → ℕ → Do (Unit {0})
insert_char tx_empty ch = do
  s ← get
  if leb_ℤ (pos (ty_ibuflen - 1)) (available s +ℤ s.tyicursor)
      then eputc tx_empty s.tyifullc
      else if (ch == s.tyeofch) && s.tyeof
      then (do
        if s.tyiecho then echoch tx_empty ch else pure tt
        if eqb_ℤ s.tyicursor (pos 0) then (do put_input ch; signal_input (pos 1)) else pure tt)
      else (do
        if s.tyiecho then echoch tx_empty ch else pure tt
        modify λ s. record s { tyicursor = s.tyicursor +ℤ pos 1 }
        put_input ch
        wrap_input)

unfoldable pub inter_in_cooked : Bool → ℕ → Do (Unit {0})
inter_in_cooked tx_empty ch = do
  s ← get
  if (ch == s.tyikillc) && s.tyikill
      then kill_line tx_empty
      else if (ch == s.tyierasec) && s.tyierase
      then (if ltb_ℤ (pos 0) s.tyicursor
          then (do modify λ s. record s { tyicursor = s.tyicursor -ℤ pos 1 }; erase1 tx_empty)
          else pure tt)
      else if (ch == 10) || (ch == 13)
      then end_line tx_empty ch
      else insert_char tx_empty ch

-- The part that the cooked and the cbreak mode share.
unfoldable pub inter_in_edit : Bool → (ℕ → Do (Unit {0})) → ℕ → Do (Unit {0})
inter_in_edit tx_empty handle c = do
  s ← get
  let ch = if (c == 13) && s.tyicrlf then 10 else c
  if s.tyoflow && (ch == s.tyostart)
      then (do modify λ s. record s { tyoheld = false }; kick_out tx_empty)
      else if s.tyoflow && (ch == s.tyostop)
      then (do modify λ s. record s { tyoheld = true })
      else (do modify λ s. record s { tyoheld = false }; handle ch)

abbrev pub inter_in_mode : Mode → Bool → ℕ → Do (Unit {0})
inter_in_mode raw tx_empty = inter_in_raw
inter_in_mode cbreak tx_empty = inter_in_edit tx_empty (inter_in_cbreak tx_empty)
inter_in_mode cooked tx_empty = inter_in_edit tx_empty (inter_in_cooked tx_empty)

-- `ttyInter_in`; what it prints with `kprintf` is left out.
unfoldable pub inter_in : Bool → ℕ → Do (Unit {0})
inter_in tx_empty ch = do s ← get; inter_in_mode s.tyimode tx_empty ch

-- The two loops of `ttyInter_out`, with the space that is left in the UART; the second counts what it
-- sends.
unfoldable pub send_echo : ℕ → Do ℕ
send_echo zero = pure 0
send_echo (suc uspace) = do
  s ← get
  if eqb_ℤ s.tyehead s.tyetail then pure (suc uspace) else (do
    i ← offset ty_ebuflen s.tyehead
    transmit (s.tyebuff i)
    modify λ s. record s { tyehead = wrap_at ty_ebuflen (step s.tyehead) }
    send_echo uspace)

unfoldable pub send_output : ℕ → ℕ → ℕ → Do ℕ
send_output zero avail ochars = pure ochars
send_output (suc uspace) zero ochars = pure ochars
send_output (suc uspace) (suc avail) ochars = do
  s ← get
  i ← offset ty_obuflen s.tyohead
  transmit (s.tyobuff i)
  modify λ s. record s { tyohead = wrap_at ty_obuflen (step s.tyohead) }
  send_output uspace avail (ochars + 1)

-- `UART_FIFO_SIZE`
abbrev pub uart_fifo_size : ℕ
uart_fifo_size = 1

-- `ttyInter_out`
unfoldable pub inter_out : Do (Unit {0})
inter_out = do
  s ← get
  if s.tyoheld || (eqb_ℤ s.tyehead s.tyetail && leb_ℤ (pos ty_obuflen) s.tyosem)
      then (do modify λ s. record s { prog_tx = false })
      else (do
        uspace ← send_echo uart_fifo_size
        s ← get
        ochars ← send_output uspace (pos_part (pos ty_obuflen -ℤ s.tyosem)) 0
        if ltb 0 ochars then signal_output (pos ochars) else pure tt)

-- `ttyInterrupt`, with the bits of the status register that it reads first; `tx_empty` is what
-- `ttyKickOut` reads in it later.
unfoldable pub tty_interrupt : Bool → Bool → Bool → ℕ → Do (Unit {0})
tty_interrupt rx_full tx_ready tx_empty ch = do
  if rx_full then (do modify λ s. record s { clr_rx = true }; inter_in tx_empty ch) else pure tt
  if tx_ready then (do modify λ s. record s { clr_tx = true }; inter_out) else pure tt
