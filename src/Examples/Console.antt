-- ===== src/Examples/Console.antt =====
-- The theorems about a terminal line at the console, as `ttyInit` leaves it.
use xinu_c_mips.Base.{
  ap, pos, refl, [], ◌∷◌, update, arith, true, false, ◌≡◌, wrap32, to_uint32, to_int32, ◌-ℤ◌, ◌+ℤ◌,
}
use xinu_c_mips.Terminal.{
  Tty, raw, done, kick_out, offset, wrap_at, step, wait_output, inter_out, send_echo, send_output,
  transmit, signal_output, inter_in,
}
use xinu_c_mips.Terminal.Calls.{tty_init, put_char, tty_getc}
use xinu_c_mips.Terminal.Output.{Output}
use xinu_c_mips.Terminal.Late.{go_on}
use xinu_c_mips.Terminal.Trace.{Moves, Delivers, Moves-Delivers}
use xinu_c_mips.Terminal.Input.{Input, Arrived, Taken, inter_in-Input}

abbrev console : Tty
console = record {
  tyihead = pos 0;
  tyitail = pos 0;
  tyibuff = λ i. 0;
  tyohead = pos 0;
  tyotail = pos 0;
  tyobuff = λ i. 0;
  tyehead = pos 0;
  tyetail = pos 0;
  tyebuff = λ i. 0;
  tyisem = pos 0;
  tyosem = pos 128;
  tyimode = raw;
  tyiecho = false;
  tyieback = true;
  tyevis = true;
  tyecrlf = true;
  tyicrlf = true;
  tyierase = true;
  tyierasec = 8;
  tyeof = true;
  tyeofch = 4;
  tyikill = true;
  tyikillc = 21;
  tyoflow = true;
  tyoheld = false;
  tyostop = 19;
  tyostart = 17;
  tyicursor = pos 0;
  tyocrlf = false;
  tyifullc = 7;
  prog_tx = false;
  set_tx = false;
  clr_tx = false;
  clr_rx = false;
  sent = [];
}

tty_init-console : tty_init console ≡ console
unfolding tty_init
tty_init-console = refl

console-Output : Output console []
console-Output = (0, 0, omega arith, omega arith, refl, refl, refl, refl)

-- One byte is in the input queue, at the end of the buffer.
abbrev one_typed : Tty
one_typed = record console {
  tyihead = pos 127;
  tyitail = pos 0;
  tyibuff = λ i. 200;
  tyisem = pos 1;
}

one_typed-Input : Input one_typed (200 ∷ [])
one_typed-Input = (127, 1, omega arith, omega arith, refl, refl, refl, refl)

-- The state after "A" has been written.
abbrev queued : Tty
queued = record console {
  tyobuff = update (λ i. 0) 0 65;
  tyotail = pos 1;
  tyosem = pos 127;
  prog_tx = true;
  set_tx = true;
}

abbrev sent_out : Tty
sent_out = record queued { tyohead = pos 1; tyosem = pos 128; sent = 65 ∷ [] }

queued-put_char : put_char true 65 console ≡ done tt queued
unfolding put_char wait_output kick_out offset wrap_at step wrap32 to_uint32 to_int32 ◌-ℤ◌ ◌+ℤ◌
queued-put_char = refl

sent_out-inter_out : inter_out queued ≡ done tt sent_out
unfolding inter_out send_echo send_output transmit signal_output offset wrap_at step wrap32
    to_uint32 to_int32 ◌-ℤ◌ ◌+ℤ◌ update
sent_out-inter_out = refl

Moves-Delivers_example : Delivers console sent_out (65 ∷ [])
Moves-Delivers_example =
    Moves-Delivers console sent_out [] (65 ∷ []) console-Output refl
      (Moves.put true 65 (ap go_on queued-put_char) (Moves.interrupt sent_out-inter_out Moves.stop))

inter_in-Input_example :
    Arrived one_typed (200 ∷ []) 66 (inter_in false 66 one_typed)
    × Taken false 67 (200 ∷ []) (tty_getc one_typed)
inter_in-Input_example = inter_in-Input false 66 67 one_typed (200 ∷ []) refl one_typed-Input
