-- ===== src/Keys/Tests.antt =====
-- The theorems on wait_int_dev/sleep_module.c at concrete key presses.
use raspberrypimodules.Prelude.{
  ℕ, ◌≡◌, refl, true, false, [], ◌∷◌, arith, replicate, length-replicate,
}
use raspberrypimodules.Prelude.Errno.{Ret}
use raspberrypimodules.Prelude.Int.{ℤ}
use raspberrypimodules.Keys.Device.{State, Outcome, my_dev_read}
use raspberrypimodules.Keys.Queue.{Sound, queue, my_dev_read-queue}
use raspberrypimodules.Keys.Fifo.{Event, Agrees, run, fifo, run-fifo}

-- Nothing pressed yet, at the end of the buffer.
abbrev idle : State
idle = record { hello_keys_buf = replicate 256 0; buf_rd = 255; buf_wr = 255 }

idle-Sound : Sound idle
idle-Sound = record {
  size = length-replicate {A = ℕ} 256 0;
  rd_in = omega arith;
  wr_in = omega arith;
}

abbrev one : State
one = record { hello_keys_buf = replicate 256 0x50; buf_rd = 255; buf_wr = 0 }

one-Sound : Sound one
one-Sound = record {
  size = length-replicate {A = ℕ} 256 0x50;
  rd_in = omega arith;
  wr_in = omega arith;
}

my_dev_read-queue_example :
    (t : State) × (my_dev_read false true one ≡ Outcome.returns (Ret.value 2) (0x50 ∷ 10 ∷ []) 1 t)
    × Sound t
    × (queue t ≡ [])
my_dev_read-queue_example = my_dev_read-queue 0x50 [] false one one-Sound refl

run-fifo_example :
    Agrees
      (run (Event.key (ℤ.pos 1) ∷ Event.key (ℤ.pos 0) ∷ Event.reads ∷ []) [] idle)
      (fifo (Event.key (ℤ.pos 1) ∷ Event.key (ℤ.pos 0) ∷ Event.reads ∷ []) [] [])
run-fifo_example =
    run-fifo (Event.key (ℤ.pos 1) ∷ Event.key (ℤ.pos 0) ∷ Event.reads ∷ []) [] [] idle idle-Sound
      refl (omega arith, (omega arith, tt))
