-- ===== src/I2c/Xfer/Tests.antt =====
-- Concrete transfers by kmods/fboss_iob_i2c.c, and the theorems at them.
use fboss_bsp_kmods.Base.{
  ℕ, ◌+◌, ◌*◌, ◌≡◌, arith, refl, true, false, [], ◌∷◌, ◌++◌, replicate, some, none,
}
use fboss_bsp_kmods.Base.{if◌then◌else◌, ◌==◌}
use fboss_bsp_kmods.Mmio.{Mmio, fbiob_bulk_read}
use fboss_bsp_kmods.I2c.{
  Msg, Bus, state_start, state_done, csr_write, iobuf_offset, wait_till_xfer_done, poll_done,
}
use fboss_bsp_kmods.I2c.Xfer.{Received, receive_chunk, drain, fbiob_i2c_read}
use fboss_bsp_kmods.I2c.Xfer.Loops.{fbiob_i2c_read_block}

-- A device that is always done, and that has a block of 32 bytes, of which the others are zeros.
abbrev block_device : Mmio ℕ
block_device = record {
  readl = λ a s. ((if a == 0x10 then 5 else if a == 0x80 then 0x20 else 0), s);
  writel = λ a v s. s + 1;
}

abbrev idle : Bus ℕ
idle = record { hw = 0; state = state_start; bus_freq_hz = 100000 }

abbrev done_after : ℕ → Bus ℕ
done_after n = record idle { hw = n; state = state_done }

abbrev block_msg : Msg
block_msg = record {
  addr = 0x50;
  is_read = true;
  recv_len = true;
  pec = false;
  len = 1;
  buf = some [];
}

abbrev start : Received
start = record { data_bytes = []; msg_len = 1 }

chunk :
    receive_chunk block_device 32 32 (csr_write block_device iobuf_offset (0x50 * 2 + 1) idle)
    ≡ (none, done_after 3)
unfolding receive_chunk wait_till_xfer_done poll_done
chunk = refl

drained : drain block_device 32 (done_after 3) ≡ (32 ∷ replicate 31 0, done_after 3)
unfolding drain fbiob_bulk_read
drained = refl

fbiob_i2c_read_block_example :
    fbiob_i2c_read block_device (0xaa ∷ []) block_msg idle
    ≡ (none, record { data_bytes = 32 ∷ replicate 31 0 ++ 0xaa ∷ []; msg_len = 33 }, done_after 3)
fbiob_i2c_read_block_example =
    fbiob_i2c_read_block block_device (0xaa ∷ []) (replicate 31 0) block_msg idle (done_after 3)
      (done_after 3) (λ e. ground arith) refl chunk drained refl
