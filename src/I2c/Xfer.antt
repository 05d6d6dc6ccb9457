-- ===== src/I2c/Xfer.antt =====
-- kmods/fboss_iob_i2c.c: the transfer of messages, chunk by chunk.
pub mod Loops
mod Tests
use fboss_bsp_kmods.Base.{
  ℕ, zero, suc, ◌+◌, ◌-◌, ◌*◌, ◌%◌, ◌^◌, Bool, true, false, List, [], ◌∷◌, ◌++◌,
}
use fboss_bsp_kmods.Base.{
  Option, none, some, if◌then◌else◌, ltb, ◌==◌, length, take, drop, min, bit_and, bit_or,
}
use fboss_bsp_kmods.Bits.{u8, not_u32}
use fboss_bsp_kmods.Kernel.{Ret, ok, err}
use fboss_bsp_kmods.Kernel.Errno.{einval}
use fboss_bsp_kmods.Mmio.{Mmio}
use fboss_bsp_kmods.I2c.{Msg, Bus, Opcode, bus_read, bus_write, state_start, csr_read, csr_write}
use fboss_bsp_kmods.I2c.{iobuf_read, reg_buf_ctrl, reg_cmd_sts, iobuf_offset, iobuf_size}
use fboss_bsp_kmods.I2c.{
  buf_mem_page_sel, fbiob_i2c_fill_tx_buf, wait_till_xfer_done, check_msg_params,
}
use fboss_bsp_kmods.I2c.{wait_bus_for_free, fbiob_i2c_reset, fbiob_i2c_check_busy}
use fboss_bsp_kmods.I2c.{fbiob_i2c_clean_intr_status}

abbrev pub block_max : ℕ
block_max = 32

-- What a message of a read receives: the bytes put into `msg->buf`, in order, and `msg->len`.
pub record Received : Type 0 where
  pub data_bytes : List ℕ
  pub msg_len : ℕ

abbrev pub first_byte : List ℕ → ℕ
first_byte [] = 0
first_byte (b ∷ bs) = b

module _ {S : Type 0} (io : Mmio S) where
  -- The commands for one chunk of a read, up to its end.
  pub receive_chunk : ℕ → ℕ → Bus S → Option ℕ × Bus S
  receive_chunk xfer_len rx_len bus =
      let size = bit_and ((xfer_len - 1) * 2 ^ 16) 0xFF0000 in
      let bus' = csr_write io reg_buf_ctrl (bit_and size (not_u32 buf_mem_page_sel)) bus in
      let cmd = if xfer_len == rx_len then 7 + 16 + 8 else 7 in
      wait_till_xfer_done io bus_read (csr_write io reg_cmd_sts cmd bus')

  -- The bytes of a chunk, out of one page of the buffer or out of both.
  pub drain : ℕ → Bus S → List ℕ × Bus S
  drain xfer_len bus =
      if ltb iobuf_size xfer_len
      then (let (low, bus1) = iobuf_read io iobuf_size bus in
          let (regval, bus2) = csr_read io reg_buf_ctrl bus1 in
          let bus3 = csr_write io reg_buf_ctrl (bit_or regval buf_mem_page_sel) bus2 in
          let (high, bus4) = iobuf_read io (xfer_len - iobuf_size) bus3 in (low ++ high, bus4))
      else iobuf_read io xfer_len bus

  -- The loop of `fbiob_i2c_read`, with `rx_len` bytes to go; `stale` is what the local buffer
  -- holds behind the bytes of a chunk. The kernel is built with an unsigned `char`.
  pub read_loop : ℕ → List ℕ → Msg → ℕ → Received → Bus S → Option ℕ × Received × Bus S
  read_loop zero stale msg rx_len r bus = (none, r, bus)
  read_loop (suc fuel) stale msg zero r bus = (none, r, bus)
  read_loop (suc fuel) stale msg (suc m) r bus =
      let rx_len = suc m in
      let xfer_len = min 256 rx_len in
      let (ret, bus1) = receive_chunk xfer_len rx_len bus in
      let (buf, bus2) = drain xfer_len bus1 in
      let again = read_loop fuel stale msg (rx_len - xfer_len) in
      let new_len = first_byte buf + (if msg.pec then 2 else 1) in
      let whole = again (record r { data_bytes = r.data_bytes ++ buf }) bus2 in
      let block =
        again
          (record { data_bytes = r.data_bytes ++ take new_len (buf ++ stale); msg_len = new_len })
          bus2 in
      elim ret [
        | some e ↦ (some e, r, bus1)
        | none ↦
            if ltb iobuf_size xfer_len
            then whole
            else if msg.recv_len
            then (if ltb block_max (first_byte buf) then (some einval, r, bus2) else block)
            else whole
      ]

  pub fbiob_i2c_read : List ℕ → Msg → Bus S → Option ℕ × Received × Bus S
  fbiob_i2c_read stale msg bus =
      let rx_len = if msg.recv_len then block_max else msg.len in
      let start : Received = record { data_bytes = []; msg_len = msg.len } in
      let bus' = csr_write io iobuf_offset (msg.addr * 2 + 1) bus in
      elim msg.buf [
        | none ↦ (some einval, start, bus)
        | some b ↦ read_loop rx_len stale msg rx_len start bus'
      ]

  -- The loop of `fbiob_i2c_write`, with the bytes `left` to go; its body runs at least once.
  pub write_loop : ℕ → ℕ → Bool → List ℕ → Bus S → Option ℕ × Bus S
  write_loop zero i2c_addr is_last_msg left bus = (none, bus)
  write_loop (suc fuel) i2c_addr is_last_msg left bus =
      let (filled, bus1) = fbiob_i2c_fill_tx_buf io i2c_addr (take 255 left) bus in
      let cmd = if is_last_msg then 3 + 8 else 3 in
      let (ret, bus2) = wait_till_xfer_done io bus_write (csr_write io reg_cmd_sts cmd bus1) in
      let rest = write_loop fuel i2c_addr is_last_msg (drop 255 left) bus2 in
      elim filled [
        | some e ↦ (some e, bus1)
        | none ↦ elim ret [
          | some e ↦ (some e, bus2)
          | none ↦ if length (drop 255 left) == 0 then (none, bus2) else rest
        ]
      ]

  -- `msg->len` bytes of the buffer are sent.
  pub fbiob_i2c_write : Msg → Bool → Bus S → Option ℕ × Bus S
  fbiob_i2c_write msg is_last_msg bus = elim msg.buf [
    | none ↦ (some einval, bus)
    | some tx_buf ↦
        write_loop (suc msg.len) (u8 (msg.addr * 2)) is_last_msg (take msg.len tx_buf) bus
  ]

  -- The loop of `fbiob_i2c_master_xfer`, with what the reads have received.
  pub xfer_msgs : List ℕ → List Msg → Bus S → Option ℕ × List Received × Bus S
  xfer_msgs stale [] bus = (none, [], bus)
  xfer_msgs stale (m ∷ msgs) bus =
      let ready = fbiob_i2c_clean_intr_status io bus in
      let (ret, received, bus1) = fbiob_i2c_read stale m ready in
      let (ret', bus1') = fbiob_i2c_write m (length msgs == 0) ready in
      let (done, more, bus2) = xfer_msgs stale msgs bus1 in
      let rest' = xfer_msgs stale msgs bus1' in
      if m.is_read
      then elim ret [
        | some e ↦ (some e, received ∷ [], bus1)
        | none ↦ (done, received ∷ more, bus2)
      ]
      else elim ret' [ some e ↦ (some e, [], bus1') | none ↦ rest' ]

  -- The bus is taken as it is found, or reset once if it stays busy.
  pub recover : Bus S → Option ℕ × Bus S
  recover bus =
      let (busy, bus1) = wait_bus_for_free io bus in
      elim busy [ none ↦ (none, bus1) | some e ↦ fbiob_i2c_check_busy io (fbiob_i2c_reset io bus1) ]

  pub fbiob_i2c_master_xfer : List ℕ → List Msg → Bus S → Ret ℕ × List Received × Bus S
  fbiob_i2c_master_xfer stale msgs bus =
      let (busy, bus1) = recover bus in
      let (ret, received, bus2) = xfer_msgs stale msgs (record bus1 { state = state_start }) in
      elim (check_msg_params msgs) [
        | some e ↦ (err e, [], bus)
        | none ↦ elim busy [
          | some e ↦ (err e, [], bus1)
          | none ↦ elim ret [
            | some e ↦ (err e, received, bus2)
            | none ↦ (ok (length msgs), received, bus2)
          ]
        ]
      ]
