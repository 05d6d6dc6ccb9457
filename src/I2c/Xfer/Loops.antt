-- ===== src/I2c/Xfer/Loops.antt =====
-- The loops over the chunks of a message end by themselves, and what a block read receives.
use fboss_bsp_kmods.Base.{ℕ, zero, suc, ◌+◌, ◌-◌, ◌*◌, ◌≤◌, ◌<◌, ◌≡◌, ◌≢◌, arith, refl, ap, ◌∙◌}
use fboss_bsp_kmods.Base.{List, [], ◌∷◌, ◌++◌, length, take, drop, Option, none, Bool, true}
use fboss_bsp_kmods.Base.{if◌then◌else◌, min, Option-cases, inl, inr}
use fboss_bsp_kmods.Mmio.{Mmio}
use fboss_bsp_kmods.I2c.{
  Msg, Bus, bus_write, csr_write, reg_cmd_sts, fbiob_i2c_fill_tx_buf, wait_till_xfer_done,
}
use fboss_bsp_kmods.I2c.{iobuf_offset}
use fboss_bsp_kmods.I2c.Xfer.{Received, write_loop, read_loop, receive_chunk, drain, first_byte}
use fboss_bsp_kmods.I2c.Xfer.{fbiob_i2c_read, block_max}
use fboss_bsp_kmods.I2c.Frame.{length-drop_lem}

take-append_lem :
    (m n : ℕ) (xs ys : List ℕ) → m ≡ length xs + n → take m (xs ++ ys) ≡ xs ++ take n ys
take-append_lem m n [] ys h = let e : m ≡ n = omega arith in ap (λ k. take k ys) e
take-append_lem zero n (x ∷ xs) ys h = absurd (omega arith)
take-append_lem (suc m) n (x ∷ xs) ys h = ap (λ l. x ∷ l) (take-append_lem m n xs ys (omega arith))

module _ {S : Type 0} (io : Mmio S) where
  -- The loop of a write does the same with any fuel above the number of bytes to go, so it ends
  -- before the fuel does.
  pub write_loop_enough :
      (fuel fuel' i2c_addr : ℕ) (is_last_msg : Bool) (left : List ℕ) (bus : Bus S)
      → length left < fuel
      → length left < fuel'
      → write_loop io fuel i2c_addr is_last_msg left bus
        ≡ write_loop io fuel' i2c_addr is_last_msg left bus
  unfolding write_loop
  write_loop_enough zero fuel' i2c_addr is_last_msg left bus p q = absurd (omega arith)
  write_loop_enough (suc f) zero i2c_addr is_last_msg left bus p q = absurd (omega arith)
  write_loop_enough (suc f) (suc f') i2c_addr is_last_msg [] bus p q = refl
  write_loop_enough (suc f) (suc f') i2c_addr is_last_msg (x ∷ left) bus p q =
      let (filled, bus1) = fbiob_i2c_fill_tx_buf io i2c_addr (take 255 (x ∷ left)) bus in
      let cmd = if is_last_msg then 3 + 8 else 3 in
      let bus2 = (wait_till_xfer_done io bus_write (csr_write io reg_cmd_sts cmd bus1)).1 in
      let shorter = length-drop_lem 254 left in
      ground (
        arith,
        write_loop_enough f f' i2c_addr is_last_msg (drop 254 left) bus2 (omega arith)
            (omega arith),
      )

  -- The loop of a read does the same with any fuel that is at least the number of bytes to go, so
  -- it ends before the fuel does.
  pub read_loop_enough :
      (fuel fuel' : ℕ) (stale : List ℕ) (msg : Msg) (rx_len : ℕ) (r : Received) (bus : Bus S)
      → rx_len ≤ fuel
      → rx_len ≤ fuel'
      → read_loop io fuel stale msg rx_len r bus ≡ read_loop io fuel' stale msg rx_len r bus
  unfolding read_loop
  read_loop_enough zero zero stale msg rx_len r bus p q = refl
  read_loop_enough zero (suc f') stale msg zero r bus p q = refl
  read_loop_enough zero (suc f') stale msg (suc m) r bus p q = absurd (omega arith)
  read_loop_enough (suc f) zero stale msg zero r bus p q = refl
  read_loop_enough (suc f) zero stale msg (suc m) r bus p q = absurd (omega arith)
  read_loop_enough (suc f) (suc f') stale msg zero r bus p q = refl
  read_loop_enough (suc f) (suc f') stale msg (suc m) r bus p q =
      let left = suc m - min 256 (suc m) in
      let bus1 = (receive_chunk io (min 256 (suc m)) (suc m) bus).1 in
      let (buf, bus2) = drain io (min 256 (suc m)) bus1 in
      let new_len = first_byte buf + (if msg.pec then 2 else 1) in
      let same = λ (r' : Received).
        read_loop_enough f f' stale msg left r' bus2 (omega arith) (omega arith) in
      ground (
        arith,
        same (record r { data_bytes = r.data_bytes ++ buf }),
        same (record {
          data_bytes = r.data_bytes ++ take new_len (buf ++ stale);
          msg_len = new_len;
        }),
      )

  read_loop_done :
      (fuel : ℕ) (stale : List ℕ) (msg : Msg) (r : Received) (bus : Bus S)
      → read_loop io fuel stale msg 0 r bus ≡ (none, r, bus)
  unfolding read_loop
  read_loop_done zero stale msg r bus = refl
  read_loop_done (suc fuel) stale msg r bus = refl

  abbrev block_result : ℕ → Received → Bus S → List ℕ → Option ℕ × Received × Bus S
  block_result new_len r bus data_bytes =
      (none, record { data_bytes = r.data_bytes ++ data_bytes; msg_len = new_len }, bus)

  read_loop_block :
      (fuel : ℕ) (stale buf : List ℕ) (msg : Msg) (r : Received) (bus bus1 bus2 : Bus S)
      → msg.recv_len ≡ true
      → receive_chunk io 32 32 bus ≡ (none, bus1)
      → drain io 32 bus1 ≡ (buf, bus2)
      → first_byte buf ≤ 32
      → let new_len = first_byte buf + (if msg.pec then 2 else 1) in
        read_loop io (suc fuel) stale msg 32 r bus
        ≡ block_result new_len r bus2 (take new_len (buf ++ stale))
  unfolding read_loop
  read_loop_block fuel stale buf msg r bus bus1 bus2 e got drained small =
      let new_len = first_byte buf + (if msg.pec then 2 else 1) in
      ground (
        arith,
        read_loop_done fuel stale msg
            (record { data_bytes = r.data_bytes ++ take new_len (buf ++ stale); msg_len = new_len })
            bus2,
      )

  -- A block of 32 bytes that is received without an error is read one byte short: the length and
  -- 31 bytes come from the device, and the last byte, with the check byte if one is asked for, is
  -- what the local buffer held before.
  pub fbiob_i2c_read_block :
      (stale rest : List ℕ) (msg : Msg) (bus bus1 bus2 : Bus S)
      → msg.buf ≢ none
      → msg.recv_len ≡ true
      → receive_chunk io 32 32 (csr_write io iobuf_offset (msg.addr * 2 + 1) bus) ≡ (none, bus1)
      → drain io 32 bus1 ≡ (32 ∷ rest, bus2)
      → length rest ≡ 31
      → let missing : ℕ = if msg.pec then 2 else 1 in
        fbiob_i2c_read io stale msg bus ≡ (
          none,
          record { data_bytes = 32 ∷ rest ++ take missing stale; msg_len = 32 + missing },
          bus2,
        )
  unfolding fbiob_i2c_read
  fbiob_i2c_read_block stale rest msg bus bus1 bus2 b r got drained len =
      elim (Option-cases msg.buf) [
        | inl e ↦ absurd (b e)
        | inr (tx, e) ↦
            let start : Received = record { data_bytes = []; msg_len = msg.len } in
            let missing : ℕ = if msg.pec then 2 else 1 in
            let bus' = csr_write io iobuf_offset (msg.addr * 2 + 1) bus in
            let taken : take (32 + missing) ((32 ∷ rest) ++ stale)
                ≡ (32 ∷ rest) ++ take missing stale =
              take-append_lem (32 + missing) missing (32 ∷ rest) stale (omega arith) in
            let rx : (if msg.recv_len then block_max else msg.len) ≡ 32 = ground (arith, r) in
            rw (fbiob_i2c_read, e, rx)
              (read_loop_block 31 stale (32 ∷ rest) msg start bus' bus1 bus2 r got drained
                  (omega arith)
                ∙ ap (block_result (32 + missing) start bus2) taken)
      ]
