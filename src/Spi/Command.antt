-- ===== src/Spi/Command.antt =====
-- Bits of the words that the driver writes to the registers of the SPI controller.
use fboss_bsp_kmods.Base.{ℕ, ◌-◌, ◌*◌, ◌%◌, ◌^◌, ◌≤◌, ◌<◌, ◌≡◌, arith, ltb, leb, ◌==◌, ◌&&◌}
use fboss_bsp_kmods.Base.{Bool-cases, inl, inr, ◌∙◌, if◌then◌else◌, bit_and, bit_or}
use fboss_bsp_kmods.Bits.{bit, u32, not_u32}
use fboss_bsp_kmods.Bits.Step.{bit_or-zero}
use fboss_bsp_kmods.Bits.Laws.{
  bit_lt, bit-bit_and, bit-bit_or, bit_shl, bit_ones, bit_not, bit_and_lt, bit_or_lt,
}
use fboss_bsp_kmods.Field.{Fits, merge, field_of}
use fboss_bsp_kmods.Field.Laws.{bit-merge, field_of-merge, place_in_mask}
use fboss_bsp_kmods.Spi.{command_word, desc_valid, desc_ints, desc_data_len_mask}

length_field : Fits 32 8 9
length_field = omega arith

-- The word before the length is put into it.
abbrev armed : ℕ → ℕ
armed val = bit_and (bit_or val desc_valid) (not_u32 desc_ints)

armed_lt : (val : ℕ) → val < 2 ^ 32 → armed val < 2 ^ 32
armed_lt val h = bit_and_lt 32 _ _ (bit_or_lt 32 val desc_valid h (omega arith))

bit-armed :
    (val k : ℕ)
    → k < 32
    → bit (armed val) k ≡ (if k == 31 then 1 else if ltb k 2 then 0 else bit val k)
bit-armed val k h = ground (
  arith,
  bit-bit_and k (bit_or val desc_valid) (not_u32 desc_ints),
  bit-bit_or k val desc_valid,
  bit_shl 31 1 k,
  bit_ones 1 (k - 31),
  bit_not 32 3 k,
  bit_ones 2 k,
  bit_lt val k,
)

command_word-merge :
    (n val : ℕ)
    → 0 < n
    → n ≤ 512
    → command_word n val ≡ merge (armed val) ((2 ^ 9 - 1) * 2 ^ 8) (n % 512 * 2 ^ 8)
unfolding command_word merge
command_word-merge n val h p =
    let cleared = bit_and (armed val) (not_u32 desc_data_len_mask) in
    let whole : n < 512 → u32 (n * 2 ^ 8) ≡ n * 2 ^ 8 = λ q. omega arith in
    elim (Bool-cases (n == 512)) [
      | inl full ↦
          let none_left : n % 512 * 2 ^ 8 ≡ 0 = ground arith in
          rw none_left (ground (arith, full, bit_or-zero cleared))
      | inr part ↦
          let short : n < 512 = ground arith in
          let same : n % 512 ≡ n = omega arith in
          let kept = place_in_mask length_field n short in
          ground (arith, part, same, whole short, kept)
    ]

-- The length that a command asks for: 0 stands for 512.
abbrev pub data_len : ℕ → ℕ
data_len v = let n = field_of 8 9 v in if n == 0 then 512 else n

-- For a transfer of 1 to 512 bytes, the command that is written asks for that length, where 0 in
-- the field stands for 512, has VALID set and both interrupts off, and keeps every other bit of
-- the register.
pub command_word_bits :
    (n val k : ℕ)
    → 0 < n
    → n ≤ 512
    → val < 2 ^ 32
    → k < 32
    → (data_len (command_word n val) ≡ n)
      × (bit (command_word n val) k ≡ (
          if k == 31
          then 1
          else if ltb k 2
          then 0
          else if leb 8 k && ltb k 17
          then bit (n % 512) (k - 8)
          else bit val k))
command_word_bits n val k h p small q =
    let merged = command_word-merge n val h p in
    let x_small : n % 512 < 2 ^ 9 = omega arith in
    let len = field_of-merge length_field (armed val) (n % 512) (armed_lt val small) x_small in
    (
      rw merged (rw len (ground arith)),
      rw merged (
          bit-merge length_field (armed val) (n % 512) k (armed_lt val small) x_small
          ∙ ground (arith, bit-armed val k q)),
    )
