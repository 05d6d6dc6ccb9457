-- ===== src/Field.antt =====
-- A field of a register: the bit arithmetic that the show and store methods of
-- kmods/lib/regbit-sysfs.c and kmods/lib/fbcpld-cdev.c share.
pub mod Laws
use fboss_bsp_kmods.Base.{
  ℕ, ◌+◌, ◌-◌, ◌*◌, ◌/◌, ◌%◌, ◌^◌, ◌≤◌, ◌<◌, Bool, none, some, bit_and, bit_or,
}
use fboss_bsp_kmods.Base.{leb, if◌then◌else◌}
use fboss_bsp_kmods.Base.{Text, ◌++◌}
use fboss_bsp_kmods.Print.{codes, print_dec, print_hex}
use fboss_bsp_kmods.Bits.{u32, not_u32, genmask, test_bits}
use fboss_bsp_kmods.Kernel.{Ret, ok, err, undefined}

-- `u32 mask = GENMASK(h, l)`.
unfoldable pub mask_u32 : ℕ → ℕ → Ret ℕ
mask_u32 h l = elim (genmask h l) [ none ↦ undefined | some m ↦ ok (u32 m) ]

-- `a - 1` and `a + b` on `u32`.
abbrev pub pred_u32 : ℕ → ℕ
pred_u32 a = u32 (a + (2 ^ 32 - 1))

-- `val = (reg_val >> bit_offset) & mask`, of `~reg_val` under the flag VAL_NEGATE. A shift by the
-- width of `u32` or more is undefined.
unfoldable pub read_field : Bool → ℕ → ℕ → ℕ → Ret ℕ
read_field negate bit_offset num_bits reg_val = elim (mask_u32 (pred_u32 num_bits) 0) [
  | ok mask ↦
      if leb 32 bit_offset
      then undefined
      else ok (bit_and ((if negate then not_u32 reg_val else reg_val) / 2 ^ bit_offset) mask)
  | err e ↦ err e
  | undefined ↦ undefined
]

-- `input &= GENMASK(num_bits - 1, 0)`.
unfoldable pub clip_field : ℕ → ℕ → Ret ℕ
clip_field num_bits input = elim (mask_u32 (pred_u32 num_bits) 0) [
  | ok mask ↦ ok (bit_and input mask)
  | err e ↦ err e
  | undefined ↦ undefined
]

-- `GENMASK(bit_offset + num_bits - 1, bit_offset)`.
unfoldable pub place_mask : ℕ → ℕ → Ret ℕ
place_mask bit_offset num_bits = mask_u32 (pred_u32 (u32 (bit_offset + num_bits))) bit_offset

-- `input << bit_offset` on `u32`.
unfoldable pub place_field : ℕ → ℕ → Ret ℕ
place_field bit_offset input =
    if leb 32 bit_offset then undefined else ok (u32 (input * 2 ^ bit_offset))

-- `val &= ~mask; val |= bits`.
unfoldable pub merge : ℕ → ℕ → ℕ → ℕ
merge val mask bits = bit_or (bit_and val (not_u32 mask)) bits

-- The flags, the same in regbit-sysfs.h (RBS_FLAG_) and fbcpld-ioctl.h (FBCPLD_FLAG_).
abbrev pub flag_show_notes : ℕ
flag_show_notes = 2

abbrev pub flag_show_dec : ℕ
flag_show_dec = 4

abbrev pub flag_val_negate : ℕ
flag_val_negate = 8

-- The text of a value: `%u` or `0x%x`, and under SHOW_NOTES a note on the register.
unfoldable pub render_field : ℕ → ℕ → ℕ → ℕ → Text → ℕ → Text
render_field flags reg_addr bit_offset num_bits help_str val =
    let number =
      if test_bits flags flag_show_dec then print_dec val else codes "0x" ++ print_hex val in
    if test_bits flags flag_show_notes
    then number
      ++ (codes "\n\nNote:\nRegister 0x"
          ++ (print_hex reg_addr
              ++ (codes ", bit["
                  ++ (print_dec (pred_u32 (u32 (bit_offset + num_bits)))
                      ++ (codes ":"
                          ++ (print_dec bit_offset
                              ++ (codes "]\n" ++ (help_str ++ codes "\n"))))))))
    else number ++ codes "\n"

-- A field of at least one bit that fits a register of `w` bits.
pub record Fits (w bit_offset num_bits : ℕ) : Type 0 where
  pub width : w ≤ 32
  pub some_bits : 0 < num_bits
  pub inside : bit_offset + num_bits ≤ w

-- What a field holds, as arithmetic.
abbrev pub field_of : ℕ → ℕ → ℕ → ℕ
field_of bit_offset num_bits reg_val = reg_val / 2 ^ bit_offset % 2 ^ num_bits
