-- ===== src/Regbit.antt =====
-- kmods/lib/regbit-sysfs.c and regbit-sysfs.h: bits of registers as files of sysfs. Here the
-- configuration of a file and the methods that read and write it; `Regbit.Setup` creates the files.
pub mod Access
pub mod Setup
mod Tests
use fboss_bsp_kmods.Base.{ℕ, ◌+◌, ◌%◌, Bool, Text, ◌++◌, Option, none, some, if◌then◌else◌}
use fboss_bsp_kmods.Base.{bit_and}
use fboss_bsp_kmods.Bits.{u8, u32, test_bits}
use fboss_bsp_kmods.Print.{codes, print_dec, print_hex}
use fboss_bsp_kmods.Kernel.{
  Ret, ok, err, undefined, Io, pure, fail, fault, ◌>>=◌, ◌>>◌, Regmap, lift,
}
use fboss_bsp_kmods.Kernel.{Lookup, found, err_ptr, null}
use fboss_bsp_kmods.Kernel.Errno.{einval}
use fboss_bsp_kmods.Field.{read_field, clip_field, place_mask, place_field, merge, render_field}
use fboss_bsp_kmods.Field.{flag_val_negate}

-- A method given by the driver in place of the default, known by a number.
abbrev pub Callback : Type 0
Callback = Option ℕ

-- `struct regbit_sysfs_config`. An absent help string is the empty one, which prints the same.
pub record Config : Type 0 where
  pub name : Text
  pub mode : ℕ
  pub reg_addr : ℕ
  pub bit_offset : ℕ
  pub num_bits : ℕ
  pub show_func : Callback
  pub store_func : Callback
  pub help_str : Text
  pub flags : ℕ

unfoldable pub render : Config → ℕ → Text
render c val = render_field c.flags c.reg_addr c.bit_offset c.num_bits c.help_str val

module _ {S : Type 0} where
  -- `IS_ERR` lets a NULL pass, which the first access dereferences.
  abbrev pub with_regmap : {A : Type 0} → Lookup S → (Regmap S → Io S A) → Io S A
  with_regmap (found m) k = k m
  with_regmap (err_ptr e) k = fail e
  with_regmap null k = fault

  abbrev show_from : Config → Regmap S → Io S Text
  show_from c m = do
    reg_val ← m.read c.reg_addr
    val ← lift (read_field (test_bits c.flags flag_val_negate) c.bit_offset c.num_bits reg_val)
    pure (render c val)

  unfoldable pub regbit_sysfs_show : Lookup S → Config → Io S Text
  regbit_sysfs_show l c = with_regmap l (show_from c)

  -- The read, change and write that `entry->lock` encloses.
  abbrev store_into : Config → ℕ → Regmap S → Io S (Unit {0})
  store_into c value m = do
    input ← lift (clip_field c.num_bits value)
    val ← m.read c.reg_addr
    mask ← lift (place_mask c.bit_offset c.num_bits)
    bits ← lift (place_field c.bit_offset input)
    m.write c.reg_addr (merge val mask bits)

  -- `parsed` is what `kstrtou32` makes of the buffer, and `count` the buffer's length.
  unfoldable pub regbit_sysfs_store : Lookup S → Config → Option ℕ → ℕ → Io S ℕ
  regbit_sysfs_store (err_ptr e) c parsed count = fail e
  regbit_sysfs_store (found m) c none count = fail einval
  regbit_sysfs_store (found m) c (some value) count = store_into c value m >> pure count
  regbit_sysfs_store null c none count = fail einval
  regbit_sysfs_store null c (some value) count = fault

  abbrev version_from : Regmap S → Io S Text
  version_from m = do
    major_ver ← m.read 1
    minor_ver ← m.read 2
    sub_ver ← m.read 3
    pure (
        print_dec (bit_and major_ver 0x7f)
        ++ (codes "."
            ++ (print_dec (u8 minor_ver) ++ (codes "." ++ (print_dec (u8 sub_ver) ++ codes "\n")))))

  pub cpld_fw_ver_show : Lookup S → Io S Text
  cpld_fw_ver_show l = with_regmap l version_from
