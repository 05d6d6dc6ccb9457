-- ===== src/Tables.antt =====
-- The tables of register fields with which the drivers of the platforms call
-- kmods/lib/regbit-sysfs.c, one module for each driver.
pub mod Mp3Scmcpld
pub mod Mp3Smbcpld
pub mod Mp3nScmcpld
pub mod W800Scmcpld
pub mod W800bSmbcpld
pub mod W800cSmbcpld
pub mod AnacapaScmcpld
pub mod AnacapaMcbcpld
pub mod IcecubeScmcpld
pub mod IcecubeMcbcpld
pub mod IcecubePiccpld
pub mod TahansbScmcpld
pub mod IceteaScmcpld
pub mod Leh800bScmcpld
pub mod Leh800bPdbcpld
pub mod JangaSmbcpld
pub mod MtiaSmbcpld
pub mod TahanSmbcpld
pub mod Th6Smbcpld
pub mod FpgaInfo
pub mod Sound
pub mod Created
pub mod Apart
mod Tests
use fboss_bsp_kmods.Base.{ℕ, Text, none, some, []}
use fboss_bsp_kmods.Regbit.{Config}

abbrev pub regbit_fmode_ro : ℕ
regbit_fmode_ro = 0o444

abbrev pub regbit_fmode_rw : ℕ
regbit_fmode_rw = 0o644

-- The numbers by which the methods are known that drivers give in place of the default.
abbrev pub cpld_fw_ver_show : ℕ
cpld_fw_ver_show = 0

abbrev pub fpga_fw_ver_show : ℕ
fpga_fw_ver_show = 1

abbrev field : (mode : ℕ) → Text → (reg_addr bit_offset num_bits : ℕ) → Config
field mode name reg_addr bit_offset num_bits = record {
  name = name;
  mode = mode;
  reg_addr = reg_addr;
  bit_offset = bit_offset;
  num_bits = num_bits;
  show_func = none;
  store_func = none;
  help_str = [];
  flags = 0;
}

-- An entry that is read-only, one that is read and written, and one with a method of its own; what
-- the initializer of an entry leaves out is zero.
abbrev pub ro_field : Text → (reg_addr bit_offset num_bits : ℕ) → Config
ro_field = field regbit_fmode_ro

abbrev pub rw_field : Text → (reg_addr bit_offset num_bits : ℕ) → Config
rw_field = field regbit_fmode_rw

abbrev pub shown_by : ℕ → Text → Config
shown_by show name = record (ro_field name 0 0 0) { show_func = some show }
