-- ===== src/Cpld.antt =====
-- kmods/lib/fbcpld-cdev.c, fbcpld-cdev.h and fbcpld-ioctl.h: files of sysfs for the registers of a
-- CPLD, created and destroyed at run time by ioctl.
pub mod Access
pub mod Entries
pub mod Requests
pub mod Hazards
mod Tests
use fboss_bsp_kmods.Base.{ℕ, suc, ◌+◌, Bool, ◌||◌, Text, text_eq, [], List, ◌∷◌, ◌++◌, ◌*◌, ◌^◌}
use fboss_bsp_kmods.Base.{Option, none, some, if◌then◌else◌, ltb, leb, ◌==◌, any, set, take, not}
use fboss_bsp_kmods.Base.{bit_and}
use fboss_bsp_kmods.Bits.{u8, u32, test_bits}
use fboss_bsp_kmods.Print.{codes, print_dec}
use fboss_bsp_kmods.Kernel.{Ret, ok, err, Io, pure, fail, ◌>>=◌, ◌>>◌, Regmap, lift, Lookup, found}
use fboss_bsp_kmods.Kernel.{err_ptr, null, UpdateBits}
use fboss_bsp_kmods.Kernel.Errno.{einval, enodev, efault, enomem, enospc, enotty}
use fboss_bsp_kmods.Field.{read_field, clip_field, place_mask, place_field, render_field}
use fboss_bsp_kmods.Field.{flag_val_negate}

-- `struct fbcpld_sysfs_attr`. A name is the bytes before the NUL, or all NAME_MAX of them.
pub record SysfsAttr : Type 0 where
  pub name : Text
  pub mode : ℕ
  pub reg_addr : ℕ
  pub bit_offset : ℕ
  pub num_bits : ℕ
  pub flags : ℕ
  pub help_str : Text

abbrev pub max_attrs : ℕ
max_attrs = 64

abbrev pub s_irusr : ℕ
s_irusr = 0o400

abbrev pub s_iwusr : ℕ
s_iwusr = 0o200

-- `struct fbcpld_dyn_entry`: whether the show and the store method are set, and the configuration.
pub record DynEntry : Type 0 where
  pub has_show : Bool
  pub has_store : Bool
  pub attr_cfg : SysfsAttr

-- `struct fbcpld_cdev_desc`, with the names of the files that stand for its entries in sysfs,
-- the last created first. `entries` is the array, of which the first `num_entries` are in use.
pub record CdevDesc : Type 0 where
  pub entries : List DynEntry
  pub num_entries : ℕ
  pub files : List Text

pub fbcpld_entry_exists : CdevDesc → Text → Bool
fbcpld_entry_exists d name = any (λ e. text_eq e.attr_cfg.name name) (take d.num_entries d.entries)

-- `fbcpld_init_entry` sets the methods that the mode asks for, and clears none that an earlier use
-- of the slot has set.
pub fbcpld_init_entry : DynEntry → SysfsAttr → DynEntry
fbcpld_init_entry old cfg = record {
  has_show = test_bits cfg.mode s_irusr || old.has_show;
  has_store = test_bits cfg.mode s_iwusr || old.has_store;
  attr_cfg = cfg;
}

abbrev pub is_empty : Text → Bool
is_empty [] = Bool.true
is_empty (c ∷ t) = Bool.false

pub fbcpld_validate_attr : SysfsAttr → Ret (Unit {0})
fbcpld_validate_attr cfg =
    if is_empty cfg.name
    then err einval
    else if bit_and cfg.mode (s_irusr + s_iwusr) == 0
    then err einval
    else if ltb 0xFF cfg.reg_addr
    then err einval
    else if leb 8 cfg.bit_offset
    then err einval
    else if (cfg.num_bits == 0) || ltb 8 cfg.num_bits
    then err einval
    else if ltb 8 (u32 (cfg.bit_offset + cfg.num_bits))
    then err einval
    else ok tt

-- The entry of a slot, a zeroed one past the end of the array.
abbrev pub slot : List DynEntry → ℕ → DynEntry
slot [] i = record {
  has_show = Bool.false;
  has_store = Bool.false;
  attr_cfg = record {
    name = [];
    mode = 0;
    reg_addr = 0;
    bit_offset = 0;
    num_bits = 0;
    flags = 0;
    help_str = [];
  };
}
slot (e ∷ es) ℕ.zero = e
slot (e ∷ es) (suc i) = slot es i

-- `sysfs_create_file`, by what it answers: the error code, if any, at the files that stand already.
abbrev pub CreateFile : Type 0
CreateFile = List Text → Text → Option ℕ

-- The entry that an attribute is put into.
abbrev pub fill : CdevDesc → SysfsAttr → CdevDesc
fill d cfg = record d {
  entries = set d.entries d.num_entries (fbcpld_init_entry (slot d.entries d.num_entries) cfg);
}

-- The loop of `fbcpld_sysfs_create` over the attributes of a request; `ret` is the variable.
pub create_attrs : CreateFile → List SysfsAttr → Option ℕ → CdevDesc → Option ℕ × CdevDesc
create_attrs create_file [] ret d = (ret, d)
create_attrs create_file (cfg ∷ cfgs) ret d =
    let skip_invalid = create_attrs create_file cfgs (some einval) d in
    let skip_known = create_attrs create_file cfgs none d in
    let filled = fill d cfg in
    let next =
      create_attrs create_file cfgs none
        (record filled { num_entries = suc d.num_entries; files = cfg.name ∷ d.files }) in
    elim (fbcpld_validate_attr cfg) [
      | ok _ ↦
          if fbcpld_entry_exists d cfg.name
          then skip_known
          else if leb max_attrs d.num_entries
          then (some enospc, d)
          else elim (create_file d.files cfg.name) [ some e ↦ (some e, filled) | none ↦ next ]
      | _ ↦ skip_invalid
    ]

-- `struct fbcpld_ioctl_create_request`.
pub record CreateRequest : Type 0 where
  pub num_attrs : ℕ
  pub attrs : List SysfsAttr

-- `userp` is the request, `none` if it cannot be copied; `allocated` is the success of `kmalloc`.
pub fbcpld_sysfs_create : CreateFile → Bool → Option CreateRequest → CdevDesc → Option ℕ × CdevDesc
fbcpld_sysfs_create create_file allocated none d = (some (if allocated then efault else enomem), d)
fbcpld_sysfs_create create_file allocated (some req) d =
    if not allocated
    then (some enomem, d)
    else if (req.num_attrs == 0) || ltb max_attrs req.num_attrs
    then (some einval, d)
    else create_attrs create_file (take req.num_attrs req.attrs) none d

-- The part of `fbcpld_sysfs_destroy_all` that holds the lock: the number of entries, and none left.
pub destroy_begin : CdevDesc → ℕ × CdevDesc
destroy_begin d = (d.num_entries, record d { num_entries = 0 })

-- `sysfs_remove_file`.
pub remove_file : Text → List Text → List Text
remove_file name [] = []
remove_file name (f ∷ fs) = if text_eq f name then fs else f ∷ remove_file name fs

-- The loop after the lock is released, from the entries as they then are.
pub remove_files : List DynEntry → List Text → List Text
remove_files [] files = files
remove_files (e ∷ es) files = remove_files es (remove_file e.attr_cfg.name files)

pub destroy_finish : ℕ → CdevDesc → CdevDesc
destroy_finish count d = record d { files = remove_files (take count d.entries) d.files }

pub fbcpld_sysfs_destroy_all : CdevDesc → Option ℕ × CdevDesc
fbcpld_sysfs_destroy_all d = let (count, d') = destroy_begin d in (none, destroy_finish count d')

-- The commands of the ioctl; `other` is any that is not listed.
pub data Command : Type 0 where
  sysfs_create : Bool → Option CreateRequest → Command
  sysfs_destroy_all : Command
  other : Command

pub fbcpld_cdev_ioctl : CreateFile → Command → CdevDesc → Option ℕ × CdevDesc
fbcpld_cdev_ioctl create_file (sysfs_create allocated req) d =
    fbcpld_sysfs_create create_file allocated req d
fbcpld_cdev_ioctl create_file sysfs_destroy_all d = fbcpld_sysfs_destroy_all d
fbcpld_cdev_ioctl create_file other d = (some enotty, d)

module _ {S : Type 0} where
  -- `IS_ERR_OR_NULL` turns an encoded error and a NULL into one code.
  abbrev with_regmap : {A : Type 0} → Lookup S → (Regmap S → Io S A) → Io S A
  with_regmap (found m) k = k m
  with_regmap (err_ptr e) k = fail enodev
  with_regmap null k = fail enodev

  abbrev show_from : SysfsAttr → Regmap S → Io S Text
  show_from cfg m = do
    reg_val ← m.read cfg.reg_addr
    val ←
        lift (read_field (test_bits cfg.flags flag_val_negate) cfg.bit_offset cfg.num_bits reg_val)
    pure (render_field cfg.flags cfg.reg_addr cfg.bit_offset cfg.num_bits cfg.help_str val)

  pub fbcpld_dyn_show : Lookup S → SysfsAttr → Io S Text
  fbcpld_dyn_show l cfg = with_regmap l (show_from cfg)

  -- A file that its owner cannot read is written whole, another by its field alone.
  abbrev store_into : UpdateBits S → SysfsAttr → ℕ → Regmap S → Io S (Unit {0})
  store_into update_bits cfg value m = do
    input ← lift (clip_field cfg.num_bits value)
    bits ← lift (place_field cfg.bit_offset input)
    elim (test_bits cfg.mode s_irusr) [
      | Bool.false ↦ m.write cfg.reg_addr bits
      | Bool.true ↦ lift (place_mask cfg.bit_offset cfg.num_bits) >>= λ mask.
          update_bits cfg.reg_addr mask bits
    ]

  pub fbcpld_dyn_store : UpdateBits S → Lookup S → SysfsAttr → Option ℕ → ℕ → Io S ℕ
  fbcpld_dyn_store update_bits l cfg none count = with_regmap l (λ m. fail einval)
  fbcpld_dyn_store update_bits l cfg (some value) count =
      with_regmap l (λ m. store_into update_bits cfg value m >> pure count)

  pub fw_ver_show : Lookup S → Io S Text
  fw_ver_show l = with_regmap l λ m. do
    major_ver ← m.read 1
    minor_ver ← m.read 2
    sub_ver ← m.read 3
    pure (
        print_dec (bit_and major_ver 0x7f)
        ++ (codes "."
            ++ (print_dec (u8 minor_ver) ++ (codes "." ++ (print_dec (u8 sub_ver) ++ codes "\n")))))
