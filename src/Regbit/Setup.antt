-- ===== src/Regbit/Setup.antt =====
-- kmods/lib/regbit-sysfs.c: the check of a configuration, and the creation and removal of the
-- files of a device with the memory, the locks and the group of files that they own.
pub mod Check
pub mod Attrs
pub mod Lifetime
use fboss_bsp_kmods.Base.{ℕ, zero, suc, ◌+◌, ◌-◌, Bool, not, ◌||◌, Option, none, some}
use fboss_bsp_kmods.Base.{
  List, [], ◌∷◌, Text, ltb, leb, ◌==◌, if◌then◌else◌, length, set, replicate,
}
use fboss_bsp_kmods.Base.{bit_and}
use fboss_bsp_kmods.Bits.{u32, test_bits}
use fboss_bsp_kmods.Kernel.{Ret, ok, err, undefined}
use fboss_bsp_kmods.Kernel.Errno.{einval, enomem}
use fboss_bsp_kmods.Regbit.{Config, Callback}

-- `struct regmap_config`.
pub record RegmapConfig : Type 0 where
  pub reg_bits : ℕ
  pub reg_stride : ℕ
  pub val_bits : ℕ
  pub max_register : ℕ

abbrev pub mmio_regmap_cfg : RegmapConfig
mmio_regmap_cfg = record { reg_bits = 32; reg_stride = 4; val_bits = 32; max_register = 0x7FFFF }

abbrev pub i2c_regmap_cfg : RegmapConfig
i2c_regmap_cfg = record { reg_bits = 8; reg_stride = 0; val_bits = 8; max_register = 0xFF }

-- `S_IRUSR` and `S_IWUSR`.
abbrev pub s_irusr : ℕ
s_irusr = 0o400

abbrev pub s_iwusr : ℕ
s_iwusr = 0o200

unfoldable pub regbit_config_check : Config → RegmapConfig → Ret (Unit {0})
regbit_config_check c cfg =
    if bit_and c.mode (s_irusr + s_iwusr) == 0
    then err einval
    else if ltb cfg.max_register c.reg_addr
    then err einval
    else if leb cfg.val_bits c.bit_offset || ltb cfg.val_bits (u32 (c.bit_offset + c.num_bits))
    then err einval
    else ok tt

-- The method behind a file: the default of this library, or the one that the driver gave.
pub data Method : Type 0 where
  default_method : Method
  given : ℕ → Method

abbrev pub method_of : Callback → Method
method_of none = default_method
method_of (some f) = given f

-- A file of sysfs: `entry->dev_attr` with its mode.
pub record File : Type 0 where
  pub name : Text
  pub mode : ℕ
  pub show : Option Method
  pub store : Option Method

-- `struct regbit_sysfs_entry` once it is set up; `none` in the array is a zeroed entry, whose
-- `attr.name` is NULL.
pub record Entry : Type 0 where
  pub config : Config
  pub dev_attr : File

-- `struct regbit_sysfs_handle`. A slot of `attrs` is NULL or points to an entry's attribute.
pub record Handle : Type 0 where
  pub entries : List (Option Entry)
  pub attrs : List (Option File)

-- What lives in the kernel because of this library: allocations, locks, the group of files, and
-- the handle that is freed when the device goes away.
pub record World : Type 0 where
  pub handles : ℕ
  pub attr_arrays : ℕ
  pub entry_arrays : ℕ
  pub locks : ℕ
  pub group : Option (List File)
  pub action : Option Handle

-- What the kernel answers: whether each allocation succeeds, and the error codes of
-- `sysfs_create_group` and of the registration of the clean-up, `none` for success.
pub record Answers : Type 0 where
  pub got_handle : Bool
  pub got_attrs : Bool
  pub got_entries : Bool
  pub create_group : Option ℕ
  pub add_action : Option ℕ

pub regbit_handle_free : World → World
regbit_handle_free w = record w {
  handles = w.handles - 1;
  attr_arrays = w.attr_arrays - 1;
  entry_arrays = w.entry_arrays - 1;
}

pub regbit_handle_alloc : Answers → ℕ → World → Option Handle × World
regbit_handle_alloc a num_entries w =
    let with_handle = record w { handles = w.handles + 1 } in
    let with_attrs = record with_handle { attr_arrays = w.attr_arrays + 1 } in
    let with_entries = record with_attrs { entry_arrays = w.entry_arrays + 1 } in
    let free_attrs = record with_attrs { attr_arrays = with_attrs.attr_arrays - 1 } in
    if not a.got_handle
    then (none, w)
    else if not a.got_attrs
    then (none, record with_handle { handles = with_handle.handles - 1 })
    else if not a.got_entries
    then (none, record free_attrs { handles = free_attrs.handles - 1 })
    else (
      some (record {
        entries = replicate num_entries none;
        attrs = replicate (suc num_entries) none;
      }),
      with_entries,
    )

-- The loop of `regbit_attr_uninit`: a lock is destroyed for each entry that has a name.
pub regbit_attr_uninit : List (Option Entry) → World → World
regbit_attr_uninit [] w = w
regbit_attr_uninit (none ∷ es) w = regbit_attr_uninit es w
regbit_attr_uninit (some e ∷ es) w = regbit_attr_uninit es (record w { locks = w.locks - 1 })

-- The attribute that the loop of `regbit_attr_init` builds.
pub file_of : Config → File
file_of c = record {
  name = c.name;
  mode = c.mode;
  show = if test_bits c.mode s_irusr then some (method_of c.show_func) else none;
  store = if test_bits c.mode s_iwusr then some (method_of c.store_func) else none;
}

-- The loop of `regbit_attr_init` from index `i` on.
pub regbit_attr_init :
    RegmapConfig → ℕ → List Config → Handle → World → Ret (Unit {0}) × Handle × World
regbit_attr_init cfg i [] h w = (ok tt, h, w)
regbit_attr_init cfg i (c ∷ cs) h w =
    let rest =
      regbit_attr_init cfg (suc i) cs
        (record {
          entries = set h.entries i (some (record { config = c; dev_attr = file_of c }));
          attrs = set h.attrs i (some (file_of c));
        })
        (record w { locks = w.locks + 1 }) in
    elim (regbit_config_check c cfg) [
      | ok _ ↦ rest
      | err e ↦ (err e, h, regbit_attr_uninit h.entries w)
      | undefined ↦ (undefined, h, w)
    ]

-- The attributes of a group, up to the first NULL.
pub until_null : List (Option File) → List File
until_null [] = []
until_null (none ∷ fs) = []
until_null (some f ∷ fs) = f ∷ until_null fs

pub regbit_sysfs_uninit : Handle → World → World
regbit_sysfs_uninit h w =
    regbit_handle_free (regbit_attr_uninit h.entries (record w { group = none }))

-- `sysfs_create_group` and what follows it.
pub publish : Answers → Handle → World → Ret (Unit {0}) × World
publish a h w = elim a.create_group [
  | some e ↦ (err e, regbit_handle_free (regbit_attr_uninit h.entries w))
  | none ↦
      let w' = record w { group = some (until_null h.attrs) } in
      elim a.add_action [
        | some e ↦ (err e, regbit_sysfs_uninit h w')
        | none ↦ (ok tt, record w' { action = some h })
      ]
]

-- `regbit_sysfs_init_common`, for an array of `num_configs` configurations.
pub regbit_sysfs_init_common : Answers → List Config → RegmapConfig → World → Ret (Unit {0}) × World
regbit_sysfs_init_common a configs cfg w =
    let (allocated, w') = regbit_handle_alloc a (length configs) w in
    elim allocated [
      | none ↦ (err enomem, w')
      | some h ↦
          let (ret, h', w'') = regbit_attr_init cfg 0 configs h w' in
          elim ret [
            | ok _ ↦ publish a h' w''
            | err e ↦ (err e, regbit_handle_free w'')
            | undefined ↦ (undefined, w'')
          ]
    ]

-- `regbit_sysfs_init_mmio` and `regbit_sysfs_init_i2c`; `regmap` is the error code of
-- `devm_regmap_init_mmio` or `devm_regmap_init_i2c`, `none` for success.
pub regbit_sysfs_init_mmio : Option ℕ → Answers → List Config → World → Ret (Unit {0}) × World
regbit_sysfs_init_mmio none a configs w = regbit_sysfs_init_common a configs mmio_regmap_cfg w
regbit_sysfs_init_mmio (some e) a configs w = (err e, w)

unfoldable pub regbit_sysfs_init_i2c :
    Option ℕ → Answers → List Config → World → Ret (Unit {0}) × World
regbit_sysfs_init_i2c none a configs w = regbit_sysfs_init_common a configs i2c_regmap_cfg w
regbit_sysfs_init_i2c (some e) a configs w = (err e, w)
