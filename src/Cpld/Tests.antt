-- ===== src/Cpld/Tests.antt =====
-- Concrete runs of the run-time files of kmods/lib/fbcpld-cdev.c, and the theorems at them.
use fboss_bsp_kmods.Base.{ℕ, ◌-◌, ◌≡◌, ◌≢◌, ◌↔◌, ◌≤◌, arith, refl, true, false, some, none}
use fboss_bsp_kmods.Base.{[], ◌∷◌, if◌then◌else◌, leb, ltb, ◌&&◌, text_eq, any, replicate}
use fboss_bsp_kmods.Base.{bit_and, Option}
use fboss_bsp_kmods.Bits.{bit}
use fboss_bsp_kmods.Print.{codes}
use fboss_bsp_kmods.Kernel.{ok, err, found, update}
use fboss_bsp_kmods.Kernel.Memory.{memory, content, memory-IsRegisterFile, all_hold}
use fboss_bsp_kmods.Kernel.Memory.{memory_update, memory_update-IsUpdate}
use fboss_bsp_kmods.Field.{Fits, clip_field, place_field, mask_u32}
use fboss_bsp_kmods.Cpld.{SysfsAttr, DynEntry, CdevDesc, CreateFile, CreateRequest, is_empty}
use fboss_bsp_kmods.Cpld.{fbcpld_validate_attr, fbcpld_dyn_store}
use fboss_bsp_kmods.Cpld.{fbcpld_cdev_ioctl, sysfs_create, fbcpld_sysfs_destroy_all, destroy_begin}
use fboss_bsp_kmods.Cpld.{destroy_finish, slot}
use fboss_bsp_kmods.Cpld.Entries.{IsValid, live, has_name, extend}
use fboss_bsp_kmods.Cpld.Access.{fbcpld_validate_attr_iff}
use fboss_bsp_kmods.Cpld.Access.{fbcpld_dyn_store_bits}
use fboss_bsp_kmods.Cpld.Requests.{fbcpld_sysfs_destroy_all_empties, fbcpld_cdev_ioctl-IsValid}
use fboss_bsp_kmods.Cpld.Hazards.{one_entry, request_one, destroy_finish_request}

-- Two bits from bit 4 on of register 0x20, which the owner may write but not read.
abbrev trigger : SysfsAttr
trigger = record {
  name = codes "trigger";
  mode = 0o200;
  reg_addr = 0x20;
  bit_offset = 4;
  num_bits = 2;
  flags = 0;
  help_str = [];
}

abbrev power : SysfsAttr
power = record trigger { name = codes "power"; mode = 0o644 }

abbrev status : SysfsAttr
status = record trigger { name = codes "status"; mode = 0o444 }

-- It ends past bit 7.
abbrev wide : SysfsAttr
wide = record trigger { name = codes "wide"; num_bits = 5 }

-- `sysfs_create_file` where it never fails.
abbrev accept : CreateFile
accept files name = none

abbrev zeroed : DynEntry
zeroed = slot [] 0

abbrev fresh : CdevDesc
fresh = record { entries = replicate 64 zeroed; num_entries = 0; files = [] }

abbrev power_entry : DynEntry
power_entry = record { has_show = true; has_store = true; attr_cfg = power }

fresh-IsValid : IsValid fresh
fresh-IsValid = record {
  room = refl;
  within = omega arith;
  passed = tt;
  distinct = tt;
  standing = refl;
}

power_passes : fbcpld_validate_attr power ≡ ok tt
power_passes = (fbcpld_validate_attr_iff power).1 (refl, ground arith, omega arith, omega arith)

status_passes : fbcpld_validate_attr status ≡ ok tt
status_passes = (fbcpld_validate_attr_iff status).1 (refl, ground arith, omega arith, omega arith)

trigger_passes : fbcpld_validate_attr trigger ≡ ok tt
trigger_passes = (fbcpld_validate_attr_iff trigger).1 (refl, ground arith, omega arith, omega arith)

wide_fails : fbcpld_validate_attr wide ≡ err 22
unfolding fbcpld_validate_attr
wide_fails = refl

store_hidden :
    fbcpld_dyn_store memory_update (found (memory 8)) trigger (some 3) 2 (all_hold 0xff)
    ≡ (ok 2, update (all_hold 0xff) 0x20 0x30)
unfolding fbcpld_dyn_store clip_field place_field mask_u32
store_hidden = refl

fbcpld_validate_attr_iff_example :
    (fbcpld_validate_attr power ≡ ok tt)
    ↔ ((is_empty power.name ≡ false) × (bit_and 0o644 0o600 ≢ 0) × (0x20 ≤ 0xFF) × Fits 8 4 2)
fbcpld_validate_attr_iff_example = fbcpld_validate_attr_iff power

fbcpld_dyn_store_bits_example :
    ◌≡◌ {A = ℕ} 2 2
    × ((k : ℕ)
        → bit (content 8 (update (all_hold 0xff) 0x20 0x30) 0x20) k
          ≡ (if leb 4 k && ltb k 6 then bit 3 (k - 4) else 0))
    × ((b : ℕ)
        → b ≢ 0x20
        → content 8 (update (all_hold 0xff) 0x20 0x30) b ≡ content 8 (all_hold 0xff) b)
fbcpld_dyn_store_bits_example =
    fbcpld_dyn_store_bits (memory 8) trigger trigger_passes memory_update (content 8)
      (memory-IsRegisterFile 8) memory_update-IsUpdate 3 2 2 (all_hold 0xff)
      (update (all_hold 0xff) 0x20 0x30) store_hidden

abbrev two_requests : Option CreateRequest
two_requests = some (record { num_attrs = 2; attrs = power ∷ status ∷ [] })

fbcpld_cdev_ioctl-IsValid_example :
    IsValid (fbcpld_cdev_ioctl accept (sysfs_create true two_requests) fresh).1
fbcpld_cdev_ioctl-IsValid_example =
    fbcpld_cdev_ioctl-IsValid accept (sysfs_create true two_requests) fresh fresh-IsValid

abbrev filled : CdevDesc
filled = extend fresh power

fbcpld_sysfs_destroy_all_empties_example :
    let (ret, d) =
      fbcpld_sysfs_destroy_all
        (fbcpld_cdev_ioctl accept (sysfs_create true two_requests) fresh).1 in
    (ret ≡ none) × (d.num_entries ≡ 0) × (d.files ≡ []) × IsValid d
fbcpld_sysfs_destroy_all_empties_example =
    fbcpld_sysfs_destroy_all_empties
      (fbcpld_cdev_ioctl accept (sysfs_create true two_requests) fresh).1
      (fbcpld_cdev_ioctl-IsValid accept (sysfs_create true two_requests) fresh fresh-IsValid)

destroy_finish_request_example :
    let (count, begun) = destroy_begin (one_entry power_entry []) in
    let (ret, added) = request_one accept status begun in
    let finished = destroy_finish count added in
    (ret ≡ none)
    × (any (has_name (codes "status")) (live finished) ≡ true)
    × (finished.files ≡ codes "power" ∷ [])
    × ¬ IsValid finished
unfolding text_eq
destroy_finish_request_example =
    destroy_finish_request accept power_entry [] status status_passes refl refl
