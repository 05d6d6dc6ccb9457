-- ===== src/Cpld/Requests.antt =====
-- What the ioctls of a CPLD do to its table and its files.
use fboss_bsp_kmods.Base.{ℕ, ◌≡◌, ◌⊎◌, inl, inr, arith, refl, false}
use fboss_bsp_kmods.Base.{List, [], ◌∷◌, ◌++◌, Text, text_eq, text_eq_refl, any}
use fboss_bsp_kmods.Base.{Option, none, some, take, any_append_one, ap, ◌∙◌}
use fboss_bsp_kmods.Base.{Bool-cases, Option-cases, leb}
use fboss_bsp_kmods.Kernel.{ok, err}
use fboss_bsp_kmods.Kernel.Errno.{einval}
use fboss_bsp_kmods.Cpld.{SysfsAttr, max_attrs, DynEntry, CdevDesc, fbcpld_entry_exists}
use fboss_bsp_kmods.Cpld.{fbcpld_validate_attr, CreateFile, create_attrs, remove_file}
use fboss_bsp_kmods.Cpld.{remove_files, fbcpld_sysfs_create, destroy_begin, destroy_finish}
use fboss_bsp_kmods.Cpld.{fbcpld_sysfs_destroy_all, Command, fbcpld_cdev_ioctl}
use fboss_bsp_kmods.Cpld.{sysfs_create, sysfs_destroy_all, other}
use fboss_bsp_kmods.Cpld.Entries.{live, has_name, IsDistinct, newest_first, IsValid}
use fboss_bsp_kmods.Cpld.Entries.{fill-IsValid, extend-IsValid, extend}

pub validate_cases :
    (cfg : SysfsAttr) → (fbcpld_validate_attr cfg ≡ ok tt) ⊎ (fbcpld_validate_attr cfg ≡ err einval)
unfolding fbcpld_validate_attr
validate_cases cfg = ground arith

-- Running a request keeps the table valid, whatever `sysfs_create_file` answers.
create_attrs-IsValid :
    (create_file : CreateFile) (cfgs : List SysfsAttr) (ret : Option ℕ) (d : CdevDesc)
    → IsValid d
    → IsValid (create_attrs create_file cfgs ret d).1
unfolding create_attrs
create_attrs-IsValid create_file [] ret d v = v
create_attrs-IsValid create_file (cfg ∷ cfgs) ret d v = elim (validate_cases cfg) [
  | inr bad ↦ rw (bad, create_attrs) (create_attrs-IsValid create_file cfgs (some einval) d v)
  | inl good ↦ elim (Bool-cases (fbcpld_entry_exists d cfg.name)) [
    | inl known ↦ rw (good, known, create_attrs) (create_attrs-IsValid create_file cfgs none d v)
    | inr fresh ↦ elim (Bool-cases (leb max_attrs d.num_entries)) [
      | inl full ↦ rw (good, fresh, full, create_attrs) v
      | inr small ↦ elim (Option-cases (create_file d.files cfg.name)) [
        | inr (e, refused) ↦ rw (good, fresh, small, refused, create_attrs) (fill-IsValid d cfg v)
        | inl made ↦
            rw (good, fresh, small, made, create_attrs)
              (create_attrs-IsValid create_file cfgs none (extend d cfg)
                (extend-IsValid d cfg v good fresh (ground arith)))
      ]
    ]
  ]
]

remove_file_last :
    (files : List Text) (name : Text)
    → any (λ f. text_eq f name) files ≡ false
    → remove_file name (files ++ name ∷ []) ≡ files
unfolding remove_file
remove_file_last [] name h = ground (arith, text_eq_refl name)
remove_file_last (f ∷ files) name h = ground (arith, remove_file_last files name)

any-newest_first :
    (es : List DynEntry) (name : Text)
    → any (λ f. text_eq f name) (newest_first es) ≡ any (has_name name) es
any-newest_first [] name = refl
any-newest_first (e ∷ es) name = ground (
  arith,
  any_append_one (λ f. text_eq f name) (newest_first es) e.attr_cfg.name,
  any-newest_first es name,
)

remove_files-newest_first :
    (es : List DynEntry) → IsDistinct es → remove_files es (newest_first es) ≡ []
unfolding remove_files
remove_files-newest_first [] h = refl
remove_files-newest_first (e ∷ es) h =
    rw
      (remove_file_last (newest_first es) e.attr_cfg.name
        (any-newest_first es e.attr_cfg.name ∙ h.0))
      (remove_files-newest_first es h.1)

-- SYSFS_DESTROY_ALL on a valid table returns 0 and leaves a valid table with no entry in use and
-- no file.
pub fbcpld_sysfs_destroy_all_empties :
    (d : CdevDesc)
    → IsValid d
    → let (ret, d') = fbcpld_sysfs_destroy_all d in
      (ret ≡ none) × (d'.num_entries ≡ 0) × (d'.files ≡ []) × IsValid d'
unfolding fbcpld_sysfs_destroy_all destroy_begin destroy_finish
fbcpld_sysfs_destroy_all_empties d v =
    let gone : remove_files (live d) d.files ≡ [] =
      ap (remove_files (live d)) v.standing ∙ remove_files-newest_first (live d) v.distinct in
    (
      refl,
      refl,
      gone,
      record { room = v.room; within = omega arith; passed = tt; distinct = tt; standing = gone },
    )

-- From a valid table, every ioctl on a CPLD, whatever it returns and whatever sysfs answers,
-- leads to a valid table: at most 64 entries, which have passed validation under different names,
-- and exactly their files standing.
pub fbcpld_cdev_ioctl-IsValid :
    (create_file : CreateFile) (c : Command) (d : CdevDesc)
    → IsValid d
    → IsValid (fbcpld_cdev_ioctl create_file c d).1
unfolding fbcpld_cdev_ioctl fbcpld_sysfs_create
fbcpld_cdev_ioctl-IsValid create_file (sysfs_create allocated none) d v = v
fbcpld_cdev_ioctl-IsValid create_file (sysfs_create allocated (some req)) d v =
    ground (arith, create_attrs-IsValid create_file (take req.num_attrs req.attrs) none d v)
fbcpld_cdev_ioctl-IsValid create_file sysfs_destroy_all d v =
    (fbcpld_sysfs_destroy_all_empties d v).3
fbcpld_cdev_ioctl-IsValid create_file other d v = v
