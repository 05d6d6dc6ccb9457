-- ===== src/Cpld/Hazards.antt =====
-- Orders of requests in which the table of a CPLD and its files come apart, or in which what a
-- request returns does not say what it did.
use fboss_bsp_kmods.Base.{ℕ, ◌≡◌, ◌<◌, arith, true, false, text_eq, text_eq_refl}
use fboss_bsp_kmods.Base.{List, [], ◌∷◌, Option, none, some, any}
use fboss_bsp_kmods.Kernel.{ok, err}
use fboss_bsp_kmods.Kernel.Errno.{einval}
use fboss_bsp_kmods.Cpld.{SysfsAttr, max_attrs, DynEntry, CdevDesc, fbcpld_entry_exists}
use fboss_bsp_kmods.Cpld.{fbcpld_init_entry, fbcpld_validate_attr, CreateFile, create_attrs}
use fboss_bsp_kmods.Cpld.{fbcpld_sysfs_create, destroy_begin, destroy_finish, remove_file}
use fboss_bsp_kmods.Cpld.{remove_files}
use fboss_bsp_kmods.Cpld.Entries.{live, has_name, IsValid, extend}

-- A table with one entry in use.
abbrev pub one_entry : DynEntry → List DynEntry → CdevDesc
one_entry e es = record { entries = e ∷ es; num_entries = 1; files = e.attr_cfg.name ∷ [] }

-- A request for one attribute.
abbrev pub request_one : CreateFile → SysfsAttr → CdevDesc → Option ℕ × CdevDesc
request_one create_file cfg =
    fbcpld_sysfs_create create_file true (some (record { num_attrs = 1; attrs = cfg ∷ [] }))

-- With one entry in use, a request for one valid attribute of another name that runs between the
-- two parts of SYSFS_DESTROY_ALL returns 0, but then its file is removed, its entry stays in use,
-- the file of the destroyed entry stays, and the table is not valid.
pub destroy_finish_request :
    (create_file : CreateFile) (e : DynEntry) (es : List DynEntry) (cfg : SysfsAttr)
    → fbcpld_validate_attr cfg ≡ ok tt
    → text_eq e.attr_cfg.name cfg.name ≡ false
    → create_file (e.attr_cfg.name ∷ []) cfg.name ≡ none
    → let (count, begun) = destroy_begin (one_entry e es) in
      let (ret, added) = request_one create_file cfg begun in
      let finished = destroy_finish count added in
      (ret ≡ none)
      × (any (has_name cfg.name) (live finished) ≡ true)
      × (finished.files ≡ e.attr_cfg.name ∷ [])
      × ¬ IsValid finished
unfolding destroy_begin destroy_finish fbcpld_sysfs_create create_attrs fbcpld_entry_exists
    remove_files remove_file fbcpld_init_entry
destroy_finish_request create_file e es cfg passed differ made = (
  ground arith,
  ground (arith, text_eq_refl cfg.name),
  ground (arith, text_eq_refl cfg.name),
  λ v. ground (arith, v.standing, text_eq_refl cfg.name),
)

-- For an attribute that is not valid and one that is, new, and accepted by sysfs, with room in
-- the table, a request creates the same table in either order, but returns 0 with the valid one
-- last and -EINVAL with the other last.
pub create_attrs_order :
    (create_file : CreateFile) (bad good : SysfsAttr) (d : CdevDesc)
    → fbcpld_validate_attr bad ≡ err einval
    → fbcpld_validate_attr good ≡ ok tt
    → fbcpld_entry_exists d good.name ≡ false
    → d.num_entries < max_attrs
    → create_file d.files good.name ≡ none
    → (create_attrs create_file (bad ∷ good ∷ []) none d ≡ (none, extend d good))
      × (create_attrs create_file (good ∷ bad ∷ []) none d ≡ (some einval, extend d good))
unfolding create_attrs
create_attrs_order create_file bad good d b g fresh room made = (ground arith, ground arith)
