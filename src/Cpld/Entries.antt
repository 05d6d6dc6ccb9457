-- ===== src/Cpld/Entries.antt =====
-- The table of a CPLD's entries and the files that stand for them.
use fboss_bsp_kmods.Base.{suc, ◌≤◌, ◌<◌, ◌≡◌, arith, refl, Bool, false}
use fboss_bsp_kmods.Base.{List, [], ◌∷◌, ◌++◌, Text, text_eq, text_eq_comm, any, All}
use fboss_bsp_kmods.Base.{length, take, any_append_one, length-set, take-set}
use fboss_bsp_kmods.Base.{take-set_next, All-append_one, ap, ◌∙◌}
use fboss_bsp_kmods.Kernel.{ok}
use fboss_bsp_kmods.Cpld.{SysfsAttr, max_attrs, DynEntry, CdevDesc, fbcpld_entry_exists}
use fboss_bsp_kmods.Cpld.{fbcpld_init_entry, fbcpld_validate_attr, slot, fill}

-- The entries in use.
abbrev pub live : CdevDesc → List DynEntry
live d = take d.num_entries d.entries

abbrev pub has_name : Text → DynEntry → Bool
has_name name e = text_eq e.attr_cfg.name name

-- No two entries have one name.
abbrev pub IsDistinct : List DynEntry → Type 0
IsDistinct [] = Unit
IsDistinct (e ∷ es) = (any (has_name e.attr_cfg.name) es ≡ false) × IsDistinct es

-- The names of the entries, the last first.
abbrev pub newest_first : List DynEntry → List Text
newest_first [] = []
newest_first (e ∷ es) = newest_first es ++ e.attr_cfg.name ∷ []

abbrev pub Passes : DynEntry → Type 0
Passes e = fbcpld_validate_attr e.attr_cfg ≡ ok tt

-- Between two ioctls: the table has room for 64 entries; those in use have passed validation and
-- have different names; and the files that stand are theirs.
pub record IsValid (d : CdevDesc) : Type 0 where
  pub room : length d.entries ≡ max_attrs
  pub within : d.num_entries ≤ max_attrs
  pub passed : All Passes (live d)
  pub distinct : IsDistinct (live d)
  pub standing : d.files ≡ newest_first (live d)

newest_first_append_one :
    (es : List DynEntry) (e : DynEntry)
    → newest_first (es ++ e ∷ []) ≡ e.attr_cfg.name ∷ newest_first es
newest_first_append_one [] e = refl
newest_first_append_one (x ∷ es) e =
    ap (λ l. l ++ x.attr_cfg.name ∷ []) (newest_first_append_one es e)

IsDistinct_append_one :
    (es : List DynEntry) (e : DynEntry)
    → IsDistinct es
    → any (has_name e.attr_cfg.name) es ≡ false
    → IsDistinct (es ++ e ∷ [])
IsDistinct_append_one [] e h p = (refl, tt)
IsDistinct_append_one (x ∷ es) e h p = (
  ground (
    arith,
    any_append_one (has_name x.attr_cfg.name) es e,
    text_eq_comm x.attr_cfg.name e.attr_cfg.name,
  ),
  IsDistinct_append_one es e h.1 (ground arith),
)

pub fill-live : (d : CdevDesc) (cfg : SysfsAttr) → live (fill d cfg) ≡ live d
fill-live d cfg =
    take-set d.entries d.num_entries (fbcpld_init_entry (slot d.entries d.num_entries) cfg)

abbrev pub extend : CdevDesc → SysfsAttr → CdevDesc
extend d cfg = record (fill d cfg) { num_entries = suc d.num_entries; files = cfg.name ∷ d.files }

module _ (d : CdevDesc) (cfg : SysfsAttr) (v : IsValid d) where
  pub fill-IsValid : IsValid (fill d cfg)
  fill-IsValid =
      let e = fbcpld_init_entry (slot d.entries d.num_entries) cfg in
      record {
        room = length-set d.entries d.num_entries e ∙ v.room;
        within = v.within;
        passed = rw (fill-live d cfg) v.passed;
        distinct = rw (fill-live d cfg) v.distinct;
        standing = rw (fill-live d cfg) v.standing;
      }

  pub extend-IsValid :
      fbcpld_validate_attr cfg ≡ ok tt
      → fbcpld_entry_exists d cfg.name ≡ false
      → d.num_entries < max_attrs
      → IsValid (extend d cfg)
  unfolding fbcpld_entry_exists fbcpld_init_entry
  extend-IsValid ok_cfg fresh small =
      let e = fbcpld_init_entry (slot d.entries d.num_entries) cfg in
      let now : live (extend d cfg) ≡ live d ++ e ∷ [] =
        take-set_next d.entries d.num_entries e (omega (arith, v.room)) in
      record {
        room = length-set d.entries d.num_entries e ∙ v.room;
        within = omega arith;
        passed = rw now (All-append_one Passes (live d) e v.passed ok_cfg);
        distinct = rw now (IsDistinct_append_one (live d) e v.distinct fresh);
        standing = rw (now, newest_first_append_one) (ap (λ l. cfg.name ∷ l) v.standing);
      }
