-- ===== src/Scan/SectionFilter.antt =====
-- crates/nemclass-scan/src/target.rs: the filter on protection and kind, which a live process
-- applies to its sections.
use nemclass.Common.{ℕ, Bool, true, false, not, ◌&&◌, List, map, ltb, filter}
use nemclass.Common.Outcome.{Outcome, ok, ◌>>=◌}
use nemclass.Scan.Target.{Region}
use nemclass.Process.Section.{
  Section, SectionType, image, mapped, private, unknown, can_write, can_execute, copy_on_write,
}

pub data FilterState : Type 0 where
  yes no any_state : FilterState

unfoldable pub accepts : FilterState → Bool → Bool
accepts yes has = has
accepts no has = not has
accepts any_state has = true

pub record SectionFilter : Type 0 where
  pub writable : FilterState
  pub executable : FilterState
  pub copies_on_write : FilterState
  pub scan_private : Bool
  pub scan_image : Bool
  pub scan_mapped : Bool

abbrev pub default_section_filter : SectionFilter
default_section_filter = record {
  writable = yes;
  executable = any_state;
  copies_on_write = no;
  scan_private = true;
  scan_image = true;
  scan_mapped = false;
}

abbrev pub type_ok : SectionFilter → SectionType → Bool
type_ok f private = f.scan_private
type_ok f image = f.scan_image
type_ok f mapped = f.scan_mapped
type_ok f unknown = false

unfoldable pub keep : SectionFilter → Section → Bool
unfolding accepts
keep f s =
    type_ok f s.kind
    && accepts f.writable (can_write s.prot)
    && accepts f.executable (can_execute s.prot)
    && accepts f.copies_on_write (copy_on_write s.prot)

abbrev pub region_of : Section → Region
region_of s = record { base = s.base; size = s.size }

-- `ProcessTarget::regions`, of the sections that the provider lists.
unfoldable pub offered_regions : SectionFilter → Outcome ℕ (List Section) → Outcome ℕ (List Region)
unfolding keep
offered_regions f listed = do
  sections ← listed
  ok (map region_of (filter (λ (s : Section). ltb 0 s.size && keep f s) sections))
