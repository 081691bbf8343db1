-- ===== src/Examples/Regions.antt =====
-- Memory regions: tests and instances.
use nemclass.Common.{ℕ, ◌<◌, ◌≡◌, refl, ◌↔◌, inr, true, none, some, List, [], ◌∷◌, arith, find, All}
use nemclass.Common.Outcome.{ok}
use nemclass.Scan.Target.{Region, default_filter, apply_filter}
use nemclass.Scan.Filtered.{covers}
use nemclass.Scan.Window.{kept}
use nemclass.Scan.SectionFilter.{default_section_filter, offered_regions, keep, accepts}
use nemclass.Scan.Offered.{IsHeld, AnyOf, offered_regions-filtered}
use nemclass.Process.Section.{can_write, copy_on_write, Section, image, private, can_execute}
use nemclass.Process.RegionIndex.{
  ranges_of, from_sections, classify, covering, class_of, executable_in,
}
use nemclass.Process.Lookup.{holds_addr, classify-from_sections}
use nemclass.Common.Sort.{insert, sort_by_key}

-- A heap section, and the code of a module below it.
abbrev layout : List Section
layout =
    record { base = 0x3000; size = 0x1000; prot = 0b011; kind = private; module_name = none }
    ∷ record {
      base = 0x1000;
      size = 0x1000;
      prot = 0b101;
      kind = image;
      module_name = some (97 ∷ []);
    }
    ∷ []

classify_test : classify (from_sections layout) 0x1fff ≡ executable_in (some (97 ∷ []))
unfolding classify from_sections covering ranges_of sort_by_key insert can_execute
classify_test = refl

classify-from_sections_example :
    classify (from_sections layout) 0x1fff ≡ class_of (find (holds_addr 0x1fff) (ranges_of layout))
unfolding ranges_of
classify-from_sections_example =
    classify-from_sections layout 0x1fff
      ((((omega arith, omega arith, inr (omega arith)), tt), (tt, tt)))

-- Only the heap section is offered: the code is not writable.
heap_offered :
    offered_regions default_section_filter (ok layout)
    ≡ ok (record { base = 0x3000; size = 0x1000 } ∷ [])
unfolding offered_regions keep accepts can_write can_execute copy_on_write
heap_offered = refl

offered_regions-filtered_example :
    (regions : List Region) × (offered_regions default_section_filter (ok layout) ≡ ok regions)
    × All (λ (r : Region). 0 < r.size) regions
    × ((a : ℕ)
        → (covers (apply_filter default_filter regions) a ≡ true)
          ↔ (AnyOf (IsHeld default_section_filter a) layout × (kept default_filter a ≡ true)))
offered_regions-filtered_example =
    offered_regions-filtered default_section_filter default_filter layout
