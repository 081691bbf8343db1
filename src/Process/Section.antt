-- ===== src/Process/Section.antt =====
-- crates/nemclass-core/src/internal/process/protection.rs and the sections of types.rs.
use Prim.Native.Nat.{bit_and}
use nemclass.Common.{ℕ, Bool, Option, List, ◌==◌}

-- The flags of `Protection`, as its bits.
abbrev pub prot_r : ℕ
prot_r = 0b001

abbrev pub prot_w : ℕ
prot_w = 0b010

abbrev pub prot_x : ℕ
prot_x = 0b100

abbrev pub prot_rwx : ℕ
prot_rwx = 0b111

abbrev pub prot_cow : ℕ
prot_cow = 0b1000

abbrev contains_flag : ℕ → ℕ → Bool
contains_flag prot flag = bit_and prot flag == flag

unfoldable pub can_read : ℕ → Bool
can_read prot = contains_flag prot prot_r

unfoldable pub can_write : ℕ → Bool
can_write prot = contains_flag prot prot_w

unfoldable pub can_execute : ℕ → Bool
can_execute prot = contains_flag prot prot_x

unfoldable pub copy_on_write : ℕ → Bool
copy_on_write prot = contains_flag prot prot_cow

pub data SectionType : Type 0 where
  image mapped private unknown : SectionType

pub record Section : Type 0 where
  pub base : ℕ
  pub size : ℕ
  pub prot : ℕ
  pub kind : SectionType
  pub module_name : Option (List ℕ)
