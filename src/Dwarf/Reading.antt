-- ===== src/Dwarf/Reading.antt =====
-- src/DwarfForms.h: how the value of an attribute is read, by its class, for NextDIE and NextDIEValue.
use men_debugger.Base.{ℕ, Bool, List}
use men_debugger.Machine.{Scan, pure, ◌>>=◌}
use men_debugger.Dwarf.Form.{form_of_code}
use men_debugger.Dwarf.Class.{DwarfClass, get_dwarf_class}
use men_debugger.Dwarf.Value.{
  form_to_address, form_to_mem_block, form_to_u_const, form_to_s_const, form_to_reference,
  form_to_exprloc, form_to_loclist, die_attrib_to_flag,
}
use men_debugger.Dwarf.Range.{RangeListHeader}
use men_debugger.Dwarf.Abbrev.{AbbrevDefEntry}
use men_debugger.Dwarf.Text.{
  CodeImplConst, StringSections, get_implicit_const, form_to_rnglist, form_to_string,
}

-- Dwarf_Abbrev_Entry
pub record AbbrevEntry : Type 0 where
  pub tag : ℕ
  pub has_children : Bool
  pub def : List AbbrevDefEntry

-- What the entries of a unit are read with: its Compile_Unit_Header, the global sections and header of
-- the range lists, and the fuel of CStrLen.
pub record CompileUnit : Type 0 where
  pub format : ℕ
  pub version : ℕ
  pub address_size : ℕ
  pub table : List AbbrevEntry
  pub code_impl_const : List CodeImplConst
  pub rnglist_header : RangeListHeader
  pub sections : StringSections
  pub fuel : ℕ

-- DIE_Value: the class and the union, as its first eight bytes (a number, the size of a block or the
-- length of a string) and the pointer behind them.
pub record DieValue : Type 0 where
  pub dwarf_class : DwarfClass
  pub word : ℕ
  pub pointer : ℕ

-- The words of the union that a reader of a number assigns: the pointer stays.
abbrev pub number : ℕ → Scan ℕ → Scan (ℕ × ℕ)
number old s = do v ← s; pure (v, old)

-- The `case` of a class that NextDIE and NextDIEValue have in common: the value, with the pointer that
-- the union had for one that is a number. The two other classes are not read here.
unfoldable pub read_value :
    CompileUnit → ℕ → List AbbrevDefEntry → AbbrevDefEntry → DwarfClass → ℕ → Scan (ℕ × ℕ)
read_value u code def d dwarf_class old =
    let form = form_of_code d.form in
    elim dwarf_class [
      | DwarfClass.null ↦ pure (0, old)
      | DwarfClass.constant ↦ number old (form_to_u_const form)
      | DwarfClass.address ↦ number old (form_to_address form u.address_size)
      | DwarfClass.block ↦ do b ← form_to_mem_block form; pure (b.size, b.ptr)
      | DwarfClass.sconstant ↦
          number old (form_to_s_const form (get_implicit_const u.code_impl_const def code d.name))
      | DwarfClass.uconstant ↦ number old (form_to_u_const form)
      | DwarfClass.string ↦ do
        s ← form_to_string u.fuel u.sections form u.format
        pure (s.size, s.str)
      | DwarfClass.flag ↦ number old (die_attrib_to_flag form)
      | DwarfClass.reference ↦ number old (form_to_reference form)
      | DwarfClass.exprloc ↦ do b ← form_to_exprloc form; pure (b.size, b.ptr)
      | DwarfClass.loclist ↦ number old (form_to_loclist form u.format)
      | DwarfClass.rnglist ↦ number old (form_to_rnglist u.rnglist_header form)
    ]

abbrev pub class_of : CompileUnit → AbbrevDefEntry → DwarfClass
class_of u d = get_dwarf_class u.version d.name (form_of_code d.form)
