-- ===== src/Ui/Grouped.antt =====
-- The field groups of a regulation's record: a partition of its fields by their names.
use mathlib.Core.List.{Perm}
use mathlib.Core.List.Perm
use compliance_wizard_engine.Prelude.{
  ◌≡◌, Bool, true, false, List, [], ◌∷◌, ◌++◌, any, length, All, Text, ◌==◌, text_eq, nat_eq,
  Floats,
}
use compliance_wizard_engine.Ui.Regulations.{Entry, Group, FieldGroup, entries_of, RegulationDetail}

module _ {F : Type 0} where
  abbrev flat : List (Group F) → List (Entry F)
  flat [] = []
  flat (g ∷ groups) = entries_of g ++ flat groups

  abbrev has_name : Text → List (Group F) → Bool
  has_name name groups = any (λ g. g.field_name == name) groups

  -- No two groups share a name, and each holds the fields of its name only.
  abbrev AreGroups : List (Group F) → Type 0
  AreGroups [] = Unit
  AreGroups (g ∷ groups) =
      (has_name g.field_name groups ≡ false)
      × All (λ x. x.field_name ≡ g.field_name) (entries_of g)
      × AreGroups groups

  unfoldable pub all_entries : List (FieldGroup F) → List (Entry F)
  all_entries [] = []
  all_entries (g ∷ groups) = g.entries ++ all_entries groups

module _ {F : Type 0} ⦃fl : Floats F⦄ where
  -- A group holds the fields of its name, with their number and the least of their confidences.
  abbrev pub IsFieldGroup : FieldGroup F → Type 0
  IsFieldGroup g =
      All (λ x. x.field_name ≡ g.field_name) g.entries
      × (g.count ≡ length g.entries)
      × All (λ x. fl.fle g.min_conf x.confidence ≡ true) g.entries

  -- No two groups share a name.
  abbrev pub AreFieldGroups : List (FieldGroup F) → Type 0
  AreFieldGroups [] = Unit
  AreFieldGroups (g ∷ groups) =
      (any (λ k. k.field_name == g.field_name) groups ≡ false)
      × IsFieldGroup g
      × AreFieldGroups groups

  -- What the theorem says of a record.
  abbrev pub Shows : List (Entry F) → RegulationDetail F → Type 0
  Shows entries d =
      Perm (all_entries d.field_groups) entries
      × AreFieldGroups d.field_groups
      × (d.total_fields ≡ length entries)
