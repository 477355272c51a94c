-- ===== src/Vocabulary.antt =====
-- db/enums.py: the closed vocabularies, each a data type with the members of its StrEnum.
use mathlib.Core.Path.{◌≡◌, refl}
use compliance_wizard_engine.Prelude.{Bool, true, false, ◌↔◌, arith}

pub data ConditionType : Type 0 where
  inclusion exclusion : ConditionType

pub data Operator : Type 0 where
  gt lt gte lte eq in_list not_in contains : Operator

pub data RelationType : Type 0 where
  amends amended_by references supersedes superseded_by related : RelationType

-- RELATION_INVERSE
unfoldable pub inverse : RelationType → RelationType
inverse amends = amended_by
inverse amended_by = amends
inverse supersedes = superseded_by
inverse superseded_by = supersedes
inverse references = references
inverse related = related

pub inverse_involutive : (t : RelationType) → inverse (inverse t) ≡ t
unfolding inverse
inverse_involutive amends = refl
inverse_involutive amended_by = refl
inverse_involutive supersedes = refl
inverse_involutive superseded_by = refl
inverse_involutive references = refl
inverse_involutive related = refl

pub data RelationSource : Type 0 where
  text_extracted api_sourced : RelationSource

pub data ReviewStatus : Type 0 where
  pending auto_approved human_approved rejected : ReviewStatus

pub data JobStatus : Type 0 where
  queued processing done failed : JobStatus

pub data IngestionStatus : Type 0 where
  queued processing ingested stub failed : IngestionStatus

pub data MatchType : Type 0 where
  exact fuzzy manual inferred : MatchType

pub data AttributeValueType : Type 0 where
  range enum boolean : AttributeValueType

pub data Marking : Type 0 where
  eac ce ex ukca : Marking

pub data AssessmentType : Type 0 where
  first_party third_party : AssessmentType

pub data BodyType : Type 0 where
  notified accredited certified : BodyType

pub data ProductionType : Type 0 where
  single batch serial : ProductionType

-- Equality tests of the members that the program compares.
unfoldable pub relation_beq : RelationType → RelationType → Bool
relation_beq amends amends = true
relation_beq amended_by amended_by = true
relation_beq references references = true
relation_beq supersedes supersedes = true
relation_beq superseded_by superseded_by = true
relation_beq related related = true
relation_beq _ _ = false

pub relation_beq_iff : (a b : RelationType) → (relation_beq a b ≡ true) ↔ (a ≡ b)
unfolding relation_beq
relation_beq_iff a b = ground arith
