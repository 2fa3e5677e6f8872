-- ===== src/Gateway/Models.antt =====
-- backend/feature-gateway/src/models.rs.
use codenexus.Prelude.{Bool, Option, none, some, Text, codes, text_eq, if◌then◌else◌, ℤ}

pub data FeatureSource : Type 0 where
  default global_override campus_override grade_override class_override : FeatureSource
  system_emergency_off : FeatureSource

-- The `Display` of a source.
unfoldable pub to_string : FeatureSource → Text
to_string default = codes "default"
to_string global_override = codes "global"
to_string campus_override = codes "campus"
to_string grade_override = codes "grade"
to_string class_override = codes "class"
to_string system_emergency_off = codes "system_emergency_off"

unfoldable pub from_scope_str : Text → Option FeatureSource
from_scope_str s =
    if text_eq s (codes "global")
    then some global_override
    else if text_eq s (codes "campus")
    then some campus_override
    else if text_eq s (codes "grade")
    then some grade_override
    else if text_eq s (codes "class")
    then some class_override
    else none

pub data FeatureScope : Type 0 where
  global campus grade class : FeatureScope

unfoldable pub as_str : FeatureScope → Text
as_str global = codes "global"
as_str campus = codes "campus"
as_str grade = codes "grade"
as_str class = codes "class"

pub record ResolvedFeature : Type 0 where
  pub enabled : Bool
  pub source : FeatureSource

pub record SetFlagRequest : Type 0 where
  pub enabled : Bool
  pub scope : Text
  pub scope_id : Option ℤ
