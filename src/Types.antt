-- ===== src/Types.antt =====
-- The configuration types of pkg/types/types.go. A Go pointer is an `Option`.
use cni_plugins.Base.{Bool, Option}
use cni_plugins.Base.Text.{Text}
use cni_plugins.Base.Int.{ℤ, pos, negsuc}

-- `MigrateRoute`, an int32, and its three named values.
abbrev pub MigrateRoute : Type 0
MigrateRoute = ℤ

abbrev pub migrate_auto : MigrateRoute
migrate_auto = negsuc 0

abbrev pub migrate_never : MigrateRoute
migrate_never = pos 0

abbrev pub migrate_enable : MigrateRoute
migrate_enable = pos 1

pub record RpFilter : Type 0 where
  pub enable : Option Bool
  pub value : Option ℤ

pub record LogOptions : Type 0 where
  pub log_level : Text
  pub log_file_path : Text
  pub log_file_max_size : Option ℤ
  pub log_file_max_age : Option ℤ
  pub log_file_max_count : Option ℤ

pub record IpConflict : Type 0 where
  pub enabled : Bool
  pub interval : Text
  pub retry : ℤ
