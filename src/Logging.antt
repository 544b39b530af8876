-- ===== src/Logging.antt =====
-- pkg/logging/log.go: the defaults of the logging options, and the start of the file logger.
use cni_plugins.Base.{◌≡◌, refl, Option, none, some, [], if◌then◌else◌, is_empty, from_option}
use cni_plugins.Base.Text.{Text, codes}
use cni_plugins.Base.Int.{ℤ}
use cni_plugins.Types.{LogOptions}
use cni_plugins.Constant.{log_debug_level_str, log_default_max_size, log_default_max_age}
use cni_plugins.World.{M, Env, World, ◌>>=◌, deref, call, init_file_logger}

unfoldable pub init_log_options : Option LogOptions → LogOptions
init_log_options none = record {
  log_level = log_debug_level_str;
  log_file_path = [];
  log_file_max_size = some log_default_max_size;
  log_file_max_age = some log_default_max_age;
  log_file_max_count = some log_default_max_age;
}
init_log_options (some o) = record o {
  log_level = if is_empty o.log_level then log_debug_level_str else o.log_level;
  log_file_max_size = some (from_option o.log_file_max_size log_default_max_size);
  log_file_max_age = some (from_option o.log_file_max_age log_default_max_age);
  log_file_max_count = some (from_option o.log_file_max_count log_default_max_age);
}

module _ (env : Env) where
  unfoldable pub set_log_options : LogOptions → M Unit
  set_log_options options = do
    max_size ← deref options.log_file_max_size
    max_age ← deref options.log_file_max_age
    max_count ← deref options.log_file_max_count
    call env (
        init_file_logger (from_option (env.convert_log_level options.log_level) (codes "info"))
          options.log_file_path max_size max_age max_count)

-- With the defaults filled in, starting the logger follows no nil pointer, whatever is configured:
-- it is one call of the outside, with the configured path.
pub set_log_options-init_log_options :
    (env : Env) (o : Option LogOptions) (w : World)
    → (level : Text) × (size : ℤ) × (age : ℤ) × (count : ℤ) × (set_log_options env
          (init_log_options o)
          w
        ≡ call env (init_file_logger level (init_log_options o).log_file_path size age count) w)
unfolding set_log_options init_log_options deref ◌>>=◌
set_log_options-init_log_options env none w = (_, _, _, _, refl)
set_log_options-init_log_options env (some o) w = (_, _, _, _, refl)
