-- ===== src/Constant.antt =====
-- pkg/constant: the constants that the plugins use, under their names.
use cni_plugins.Base.{String}
use cni_plugins.Base.Text.{Text, codes}
use cni_plugins.Base.Int.{ℤ, pos}
use cni_plugins.World.{Error, new}

abbrev pub err_file_exists : String
err_file_exists = "file exists"

abbrev pub err_route_file_exist : String
err_route_file_exist = "file exists"

abbrev pub ndp_retry_error : Error
ndp_retry_error = new "ip conflicting check fails with more than maximum number of retries"

abbrev pub log_debug_level_str : Text
log_debug_level_str = codes "debug"

abbrev pub veth_log_default_file_path : Text
veth_log_default_file_path = codes "/var/log/meta-plugins/veth.log"

abbrev pub router_log_default_file_path : Text
router_log_default_file_path = codes "/var/log/meta-plugins/router.log"

abbrev pub log_default_max_size : ℤ
log_default_max_size = pos 100

abbrev pub log_default_max_age : ℤ
log_default_max_age = pos 5
