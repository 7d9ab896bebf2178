-- ===== src/Configuration/Constants.antt =====
-- The constants of internal/configuration/settings.go.
use nginx_k8s_loadbalancer.Base.{ℕ, String}
use nginx_k8s_loadbalancer.Text.{◌⧺◌}

abbrev pub config_maps_namespace : String
config_maps_namespace = "nlk"

abbrev pub config_map_name : String
config_map_name = "nlk-config"

abbrev pub resync_period : ℕ
resync_period = 0

abbrev pub nlk_prefix : String
nlk_prefix = config_maps_namespace ⧺ "-"

abbrev pub port_annotation_prefix : String
port_annotation_prefix = "nginxinc.io"
