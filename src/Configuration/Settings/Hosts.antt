-- ===== src/Configuration/Settings/Hosts.antt =====
-- What parseHosts makes of the value of the key "nginx-hosts".
use nginx_k8s_loadbalancer.Base.{String, ◌≡◌, ◌≢◌, [], All}
use nginx_k8s_loadbalancer.Text.Split.{join, join-split, Lacks, split-Lacks, split-ne-nil}
use nginx_k8s_loadbalancer.Configuration.Settings.{parse_hosts}

-- Joined with commas the hosts are the configured text again, no host contains a comma, and there is
-- at least one host, whatever the text.
pub join-parse_hosts :
    (hosts : String)
    → (join "," (parse_hosts hosts) ≡ hosts)
      × All (Lacks b',') (parse_hosts hosts)
      × (parse_hosts hosts ≢ [])
unfolding parse_hosts
join-parse_hosts hosts = (join-split "," hosts, split-Lacks b',' hosts, split-ne-nil b',' hosts)
