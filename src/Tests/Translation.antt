-- ===== src/Tests/Translation.antt =====
-- Runs of the translator, and its theorems at them.
use nginx_k8s_loadbalancer.Base.{◌≡◌, refl, List}
use nginx_k8s_loadbalancer.Text.{has_prefix, slice_from}
use nginx_k8s_loadbalancer.Text.Decimal.{format}
use nginx_k8s_loadbalancer.GoMap.{lookup}
use nginx_k8s_loadbalancer.Result.{ok}
use nginx_k8s_loadbalancer.Core.{updated, deleted, ServerUpdateEvent}
use nginx_k8s_loadbalancer.Translation.{
  translate, filter_ports, build_server_update_events, build_upstream_servers, events_for,
  fix_ingress_name, get_client_type,
}
use nginx_k8s_loadbalancer.Translation.Relation.{Translates, translate-Translates}
use nginx_k8s_loadbalancer.Tests.Fixtures.{
  sample_service, event_of, sample_deletions, sample_updates,
}

deleted_sample : translate (event_of deleted) ≡ ok sample_deletions
unfolding translate build_server_update_events filter_ports has_prefix fix_ingress_name slice_from
    events_for build_upstream_servers get_client_type format lookup
deleted_sample = refl

updated_sample : translate (event_of updated) ≡ ok sample_updates
unfolding translate build_server_update_events filter_ports has_prefix fix_ingress_name slice_from
    events_for get_client_type build_upstream_servers lookup format
updated_sample = refl

translate-Translates_example :
    (es : List ServerUpdateEvent) × (translate (event_of deleted) ≡ ok es)
    × Translates (event_of deleted) sample_service.ports es
translate-Translates_example = translate-Translates (event_of deleted)
