-- ===== src/Witnesses/EventIdentity.antt =====
-- A light that is turned on and then dimmed under one context.
use zediot_hub_connector.Common.{String, eq_iff, false, none, refl, some, true, ◌↔◌, ◌≡◌, ◌≢◌}
use zediot_hub_connector.EventIdentity.{
  Change, build_source_event_id, context_id_of, digest_of, first_context,
}
use zediot_hub_connector.EventIdentity.Distinct.{content, shared_context, time_of}

abbrev turned_on : Change
turned_on = record {
  event_context = some "ctx";
  state_context = none;
  entity_id = "light.a";
  state = "on";
  state_last_updated = "06:55:00";
  time_fired = "06:55:01";
}

abbrev dimmed : Change
dimmed = record turned_on { state_last_updated = "06:55:02" }

abbrev plain : String → String
plain s = s

contexts_shared : context_id_of turned_on ≡ context_id_of dimmed
unfolding context_id_of first_context
contexts_shared = refl

context_there : context_id_of turned_on ≢ ""
unfolding context_id_of first_context
context_there e = let same : false ≡ true = (eq_iff "ctx" "").1 e in cc

-- These texts are too short to be cut.
texts_apart :
    digest_of plain 16 (content turned_on) ≡ digest_of plain 16 (content dimmed)
    → content turned_on ≡ content dimmed
unfolding digest_of
texts_apart e = e

shared_context_example :
    (build_source_event_id plain turned_on ≡ build_source_event_id plain dimmed)
    ↔ (time_of turned_on ≡ time_of dimmed)
shared_context_example =
    shared_context plain turned_on dimmed contexts_shared context_there refl texts_apart
