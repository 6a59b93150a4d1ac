-- ===== src/EventIdentity.antt =====
-- `build_source_event_id` (src/zediot_ha_hub_connector/event_identity.py): the id under which a
-- change of state is sent to the server and under which a local rule runs.
pub mod Distinct
use Prim.Native.String.{slice, ◌++◌ as ◌+ₛ◌}
use zediot_hub_connector.Common.{Option, String, if◌then◌else◌, none, not, some, ℕ, ◌=ₛ◌}

-- What the function reads of an event and its new state: each text is `str(… or "")`, but `state` is
-- `str(new_state.get("state"))`, which is "None" where it is missing; a context is the `id` of a
-- dictionary that is not empty.
pub record Change : Type 0 where
  pub event_context : Option String
  pub state_context : Option String
  pub entity_id : String
  pub state : String
  pub state_last_updated : String
  pub time_fired : String

-- `a or b` on texts.
unfoldable pub or_text : String → String → String
or_text a b = if a =ₛ "" then b else a

-- `_event_last_updated`
unfoldable pub event_last_updated : Change → String
event_last_updated c = or_text c.state_last_updated c.time_fired

unfoldable pub first_context : Option String → Option String → String
first_context (some id) _ = id
first_context none (some id) = id
first_context none none = ""

unfoldable pub context_id_of : Change → String
context_id_of c = first_context c.event_context c.state_context

unfoldable pub identity_text : Change → String
unfolding event_last_updated or_text
identity_text c = c.entity_id +ₛ (":" +ₛ event_last_updated c)

-- `hexdigest` of SHA-256 is an argument.
module _ (sha256 : String → String) where
  unfoldable pub digest_of : ℕ → String → String
  digest_of n s = slice (sha256 s) 0 n

  unfoldable pub build_source_event_id : Change → String
  unfolding context_id_of first_context identity_text digest_of
  build_source_event_id c =
      let id = context_id_of c in
      if not (id =ₛ "")
      then "ha:" +ₛ (id +ₛ (":" +ₛ digest_of 16 (identity_text c)))
      else "haevt:" +ₛ digest_of 24 (identity_text c +ₛ (":" +ₛ c.state))
