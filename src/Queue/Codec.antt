-- ===== src/Queue/Codec.antt =====
-- Python's `json` module as the stores use it: `json.dumps` into a text column, `json.loads` back,
-- and the number of bytes of the encoded text.
use zediot_hub_connector.Common.{ℕ, ◌≡◌}

pub record Json : Type 1 where
  pub Value : Type 0
  pub Encoded : Type 0
  pub dumps : Value → Encoded
  pub loads : Encoded → Value
  pub byte_length : Encoded → ℕ

-- Documented of `json` on objects with text keys: decoding undoes encoding.
pub record IsJson (J : Json) : Type 0 where
  pub loads-dumps : (v : J.Value) → J.loads (J.dumps v) ≡ v
