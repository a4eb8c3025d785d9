-- ===== src/Store/Envelope.antt =====
-- pkg/server/store/json.go and the small conversions at the end of store.go. The encoders and
-- decoders of encoding/json are parameters.
use swarmd.Prelude.{
  ℕ, ◌*◌, ◌/◌, String, Option, none, some, if◌then◌else◌, eqb, is_empty, trim_space, Result, ok,
  ◌>>=◌, ◌>>◌, guard, or_err,
}
use swarmd.Store.Types.{
  Payload, nil, text, value, JsonEnvelope, StoreError, marshal_failed, decode_failed,
  unsupported_version,
}

pub record Codec (V : Type 0) : Type 0 where
  -- `json.Marshal` and `json.Unmarshal` of a payload
  pub marshal : Payload V → Option String
  pub unmarshal : String → Option (Payload V)
  -- `json.MarshalIndent(payload, "", "  ")`
  pub marshal_indent : V → Option String
  -- `json.Marshal` and `json.Unmarshal` of a `JSONEnvelope`
  pub marshal_json_envelope : JsonEnvelope → Option String
  pub unmarshal_json_envelope : String → Option JsonEnvelope

abbrev pub envelope_version : ℕ
envelope_version = 1

module _ {V : Type 0} (codec : Codec V) where
  unfoldable pub marshal_envelope : String → Payload V → Result StoreError String
  marshal_envelope kind v = do
    body ← or_err (codec.marshal v) marshal_failed
    or_err
        (codec.marshal_json_envelope
          (record { version = envelope_version; kind = kind; body = body }))
        marshal_failed

  unfoldable pub marshal_optional_envelope : String → Payload V → Result StoreError String
  unfolding marshal_envelope
  marshal_optional_envelope kind nil = ok ""
  marshal_optional_envelope kind (text s) = marshal_envelope kind (text s)
  marshal_optional_envelope kind (value v) = marshal_envelope kind (value v)

  decode_body : JsonEnvelope → Result StoreError (Payload V)
  unfolding is_empty
  decode_body env = do
    guard (eqb env.version envelope_version) unsupported_version
    if is_empty env.body then ok nil else or_err (codec.unmarshal env.body) decode_failed

  unfoldable pub decode_envelope_any : String → Result StoreError (Payload V)
  unfolding decode_body
  decode_envelope_any data' =
      if is_empty data'
      then ok nil
      else (or_err (codec.unmarshal_json_envelope data') decode_failed >>= decode_body)

abbrev pub default_string : String → String → String
default_string v fallback = if is_empty (trim_space v) then fallback else v

abbrev pub default_int : ℕ → ℕ → ℕ
default_int v fallback = if eqb v 0 then fallback else v

abbrev pub default_duration : ℕ → ℕ → ℕ
default_duration v fallback = if eqb v 0 then fallback else v

-- `UnixMilli` and `time.UnixMilli`, of a time that is not before the epoch.
abbrev pub to_millis : ℕ → ℕ
to_millis t = t / 1000000

abbrev pub from_millis : ℕ → ℕ
from_millis ms = ms * 1000000

abbrev pub null_millis_to_time : Option ℕ → Option ℕ
null_millis_to_time none = none
null_millis_to_time (some ms) = some (from_millis ms)

abbrev pub time_ptr_to_millis : Option ℕ → Option ℕ
time_ptr_to_millis none = none
time_ptr_to_millis (some t) = some (to_millis t)

-- `d.Milliseconds()`, and back.
abbrev pub to_duration_millis : ℕ → ℕ
to_duration_millis d = d / 1000000

abbrev pub from_duration_millis : ℕ → ℕ
from_duration_millis ms = ms * 1000000
