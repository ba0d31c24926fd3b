-- ===== src/Network/Response.antt =====
-- Received messages (src/veltix/network/response.py, utils/encoding.py).
use veltix.Exceptions.{Exn, invalid_content}
use veltix.Prelude.{
  ℕ, Bool, true, false, Option, none, some, Result, ok, err, eq_nat, eq_string, eq_list,
}
use veltix.Prelude.Bytes.{Bytes}
use veltix.Prelude.Text.{Text}
use veltix.Network.Types.{MessageType}
use veltix.Network.Request.{Codec}

-- _UNSET, _INVALID, or a decoded value
pub data Cached (A : Type 0) : Type 0 where
  unset invalid : Cached A
  value : A → Cached A

module _ (codec : Codec) where
  open codec use {Json, decode, loads}

  pub record Response : Type 0 where
    pub type : MessageType
    pub content : Bytes
    pub hash : Bytes
    pub request_id : ℕ
    pub text_cached : Cached Text
    pub json_cached : Cached Json

  -- Response.__init__
  unfoldable pub response : MessageType → Bytes → Bytes → ℕ → Option ℕ → Response
  response type content hash id public_id = record {
    type = type;
    content = content;
    hash = hash;
    request_id = elim public_id [ some i ↦ i | none ↦ id ];
    text_cached = unset;
    json_cached = unset;
  }

  abbrev pub fresh_text : Option Text → Cached Text
  fresh_text (some t) = value t
  fresh_text none = invalid

  abbrev pub fresh_json : Option Json → Cached Json
  fresh_json (some j) = value j
  fresh_json none = invalid

  -- decode_json
  unfoldable pub decode_json : Bytes → Option Json
  decode_json content = elim (decode content) [ some t ↦ loads t | none ↦ none ]

  -- The `try` blocks of `text`/`is_text` and of `json`/`is_json`.
  abbrev pub filled_text : Cached Text → Bytes → Cached Text
  filled_text unset content = fresh_text (decode content)
  filled_text c content = c

  abbrev pub filled_json : Cached Json → Bytes → Cached Json
  filled_json unset content = fresh_json (decode_json content)
  filled_json c content = c

  abbrev pub cached_or_raise : {A : Type 0} → Cached A → Result Exn A
  cached_or_raise (value a) = ok a
  cached_or_raise _ = err invalid_content

  abbrev pub is_value : {A : Type 0} → Cached A → Bool
  is_value (value _) = true
  is_value _ = false

  -- Response.text, is_text, json and is_json: the answer, and the response with its cache.
  unfoldable pub text : Response → Result Exn Text × Response
  text r =
      let c = filled_text r.text_cached r.content in
      (cached_or_raise c, record r { text_cached = c })

  unfoldable pub is_text : Response → Bool × Response
  is_text r =
      let c = filled_text r.text_cached r.content in (is_value c, record r { text_cached = c })

  unfoldable pub json : Response → Result Exn Json × Response
  json r =
      let c = filled_json r.json_cached r.content in
      (cached_or_raise c, record r { json_cached = c })

  unfoldable pub is_json : Response → Bool × Response
  is_json r =
      let c = filled_json r.json_cached r.content in (is_value c, record r { json_cached = c })
