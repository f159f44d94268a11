-- ===== src/Http/Response.antt =====
-- What the sources read of a `Response`: its status, the headers that they ask for, and its body.
-- src/http/response-ownership.ts only cancels a body that is given up, which no value shows.
use teslatlas_sdk_typescript.Prelude.{ℕ, Bool, false, Option, none, some, String, [], ◌∷◌, not, map}
use teslatlas_sdk_typescript.Js.Text.{Text, text_eq, split}
use teslatlas_sdk_typescript.Js.Trim.{trim, lower}
use teslatlas_sdk_typescript.Core.Errors.{Result, throw_if, dotted, protocol_validation}
use teslatlas_sdk_typescript.Http.BoundedBody.{Stream}

-- `response.headers.get` for each name: `none` stands for `null`.
pub record Headers : Type 0 where
  pub content_type : Option Text
  pub etag : Option Text
  pub request_id : Option Text
  pub protocol_version : Option Text
  pub location : Option Text
  pub retry_after : Option Text
  pub cache_control : Option Text

pub record Response : Type 0 where
  pub status : ℕ
  pub headers : Headers
  pub body : Option Stream

-- What a signal shows at each point where a response's consumer looks at it.
pub record Aborts : Type 0 where
  pub at_start : Bool
  pub at_body : Bool
  pub after_failure : Bool
  pub at_end : Bool

-- `value.split(";", 1)[0].trim().toLowerCase()`. No header unit above 127 has a lower case below 128.
unfoldable pub essence : Text → Text
unfolding lower split
essence value = elim (split b';' value) [ [] ↦ [] | first ∷ rest ↦ map lower (trim first) ]

unfoldable pub has_essence : Option Text → Text → Bool
has_essence none expected = false
has_essence (some value) expected = text_eq (essence value) expected

-- `requireMediaType` of src/http/response-decoder.ts, `requireJsonContentType` and
-- `requireTextContentType` of src/hub/client.ts.
unfoldable pub require_media_type : Response → Text → String → Result (Unit {0})
unfolding has_essence
require_media_type response expected name =
    throw_if (not (has_essence response.headers.content_type expected))
      (protocol_validation (dotted name ".contentType"))
