-- ===== src/Tests/CoreTests.antt =====
-- Versions, capabilities, negotiation and pages on concrete inputs.
use teslatlas_sdk_typescript.Prelude.{
  ℕ, ◌≡◌, ◌≤◌, ◌≢◌, ◌↔◌, refl, subst, true, ◌&&◌, not, Option, none, some, List, [], ◌∷◌, arith,
}
use teslatlas_sdk_typescript.Js.Text.{Text, codes, includes, text_eq, decimal_from, split}
use teslatlas_sdk_typescript.Core.Errors.{Result, ok, AllOk}
use teslatlas_sdk_typescript.Core.Version.{
  ProtocolVersion, CompatibilityWindow, compatible, check_protocol_version, Captures, match_version,
  parse_protocol_version, is_numeral, is_tag, span,
}
use teslatlas_sdk_typescript.Core.Version.Pattern.{
  version_text, IsCaptures, match_version-version_text,
}
use teslatlas_sdk_typescript.Core.Version.Window.{
  IsWindow, check_protocol_version-eq-compatible_iff,
}
use teslatlas_sdk_typescript.Core.Capabilities.{find_missing_capabilities}
use teslatlas_sdk_typescript.Core.Capabilities.Laws.{includes-find_missing_capabilities}
use teslatlas_sdk_typescript.Protocol.Models.{HubDescriptor}
use teslatlas_sdk_typescript.Protocol.Negotiation.{negotiate_protocol_version, compare_versions}
use teslatlas_sdk_typescript.Protocol.Negotiation.Best.{IsChoice, negotiate_sound}
use teslatlas_sdk_typescript.Client.Pages.{ReadResult, modified, unfinished, iterate_pages}
use teslatlas_sdk_typescript.Client.Pages.Laws.{
  FreshAfter, iterate_pages-FreshAfter, iterate_pages-ends,
}

abbrev captures : Captures
captures = record {
  major = codes "1";
  minor = codes "12";
  patch = codes "0";
  prerelease = some (codes "rc.1");
  build = none;
}

captures-IsCaptures : IsCaptures captures
unfolding is_numeral is_tag split
captures-IsCaptures = record {
  major = refl;
  minor = refl;
  patch = refl;
  prerelease = refl;
  build = tt;
}

captures_found : match_version (codes "1.12.0-rc.1") ≡ some captures
unfolding match_version span is_numeral is_tag split
captures_found = refl

match_version-version_text_example : match_version (version_text captures) ≡ some captures
match_version-version_text_example = match_version-version_text captures captures-IsCaptures

abbrev version : ProtocolVersion
version = record { major = 1; minor = 2; patch = 0; prerelease = none; build = none }

abbrev window : CompatibilityWindow
window = record { major = 1; minimum_minor = 1; maximum_minor = 2 }

compatible_example : (check_protocol_version version window ≡ ok compatible) ↔ (
    IsWindow window
    × (version.major ≡ window.major)
    × (window.minimum_minor ≤ version.minor)
    × (version.minor ≤ window.maximum_minor))
compatible_example = check_protocol_version-eq-compatible_iff version window

abbrev available : List Text
available = codes "query.drives" ∷ codes "query.current" ∷ []

abbrev required : List Text
required = codes "query.drives" ∷ codes "commands.async" ∷ []

find_missing_example :
    AllOk
      (λ missing.
        (u : Text) → includes missing u ≡ (includes required u && not (includes available u)))
      (find_missing_capabilities available required)
find_missing_example = includes-find_missing_capabilities available required

abbrev descriptor : HubDescriptor
descriptor = record {
  current_version = codes "1.2.0";
  minimum_client_version = codes "1.0.0";
  supported_versions = codes "1.0.0" ∷ codes "1.1.0" ∷ [];
  capabilities = record { id = codes "events.sse"; commands = none } ∷ [];
  limits = record {
    max_page_size = 100;
    max_history_range_days = 31;
    max_dense_range_days = 1;
    max_request_body_bytes = 65536;
  };
  endpoints = record { well_known = []; api = []; events = []; openapi = [] };
}

negotiated : negotiate_protocol_version descriptor (codes "1.2.0") ≡ ok (codes "1.1.0")
unfolding negotiate_protocol_version parse_protocol_version match_version span is_numeral is_tag
    compare_versions includes text_eq decimal_from
negotiated = refl

negotiate_example :
    (requested : ProtocolVersion) × (minimum : ProtocolVersion) × (parse_protocol_version
        (codes "1.2.0")
      ≡ ok requested)
    × (parse_protocol_version (codes "1.0.0") ≡ ok minimum)
    × IsChoice descriptor requested minimum (codes "1.1.0")
negotiate_example = negotiate_sound descriptor (codes "1.2.0") (codes "1.1.0") negotiated

-- Every load gives a page that names the same next cursor.
abbrev load_same : ℕ → Option Text → Result (ReadResult Text)
load_same n cursor = ok (modified (codes "a"))

abbrev page_cursor : Text → Option Text
page_cursor page = some page

fresh_example : FreshAfter [] (iterate_pages load_same page_cursor 5 none).requested
fresh_example = iterate_pages-FreshAfter load_same page_cursor 5 none

inside_pool :
    (n : ℕ) (cursor : Option Text) (page : Text) (next : Text)
    → load_same n cursor ≡ ok (modified page)
    → page_cursor page ≡ some next
    → includes (codes "a" ∷ []) next ≡ true
unfolding includes text_eq
inside_pool n cursor page next h k =
    let same : codes "a" ≡ next = cc in subst (λ t. includes (codes "a" ∷ []) t ≡ true) same refl

ends_example : (iterate_pages load_same page_cursor 2 none).ending ≢ unfinished
ends_example =
    iterate_pages-ends load_same page_cursor (codes "a" ∷ []) inside_pool 2 none (omega arith)
