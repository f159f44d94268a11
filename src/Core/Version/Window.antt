-- ===== src/Core/Version/Window.antt =====
-- When a version is compatible with a window.
use teslatlas_sdk_typescript.Prelude.{◌≤◌, ◌≡◌, ◌↔◌, arith}
use teslatlas_sdk_typescript.Js.Text.{max_safe_integer}
use teslatlas_sdk_typescript.Core.Errors.{ok}
use teslatlas_sdk_typescript.Core.Version.{
  ProtocolVersion, CompatibilityWindow, compatible, check_protocol_version,
}

-- The window is one that `assertCompatibilityWindow` takes.
pub record IsWindow (w : CompatibilityWindow) : Type 0 where
  pub major : w.major ≤ max_safe_integer
  pub minimum : w.minimum_minor ≤ w.maximum_minor
  pub maximum : w.maximum_minor ≤ max_safe_integer

-- A version is reported compatible exactly when the window is valid, the majors are equal and the
-- minor stands between the window's bounds.
pub check_protocol_version-eq-compatible_iff :
    (v : ProtocolVersion) (w : CompatibilityWindow)
    → (check_protocol_version v w ≡ ok compatible) ↔ (
        IsWindow w
        × (v.major ≡ w.major)
        × (w.minimum_minor ≤ v.minor)
        × (v.minor ≤ w.maximum_minor))
unfolding check_protocol_version
check_protocol_version-eq-compatible_iff v w = (λ h. ground arith, λ h. ground arith)
