-- ===== src/Mobile/TokenRuntime/Late.antt =====
-- A refresh that is answered after the user signed out.
use rakomi_js.Common.Text.{Text}
use rakomi_js.Mobile.TokenRuntime.State.{TokenRuntime}
