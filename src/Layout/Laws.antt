-- ===== src/Layout/Laws.antt =====
-- Signing out, and where the navigation leads.
use socblitz.Common.{false, ◌≡◌, refl, is_some, [], ◌∷◌}
use socblitz.Api.{Call, request, authorize, clear_auth}
use socblitz.Ui.{navigate}
use socblitz.App.{auth_guard, sign_in_page}
use socblitz.Layout.{Layout, logout, act}

-- Signing out leads to the sign-in page, and from then on the guard of every route does too and no request
-- carries a token.
pub act-logout :
    (l : Layout) (c : Call)
    → ((act l logout).1 ≡ navigate "/login" ∷ [])
      × (auth_guard (act l logout).0.auth ≡ sign_in_page)
      × (is_some (authorize (act l logout).0.auth (request c)).bearer ≡ false)
unfolding act auth_guard authorize clear_auth
act-logout l c = (refl, refl, refl)
