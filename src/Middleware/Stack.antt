-- ===== src/Middleware/Stack.antt =====
-- connexion/middleware/main.py: `ConnexionMiddleware._apply_middlewares`. An app is of any type, and a
-- middleware makes one of the app that it wraps.
pub mod Nested
use connexion.Prelude.{List, [], ◌∷◌, ◌++◌}

-- `reversed(...)`
unfoldable pub reversed {ℓ} : {A : Type ℓ} → List A → List A
reversed [] = []
reversed (x ∷ xs) = reversed xs ++ x ∷ []

module _ {App : Type 0} where
  -- the loop, with the app and the apps so far
  unfoldable pub wrap_all : App → List (App → App) → List App → App × List App
  wrap_all app [] apps = (app, apps)
  wrap_all app (middleware ∷ middlewares) apps =
      wrap_all (middleware app) middlewares (apps ++ middleware app ∷ [])

  unfoldable pub apply_middlewares : App → List (App → App) → App × List App
  unfolding reversed wrap_all
  apply_middlewares app middlewares =
      let (wrapped, apps) = wrap_all app (reversed middlewares) [] in (wrapped, reversed apps)
