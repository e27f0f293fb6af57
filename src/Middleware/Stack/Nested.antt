-- ===== src/Middleware/Stack/Nested.antt =====
-- The order in which the middlewares are nested.
use connexion.Prelude.{◌≡◌, refl, ap, ◌∙◌, List, [], ◌∷◌, ◌++◌}
use connexion.Middleware.Stack.{reversed, wrap_all, apply_middlewares}

module _ {App : Type 0} where
  -- the app in the middlewares, the first outermost
  unfoldable pub wrapped_in : List (App → App) → App → App
  wrapped_in [] app = app
  wrapped_in (m ∷ ms) app = m (wrapped_in ms app)

  -- each middleware with what it wraps, from the outermost
  unfoldable pub layers : List (App → App) → App → List App
  unfolding wrapped_in
  layers [] app = []
  layers (m ∷ ms) app = wrapped_in (m ∷ ms) app ∷ layers ms app

  wrap_all-append :
      (xs ys : List (App → App)) (app : App) (apps : List App)
      → wrap_all app (xs ++ ys) apps ≡ wrap_all (wrap_all app xs apps).0 ys (wrap_all app xs apps).1
  unfolding wrap_all
  wrap_all-append [] ys app apps = refl
  wrap_all-append (x ∷ xs) ys app apps = wrap_all-append xs ys (x app) (apps ++ x app ∷ [])

  wrap_all-reversed :
      (ms : List (App → App)) (app : App)
      → wrap_all app (reversed ms) [] ≡ (wrapped_in ms app, reversed (layers ms app))
  unfolding wrap_all reversed wrapped_in layers
  wrap_all-reversed [] app = refl
  wrap_all-reversed (m ∷ ms) app =
      wrap_all-append (reversed ms) (m ∷ []) app []
      ∙ ap (λ p. wrap_all p.0 (m ∷ []) p.1) (wrap_all-reversed ms app)

  reversed-append : (xs : List App) (x : App) → reversed (xs ++ x ∷ []) ≡ x ∷ reversed xs
  unfolding reversed
  reversed-append [] x = refl
  reversed-append (y ∷ ys) x = ap (λ l. l ++ y ∷ []) (reversed-append ys x)

  reversed-reversed : (xs : List App) → reversed (reversed xs) ≡ xs
  unfolding reversed
  reversed-reversed [] = refl
  reversed-reversed (x ∷ xs) =
      reversed-append (reversed xs) x ∙ ap (λ l. x ∷ l) (reversed-reversed xs)

  -- The first middleware is the outermost: it wraps what the others make of the app. The apps that are
  -- kept, to which APIs are added, are the middlewares so wrapped, in their order.
  pub apply_middlewares-nested :
      (app : App) (middlewares : List (App → App))
      → apply_middlewares app middlewares ≡ (wrapped_in middlewares app, layers middlewares app)
  unfolding apply_middlewares
  apply_middlewares-nested app ms =
      ap (λ p. (p.0, reversed p.1)) (wrap_all-reversed ms app)
      ∙ ap (λ l. (wrapped_in ms app, l)) (reversed-reversed (layers ms app))
