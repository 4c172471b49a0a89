-- ===== src/Server/Mux/Registered.antt =====
-- What a registration changes of the requests that the multiplexer answers.
use text.Mathlib.Text.{◌==◌ as str_eq}
use text.Mathlib.TextEquality.{eq_iff}
use finance_service.Base.{
  ◌≡◌, refl, ap, ◌∙◌, subst, Bool, true, false, Option, none, some, ◌∷◌, String, if◌then◌else◌,
}
use finance_service.Base.Outcome.{some-injective}
use finance_service.Server.Mux.{
  Request, Handler, Mux, key_of, lookup, registered, reg_handler, run_handler, handle,
}

str_eq_refl : (a : String) → str_eq a a ≡ true
str_eq_refl a = (eq_iff a a).1 refl

module _ {A : Type 0} where
  pub registered-some :
      (mux mux' : Mux A) (key : String) (h : Handler A) (old : Option (Handler A))
      → registered mux key h old ≡ some mux'
      → (key, h) ∷ mux ≡ mux'
  registered-some mux mux' key h none e = some-injective e
  registered-some mux mux' key h (some old) e = cc

  lookup-cons :
      (mux : Mux A) (key other : String) (h : Handler A)
      → lookup other ((key, h) ∷ mux) ≡ (if str_eq key other then some h else lookup other mux)
  unfolding lookup
  lookup-cons mux key other h = refl

  lookup-own : (mux : Mux A) (key : String) (h : Handler A) → lookup key ((key, h) ∷ mux) ≡ some h
  lookup-own mux key h =
      lookup-cons mux key key h ∙ ap (λ b. if b then some h else lookup key mux) (str_eq_refl key)

  -- a request to the map with one more handler
  run_handler-if :
      (same : Bool) (h : Handler A) (old : Option (Handler A)) (req : Request)
      → run_handler req (if same then some h else old)
        ≡ (if same then h req else run_handler req old)
  run_handler-if true h old req = refl
  run_handler-if false h old req = refl

-- Where a registration succeeds, the multiplexer answers a request by the new handler if its user type
-- and method have the key of the registered ones, and as before if they have not; and a second
-- registration of the same two fails.
pub reg_handler-handle :
    {A : Type 0} (mux mux' : Mux A) (utp method : String) (h : Handler A)
    → reg_handler mux utp method h ≡ some mux'
    → (utp' method' : String) (req : Request) (h' : Handler A)
    → (handle mux' utp' method' req ≡ (
        if str_eq (key_of utp method) (key_of utp' method')
        then h req
        else handle mux utp' method' req))
      × (reg_handler mux' utp method h' ≡ none)
unfolding reg_handler handle
reg_handler-handle mux mux' utp method h e utp' method' req h' =
    let key = key_of utp method in
    let new = registered-some mux mux' key h (lookup key mux) e in
    let found = lookup-own mux key h in
    (
      subst
          (λ m. run_handler req (lookup (key_of utp' method') m) ≡ (
            if str_eq key (key_of utp' method')
            then h req
            else run_handler req (lookup (key_of utp' method') mux)))
          new
          (ap (run_handler req) (lookup-cons mux key (key_of utp' method') h)
            ∙ run_handler-if (str_eq key (key_of utp' method')) h _ req),
      subst (λ m. registered m key h' (lookup key m) ≡ none) new (rw found refl),
    )
