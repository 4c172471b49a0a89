-- ===== src/Server/Handlers/Authorized.antt =====
-- The answers of HandleRequest are the authenticated seller's.
use text.Mathlib.Text.{◌==◌ as str_eq}
use finance_service.Base.{
  ℕ, ◌≡◌, refl, sym, ap, ◌∙◌, subst, Bool, true, false, ◌||◌, ◌==◌, inl, inr, Bool-cases, Option,
  none, some, [], ◌∷◌, All, String, arith, if◌then◌else◌,
}
use finance_service.Base.Outcome.{Outcome, ok, Reply, value, failure, bad_request, some-injective}
use finance_service.Server.Convert.Read.Items.{pointed}
use finance_service.Server.Mux.{
  Header, Request, Response, Handler, Mux, key_of, lookup, run_handler, handle, register_all,
  reg_handler, or_same, dispatch, if_same_user, authorized, handle_request,
}
use finance_service.Server.Mux.Registered.{registered-some}
use finance_service.Server.Handlers.{
  Sources, Listing, finance_list_handler, order_item_list_handler,
}
use finance_service.Server.Handlers.Owned.{
  OwnedBy, IsFiltered, OwnedAnswer, finance_list_handler-OwnedAnswer,
  order_item_list_handler-OwnedAnswer, checked,
}

-- a handler whose answers are those of the seller that the header names
abbrev AnswersOwned : Handler Listing → Type 0
AnswersOwned h =
    (req : Request) (resp : Response Listing) → h req ≡ ok (value resp) → OwnedAnswer req resp

abbrev AllOwned : Mux Listing → Type 0
AllOwned mux = All (λ (entry : String × Handler Listing). AnswersOwned entry.1) mux

reg_handler-AllOwned :
    (mux mux' : Mux Listing) (utp method : String) (h : Handler Listing)
    → AllOwned mux
    → AnswersOwned h
    → reg_handler mux utp method h ≡ some mux'
    → AllOwned mux'
unfolding reg_handler
reg_handler-AllOwned mux mux' utp method h all own e =
    subst AllOwned (registered-some mux mux' (key_of utp method) h _ e) (own, all)

or_same-AllOwned :
    (mux : Mux Listing) (o : Option (Mux Listing))
    → AllOwned mux
    → ((new : Mux Listing) → o ≡ some new → AllOwned new)
    → AllOwned (or_same mux o)
or_same-AllOwned mux none all h = all
or_same-AllOwned mux (some new) all h = h new refl

register_all-AllOwned :
    (s : Sources)
    → IsFiltered s
    → (mux : Mux Listing)
    → register_all (finance_list_handler s) (order_item_list_handler s) [] ≡ some mux
    → AllOwned mux
unfolding register_all
register_all-AllOwned s filtered mux e =
    let first = reg_handler [] "seller" "finance_list" (finance_list_handler s) in
    reg_handler-AllOwned (or_same [] first) mux "seller" "finance_order_item_list"
      (order_item_list_handler s)
      (or_same-AllOwned [] first tt (λ new made.
        reg_handler-AllOwned [] new "seller" "finance_list" (finance_list_handler s) tt
          (finance_list_handler-OwnedAnswer s filtered) made))
      (order_item_list_handler-OwnedAnswer s) e

lookup-AnswersOwned :
    (key : String) (mux : Mux Listing) (h : Handler Listing)
    → AllOwned mux
    → lookup key mux ≡ some h
    → AnswersOwned h
unfolding lookup
lookup-AnswersOwned key [] h all e = cc
lookup-AnswersOwned key (entry ∷ mux) h (own, all) e = elim (Bool-cases (str_eq entry.0 key)) [
  | inl same ↦
      subst AnswersOwned
        (some-injective (sym (ap (λ b. if b then some entry.1 else lookup key mux) same) ∙ e)) own
  | inr differ ↦
      lookup-AnswersOwned key mux h all
        (sym (ap (λ b. if b then some entry.1 else lookup key mux) differ) ∙ e)
]

run_handler-OwnedAnswer :
    (o : Option (Handler Listing)) (req : Request) (resp : Response Listing)
    → ((h : Handler Listing) → o ≡ some h → AnswersOwned h)
    → run_handler req o ≡ ok (value resp)
    → OwnedAnswer req resp
run_handler-OwnedAnswer none req resp own h = cc
run_handler-OwnedAnswer (some handler) req resp own h = own handler refl req resp h

same_user :
    (same : Bool) (answer : Outcome (Reply (Response Listing))) (resp : Response Listing)
    → if_same_user same answer ≡ ok (value resp)
    → (same ≡ true) × (answer ≡ ok (value resp))
same_user true answer resp h = (refl, h)
same_user false answer resp h = cc

same_number : (a b : ℕ) → (a == b) ≡ true → b ≡ a
same_number a b h = ground arith

dispatch-OwnedAnswer :
    (mux : Mux Listing) (header : Header) (req : Request) (resp : Response Listing)
    → AllOwned mux
    → dispatch mux header req ≡ ok (value resp)
    → OwnedAnswer req resp
unfolding dispatch handle
dispatch-OwnedAnswer mux header req resp all h =
    run_handler-OwnedAnswer (lookup (key_of header.utp req.name) mux) req resp
      (λ handler found. lookup-AnswersOwned (key_of header.utp req.name) mux handler all found)
      (checked (str_eq header.utp "" || str_eq req.name "") bad_request _ resp h)

authorized-OwnedBy :
    (mux : Mux Listing) (user : Reply ℕ) (req : Request) (resp : Response Listing)
    → AllOwned mux
    → authorized mux user req ≡ ok (value resp)
    → (uid : ℕ) × (user ≡ value uid) × OwnedBy uid resp.data_value
unfolding authorized
authorized-OwnedBy mux (failure code) req resp all h = cc
authorized-OwnedBy mux (value user_id) req resp all h =
    let (header, there, h1) = pointed req.header _ h in
    let (same, h2) = same_user (user_id == header.uid) _ resp h1 in
    let (header', there', own) = dispatch-OwnedAnswer mux header req resp all h2 in
    let named : header'.uid ≡ header.uid =
      ap (λ (x : Header). x.uid) (some-injective (sym there' ∙ there)) in
    (
      user_id,
      refl,
      subst (λ uid. OwnedBy uid resp.data_value) (named ∙ same_number user_id header.uid same) own,
    )

-- Where the queries of a seller's finances find only that seller's, whatever HandleRequest answers with
-- the handlers that Start registers, other than an error, it answers an authenticated user, and every
-- finance in a list that it answers with is that user's.
pub handle_request-OwnedBy :
    (s : Sources)
    → IsFiltered s
    → (mux : Mux Listing)
    → register_all (finance_list_handler s) (order_item_list_handler s) [] ≡ some mux
    → (user : Reply ℕ) (req : Request) (resp : Response Listing)
    → handle_request mux user req ≡ ok (value resp)
    → (uid : ℕ) × (user ≡ value uid) × OwnedBy uid resp.data_value
unfolding handle_request
handle_request-OwnedBy s filtered mux e user req resp h =
    authorized-OwnedBy mux user req resp (register_all-AllOwned s filtered mux e) h
