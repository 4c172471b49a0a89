-- ===== src/Server/Mux.antt =====
-- server/grpc_mux/muxImp.go, and HandleRequest and the registrations of Start of server/grpc/grpc.go.
pub mod Registered
use Prim.Native.String.{◌++◌ as str_append}
use text.Mathlib.Text.{◌==◌ as str_eq}
use finance_service.Base.{
  ℕ, Bool, true, false, not, ◌||◌, ◌==◌, Option, none, some, List, [], ◌∷◌, String, if◌then◌else◌,
}
use finance_service.Base.Outcome.{
  Outcome, ok, ◌>>=◌, deref, Reply, value, failure, bad_request, forbidden,
}

-- RequestMetaSorts, ReqMeta, RequestMessage and ResponseMessage of the protocol, the fields that are
-- read or set. `data` is what proto.Marshal is given.
pub record Sorts : Type 0 where
  pub name : String
  pub dir : ℕ

pub record Header : Type 0 where
  pub utp : String
  pub uid : ℕ
  pub fid : String
  pub page : ℕ
  pub per_page : ℕ
  pub sorts : Option Sorts

pub record Request : Type 0 where
  pub name : String
  pub header : Option Header

pub record Response (A : Type 0) : Type 0 where
  pub entity : String
  pub total : ℕ
  pub page : ℕ
  pub per_page : ℕ
  pub data_value : A

-- handler.IHandler
abbrev pub Handler : Type 0 → Type 0
Handler A = Request → Outcome (Reply (Response A))

-- ServerMux.utpMethodMap
abbrev pub Mux : Type 0 → Type 0
Mux A = List (String × Handler A)

-- `fmt.Sprintf("%s::%s", utp, method)`
abbrev pub key_of : String → String → String
key_of utp method = str_append utp (str_append "::" method)

module _ {A : Type 0} where
  unfoldable pub lookup : String → Mux A → Option (Handler A)
  lookup key [] = none
  lookup key (entry ∷ entries) =
      let rest = lookup key entries in if str_eq entry.0 key then some entry.1 else rest

  abbrev pub registered : Mux A → String → Handler A → Option (Handler A) → Option (Mux A)
  registered mux key handler (some old) = none
  registered mux key handler none = some ((key, handler) ∷ mux)

  -- RegHandler: the map afterwards, or an error, with the map as it was
  unfoldable pub reg_handler : Mux A → String → String → Handler A → Option (Mux A)
  unfolding lookup
  reg_handler mux utp method handler =
      registered mux (key_of utp method) handler (lookup (key_of utp method) mux)

  abbrev pub run_handler : Request → Option (Handler A) → Outcome (Reply (Response A))
  run_handler req none = ok (failure bad_request)
  run_handler req (some handler) = handler req

  -- ServerMux.Handle
  unfoldable pub handle : Mux A → String → String → Request → Outcome (Reply (Response A))
  unfolding lookup
  handle mux utp method req = run_handler req (lookup (key_of utp method) mux)

  abbrev pub or_same : Mux A → Option (Mux A) → Mux A
  or_same mux none = mux
  or_same mux (some new) = new

  -- what Start registers; the error of the first registration is overwritten by the second's
  unfoldable pub register_all : Handler A → Handler A → Mux A → Option (Mux A)
  unfolding reg_handler
  register_all finance_list order_items mux =
      reg_handler (or_same mux (reg_handler mux "seller" "finance_list" finance_list)) "seller"
        "finance_order_item_list" order_items

  unfoldable pub dispatch : Mux A → Header → Request → Outcome (Reply (Response A))
  unfolding handle
  dispatch mux header req =
      if str_eq header.utp "" || str_eq req.name ""
      then ok (failure bad_request)
      else handle mux header.utp req.name req

  abbrev pub if_same_user : Bool → Outcome (Reply (Response A)) → Outcome (Reply (Response A))
  if_same_user true answer = answer
  if_same_user false answer = ok (failure forbidden)

  unfoldable pub authorized : Mux A → Reply ℕ → Request → Outcome (Reply (Response A))
  unfolding dispatch
  authorized mux (failure code) req = ok (failure code)
  authorized mux (value user_id) req = do
    header ← deref req.header
    if_same_user (user_id == header.uid) (dispatch mux header req)

  -- HandleRequest; the user id is what AuthenticateContextToken of the user service answers
  unfoldable pub handle_request : Mux A → Reply ℕ → Request → Outcome (Reply (Response A))
  unfolding authorized
  handle_request mux user req = authorized mux user req
