-- ===== src/Entities/Finance.antt =====
-- A seller's finance and its payment: domain/model/entities/sellerFinance.go.
use finance_service.Base.{ℕ, Option, String, List}
use finance_service.Base.Int.{ℤ}
use finance_service.Entities.Profile.{Time, SellerProfile}
use finance_service.Entities.Order.{ObjectId, Money, Invoice, OrderInfo}

pub data FinanceState : Type 0 where
  order_collection payment_process closed : FinanceState

pub data PaymentState : Type 0 where
  none_state success_state failed_state pending_state partial_state : PaymentState

pub data PaymentMode : Type 0 where
  automatic manual manual_request manual_tracking : PaymentMode

pub FinanceState-discrete : Discrete FinanceState
FinanceState-discrete = hlevel

pub PaymentState-discrete : Discrete PaymentState
PaymentState-discrete = hlevel

pub PaymentMode-discrete : Discrete PaymentMode
PaymentMode-discrete = hlevel

pub record TransferRequest : Type 0 where
  pub total_price : Money
  pub receiver_name : String
  pub receiver_account_id : String
  pub payment_description : String
  pub transfer_type : String
  pub created_at : Time

pub record TransferResponse : Type 0 where
  pub transfer_id : String
  pub created_at : Time

pub record TransferResult : Type 0 where
  pub transfer_id : String
  pub total_transfer : Option Money
  pub success_transfer : Option Money
  pub pending_transfer : Option Money
  pub failed_transfer : Option Money
  pub created_at : Time
  pub updated_at : Time

pub record FinancePayment : Type 0 where
  pub transfer_request : Option TransferRequest
  pub transfer_response : Option TransferResponse
  pub transfer_result : Option TransferResult
  pub status : PaymentState
  pub mode : PaymentMode
  pub action : Option ObjectId
  pub retry_request : ℤ
  pub retry_result : ℤ
  pub created_at : Time
  pub updated_at : Time

-- An element of `PaymentHistory` is a pointer: to the object that `Payment` points to as well
-- (`current`), or to an object of its own.
pub data PaymentRef : Type 0 where
  current : PaymentRef
  other : FinancePayment → PaymentRef

pub record SellerFinance : Type 0 where
  pub id : ObjectId
  pub fid : String
  pub seller_id : ℕ
  pub version : ℕ
  pub doc_version : String
  pub seller_info : Option SellerProfile
  pub invoice : Option Invoice
  pub orders_info : List OrderInfo
  pub payment : Option FinancePayment
  pub payment_mode : PaymentMode
  pub payment_history : List PaymentRef
  pub status : FinanceState
  pub start_at : Option Time
  pub end_at : Option Time
  pub created_at : Time
  pub updated_at : Time
  pub deleted_at : Option Time
