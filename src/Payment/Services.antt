-- ===== src/Payment/Services.antt =====
-- What the payment pipelines call: the payment, user and repository services, the clock and the
-- configuration (infrastructure/services, domain/model/repository, configs).
use finance_service.Base.{ℕ, String}
use finance_service.Base.Int.{ℤ}
use finance_service.Base.Outcome.{Reply}
use finance_service.Entities.{Time, ObjectId, SellerProfile, SellerFinance, TriggerHistory}

-- infrastructure/services/payment/paymentService.go
pub data PaymentType : Type 0 where
  seller_payment buyer_payment : PaymentType

-- `string(t)` of a PaymentType
unfoldable pub payment_type_text : PaymentType → String
payment_type_text seller_payment = "SELLER_PAYMENT"
payment_type_text buyer_payment = "BUYER_PAYMENT"

pub record PaymentRequest : Type 0 where
  pub fid : String
  pub seller_id : ℕ
  pub amount : String
  pub currency : String
  pub receiver_name : String
  pub receiver_account_id : String
  pub payment_description : String
  pub payment_type : PaymentType

pub record PaymentResponse : Type 0 where
  pub transfer_id : String
  pub fid : String

pub record TransferMoneyResult : Type 0 where
  pub fid : String
  pub transfer_id : String
  pub total : ℤ
  pub pending : ℤ
  pub failed : ℤ
  pub currency : String

-- `clock n` is the n-th reading of time.Now() in a handler. Each service is a function of its
-- arguments: a handler calls it at most once.
pub record Services : Type 0 where
  pub clock : ℕ → Time
  -- PaymentService.SingleTransferMoney and GetSingleTransferMoneyResult
  pub transfer : PaymentRequest → Reply PaymentResponse
  pub transfer_result : String → String → Reply TransferMoneyResult
  -- UserService.GetSellerProfile
  pub profile : String → Reply SellerProfile
  -- TriggerHistoryRepository.FindById
  pub history : ObjectId → Reply TriggerHistory
  -- SellerFinanceRepository.Save
  pub save : SellerFinance → Reply SellerFinance
  -- App.SellerFinanceRetryAutomaticPaymentRequest and -Result
  pub retry_request_limit : ℤ
  pub retry_result_limit : ℤ
