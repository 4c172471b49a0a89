-- ===== src/Server/Messages.antt =====
-- The messages of gitlab.faza.io/protos/finance-proto that server/grpc/grpc.go fills. A pointer that the
-- code leaves nil in some case is an `Option`; times are texts.
use finance_service.Base.{ℕ, Bool, Option, String, List}
use finance_service.Base.Int.{ℤ}
use finance_service.Base.Float.{Float32}

pub record MoneyMessage : Type 0 where
  pub amount : String
  pub currency : String

pub record GeneralInfoMessage : Type 0 where
  pub shop_display_name : String
  pub type : String
  pub email : String
  pub land_phone : String
  pub mobile_phone : String
  pub website : String
  pub province : String
  pub city : String
  pub neighborhood : String
  pub postal_address : String
  pub postal_code : String
  pub is_vat_obliged : Bool
  pub vat_certification_image_url : String

pub record FinanceInfoMessage : Type 0 where
  pub iban : String
  pub account_holder_first_name : String
  pub account_holder_family_name : String

pub record ProfileMessage : Type 0 where
  pub general_info : GeneralInfoMessage
  pub finance_info : FinanceInfoMessage

pub record InvoiceMessage : Type 0 where
  pub sso_raw_total : Option MoneyMessage
  pub sso_roundup_total : Option MoneyMessage
  pub vat_raw_total : Option MoneyMessage
  pub vat_roundup_total : Option MoneyMessage
  pub commission_raw_total : Option MoneyMessage
  pub commission_roundup_total : Option MoneyMessage
  pub share_raw_total : Option MoneyMessage
  pub share_roundup_total : Option MoneyMessage
  pub shipment_raw_total : Option MoneyMessage
  pub shipment_roundup_total : Option MoneyMessage

pub record ShareMessage : Type 0 where
  pub raw_item_net : MoneyMessage
  pub roundup_item_net : MoneyMessage
  pub raw_total_net : MoneyMessage
  pub roundup_total_net : MoneyMessage
  pub raw_unit_seller_share : MoneyMessage
  pub roundup_unit_seller_share : MoneyMessage
  pub raw_total_seller_share : MoneyMessage
  pub roundup_total_seller_share : MoneyMessage

pub record CommissionMessage : Type 0 where
  pub item_commission : Float32
  pub raw_unit_price : Option MoneyMessage
  pub roundup_unit_price : Option MoneyMessage
  pub raw_total_price : Option MoneyMessage
  pub roundup_total_price : Option MoneyMessage

pub record SsoMessage : Type 0 where
  pub rate : Float32
  pub is_obliged : Bool
  pub raw_unit_price : Option MoneyMessage
  pub roundup_unit_price : Option MoneyMessage
  pub raw_total_price : Option MoneyMessage
  pub roundup_total_price : Option MoneyMessage

pub record VatMessage : Type 0 where
  pub rate : Float32
  pub is_obliged : Bool
  pub raw_unit_price : Option MoneyMessage
  pub roundup_unit_price : Option MoneyMessage
  pub raw_total_price : Option MoneyMessage
  pub roundup_total_price : Option MoneyMessage

pub record ItemInvoiceMessage : Type 0 where
  pub commission : Option CommissionMessage
  pub share : Option ShareMessage
  pub sso : Option SsoMessage
  pub vat : Option VatMessage

pub record AttributeMessage : Type 0 where
  pub key_translate : List (String × String)
  pub value_translate : List (String × String)

pub record ItemMessage : Type 0 where
  pub sid : ℕ
  pub sku : String
  pub inventory_id : String
  pub title : String
  pub brand : String
  pub guaranty : String
  pub category : String
  pub image : String
  pub returnable : Bool
  pub quantity : ℤ
  pub attributes : List (String × AttributeMessage)
  pub invoice : ItemInvoiceMessage

pub record OrderMessage : Type 0 where
  pub oid : ℕ
  pub shipment_amount : MoneyMessage
  pub raw_shipping_net : MoneyMessage
  pub roundup_shipping_net : MoneyMessage
  pub is_already_shipping_payed : Bool
  pub items : List ItemMessage
  pub order_created_at : String
  pub sub_pkg_created_at : String
  pub sub_pkg_updated_at : String

pub record TransferRequestMessage : Type 0 where
  pub total_price : MoneyMessage
  pub receiver_name : String
  pub receiver_account_id : String
  pub payment_description : String
  pub transfer_type : String
  pub created_at : String

pub record TransferResponseMessage : Type 0 where
  pub transfer_id : String
  pub created_at : String

pub record TransferResultMessage : Type 0 where
  pub transfer_id : String
  pub success_transfer : MoneyMessage
  pub pending_transfer : MoneyMessage
  pub failed_transfer : MoneyMessage
  pub created_at : String
  pub updated_at : String

pub record PaymentMessage : Type 0 where
  pub transfer_request : Option TransferRequestMessage
  pub transfer_response : Option TransferResponseMessage
  pub transfer_result : Option TransferResultMessage
  pub seller_transfer_state : String
  pub created_at : String
  pub updated_at : String

pub record FinanceMessage : Type 0 where
  pub fid : String
  pub seller_id : ℕ
  pub seller_info : Option ProfileMessage
  pub invoice : Option InvoiceMessage
  pub orders : List OrderMessage
  pub payment : Option PaymentMessage
  pub status : String
  pub start_at : String
  pub end_at : String
  pub created_at : String
  pub updated_at : String
