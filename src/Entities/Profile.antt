-- ===== src/Entities/Profile.antt =====
-- domain/model/entities/sellerProfile.go.
use finance_service.Base.{Bool, Option, String}
use finance_service.Base.Int.{ℤ}

-- time.Time: nanoseconds since the Unix epoch, in UTC.
abbrev pub Time : Type 0
Time = ℤ

pub record GeneralSellerInfo : Type 0 where
  pub shop_display_name : String
  pub type : String
  pub email : String
  pub land_phone : String
  pub mobile_phone : String
  pub website : String
  pub province : String
  pub city : String
  pub neighborhood : String
  pub postal_address : String
  pub postal_code : String
  pub is_vat_obliged : Bool
  pub vat_certification_image_url : String

pub record SellerFinanceData : Type 0 where
  pub iban : String
  pub account_holder_first_name : String
  pub account_holder_family_name : String

pub record SellerProfile : Type 0 where
  pub seller_id : ℤ
  pub general_info : Option GeneralSellerInfo
  pub finance_data : Option SellerFinanceData
  pub created_at : Time
  pub updated_at : Time
