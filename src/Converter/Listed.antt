-- ===== src/Converter/Listed.antt =====
-- convertFinancePageableResultToSellerFinanceListCollection of infrastructure/converter/converterImp.go:
-- the list of a seller's finances.
use finance_service.Base.{ℕ, Option, none, some, List, String}
use finance_service.Base.Outcome.{Outcome, ok, ◌>>=◌, traverse}
use finance_service.Entities.{Time, SellerFinance}
use finance_service.Server.Messages.{MoneyMessage}
use finance_service.Server.Convert.Items.{convert_money}
use finance_service.Converter.{PaymentStatus, resolve_finance_stat}

-- SellerFinanceList of the protocol
pub record FinanceRow : Type 0 where
  pub fid : String
  pub uid : ℕ
  pub start_date : String
  pub end_date : String
  pub payment_status : PaymentStatus
  pub total : MoneyMessage

-- The parameter is `Format(utils.ISO8601)` of the package time.
module _ (format : Time → String) where
  abbrev pub start_date : Option Time → Time → String
  start_date none created_at = format created_at
  start_date (some t) created_at = format t

  abbrev pub end_date : Option Time → String
  end_date none = ""
  end_date (some t) = format t

  unfoldable pub finance_row : SellerFinance → Outcome FinanceRow
  finance_row f = do
    stat ← resolve_finance_stat f
    ok (record {
      fid = f.fid;
      uid = f.seller_id;
      start_date = start_date f.start_at f.created_at;
      end_date = end_date f.end_at;
      payment_status = stat.0;
      total = convert_money stat.1;
    })

  unfoldable pub convert_finance_list : List SellerFinance → Outcome (List FinanceRow)
  unfolding traverse finance_row
  convert_finance_list = traverse finance_row
