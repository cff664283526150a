-- ===== src/Mysql/Row.antt =====
-- `KiccRow`, `resolve_table`, `format_datetime` and `to_kicc_row` of src/consumer/mysql.rs. An
-- `Option` around a result is the panic of a byte index inside a character.
pub mod Table
pub mod Returns
pub mod Card
use realtime_ingestion.Base.{
  ℕ, Bool, ◌&&◌, ◌||◌, not, Option, none, some, [], ◌∷◌, ◌++◌, ltb, ◌==◌, if◌then◌else◌, is_empty,
  take, all, unwrap_or, ◌>>=◌,
}
use realtime_ingestion.Text.{Text, codes, trim, byte_len, slice, is_ascii_alphanumeric}
use realtime_ingestion.Models.{QueueMessage}
use realtime_ingestion.External.{JsonLib}
use realtime_ingestion.Consumer.{str_or, parse_amount}

pub record KiccRow : Type 0 where
  pub table : Text
  pub kicc_bid : Text
  pub kicc_tid : Text
  pub kicc_mid : Text
  pub kicc_psn : Text
  pub kicc_nick : Text
  pub kicc_trantype : Text
  pub kicc_cardnumber : Text
  pub kicc_amount : ℕ
  pub kicc_rescode : Text
  pub kicc_trno : Text
  pub kicc_acquirer : Text
  pub kicc_approve : Text
  pub kicc_date : Text
  pub kicc_datetime : Text

unfoldable pub format_datetime : Text → Text → Option Text
format_datetime date time =
    if byte_len date == 8 && byte_len time == 6
    then (do
      year ← slice date 0 4
      month ← slice date 4 6
      day ← slice date 6 8
      hour ← slice time 0 2
      minute ← slice time 2 4
      second ← slice time 4 6
      some (
          year
          ++ (codes "-"
              ++ (month
                  ++ (codes "-"
                      ++ (day
                          ++ (codes " "
                              ++ (hour ++ (codes ":" ++ (minute ++ (codes ":" ++ second)))))))))))
    else some []

abbrev bad_key : Text → Bool
bad_key k = is_empty k || ltb 20 (byte_len k) || not (all is_ascii_alphanumeric k)

unfoldable pub resolve_table : Option Text → Option Text
resolve_table key = do k ← key; if bad_key (trim k) then none else some (codes "kicc_b" ++ trim k)

module _ {Json : Type 0} (json : JsonLib Json) where
  abbrev text : Json → Text → Text
  text p key = trim (str_or json p key [])

  -- The row for a table, behind the call of `format_datetime`.
  unfoldable pub kicc_row : QueueMessage Json → Text → Text → KiccRow
  kicc_row msg table datetime =
      let p = msg.payload in
      record {
        table = table;
        kicc_bid = unwrap_or msg.table_key [];
        kicc_tid = text p (codes "tran_unique_nbr");
        kicc_mid = take 8 (text p (codes "merchant_no"));
        kicc_psn = text p (codes "terminal_no");
        kicc_nick = text p (codes "issuer_name");
        kicc_trantype = take 1 (text p (codes "cancel_flag"));
        kicc_cardnumber = take 10 (text p (codes "card_no"));
        kicc_amount = parse_amount (str_or json p (codes "amount") (codes "0"));
        kicc_rescode = text p (codes "response_code");
        kicc_trno = text p (codes "tran_unique_nbr");
        kicc_acquirer = text p (codes "acquirer_name");
        kicc_approve = text p (codes "approval_no");
        kicc_date = text p (codes "approval_date") ++ text p (codes "approval_time");
        kicc_datetime = datetime;
      }

  unfoldable pub to_kicc_row : QueueMessage Json → Option (Option KiccRow)
  to_kicc_row msg = elim (resolve_table msg.table_key) [
    | none ↦ some none
    | some table ↦ do
      datetime ←
          format_datetime (text msg.payload (codes "approval_date"))
            (text msg.payload (codes "approval_time"))
      some (some (kicc_row msg table datetime))
  ]
