-- ===== src/Logger.antt =====
-- proxy/logger.go. logrus is a parameter: its levels, `ParseLevel`, and the level for debugging.
use eth_proxy.Prelude.{
  Bool, String, ◌^^◌, List, [], ◌∷◌, Result, ok, err, str_eq, ◌||◌, if◌then◌else◌,
}
use eth_proxy.Service.Constants.{service_name}

abbrev json_format : String
json_format = "json"

abbrev plain_format : String
plain_format = "plain"

-- logrus: the formatters that the program chooses between, both with the message under "message" and
-- times in RFC 3339 with nanoseconds.
pub data Formatter : Type 0 where
  text_formatter json_formatter : Formatter

-- A logger, with what it has written at level `warn` while it was made.
pub record Logger (Level : Type 0) : Type 0 where
  pub formatter : Formatter
  pub level : Level
  pub warned : List String

-- A `logrus.Entry`: its logger and the fields that it adds to a line.
pub record Entry (Level : Type 0) : Type 0 where
  pub logger : Logger Level
  pub level : Level
  pub fields : List (String × String)

pub record Logrus : Type 1 where
  pub Level : Type 0
  pub parse_level : String → Result Level
  pub is_debug : Level → Bool

unfoldable pub check_format : String → String → Result (Unit {0})
check_format w service =
    if str_eq w json_format || str_eq w plain_format
    then ok tt
    else err ("invalid " ^^ service ^^ " log format input '" ^^ w ^^ "'")

module _ (L : Logrus) where
  open L use {Level, parse_level, is_debug}

  unfoldable pub new_formatted_logger : Level → String → Logger Level
  new_formatted_logger log_level log_format = record {
    formatter = if str_eq log_format plain_format then text_formatter else json_formatter;
    level = log_level;
    warned =
        if is_debug log_level
        then "ETH-PROXY RUNNING IN DEBUG MODE. DO NOT RUN IN PRODUCTION ENVIRONMENT" ∷ []
        else [];
  }

  -- The last argument is the variable `Version`.
  unfoldable pub new_logger : String → String → String → Result (Entry Level)
  unfolding check_format new_formatted_logger
  new_logger log_level log_format version = elim (parse_level log_level) [
    | err e ↦ err e
    | ok lvl ↦ elim (check_format log_format service_name) [
      | err e ↦ err e
      | ok _ ↦
          let l = new_formatted_logger lvl log_format in
          ok (record {
            logger = l;
            level = l.level;
            fields = ("serviceName", service_name) ∷ ("version", version) ∷ [];
          })
    ]
  ]

  -- The format that a formatter writes.
  abbrev pub format_of : Formatter → String
  format_of text_formatter = plain_format
  format_of json_formatter = json_format
