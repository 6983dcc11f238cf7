-- ===== src/Network/Methods.antt =====
-- The method of a request that `http.NewRequestWithContext` makes.
use eth_proxy.Prelude.{
  ℕ, ◌≡◌, refl, Bool, true, false, ◌&&◌, ◌||◌, String, ◌==◌, str_eq, if◌then◌else◌,
}
use Prim.Native.Char.{code}
use eth_proxy.Api.Answers.{
  Endpoint, to_status, to_health, to_balance, to_tx, to_tx_receipt, to_send_tx,
}
use eth_proxy.Service.Routes.{method_of}
use eth_proxy.Network.Asked.{is_word_code}

-- Letters, digits, and the marks that may stand in a token of HTTP.
abbrev is_token_code : ℕ → Bool
is_token_code c =
    is_word_code c
    || (c == 33)
    || (c == 35)
    || (c == 36)
    || (c == 37)
    || (c == 38)
    || (c == 39)
    || (c == 42)
    || (c == 43)
    || (c == 45)
    || (c == 46)
    || (c == 94)
    || (c == 95)
    || (c == 96)
    || (c == 124)
    || (c == 126)

abbrev all_tokens : String → Bool
all_tokens String.[] = true
all_tokens (String.◌∷◌ c s) = is_token_code (code c) && all_tokens s

-- A method is a token that is not empty.
unfoldable pub is_valid_method : String → Bool
is_valid_method String.[] = false
is_valid_method (String.◌∷◌ c s) = all_tokens (String.◌∷◌ c s)

-- No method stands for GET.
abbrev pub sent_method : String → String
sent_method method = if str_eq method "" then "GET" else method

pub method_of-valid : (e : Endpoint) → is_valid_method (method_of e) ≡ true
unfolding is_valid_method
method_of-valid to_status = refl
method_of-valid to_health = refl
method_of-valid to_balance = refl
method_of-valid to_tx = refl
method_of-valid to_tx_receipt = refl
method_of-valid to_send_tx = refl
