-- ===== src/Network/Asked.antt =====
-- What can be asked of an endpoint: the paths that its pattern matches.
use eth_proxy.Prelude.{ℕ, ◌≡◌, refl, Bool, true, ◌&&◌, ◌||◌, ◌≢◌, String, ◌^^◌, some, ltb, arith}
use eth_proxy.Prelude.Text.{count}
use Prim.Native.Char.{code}
use text.Mathlib.TextLemmas.{nil-append, cons-append, append-nil}
use eth_proxy.Http.{conn_writer, recorder_writer}
use eth_proxy.Api.{param, no_params}
use eth_proxy.Api.Answers.{
  Endpoint, to_status, to_health, to_balance, to_tx, to_tx_receipt, to_send_tx,
}
use eth_proxy.Service.Routes.{prefix_of, params_of, pattern_of}
use eth_proxy.Network.Patterns.{match_pattern, match_pattern_self, match_pattern-append}

abbrev pub is_word_code : ℕ → Bool
is_word_code c = (ltb 47 c && ltb c 58) || (ltb 64 c && ltb c 91) || (ltb 96 c && ltb c 123)

-- A text of letters and digits.
unfoldable pub is_alphanumeric : String → Bool
is_alphanumeric String.[] = true
is_alphanumeric (String.◌∷◌ c s) = is_word_code (code c) && is_alphanumeric s

no_slash : (s : String) → is_alphanumeric s ≡ true → count b'/' s ≡ 0
unfolding is_alphanumeric count
no_slash String.[] _ = refl
no_slash (String.◌∷◌ c s) h = ground (arith, no_slash s)

-- A last segment that can be asked for: none, where the route has no parameter.
abbrev pub Fits : Endpoint → String → Type 0
Fits to_status v = v ≡ ""
Fits to_health v = v ≡ ""
Fits e v = (v ≢ "") × (is_alphanumeric v ≡ true)

static_matched :
    (p v : String) → count b':' p ≡ 0 → v ≡ "" → match_pattern p (p ^^ v) ≡ some no_params
static_matched p v plain h = rw (h, append-nil) (match_pattern_self p plain)

named_matched :
    (prefix key v : String)
    → count b':' prefix ≡ 0
    → v ≢ ""
    → is_alphanumeric v ≡ true
    → match_pattern (prefix ^^ ":" ^^ key) (prefix ^^ v) ≡ some (param key v)
named_matched prefix key String.[] plain nonempty h = absurd (nonempty refl)
named_matched prefix key (String.◌∷◌ c v) plain nonempty h =
    let colon : ":" ^^ key ≡ String.◌∷◌ ":" key = rw (cons-append, nil-append) refl in
    rw colon (match_pattern-append prefix key v c plain (no_slash (String.◌∷◌ c v) h))

-- The pattern of an endpoint matches what can be asked of it.
pub pattern_matched :
    (e : Endpoint) (v : String)
    → Fits e v
    → match_pattern (pattern_of e) (prefix_of e ^^ v) ≡ some (params_of e v)
unfolding count
pattern_matched to_status v h = static_matched "/status" v refl h
pattern_matched to_health v h = static_matched "/health" v refl h
pattern_matched to_balance v h = named_matched (prefix_of to_balance) "address" v refl h.0 h.1
pattern_matched to_tx v h = named_matched (prefix_of to_tx) "id" v refl h.0 h.1
pattern_matched to_tx_receipt v h = named_matched (prefix_of to_tx_receipt) "id" v refl h.0 h.1
pattern_matched to_send_tx v h = named_matched (prefix_of to_send_tx) "data" v refl h.0 h.1
