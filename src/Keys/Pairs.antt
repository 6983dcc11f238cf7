-- ===== src/Keys/Pairs.antt =====
-- What keys/sign_test.go takes for granted of the records: a key and a signature for each index.
use eth_proxy.Prelude.{
  ℕ, zero, suc, ◌≡◌, ◌≢◌, refl, Bool, true, false, String, List, [], ◌∷◌, some, ltb, ◌==◌, str_eq,
  eq_iff, sym, get_elem?, ◌&&◌, ◌||◌, arith,
}
use Prim.Native.Char.{code}
use eth_proxy.Keys.Record.{KeyRecord, SignatureRecord}
use eth_proxy.Keys.Data.{eth_test_keys, eth_test_sigs}

abbrev is_hex_code : ℕ → Bool
is_hex_code c = (ltb 47 c && ltb c 58) || (ltb 64 c && ltb c 71) || (ltb 96 c && ltb c 103)

-- A text of a given number of hexadecimal digits.
unfoldable pub is_hex : ℕ → String → Bool
is_hex zero String.[] = true
is_hex zero (String.◌∷◌ c s) = false
is_hex (suc n) String.[] = false
is_hex (suc n) (String.◌∷◌ c s) = is_hex_code (code c) && is_hex n s

-- `0x` and 40 digits.
unfoldable pub is_address : String → Bool
unfolding is_hex
is_address (String.◌∷◌ z (String.◌∷◌ x s)) = (code z == 48) && (code x == 120) && is_hex 40 s
is_address _ = false

abbrev pub fits : KeyRecord → SignatureRecord → Bool
fits k s =
    is_hex 64 k.private_key
    && is_address k.address
    && str_eq k.address s.address
    && is_hex 130 s.signature

unfoldable pub all_fit : List KeyRecord → List SignatureRecord → Bool
unfolding is_address
all_fit [] [] = true
all_fit (k ∷ ks) (s ∷ ss) = fits k s && all_fit ks ss
all_fit _ _ = false

fixtures_fit : all_fit eth_test_keys eth_test_sigs ≡ true
unfolding all_fit
fixtures_fit = refl

-- A key with the signature at its index.
pub record Paired (k : KeyRecord) (s : SignatureRecord) : Type 0 where
  pub address : k.address ≡ s.address
  pub is_private_key : is_hex 64 k.private_key ≡ true
  pub is_account : is_address k.address ≡ true
  pub is_signature : is_hex 130 s.signature ≡ true

fits-Paired : (k : KeyRecord) (s : SignatureRecord) → fits k s ≡ true → Paired k s
fits-Paired k s h = record {
  address = ground (arith, eq_iff k.address s.address);
  is_private_key = ground arith;
  is_account = ground arith;
  is_signature = ground arith;
}

all_fit-first :
    (k : KeyRecord) (s : SignatureRecord) (ks : List KeyRecord) (ss : List SignatureRecord)
    → all_fit (k ∷ ks) (s ∷ ss) ≡ true
    → (fits k s ≡ true) × (all_fit ks ss ≡ true)
unfolding all_fit
all_fit-first k s ks ss h = ground arith

no_signature : (k : KeyRecord) (ks : List KeyRecord) → all_fit (k ∷ ks) [] ≢ true
unfolding all_fit
no_signature k ks = cc

all_fit-at :
    (ks : List KeyRecord) (ss : List SignatureRecord) (i : ℕ) (k : KeyRecord)
    → all_fit ks ss ≡ true
    → get_elem? ks i ≡ some k
    → (s : SignatureRecord) × (get_elem? ss i ≡ some s) × Paired k s
all_fit-at [] ss i k h e = absurd (cc e)
all_fit-at (x ∷ ks) [] i k h e = absurd (no_signature x ks h)
all_fit-at (x ∷ ks) (y ∷ ss) zero k h e =
    let (first, _) = all_fit-first x y ks ss h in
    let same : x ≡ k = ground arith in (y, refl, rw (sym same) (fits-Paired x y first))
all_fit-at (x ∷ ks) (y ∷ ss) (suc i) k h e =
    let (_, rest) = all_fit-first x y ks ss h in all_fit-at ks ss i k rest e

-- Each of the 518 keys here has a signature at the same index, of the same address; the
-- key has 64 hexadecimal digits, the address is `0x` and 40, and the signature has 130, which are 65
-- bytes.
pub eth_test_sigs-Paired :
    (i : ℕ) (k : KeyRecord)
    → get_elem? eth_test_keys i ≡ some k
    → (s : SignatureRecord) × (get_elem? eth_test_sigs i ≡ some s) × Paired k s
eth_test_sigs-Paired i k e = all_fit-at eth_test_keys eth_test_sigs i k fixtures_fit e
