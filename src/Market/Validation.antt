-- ===== src/Market/Validation.antt =====
-- The validators of contracts/market/src/validation.rs. A validator is its result; a plain sum that
-- overflows cannot occur in them.
pub mod Fees
pub mod Identifiers
use vatix_contract.Prelude.{
  ℕ, ◌+◌, ◌-◌, ◌*◌, ◌^◌, ◌/◌, ℤ, pos, leb_ℤ, ltb_ℤ, ◌/ℤ◌, Bool, true, false, ◌&&◌, ◌||◌, not,
  Option, none, some, List, [], ◌∷◌, ⊤, ltb, leb, ◌==◌, length, if◌then◌else◌, checked_mul,
  i128_max,
}
use vatix_contract.Market.Types.{
  Bytes, ContractError, market_already_resolved, market_not_active, invalid_share_amount,
  invalid_price, invalid_quantity, invalid_timestamp, invalid_question, invalid_outcome_count,
  below_min_deposit, invalid_metadata_uri, arithmetic_overflow, MarketStatus, active, resolved,
  canceled,
}

-- `Result` of the module, with its `?`.
pub data Result (A : Type 0) : Type 0 where
  done : A → Result A
  fail : ContractError → Result A

infixl 5 ◌>>=◌ ◌>>◌
abbrev pub ◌>>=◌ : {A B : Type 0} → Result A → (A → Result B) → Result B
done a >>= f = f a
fail e >>= f = fail e

abbrev pub ◌>>◌ : {A B : Type 0} → Result A → Result B → Result B
m >> k = m >>= λ _. k

abbrev pub reject_if : Bool → ContractError → Result ⊤
reject_if b e = if b then fail e else done tt

abbrev pub min_deposit_amount : ℤ
min_deposit_amount = pos 10000000

abbrev pub max_metadata_uri_length : ℕ
max_metadata_uri_length = 512

abbrev pub one_year_seconds : ℕ
one_year_seconds = 31536000

abbrev pub max_reasonable_amount : ℤ
max_reasonable_amount = pos (i128_max / 2)

abbrev pub validate_input_guard : ℤ → Result ⊤
validate_input_guard input = reject_if (leb_ℤ input (pos 0)) invalid_quantity

-- The sum of two u64, at most 2^64 - 1.
abbrev pub saturating_add_u64 : ℕ → ℕ → ℕ
saturating_add_u64 a b = if ltb (a + b) (2 ^ 64) then a + b else 2 ^ 64 - 1

abbrev pub validate_end_time : ℕ → ℕ → Result ⊤
validate_end_time end_time current_time = do
  reject_if (leb end_time current_time) invalid_timestamp
  reject_if (ltb (saturating_add_u64 current_time one_year_seconds) end_time) invalid_timestamp

abbrev pub validate_question_format : Bytes → Result ⊤
validate_question_format question = do
  reject_if (length question == 0) invalid_question
  reject_if (leb 500 (length question)) invalid_question

unfoldable pub validate_market_creation : Bytes → ℕ → ℕ → Result ⊤
validate_market_creation question end_time current_time = do
  validate_question_format question
  validate_end_time end_time current_time

-- `u8::is_ascii_graphic`
abbrev pub is_ascii_graphic : ℕ → Bool
is_ascii_graphic b = leb 33 b && leb b 126

abbrev pub all_graphic : Bytes → Bool
all_graphic [] = true
all_graphic (b ∷ bs) = is_ascii_graphic b && all_graphic bs

unfoldable pub validate_metadata_uri : Option Bytes → Result ⊤
validate_metadata_uri none = done tt
validate_metadata_uri (some uri) = do
  reject_if (length uri == 0 || ltb max_metadata_uri_length (length uri)) invalid_metadata_uri
  reject_if (not (all_graphic uri)) invalid_metadata_uri

abbrev pub validate_amount_positive : ℤ → Result ⊤
validate_amount_positive amount = reject_if (leb_ℤ amount (pos 0)) invalid_quantity

abbrev pub validate_amount_reasonable : ℤ → Result ⊤
validate_amount_reasonable amount = reject_if (ltb_ℤ max_reasonable_amount amount) invalid_quantity

unfoldable pub validate_collateral_amount : ℤ → Result ⊤
validate_collateral_amount amount = do
  validate_amount_positive amount
  validate_amount_reasonable amount

unfoldable pub validate_deposit_amount : ℤ → Result ⊤
unfolding validate_collateral_amount
validate_deposit_amount amount = do
  validate_collateral_amount amount
  reject_if (ltb_ℤ amount min_deposit_amount) below_min_deposit

abbrev pub eqb_ℤ : ℤ → ℤ → Bool
eqb_ℤ a b = leb_ℤ a b && leb_ℤ b a

abbrev pub validate_shares_non_negative : ℤ → ℤ → Result ⊤
validate_shares_non_negative yes_shares no_shares =
    reject_if (ltb_ℤ yes_shares (pos 0) || ltb_ℤ no_shares (pos 0)) invalid_share_amount

abbrev pub validate_shares_not_empty : ℤ → ℤ → Result ⊤
validate_shares_not_empty yes_shares no_shares =
    reject_if (eqb_ℤ yes_shares (pos 0) && eqb_ℤ no_shares (pos 0)) invalid_share_amount

abbrev pub validate_shares_bounded : ℤ → ℤ → Result ⊤
validate_shares_bounded yes_shares no_shares =
    reject_if (ltb_ℤ max_reasonable_amount yes_shares || ltb_ℤ max_reasonable_amount no_shares)
      invalid_share_amount

unfoldable pub validate_shares : ℤ → ℤ → Result ⊤
validate_shares yes_shares no_shares = do
  validate_shares_non_negative yes_shares no_shares
  validate_shares_not_empty yes_shares no_shares
  validate_shares_bounded yes_shares no_shares

abbrev pub validate_market_price : ℤ → Result ⊤
validate_market_price price =
    reject_if (not (leb_ℤ (pos 0) price && leb_ℤ price (pos 10000))) invalid_price

abbrev pub validate_fee_rate_bps : ℤ → Result ⊤
validate_fee_rate_bps fee_rate_bps = validate_market_price fee_rate_bps

abbrev pub validate_cancelable : MarketStatus → Result ⊤
validate_cancelable active = done tt
validate_cancelable resolved = fail market_already_resolved
validate_cancelable canceled = fail market_not_active

abbrev pub validate_reopenable : MarketStatus → Result ⊤
validate_reopenable canceled = done tt
validate_reopenable resolved = fail market_already_resolved
validate_reopenable active = fail market_not_active

abbrev pub validate_outcome_count : ℕ → Result ⊤
validate_outcome_count outcome_count = reject_if (not (outcome_count == 2)) invalid_outcome_count

-- One turn of the loop of `parse_market_id`, for the number read so far and the next byte.
abbrev pub push_digit : ℕ → ℕ → Result ℕ
push_digit n b = do
  reject_if (ltb b b'0' || ltb b'9' b) invalid_quantity
  reject_if (leb (2 ^ 32) (n * 10)) invalid_quantity
  reject_if (leb (2 ^ 32) (n * 10 + (b - b'0'))) invalid_quantity
  done (n * 10 + (b - b'0'))

unfoldable pub parse_digits : ℕ → Bytes → Result ℕ
parse_digits n [] = done n
parse_digits n (b ∷ bs) = push_digit n b >>= λ m. parse_digits m bs

unfoldable pub parse_market_id : Bytes → Result ℕ
parse_market_id market_id = do
  reject_if (length market_id == 0 || ltb 10 (length market_id)) invalid_quantity
  parse_digits 0 market_id

-- `ok_or`
abbrev pub or_fail : {A : Type 0} → Option A → ContractError → Result A
or_fail none e = fail e
or_fail (some a) e = done a

abbrev pub checked_fee : Option ℤ → Option ℤ
checked_fee none = none
checked_fee (some product) = some (product /ℤ 10000)

unfoldable pub calculate_fee : ℤ → ℤ → Result ℤ
calculate_fee amount fee_rate_bps = do
  validate_amount_positive amount
  validate_market_price fee_rate_bps
  or_fail (checked_fee (checked_mul amount fee_rate_bps)) arithmetic_overflow
