-- ===== src/Market/Validation/Identifiers.antt =====
-- The decimal identifiers of markets: `market_id_to_string` of contracts/resolution/src/lib.rs writes
-- them, `parse_market_id` of contracts/market/src/validation.rs reads them.
use vatix_contract.Prelude.{
  ℕ, zero, suc, ◌+◌, ◌*◌, ◌/◌, ◌%◌, ◌^◌, ◌≤◌, ◌<◌, some, inl, inr, [], ◌∷◌, ◌≡◌, ◌==◌, Bool-cases,
  length, arith,
}
use vatix_contract.Resolution.Guards.{fill_digits, market_id_to_string}
use vatix_contract.Market.Types.{Bytes}
use vatix_contract.Market.Validation.{done, parse_digits, parse_market_id}

-- The first number that needs more than `slots` digits.
abbrev reach : ℕ → ℕ
reach zero = 1
reach (suc slots) = 10 * reach slots

-- What `fill_digits` has written, it has written in front of `ds`.
record Written (slots n : ℕ) (ds : Bytes) : Type 0 where
  out : Bytes
  filled : fill_digits slots n ds ≡ some out
  read : parse_digits 0 out ≡ parse_digits n ds
  long : length ds ≤ length out
  short : length out ≤ slots + length ds
  grown : 0 < n → length ds < length out

fill_digits-Written : (slots n : ℕ) (ds : Bytes) → n < 2 ^ 32 → n < reach slots → Written slots n ds
unfolding fill_digits parse_digits
fill_digits-Written zero n ds small fits = record {
  out = ds;
  filled = ground arith;
  read = ground arith;
  long = ground arith;
  short = ground arith;
  grown = λ p. absurd (omega arith);
}
fill_digits-Written (suc slots) n ds small fits = elim (Bool-cases (n == 0)) [
  | inl none_left ↦ record {
    out = ds;
    filled = ground arith;
    read = ground arith;
    long = ground arith;
    short = ground arith;
    grown = λ p. absurd (ground arith);
  }
  | inr more ↦
      let rest =
        fill_digits-Written slots (n / 10) ((b'0' + n % 10) ∷ ds) (omega arith) (omega arith) in
      record {
        out = rest.out;
        filled = ground (arith, rest.filled);
        read = ground (arith, rest.read);
        long = ground (arith, rest.long);
        short = ground (arith, rest.short);
        grown = λ p. ground (arith, rest.long);
      }
]

-- The market contract reads back the identifier of every u32 that the resolution contract writes;
-- writing does not panic.
pub parse_market_id-market_id_to_string :
    (n : ℕ)
    → n < 2 ^ 32
    → (id : Bytes) × (market_id_to_string n ≡ some id) × (parse_market_id id ≡ done n)
unfolding market_id_to_string parse_market_id parse_digits
parse_market_id-market_id_to_string n small = elim (Bool-cases (n == 0)) [
  | inl none_left ↦ (b'0' ∷ [], ground arith, ground arith)
  | inr more ↦
      let all = fill_digits-Written 10 n [] small (omega arith) in
      (
        all.out,
        ground (arith, all.filled),
        ground (arith, all.read, all.short, all.grown (ground arith)),
      )
]
