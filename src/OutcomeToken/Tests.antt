-- ===== src/OutcomeToken/Tests.antt =====
-- Runs of an outcome token (contracts/outcome-token/src/lib.rs).
use vatix_contract.Prelude.{List, [], ◌∷◌, some, ok, refl, ◌≡◌, ◌==◌, arith}
use vatix_contract.OutcomeToken.{Address, Text, Data, Signers, initialize, set_metadata}
use vatix_contract.OutcomeToken.History.{
  Request, start, rename, run, blank, IsNamed, run-IsNamed, initialize-takes,
}

abbrev signed_by : Address → Signers
signed_by a = λ b. a == b

abbrev short : Text
short = 89 ∷ 69 ∷ 83 ∷ []

abbrev long : Text
long = 1 ∷ 2 ∷ 3 ∷ 4 ∷ 5 ∷ 6 ∷ 7 ∷ 8 ∷ 9 ∷ 10 ∷ 11 ∷ 12 ∷ 13 ∷ []

-- The second call is by a stranger, the third has a symbol that is too long.
abbrev calls : List (Signers × Request)
calls =
    (signed_by 1, start 1 short long)
    ∷ (signed_by 2, rename 2 short short)
    ∷ (signed_by 1, rename 1 long short)
    ∷ []

abbrev launched : Data
launched = record { admin = some 1; metadata = some (record { symbol = short; name = long }) }

runs : run calls blank ≡ launched
unfolding run initialize set_metadata
runs = refl

run-IsNamed_example : IsNamed (run calls blank)
run-IsNamed_example = run-IsNamed calls

initialize-takes_example :
    initialize 7 short short (signed_by 7) launched
    ≡ ok (tt, record { admin = some 7; metadata = some (record { symbol = short; name = short }) })
initialize-takes_example = initialize-takes 7 short short (signed_by 7) launched refl (record {
  symbol_given = omega arith;
  symbol_bounded = omega arith;
  name_given = omega arith;
  name_bounded = omega arith;
})
