-- ===== src/OutcomeToken/History.antt =====
-- Histories of an outcome token (contracts/outcome-token/src/lib.rs).
use vatix_contract.Prelude.{
  ◌≤◌, ◌<◌, List, [], ◌∷◌, length, none, some, true, ⊤, Outcome, ok, err, trap, ◌≡◌, refl, arith,
}
use vatix_contract.OutcomeToken.{
  Address, Text, OutcomeTokenError, OutcomeMetadata, Data, Signers, M, initialize, set_metadata,
}

pub data Request : Type 0 where
  start : (admin : Address) (symbol name : Text) → Request
  rename : (caller : Address) (symbol name : Text) → Request

abbrev pub exec : Request → M ⊤
exec (start a s n) = initialize a s n
exec (rename c s n) = set_metadata c s n

-- A call that does not return is rolled back.
abbrev pub commit : Data → Outcome OutcomeTokenError (⊤ × Data) → Data
commit d (ok (u, d')) = d'
commit d (err e) = d
commit d trap = d

unfoldable pub run : List (Signers × Request) → Data → Data
run [] d = d
run ((signs, q) ∷ cs) d = run cs (commit d (exec q signs d))

abbrev pub blank : Data
blank = record { admin = none; metadata = none }

-- A symbol of 1 to 12 bytes and a name of 1 to 64.
pub record IsWellFormed (s n : Text) : Type 0 where
  pub symbol_given : 0 < length s
  pub symbol_bounded : length s ≤ 12
  pub name_given : 0 < length n
  pub name_bounded : length n ≤ 64

-- The metadata can be read from the moment there is an administrator.
pub data IsNamed (d : Data) : Type 0 where
  unnamed : d.admin ≡ none → d.metadata ≡ none → IsNamed d
  named :
      (a : Address) (m : OutcomeMetadata)
      → d.admin ≡ some a
      → d.metadata ≡ some m
      → IsWellFormed m.symbol m.name
      → IsNamed d

exec-metadata :
    (q : Request) (signs : Signers) (d d' : Data) → exec q signs d ≡ ok (tt, d') → IsNamed d'
unfolding initialize set_metadata
exec-metadata (start a s n) signs d d' h =
    named a (record { symbol = s; name = n }) (ground arith) (ground arith)
      (record {
        symbol_given = ground arith;
        symbol_bounded = ground arith;
        name_given = ground arith;
        name_bounded = ground arith;
      })
exec-metadata (rename c s n) signs d d' h =
    named c (record { symbol = s; name = n }) (ground arith) (ground arith)
      (record {
        symbol_given = ground arith;
        symbol_bounded = ground arith;
        name_given = ground arith;
        name_bounded = ground arith;
      })

step-IsNamed :
    (q : Request) (signs : Signers) (d : Data) → IsNamed d → IsNamed (commit d (exec q signs d))
step-IsNamed q signs d h = go (exec q signs d) refl
  where
    go : (r : Outcome OutcomeTokenError (⊤ × Data)) → exec q signs d ≡ r → IsNamed (commit d r)
    go (ok (tt, d')) e = exec-metadata q signs d d' e
    go (err x) e = h
    go trap e = h

run-keeps : (cs : List (Signers × Request)) (d : Data) → IsNamed d → IsNamed (run cs d)
unfolding run
run-keeps [] d h = h
run-keeps ((signs, q) ∷ cs) d h =
    run-keeps cs (commit d (exec q signs d)) (step-IsNamed q signs d h)

-- After any calls on a blank token, by anyone, it has neither an administrator nor metadata, or it has
-- an administrator, a symbol of 1 to 12 bytes and a name of 1 to 64.
pub run-IsNamed : (cs : List (Signers × Request)) → IsNamed (run cs blank)
run-IsNamed cs = run-keeps cs blank (unnamed refl refl)

-- Whoever signs for an address can make it the administrator of a token that has one already, under
-- any symbol and name of the allowed lengths.
pub initialize-takes :
    (a : Address) (s n : Text) (signs : Signers) (d : Data)
    → signs a ≡ true
    → IsWellFormed s n
    → initialize a s n signs d
      ≡ ok (tt, record { admin = some a; metadata = some (record { symbol = s; name = n }) })
unfolding initialize
initialize-takes a s n signs d signed w =
    ground (arith, signed, w.symbol_given, w.symbol_bounded, w.name_given, w.name_bounded)
