-- ===== src/OutcomeToken.antt =====
-- The metadata of an outcome token: contracts/outcome-token/src/lib.rs.
pub mod History
pub mod Tests
use vatix_contract.Prelude.{
  ℕ, Bool, List, ltb, length, ◌==◌, not, Option, none, some, ⊤, ask, gets, modify, pure, ok_or,
  fail_if, trap_unless, Call, ◌>>◌, ◌>>=◌,
}

abbrev pub Address : Type 0
Address = ℕ

-- A string is its bytes.
abbrev pub Text : Type 0
Text = List ℕ

pub data OutcomeTokenError : Type 0 where
  unauthorized empty_symbol symbol_too_long empty_name name_too_long : OutcomeTokenError

pub record OutcomeMetadata : Type 0 where
  pub symbol : Text
  pub name : Text

-- The two keys of `DataKey`.
pub record Data : Type 0 where
  pub admin : Option Address
  pub metadata : Option OutcomeMetadata

-- The host in one call says who signs.
abbrev pub Signers : Type 0
Signers = Address → Bool

abbrev pub M : Type 0 → Type 0
M A = Call OutcomeTokenError Signers Data A

abbrev pub max_symbol_len : ℕ
max_symbol_len = 12

abbrev pub max_name_len : ℕ
max_name_len = 64

abbrev pub require_auth : Address → M ⊤
require_auth a = do signed ← ask (λ signs. signs a); trap_unless signed

abbrev pub validate_metadata : Text → Text → M ⊤
validate_metadata symbol name = do
  fail_if (length symbol == 0) empty_symbol
  fail_if (ltb max_symbol_len (length symbol)) symbol_too_long
  fail_if (length name == 0) empty_name
  fail_if (ltb max_name_len (length name)) name_too_long

abbrev pub require_admin : Address → M ⊤
require_admin caller = do
  found ← gets (λ d. d.admin)
  admin ← ok_or found unauthorized
  fail_if (not (admin == caller)) unauthorized

abbrev pub write_metadata : Text → Text → M ⊤
write_metadata symbol name =
    modify (λ d. record d { metadata = some (record { symbol = symbol; name = name }) })

unfoldable pub initialize : Address → Text → Text → M ⊤
initialize admin symbol name = do
  require_auth admin
  validate_metadata symbol name
  modify (λ d. record d { admin = some admin })
  write_metadata symbol name

unfoldable pub set_metadata : Address → Text → Text → M ⊤
set_metadata caller symbol name = do
  require_auth caller
  require_admin caller
  validate_metadata symbol name
  write_metadata symbol name

unfoldable pub metadata : M OutcomeMetadata
metadata = do found ← gets (λ d. d.metadata); ok_or found unauthorized

unfoldable pub symbol : M Text
symbol = do m ← metadata; pure m.symbol

unfoldable pub name : M Text
name = do m ← metadata; pure m.name
