-- ===== src/Treasury/Tests/Stage.antt =====
-- Accessors over a record, a host, and a deployed treasury (contracts/treasury/src/lib.rs).
use vatix_contract.Prelude.{
  ℕ, ℤ, pos, Bool, true, false, ◌==◌, List, [], ◌∷◌, ◌++◌, Option, none, some, ok, refl, ◌≡◌,
  if◌then◌else◌, contains, inl, arith,
}
use vatix_contract.Treasury.Types.{Address, Share, PendingStakeholders}
use vatix_contract.Treasury.World.{Accessors, World, Env}
use vatix_contract.Treasury.Laws.{IsAccessors}
use vatix_contract.Treasury.History.Weights.{IsWeighted}

pub record Keys : Type 0 where
  pub mode : ℕ
  pub paused : Bool
  pub tokens : List Address
  pub total : ℤ
  pub stakeholders : List Share
  pub pending : Option PendingStakeholders

abbrev pub no_keys : Keys
no_keys = record {
  mode = 0;
  paused = false;
  tokens = [];
  total = pos 0;
  stakeholders = [];
  pending = none;
}

-- The modes are 0 to 3, the last of which is the freeze of everything.
abbrev pub keys : Accessors Keys ℕ
keys = record {
  normal = 0;
  trading_halted = 1;
  settle_only = 2;
  same_mode = λ a b. a == b;
  get_emergency_mode = λ s. s.mode;
  set_emergency_mode = λ s m. record s { mode = m };
  is_paused = λ s. s.paused;
  set_paused = λ s b. record s { paused = b };
  register_fee_token =
      λ s t. if contains s.tokens t then s else record s { tokens = s.tokens ++ t ∷ [] };
  get_total_collected = λ st s. ok s.total;
  set_total_collected = λ s n. record s { total = n };
  get_stakeholders = λ st s. ok s.stakeholders;
  set_stakeholders = λ s xs. record s { stakeholders = xs };
  get_pending_stakeholders = λ s. s.pending;
  set_pending_stakeholders = λ s p. record s { pending = some p };
  clear_pending_stakeholders = λ s. record s { pending = none };
}

pub registers_stakeholders :
    (s : Keys) (t : Address) → (keys.register_fee_token s t).stakeholders ≡ s.stakeholders
registers_stakeholders s t = ground arith

pub registers_pending : (s : Keys) (t : Address) → (keys.register_fee_token s t).pending ≡ s.pending
registers_pending s t = ground arith

abbrev pub keys_laws : IsAccessors keys
keys_laws = record {
  stakeholders_of = λ s. s.stakeholders;
  get_stakeholders = λ st s xs h. ground (arith, h);
  set_stakeholders = λ s xs. refl;
  set_stakeholders_pending = λ s xs. refl;
  set_pending = λ s p. refl;
  set_pending_stakeholders = λ s p. refl;
  clear_pending = λ s. refl;
  clear_pending_stakeholders = λ s. refl;
  emergency_mode = λ m. record { stakeholders = λ s. refl; pending = λ s. refl };
  paused = λ b. record { stakeholders = λ s. refl; pending = λ s. refl };
  fee_token = λ t. record {
    stakeholders = λ s. registers_stakeholders s t;
    pending = λ s. registers_pending s t;
  };
  total = λ n. record { stakeholders = λ s. refl; pending = λ s. refl };
}

abbrev pub treasury_contract : Address
treasury_contract = 9

abbrev pub operator : Address
operator = 10

abbrev pub market_one : Address
market_one = 20

abbrev pub market_two : Address
market_two = 21

abbrev pub coin : Address
coin = 5

abbrev pub shares : List Share
shares = (31, 3333) ∷ (32, 3333) ∷ (33, 3334) ∷ []

-- Everybody signs, and every transfer returns.
abbrev pub at_time : ℕ → Env ℕ
at_time now = record {
  this = treasury_contract;
  timestamp = now;
  authorized = λ a. true;
  executable = λ a. false;
  transfer_returns = λ l t from to n. true;
}

-- Deployed, with a hundred coins, and with shares.
abbrev pub funded : World Keys ℕ
funded = record {
  storage = record {
    storage_version = some 3;
    admin = some operator;
    pending_admin = none;
    authorized_markets = some (market_one ∷ []);
    pending_market_contract = none;
    deposits_paused = none;
    token_balance = λ t. if t == coin then some (pos 100) else none;
    cumulative_fees = λ t. if t == coin then some (pos 100) else none;
  };
  rest = record no_keys { stakeholders = shares };
  log = [];
}

pub funded-IsWeighted : IsWeighted keys keys_laws funded.rest
funded-IsWeighted = record { active = inl refl; waiting = inl refl }
