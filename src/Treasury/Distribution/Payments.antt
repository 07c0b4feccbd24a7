-- ===== src/Treasury/Distribution/Payments.antt =====
-- What `distribute_fees` computes and pays (contracts/treasury/src/lib.rs).
use vatix_contract.Prelude.{
  ◌==◌, update, ℕ, ◌+◌, ◌-◌, ◌*◌, ◌/◌, ◌≤◌, ℤ, pos, pos_part, ◌*ℤ◌, ◌+ℤ◌, ◌-ℤ◌, ◌/ℤ◌, leb, List, [],
  ◌∷◌, ◌++◌, none, some, ◌≡◌, ◌∙◌, refl, length, i128_max, if◌then◌else◌, checked_mul, checked_add,
  checked_sub, Option-cases, inl, inr, ok, ◌>>◌, >>=-eq-ok, arith,
}
use mathlib.Core.List.{append_assoc, append-nil}
use vatix_contract.Treasury.Types.{Address, Share}
use vatix_contract.Treasury.World.{World, Env}
use vatix_contract.Treasury.Guards
use vatix_contract.Treasury.Events.{emit_fees_distributed}
use vatix_contract.Treasury.Distribution.{compute_payouts, pay_each, distribute}
use vatix_contract.Treasury.History.Ledger.{collected, paid, paid_to}
use vatix_contract.Treasury.Distribution.Shares.{
  portion, portions, weight, payable, portions-within,
}

pub checked_mul-pos :
    (b s : ℕ)
    → checked_mul (pos b) (pos s) ≡ (if leb (b * s) i128_max then some (pos (b * s)) else none)
unfolding ◌*ℤ◌
checked_mul-pos b s = ground arith

pub div-pos : (n : ℕ) → pos n /ℤ 10000 ≡ pos (n / 10000)
unfolding ◌/ℤ◌
div-pos n = ground arith

pub checked_add-pos :
    (a b : ℕ)
    → checked_add (pos a) (pos b) ≡ (if leb (a + b) i128_max then some (pos (a + b)) else none)
unfolding ◌+ℤ◌
checked_add-pos a b = ground arith

pub checked_sub-pos :
    (a b : ℕ)
    → b ≤ a
    → checked_sub (pos a) (pos b) ≡ (if leb (a - b) i128_max then some (pos (a - b)) else none)
unfolding ◌-ℤ◌
checked_sub-pos a b h = ground arith

pub compute_payouts_lem :
    (b : ℕ) (xs : List Share) (acc r : List (Address × ℤ)) (d : ℕ) (t : ℤ)
    → compute_payouts (pos b) xs acc (pos d) ≡ some (r, t)
    → (r ≡ acc ++ payable b xs) × (t ≡ pos (d + portions b xs))
unfolding compute_payouts
compute_payouts_lem b [] acc r d t h = (ground (arith, append-nil acc), ground arith)
compute_payouts_lem b ((a, s) ∷ xs) acc r d t h =
    let m = checked_mul-pos b s in
    let q = div-pos (b * s) in
    let n = checked_add-pos d (b * s / 10000) in
    let join = append_assoc acc ((a, pos (b * s / 10000)) ∷ []) (payable b xs) in
    let small = compute_payouts_lem b xs acc r d t in
    let large =
      compute_payouts_lem b xs (acc ++ (a, pos (b * s / 10000)) ∷ []) r (d + b * s / 10000) t in
    (ground (arith, m, q, n, small, large, join), ground (arith, m, q, n, small, large))

-- The amounts of a list of payouts, all together and those to the address `a`.
abbrev pub total : List (Address × ℤ) → ℕ
total [] = 0
total (x ∷ xs) = pos_part x.1 + total xs

abbrev pub total_to : Address → List (Address × ℤ) → ℕ
total_to a [] = 0
total_to a (x ∷ xs) = (if x.0 == a then pos_part x.1 else 0) + total_to a xs

-- What the list of shares entitles the address `a` to.
abbrev pub entitled : Address → ℕ → List Share → ℕ
entitled a b [] = 0
entitled a b (x ∷ xs) = (if x.0 == a then portion b x.1 else 0) + entitled a b xs

total-payable : (b : ℕ) (xs : List Share) → total (payable b xs) ≡ portions b xs
total-payable b [] = refl
total-payable b (x ∷ xs) = ground (arith, total-payable b xs)

total_to-payable :
    (a : Address) (b : ℕ) (xs : List Share) → total_to a (payable b xs) ≡ entitled a b xs
total_to-payable a b [] = refl
total_to-payable a b (x ∷ xs) = ground (arith, total_to-payable a b xs)

module _ {S Mode : Type 0} where
  -- From `w` to `w'` the payouts `xs` were paid in the token `token`, and nothing else happened.
  pub record PaysOut (token : Address) (xs : List (Address × ℤ)) (w w' : World S Mode)
      : Type 0 where
    pub same : w'.storage ≡ w.storage
    pub rest : w'.rest ≡ w.rest
    pub reported : (t : Address) → collected t w'.log ≡ collected t w.log
    pub spent : (t : Address) → paid t w'.log ≡ paid t w.log + (if token == t then total xs else 0)
    pub received : (a : Address) → paid_to a token w'.log ≡ paid_to a token w.log + total_to a xs

  pub pay_each-PaysOut :
      (token this : Address) (xs : List (Address × ℤ)) (env : Env Mode) (w w' : World S Mode)
      → pay_each token this xs env w ≡ ok (tt, w')
      → PaysOut token xs w w'
  unfolding pay_each
  pay_each-PaysOut token this [] env w w' h = record {
    same = ground arith;
    rest = ground arith;
    reported = λ t. ground arith;
    spent = λ t. ground arith;
    received = λ a. ground arith;
  }
  pay_each-PaysOut token this ((a, n) ∷ xs) env w w' h =
      let (u, w1, first, next) =
        >>=-eq-ok (Guards.transfer token this a n) (λ u. pay_each token this xs) env w tt w' h in
      let more = pay_each-PaysOut token this xs env w1 w' next in
      record {
        same = ground (arith, more.same);
        rest = ground (arith, more.rest);
        reported = λ t. ground (arith, more.reported t);
        spent = λ t. ground (arith, more.spent t);
        received = λ b. ground (arith, more.received b);
      }

  -- A return of `distribute` for the balance b and the shares xs: every stakeholder was paid its
  -- portion, and the balance is less by the sum of the portions.
  pub record Distributes (token : Address) (b : ℕ) (xs : List Share) (w w' : World S Mode)
      : Type 0 where
    pub within : portions b xs ≤ b
    pub written : w'.storage ≡ record w.storage {
      token_balance = update w.storage.token_balance token (some (pos (b - portions b xs)));
    }
    pub rest : w'.rest ≡ w.rest
    pub reported : (t : Address) → collected t w'.log ≡ collected t w.log
    pub spent :
        (t : Address) → paid t w'.log ≡ paid t w.log + (if token == t then portions b xs else 0)
    pub received : (a : Address) → paid_to a token w'.log ≡ paid_to a token w.log + entitled a b xs

  pub distribute-Distributes :
      (token : Address) (b : ℕ) (xs : List Share) (env : Env Mode) (w w' : World S Mode)
      → weight xs ≡ 10000
      → distribute token (pos b) xs env w ≡ ok (tt, w')
      → Distributes token b xs w w'
  unfolding distribute
  distribute-Distributes token b xs env w w' full h =
      elim (Option-cases (compute_payouts (pos b) xs [] (pos 0))) [
        | inl overflows ↦ absurd (ground arith)
        | inr ((ps, d), e) ↦
            let (list, sum) = compute_payouts_lem b xs [] ps 0 d e in
            let rest = portions b xs in
            let within : portions b xs ≤ b = portions-within b xs full in
            let left = checked_sub-pos b (portions b xs) within in
            let w1 : World S Mode = record w {
              storage = record w.storage {
                token_balance =
                    update w.storage.token_balance token (some (pos (b - portions b xs)));
              };
            } in
            let told =
              emit_fees_distributed token (pos (portions b xs)) (pos (b - portions b xs))
                (length xs) in
            let tail : (pay_each token env.this (payable b xs) >> told) env w1 ≡ ok (tt, w') =
              ground (arith, e, list, sum, left) in
            let (u, w2, first, next) =
              >>=-eq-ok (pay_each token env.this (payable b xs)) (λ u. told) env w1 tt w' tail in
            let pays = pay_each-PaysOut token env.this (payable b xs) env w1 w2 first in
            let back : w'.storage ≡ w2.storage = ground arith in
            record {
              within = within;
              written = back ∙ pays.same;
              rest = ground (arith, pays.rest);
              reported = λ t. ground (arith, pays.reported t);
              spent = λ t. ground (arith, pays.spent t, total-payable b xs);
              received = λ a. ground (arith, pays.received a, total_to-payable a b xs);
            }
      ]
