-- ===== src/Market/Custody/Settlement/Slices.antt =====
-- The participants of a page, as a part of all of them (contracts/market/src/settlement.rs).
use vatix_contract.Prelude.{
  ℕ, zero, suc, ◌-◌, ◌≤◌, List, [], ◌∷◌, ◌++◌, length, ◌≡◌, ◌∙◌, refl, ap, sym, arith,
}
use vatix_contract.Market.Types.{Address}
use vatix_contract.Market.Custody.Settlement.{take, drop}

take-drop : (n : ℕ) (xs : List Address) → take n xs ++ drop n xs ≡ xs
take-drop zero xs = refl
take-drop (suc n) [] = refl
take-drop (suc n) (x ∷ xs) = ap (λ ys. x ∷ ys) (take-drop n xs)

length-take : (n : ℕ) (xs : List Address) → n ≤ length xs → length (take n xs) ≡ n
length-take zero xs h = refl
length-take (suc n) [] h = absurd (omega arith)
length-take (suc n) (x ∷ xs) h = omega (arith, length-take n xs (omega arith))

length-drop : (n : ℕ) (xs : List Address) → length (drop n xs) ≡ length xs - n
length-drop zero xs = omega arith
length-drop (suc n) [] = omega arith
length-drop (suc n) (x ∷ xs) = omega (arith, length-drop n xs)

-- Three parts of the participants: those before an index, those of a page, those after it.
pub record Slice (xs : List Address) (start end : ℕ) : Type 0 where
  pub before : List Address
  pub page : List Address
  pub after : List Address
  pub parts : xs ≡ before ++ (page ++ after)
  pub begins : length before ≡ start
  pub ends : length page ≡ end - start
  pub rest : length after ≡ length xs - end
  pub is : page ≡ take (end - start) (drop start xs)

pub slice : (xs : List Address) (start end : ℕ) → start ≤ end → end ≤ length xs → Slice xs start end
slice xs start end h k =
    let tail = drop start xs in
    let there = length-drop start xs in
    record {
      before = take start xs;
      page = take (end - start) tail;
      after = drop (end - start) tail;
      parts =
          sym (ap (λ ys. take start xs ++ ys) (take-drop (end - start) tail) ∙ take-drop start xs);
      begins = length-take start xs (omega arith);
      ends = length-take (end - start) tail (omega arith);
      rest = omega (arith, length-drop (end - start) tail);
      is = refl;
    }

-- Lists with equal first parts have equal rests.
pub append-cancel :
    (xs ys cs bs : List Address) → xs ++ cs ≡ ys ++ bs → length xs ≡ length ys → cs ≡ bs
append-cancel [] [] cs bs h k = h
append-cancel [] (y ∷ ys) cs bs h k = absurd (omega arith)
append-cancel (x ∷ xs) [] cs bs h k = absurd (omega arith)
append-cancel (x ∷ xs) (y ∷ ys) cs bs h k = append-cancel xs ys cs bs (cc) (omega arith)
