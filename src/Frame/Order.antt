-- ===== src/Frame/Order.antt =====
-- The pass of CreateFDEPCMap that puts a new entry in its place.
use men_debugger.Base.{
  ℕ, zero, suc, ◌+◌, ◌-◌, ◌≤◌, ◌<◌, ◌≡◌, refl, ◌∙◌, arith, ◌≢◌, ltb, inl, inr, Bool-cases,
}
use men_debugger.Frame.Search.{FdePcMap, sort_pass, sort_step, add_fde, put, swap_next}

-- From the entry 1 on, up to the entry `n`, every entry but `i` is at most the next one; and the
-- entry before the one behind `i` is at most the one after it.
abbrev OrderedBut : ℕ → (ℕ → ℕ) → ℕ → Type 0
OrderedBut i f n =
    ((j : ℕ) → 1 ≤ j → j < n → j ≢ i → f j ≤ f (j + 1)) × (1 ≤ i → i + 2 ≤ n → f i ≤ f (i + 2))

module _ (f : ℕ → ℕ) (n i : ℕ) (ordered : OrderedBut (suc i) f n) (inside : suc i < n) where
  swap_next-OrderedBut : f (suc i + 1) < f (suc i) → OrderedBut i (swap_next f (suc i)) n
  swap_next-OrderedBut less =
      (λ j a b c. ground (arith, ordered.0 j, ordered.1), λ a b. ground (arith, ordered.0 i))

  keep-OrderedBut : f (suc i) ≤ f (suc i + 1) → OrderedBut i f n
  keep-OrderedBut least =
      (λ j a b c. ground (arith, ordered.0 j), λ a b. ground (arith, ordered.0 i))

sort_step-OrderedBut :
    (i : ℕ) (map : FdePcMap) (n : ℕ)
    → OrderedBut (suc i) map.pcs n
    → suc i < n
    → OrderedBut i (sort_step (suc i) map).pcs n × ((sort_step (suc i) map).pcs 0 ≡ map.pcs 0)
sort_step-OrderedBut i map n ordered inside =
    elim (Bool-cases (ltb (map.pcs (suc i + 1)) (map.pcs (suc i)))) [
      | inl less ↦
          rw less (swap_next-OrderedBut map.pcs n i ordered inside (ground arith), ground arith)
      | inr more ↦ rw more (keep-OrderedBut map.pcs n i ordered inside (ground arith), refl)
    ]

sort_pass-OrderedBut :
    (i : ℕ) (map : FdePcMap) (n : ℕ)
    → OrderedBut i map.pcs n
    → i < n
    → OrderedBut 0 (sort_pass i map).pcs n × ((sort_pass i map).pcs 0 ≡ map.pcs 0)
unfolding sort_pass
sort_pass-OrderedBut zero map n ordered inside = (ordered, refl)
sort_pass-OrderedBut (suc i) map n ordered inside =
    let (next, first) = sort_step-OrderedBut i map n ordered inside in
    let (o, e) = sort_pass-OrderedBut i (sort_step (suc i) map) n next (omega arith) in
    (o, e ∙ first)

-- The entries from the one of index 1 on are in order.
abbrev pub IsOrderedBehindFirst : FdePcMap → Type 0
IsOrderedBehindFirst map = (j : ℕ) → 1 ≤ j → j + 1 < map.size → map.pcs j ≤ map.pcs (j + 1)

-- A map that is in order behind its first entry is so with a new entry too; the first entry stays
-- where it is, whatever the new address is.
pub add_fde-IsOrderedBehindFirst :
    (map : FdePcMap) (address pc : ℕ)
    → 1 ≤ map.size
    → IsOrderedBehindFirst map
    → IsOrderedBehindFirst (add_fde map address pc)
      × ((add_fde map address pc).size ≡ map.size + 1)
      × ((add_fde map address pc).pcs 0 ≡ map.pcs 0)
unfolding add_fde
add_fde-IsOrderedBehindFirst map address pc one ordered =
    let new : FdePcMap = record map {
      fde_addresses = put map.fde_addresses map.size address;
      pcs = put map.pcs map.size pc;
    } in
    let start : OrderedBut (map.size - 1) new.pcs map.size =
      (λ j a b c. ground (arith, ordered j), λ a b. absurd (omega arith)) in
    let (o, e) = sort_pass-OrderedBut (map.size - 1) new map.size start (omega arith) in
    (λ j a b. o.0 j a (omega arith) (omega arith), refl, e ∙ ground arith)
