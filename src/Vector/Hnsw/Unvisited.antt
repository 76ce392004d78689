-- ===== src/Vector/Hnsw/Unvisited.antt =====
-- src/vector/hnsw.rs: the count of the nodes that a search has not visited.
use grainstore.Base.{
  ℕ, zero, suc, ◌≤◌, ◌<◌, ◌≡◌, refl, subst, ==_iff, List, ◌∷◌, false, ◌==◌, if◌then◌else◌, arith,
  Bool-cases, inl, inr,
}
use grainstore.Vector.Hnsw.Layer.{contains}

-- How many of the first `n` indices were not visited.
pub unvisited : ℕ → List ℕ → ℕ
unvisited zero visited = 0
unvisited (suc n) visited =
    if contains n visited then unvisited n visited else suc (unvisited n visited)

pub unvisited-le : (n : ℕ) (visited : List ℕ) → unvisited n visited ≤ n
unfolding unvisited
unvisited-le zero visited = omega arith
unvisited-le (suc n) visited = ground (arith, unvisited-le n visited)

unvisited_above :
    (n x : ℕ) (visited : List ℕ) → n ≤ x → unvisited n (x ∷ visited) ≡ unvisited n visited
unfolding unvisited contains
unvisited_above zero x visited h = refl
unvisited_above (suc n) x visited h = ground (arith, unvisited_above n x visited (omega arith))

-- A first visit leaves one index fewer.
pub unvisited-cons :
    (n x : ℕ) (visited : List ℕ)
    → x < n
    → contains x visited ≡ false
    → unvisited n visited ≡ suc (unvisited n (x ∷ visited))
unfolding unvisited contains
unvisited-cons zero x visited h new = absurd (omega arith)
unvisited-cons (suc n) x visited h new = elim (Bool-cases (x == n)) [
  | inl last ↦
      let same : (x ≡ n) = (==_iff x n).0 last in
      let new' : (contains n visited ≡ false) =
        subst (λ (k : ℕ). contains k visited ≡ false) same new in
      rw (last, new') (omega (arith, unvisited_above n x visited (omega arith)))
  | inr before ↦
      let less : (x < n) = ground arith in
      rw before (ground (arith, unvisited-cons n x visited less new))
]
