-- ===== src/Hlc/Contention.antt =====
-- src/hlc.rs: `next` under contention. Each thread loads the counter, then tries to exchange what
-- it saw for the successor; a failed exchange hands it the current value, and it tries again.
use grainstore.Base.{
  ℕ, zero, suc, ◌+◌, ◌<◌, ◌≤◌, ◌≡◌, refl, List, [], ◌∷◌, Option, none, some, arith, ◌==◌,
  if◌then◌else◌, length, ◌^◌,
}
use grainstore.Hlc.{successor}

-- `prev` of each thread that is inside `next`, and every value returned so far, the latest first.
pub record Oracle : Type 0 where
  pub last : ℕ
  pub prev : ℕ → Option ℕ
  pub issued : List ℕ

abbrev pub update : (ℕ → Option ℕ) → ℕ → Option ℕ → ℕ → Option ℕ
update f t v u = if t == u then v else f u

abbrev pub resumed : ℕ → Oracle
resumed high_watermark = record { last = high_watermark; prev = λ _. none; issued = [] }

pub data Step : Oracle → Oracle → Type 0 where
  -- `self.last.load`
  load : (s : Oracle) (t : ℕ) → Step s (record s { prev = update s.prev t (some s.last) })
  -- the exchange succeeds: the counter still holds `prev`
  exchanged :
      (s : Oracle) (t p : ℕ)
      → s.prev t ≡ some p
      → s.last ≡ p
      → Step s (record {
        last = successor p;
        prev = update s.prev t none;
        issued = successor p ∷ s.issued;
      })
  -- the exchange fails, also spuriously, and the loop goes on with the observed value
  failed :
      (s : Oracle) (t p : ℕ)
      → s.prev t ≡ some p
      → Step s (record s { prev = update s.prev t (some s.last) })

pub data Reach (s : Oracle) : Oracle → Type 0 where
  here : Reach s s
  next : {u v : Oracle} → Reach s u → Step u v → Reach s v

-- The values `first + n`, `first + n - 1`, …, `first + 1`.
abbrev pub descending : ℕ → ℕ → List ℕ
descending first zero = []
descending first (suc n) = (first + suc n) ∷ descending first n

abbrev pub IsCounted : ℕ → Oracle → Type 0
IsCounted first s =
    (s.last ≡ first + length s.issued) × (s.issued ≡ descending first (length s.issued))

Step-IsCounted :
    (first : ℕ) {s u : Oracle}
    → first + length s.issued + 1 < 2 ^ 64
    → Step s u
    → IsCounted first s
    → IsCounted first u
unfolding successor
Step-IsCounted first room (load s t) h = h
Step-IsCounted first room (exchanged s t p e same) h = (omega arith, ground arith)
Step-IsCounted first room (failed s t p e) h = h

length-Step : {s u : Oracle} → Step s u → length s.issued ≤ length u.issued
length-Step (load s t) = omega arith
length-Step (exchanged s t p e same) = omega arith
length-Step (failed s t p e) = omega arith

-- Whatever the threads do and however the exchanges fail, the values issued after a start at
-- `first` are `first + 1`, `first + 2`, … in this order: none twice, none left out, and `last` is
-- the latest. The counter is taken not to reach 2 ^ 64.
pub Reach-IsCounted :
    (first : ℕ) {s : Oracle}
    → Reach (resumed first) s
    → first + length s.issued + 1 < 2 ^ 64
    → IsCounted first s
Reach-IsCounted first here room = (omega arith, refl)
Reach-IsCounted first (next r st) room =
    Step-IsCounted first (omega (arith, length-Step st)) st
      (Reach-IsCounted first r (omega (arith, length-Step st)))
