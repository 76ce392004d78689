-- ===== src/Materializer/Watermark.antt =====
-- The watermark of the worker pool is exactly the contiguous prefix of what is complete.
use grainstore.Base.{
  ℕ, zero, suc, ◌+◌, ◌-◌, ◌<◌, ◌≤◌, ◌≡◌, refl, sym, ◌∙◌, List, [], ◌∷◌, Bool, true, false, ◌==◌,
  ◌||◌, ◌&&◌, length, leb, ltb, foldl, arith, Bool-cases, inl, inr, not, subst,
}
use grainstore.Materializer.{
  mem, insert_seq, remove_seq, Completion, new, advance, complete, watermark_of, complete_all,
}

mem-remove_seq : (s n : ℕ) (set : List ℕ) → mem s (remove_seq n set) ≡ (mem s set && not (s == n))
unfolding mem remove_seq
mem-remove_seq s n [] = refl
mem-remove_seq s n (m ∷ ms) = ground (arith, mem-remove_seq s n ms)

mem-insert_seq : (s n : ℕ) (set : List ℕ) → mem s (insert_seq n set) ≡ (s == n || mem s set)
unfolding insert_seq
mem-insert_seq s n set = elim (Bool-cases (mem n set)) [
  | inl old ↦ rw old (unfold mem in ground arith)
  | inr fresh ↦ rw fresh (unfold mem in refl)
]

length-remove_seq : (n : ℕ) (set : List ℕ) → length (remove_seq n set) ≤ length set
unfolding remove_seq
length-remove_seq n [] = omega arith
length-remove_seq n (m ∷ ms) = ground (arith, length-remove_seq n ms)

length-remove_mem :
    (n : ℕ) (set : List ℕ) → mem n set ≡ true → length (remove_seq n set) < length set
unfolding mem remove_seq
length-remove_mem n [] h = cc
length-remove_mem n (m ∷ ms) h = ground (arith, length-remove_seq n ms, length-remove_mem n ms)

-- What is complete is what lies below `next`, and what is pending.
record Covers (known : ℕ → Bool) (c : Completion) : Type 0 where
  positive : 1 ≤ c.next
  exact : (s : ℕ) → known s ≡ ((leb 1 s && ltb s c.next) || mem s c.pending)

take_next :
    (known : ℕ → Bool) (next : ℕ) (pending : List ℕ)
    → mem next pending ≡ true
    → Covers known (record { next = next; pending = pending })
    → Covers known (record { next = next + 1; pending = remove_seq next pending })
take_next known next pending there h = record {
  positive = omega arith;
  exact = λ s. h.exact s ∙ split s;
}
  where
    split :
        (s : ℕ)
        → ((leb 1 s && ltb s next) || mem s pending)
          ≡ ((leb 1 s && ltb s (next + 1)) || mem s (remove_seq next pending))
    split s = elim (Bool-cases (s == next)) [
      | inl same ↦
          let e : s ≡ next = ground arith in
          rw (mem-remove_seq s next pending, e, there) (ground (arith, h.positive))
      | inr other ↦ rw (mem-remove_seq s next pending) (ground arith)
    ]

advance-Covers :
    (known : ℕ → Bool) (fuel next : ℕ) (pending : List ℕ)
    → length pending ≤ fuel
    → Covers known (record { next = next; pending = pending })
    → Covers known (advance fuel next pending)
      × (mem (advance fuel next pending).next (advance fuel next pending).pending ≡ false)
unfolding advance
advance-Covers known zero next [] small h = (h, unfold mem in refl)
advance-Covers known zero next (m ∷ ms) small h = absurd (omega arith)
advance-Covers known (suc fuel) next pending small h = elim (Bool-cases (mem next pending)) [
  | inl there ↦
      rw (there, advance)
        (advance-Covers known fuel (next + 1) (remove_seq next pending)
          (omega (arith, length-remove_mem next pending there))
          (take_next known next pending there h))
  | inr gone ↦ rw (gone, advance) (h, gone)
]

complete-Covers :
    (known : ℕ → Bool) (c : Completion) (seq : ℕ)
    → Covers known c
    → Covers (λ s. s == seq || known s) (complete c seq)
      × (mem (complete c seq).next (complete c seq).pending ≡ false)
unfolding complete
complete-Covers known c seq h =
    advance-Covers (λ s. s == seq || known s) (length (insert_seq seq c.pending)) c.next
      (insert_seq seq c.pending) (omega arith)
      (record {
        positive = h.positive;
        exact = λ s. rw (h.exact s, mem-insert_seq s seq c.pending) (ground arith);
      })

complete_from-Covers :
    (known : ℕ → Bool) (c : Completion) (seqs : List ℕ)
    → Covers known c × (mem c.next c.pending ≡ false)
    → Covers (λ s. mem s seqs || known s) (foldl complete c seqs)
      × (mem (foldl complete c seqs).next (foldl complete c seqs).pending ≡ false)
unfolding mem
complete_from-Covers known c [] (h, free) =
    (record { positive = h.positive; exact = h.exact }, free)
complete_from-Covers known c (seq ∷ seqs) (h, free) =
    let (k, last) =
      complete_from-Covers (λ s. s == seq || known s) (complete c seq) seqs
        (complete-Covers known c seq h) in
    (
      record {
        positive = k.positive;
        exact = λ s. sym (regroup (mem s seqs) (s == seq) (known s)) ∙ k.exact s;
      },
      last,
    )
  where
    regroup : (a b c : Bool) → (a || (b || c)) ≡ ((b || a) || c)
    regroup true true c = refl
    regroup true false c = refl
    regroup false true c = refl
    regroup false false c = refl

-- In whatever order the workers complete the commits `seqs`, the watermark is the end of the
-- contiguous run from 1 on: every commit up to it is complete, and the next one is not.
pub watermark-contiguous :
    (seqs : List ℕ)
    → ((s : ℕ) → 1 ≤ s → s ≤ watermark_of (complete_all seqs) → mem s seqs ≡ true)
      × (mem (watermark_of (complete_all seqs) + 1) seqs ≡ false)
unfolding complete_all watermark_of
watermark-contiguous seqs =
    let (k, free) =
      complete_from-Covers (λ _. false) new seqs
        (
          record { positive = omega arith; exact = λ s. unfold mem in ground arith },
          unfold mem in refl,
        ) in
    let last : ℕ = (foldl complete new seqs).next in
    (
      λ s lo hi. ground (arith, k.exact s, k.positive),
      subst (λ (n : ℕ). mem n seqs ≡ false) {x = last} {y = last - 1 + 1}
          (omega (arith, k.positive)) (ground (arith, k.exact last, free)),
    )

-- A pool that never sees commit 1 keeps its watermark at 0, whatever it completes.
pub watermark_without_first :
    (seqs : List ℕ) → mem 1 seqs ≡ false → watermark_of (complete_all seqs) ≡ 0
watermark_without_first seqs none_first =
    elim (Bool-cases (leb 1 (watermark_of (complete_all seqs)))) [
      | inl moved ↦ cc (none_first, (watermark-contiguous seqs).0 1 (omega arith) (ground arith))
      | inr still ↦ ground arith
    ]
