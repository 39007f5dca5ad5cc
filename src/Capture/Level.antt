-- ===== src/Capture/Level.antt =====
-- Which samples `max_abs_sample` takes for sound.
use xiaozhi.Base.{
  ℕ, ◌≡◌, ◌≢◌, ◌<◌, ◌↔◌, ◌⊎◌, inl, inr, Bool, true, List, [], ◌∷◌, arith, ltb, Bool-cases,
}
use xiaozhi.Base.Int.{ℤ, pos, negsuc, lt_int, magnitude}
use xiaozhi.Capture.{abs_sample, peak_from, max_abs_sample}

-- The values of `int16_t`.
abbrev pub IsSample : ℤ → Type 0
IsSample (pos n) = n < 32768
IsSample (negsuc n) = n < 32768

abbrev pub AllSamples : List ℤ → Type 0
AllSamples [] = Unit
AllSamples (s ∷ pcm) = IsSample s × AllSamples pcm

-- A sample that is louder than `t`, and is not -32768.
pub data Loud (t : ℕ) : List ℤ → Type 0 where
  here : {s : ℤ} {pcm : List ℤ} → s ≢ negsuc 32767 → t < magnitude s → Loud t (s ∷ pcm)
  there : {s : ℤ} {pcm : List ℤ} → Loud t pcm → Loud t (s ∷ pcm)

abs-cases :
    (s : ℤ)
    → IsSample s
    → (((s ≡ negsuc 32767) × (abs_sample s ≡ negsuc 32767))
        ⊎ ((s ≢ negsuc 32767) × (abs_sample s ≡ pos (magnitude s))))
unfolding abs_sample
abs-cases (pos n) h = ground arith
abs-cases (negsuc n) h = ground arith

Loud-cons :
    (t : ℕ) (s : ℤ) (pcm : List ℤ)
    → Loud t (s ∷ pcm)
    → ((s ≢ negsuc 32767) × (t < magnitude s)) ⊎ Loud t pcm
Loud-cons t s pcm (here n l) = inl (n, l)
Loud-cons t s pcm (there l) = inr l

-- One round of the loop at a sample of full scale, which changes nothing.
full_scale :
    (t p : ℕ) (s : ℤ) (pcm : List ℤ) (b : Bool)
    → s ≡ negsuc 32767
    → (b ≡ true) ↔ ((t < p) ⊎ Loud t pcm)
    → (b ≡ true) ↔ ((t < p) ⊎ Loud t (s ∷ pcm))
full_scale t p s pcm b e ih = (
  λ x. elim (ih.0 x) [ inl y ↦ inl y | inr y ↦ inr (there y) ],
  λ x. elim x [
    | inl y ↦ ih.1 (inl y)
    | inr y ↦ elim (Loud-cons t s pcm y) [ inl z ↦ absurd (z.0 e) | inr z ↦ ih.1 (inr z) ]
  ],
)

-- One round at another sample: the peak is then the greater of the two.
other_sample :
    (t p q : ℕ) (s : ℤ) (pcm : List ℤ) (b : Bool)
    → s ≢ negsuc 32767
    → (t < q) ↔ ((t < p) ⊎ (t < magnitude s))
    → (b ≡ true) ↔ ((t < q) ⊎ Loud t pcm)
    → (b ≡ true) ↔ ((t < p) ⊎ Loud t (s ∷ pcm))
other_sample t p q s pcm b ne g ih = (
  λ x. elim (ih.0 x) [
    | inl y ↦ elim (g.0 y) [ inl z ↦ inl z | inr z ↦ inr (here ne z) ]
    | inr y ↦ inr (there y)
  ],
  λ x. elim x [
    | inl y ↦ ih.1 (inl (g.1 (inl y)))
    | inr y ↦ elim (Loud-cons t s pcm y) [
      | inl z ↦ ih.1 (inl (g.1 (inr z.1)))
      | inr z ↦ ih.1 (inr z)
    ]
  ],
)

louder :
    (t p : ℕ) (pcm : List ℤ)
    → AllSamples pcm
    → (lt_int (pos t) (peak_from (pos p) pcm) ≡ true) ↔ ((t < p) ⊎ Loud t pcm)
unfolding peak_from
louder t p [] h =
    (λ x. inl (ground arith), λ x. elim x [ inl y ↦ ground arith | inr y ↦ elim y [ ] ])
louder t p (s ∷ pcm) h = elim (abs-cases s h.0) [
  | inl (e, a) ↦
      rw a (full_scale t p s pcm (lt_int (pos t) (peak_from (pos p) pcm)) e (louder t p pcm h.1))
  | inr (ne, a) ↦ elim (Bool-cases (ltb p (magnitude s))) [
    | inl b ↦
        rw (a, b)
          (other_sample t p (magnitude s) s pcm (lt_int (pos t) (peak_from (pos (magnitude s)) pcm))
            ne (ground arith) (louder t (magnitude s) pcm h.1))
    | inr b ↦
        rw (a, b)
          (other_sample t p p s pcm (lt_int (pos t) (peak_from (pos p) pcm)) ne (ground arith)
            (louder t p pcm h.1))
  ]
]

-- Samples count as sound, with their peak above the threshold, just when one of them that is not
-- -32768 is louder than the threshold: the loudest negative sample wraps in `int16_t`, and counts as
-- silence. The samples are values of `int16_t`, and the threshold is not negative.
pub max_abs_sample_iff :
    (t : ℕ) (pcm : List ℤ)
    → AllSamples pcm
    → (lt_int (pos t) (max_abs_sample pcm) ≡ true) ↔ Loud t pcm
unfolding max_abs_sample
max_abs_sample_iff t pcm h =
    let l = louder t 0 pcm h in
    (λ x. elim (l.0 x) [ inl y ↦ absurd (omega arith) | inr y ↦ y ], λ x. l.1 (inr x))
